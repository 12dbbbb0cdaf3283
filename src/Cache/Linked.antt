-- ===== src/Cache/Linked.antt =====
-- A stretch of the doubly linked list as a list of cells, from the tail toward the head, and what
-- the assignments of mosec/cache.py do to it.
pub mod Assign
use mathlib.Core.Option
use mosec.Prelude.{
  ℕ, suc, ◌≤◌, ◌<◌, ◌≡◌, refl, Bool, Option, none, some, List, [], ◌∷◌, ◌++◌, arith, ◌⊎◌, inl, inr,
}
use mosec.Cache.{Ptr, Node, Heap, modify, modify_opt}

pub record Cell {ℓ} (K V : Type ℓ) : Type ℓ where
  pub ptr : Ptr
  pub key : K
  pub value : V
  pub visited : Bool

module _ {ℓ} {K V : Type ℓ} where
  -- The oldest cell of a stretch, and the newest, if it has any.
  abbrev pub start : List (Cell K V) → Option Ptr → Option Ptr
  start [] end = end
  start (x ∷ xs) end = some x.ptr

  abbrev pub finish : Option Ptr → List (Cell K V) → Option Ptr
  finish nxt [] = nxt
  finish nxt (x ∷ xs) = finish (some x.ptr) xs

  abbrev pub node_of : Cell K V → Option Ptr → Option Ptr → Node K V
  node_of x prev next = record {
    key = x.key;
    value = x.value;
    visited = x.visited;
    prev = prev;
    next = next;
  }

  -- Each cell is an object whose `prev` is the next newer cell and whose `next` the next older one.
  abbrev pub Linked : Heap K V → Option Ptr → List (Cell K V) → Option Ptr → Type ℓ
  Linked h nxt [] end = Unit
  Linked h nxt (x ∷ xs) end =
      (h x.ptr ≡ some (node_of x (start xs end) nxt)) × Linked h (some x.ptr) xs end

  -- The objects were created in the order of the cells, from `lo` on and before `hi`.
  abbrev pub Between : Ptr → List (Cell K V) → Ptr → Type 0
  Between lo [] hi = lo ≤ hi
  Between lo (x ∷ xs) hi = (lo ≤ x.ptr) × Between (suc x.ptr) xs hi

  pub Between-le : (lo hi : Ptr) (xs : List (Cell K V)) → Between lo xs hi → lo ≤ hi
  Between-le lo hi [] b = b
  Between-le lo hi (x ∷ xs) (l, b) = omega (arith, Between-le (suc x.ptr) hi xs b)

  pub Between-mono :
      (lo hi up : Ptr) (xs : List (Cell K V)) → hi ≤ up → Between lo xs hi → Between lo xs up
  Between-mono lo hi up [] h b = omega arith
  Between-mono lo hi up (x ∷ xs) h (l, b) = (l, Between-mono (suc x.ptr) hi up xs h b)

  pub Between-append :
      (lo mid hi : Ptr) (xs ys : List (Cell K V))
      → Between lo xs mid
      → Between mid ys hi
      → Between lo (xs ++ ys) hi
  Between-append lo mid hi [] [] b c = omega arith
  Between-append lo mid hi [] (y ∷ ys) b (l, c) = (omega arith, c)
  Between-append lo mid hi (x ∷ xs) ys (l, b) c = (l, Between-append (suc x.ptr) mid hi xs ys b c)

  -- A cell in the middle.
  pub Between-split :
      (lo hi : Ptr) (xs : List (Cell K V)) (y : Cell K V) (ys : List (Cell K V))
      → Between lo (xs ++ (y ∷ ys)) hi
      → Between lo xs y.ptr × Between (suc y.ptr) ys hi
  Between-split lo hi [] y ys (l, b) = (l, b)
  Between-split lo hi (x ∷ xs) y ys (l, b) =
      let (b1, b2) = Between-split (suc x.ptr) hi xs y ys b in ((l, b1), b2)

  pub start-append :
      (xs ys : List (Cell K V)) (end : Option Ptr) → start (xs ++ ys) end ≡ start xs (start ys end)
  start-append [] ys end = refl
  start-append (x ∷ xs) ys end = refl

  pub finish-append :
      (nxt : Option Ptr) (xs ys : List (Cell K V))
      → finish nxt (xs ++ ys) ≡ finish (finish nxt xs) ys
  finish-append nxt [] ys = refl
  finish-append nxt (x ∷ xs) ys = finish-append (some x.ptr) xs ys

  pub Linked-split :
      (h : Heap K V) (nxt end : Option Ptr) (xs ys : List (Cell K V))
      → Linked h nxt (xs ++ ys) end
      → Linked h nxt xs (start ys end) × Linked h (finish nxt xs) ys end
  Linked-split h nxt end [] ys l = (tt, l)
  Linked-split h nxt end (x ∷ xs) ys (e, l) =
      let (l1, l2) = Linked-split h (some x.ptr) end xs ys l in
      ((rw (← start-append xs ys end) e, l1), l2)

  pub Linked-append :
      (h : Heap K V) (nxt end : Option Ptr) (xs ys : List (Cell K V))
      → Linked h nxt xs (start ys end)
      → Linked h (finish nxt xs) ys end
      → Linked h nxt (xs ++ ys) end
  Linked-append h nxt end [] ys l m = m
  Linked-append h nxt end (x ∷ xs) ys (e, l) m =
      (rw start-append e, Linked-append h (some x.ptr) end xs ys l m)

  -- What happens at other objects does not matter.
  pub Linked-frame :
      (h g : Heap K V) (nxt end : Option Ptr) (lo hi : Ptr) (xs : List (Cell K V))
      → ((p : Ptr) → lo ≤ p → p < hi → g p ≡ h p)
      → Between lo xs hi
      → Linked h nxt xs end
      → Linked g nxt xs end
  Linked-frame h g nxt end lo hi [] same b l = tt
  Linked-frame h g nxt end lo hi (x ∷ xs) same (b0, b) (e, l) = (
    rw (same x.ptr b0 (Between-le (suc x.ptr) hi xs b)) e,
    Linked-frame h g (some x.ptr) end (suc x.ptr) hi xs (λ p low. same p (omega arith)) b l,
  )

  pub modify_ne :
      (h : Heap K V) (p q : Ptr) (f : Node K V → Node K V) → (q ≡ p → ⊥) → modify p f h q ≡ h q
  modify_ne h p q f n = ground arith

  pub modify_self :
      (h : Heap K V) (p : Ptr) (f : Node K V → Node K V) → modify p f h p ≡ Option.map f (h p)
  modify_self h p f = ground arith

  -- The newest cell of a stretch lies within its bounds.
  pub modify-finish :
      (h : Heap K V) (f : Node K V → Node K V) (lo hi p : Ptr) (xs : List (Cell K V))
      → Between lo xs hi
      → (p < lo) ⊎ (hi ≤ p)
      → modify_opt (finish none xs) f h p ≡ h p
  modify-finish h f lo hi p [] b out = refl
  modify-finish h f lo hi p (x ∷ []) b out = modify_ne h x.ptr p f (λ e. omega arith)
  modify-finish h f lo hi p (x ∷ y ∷ ys) b out =
      modify-finish h f (suc x.ptr) hi p (y ∷ ys) b.1 (ground arith)

  pub modify-start :
      (h : Heap K V) (f : Node K V → Node K V) (lo hi p : Ptr) (xs : List (Cell K V))
      → Between lo xs hi
      → (p < lo) ⊎ (hi ≤ p)
      → modify_opt (start xs none) f h p ≡ h p
  modify-start h f lo hi p [] b out = refl
  modify-start h f lo hi p (x ∷ xs) b out =
      modify_ne h x.ptr p f (λ e. omega (arith, Between-le (suc x.ptr) hi xs b.1))
