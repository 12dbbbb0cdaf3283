-- ===== src/Cache/Linked/Assign.antt =====
-- What the assignments of mosec/cache.py to a node do to a stretch of the list.
use mosec.Prelude.{
  suc, ◌≤◌, ◌<◌, ◌≡◌, ap, Option, none, some, List, [], ◌∷◌, ◌++◌, arith, ◌∙◌, ◌⊎◌, inl, inr,
}
use mosec.Cache.{Ptr, Node, Heap, modify, modify_opt}
use mosec.Cache.Linked.{
  Cell, start, finish, node_of, Linked, Between, Between-split, Linked-split, Linked-append,
  Linked-frame, modify_ne, modify_self, modify-finish,
}

module _ {ℓ} {K V : Type ℓ} where
  -- An assignment to a node before or behind the stretch.
  pub Linked-modify :
      (h : Heap K V) (p : Ptr) (f : Node K V → Node K V) (nxt end : Option Ptr) (lo hi : Ptr)
      (xs : List (Cell K V))
      → (p < lo) ⊎ (hi ≤ p)
      → Between lo xs hi
      → Linked h nxt xs end
      → Linked (modify p f h) nxt xs end
  Linked-modify h p f nxt end lo hi xs out =
      Linked-frame h (modify p f h) nxt end lo hi xs (λ q l u. modify_ne h p q f (λ e. omega arith))

  -- `next` of the oldest cell.
  pub Linked-start :
      (h : Heap K V) (nxt nxt' end : Option Ptr) (lo hi : Ptr) (xs : List (Cell K V))
      → Between lo xs hi
      → Linked h nxt xs end
      → Linked (modify_opt (start xs none) (λ n. record n { next = nxt' }) h) nxt' xs end
  Linked-start h nxt nxt' end lo hi [] b l = tt
  Linked-start h nxt nxt' end lo hi (x ∷ xs) (b0, b) (e, l) = (
    modify_self h x.ptr _ ∙ rw e,
    Linked-modify h x.ptr _ (some x.ptr) end (suc x.ptr) hi xs (inl (omega arith)) b l,
  )

  -- `prev` of the newest cell.
  pub Linked-finish :
      (h : Heap K V) (nxt end end' : Option Ptr) (lo hi : Ptr) (xs : List (Cell K V))
      → Between lo xs hi
      → Linked h nxt xs end
      → Linked (modify_opt (finish none xs) (λ n. record n { prev = end' }) h) nxt xs end'
  Linked-finish h nxt end end' lo hi [] b l = tt
  Linked-finish h nxt end end' lo hi (x ∷ []) b (e, l) = (modify_self h x.ptr _ ∙ rw e, tt)
  Linked-finish h nxt end end' lo hi (x ∷ y ∷ ys) (b0, b) (e, l) = (
    modify-finish h _ (suc x.ptr) hi x.ptr (y ∷ ys) b (inl (omega arith)) ∙ e,
    Linked-finish h (some x.ptr) end end' (suc x.ptr) hi (y ∷ ys) b l,
  )

  -- The other attributes of a cell in the middle.
  pub Linked-middle :
      (h : Heap K V) (f : Node K V → Node K V) (nxt end : Option Ptr) (lo hi : Ptr)
      (xs : List (Cell K V)) (x y : Cell K V) (ys : List (Cell K V))
      → x.ptr ≡ y.ptr
      → ((p n : Option Ptr) → f (node_of x p n) ≡ node_of y p n)
      → Between lo (xs ++ (x ∷ ys)) hi
      → Linked h nxt (xs ++ (x ∷ ys)) end
      → Linked (modify x.ptr f h) nxt (xs ++ (y ∷ ys)) end
  Linked-middle h f nxt end lo hi xs x y ys same change b l =
      let (before, (e, behind)) = Linked-split h nxt end xs (x ∷ ys) l in
      let (b1, b2) = Between-split lo hi xs x ys b in
      Linked-append (modify x.ptr f h) nxt end xs (y ∷ ys)
        (rw (← same)
          (Linked-modify h x.ptr f nxt (some x.ptr) lo x.ptr xs (inr (omega arith)) b1 before))
        (
          rw (← same) (modify_self h x.ptr f ∙ rw e (ap some (change _ _))),
          rw (← same) (
              Linked-modify h x.ptr f (some x.ptr) end (suc x.ptr) hi ys (inl (omega arith)) b2
                behind),
        )
