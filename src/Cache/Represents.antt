-- ===== src/Cache/Represents.antt =====
-- When the objects of a `SieveCache` stand for a queue of cells, and that `_remove`, `_push_head` and
-- the other assignments keep it so.
use mosec.Prelude.{
  suc, ◌≡◌, refl, sym, ap, ◌∙◌, Bool, Option, none, some, List, [], ◌∷◌, ◌++◌, arith, inl, inr,
  if◌then◌else◌,
}
use mosec.Prelude.Dict.{Dict}
use mosec.Cache.{
  Ptr, Node, SieveCache, modify, modify_opt, is_at, unlink_prev, unlink_next, remove_node,
}
use mosec.Cache.Linked.{
  Cell, start, finish, node_of, Linked, Between, Between-mono, Between-append, Between-split,
  finish-append, Linked-split, Linked-append, Linked-frame, modify-finish, modify-start,
}
use mosec.Cache.Linked.Assign.{Linked-modify, Linked-start, Linked-finish, Linked-middle}

abbrev pick : Option Ptr → Option Ptr → Option Ptr → Option Ptr
pick none a b = a
pick (some p) a b = b

module _ {ℓ} {K V : Type ℓ} where
  -- The list from the tail to the head is `xs`. What `hand` and the map hold is not said.
  pub record Shape (c : SieveCache K V) (xs : List (Cell K V)) : Type ℓ where
    pub linked : Linked c.nodes none xs none
    pub head : c.head ≡ finish none xs
    pub tail : c.tail ≡ start xs none
    pub between : Between 0 xs c.fresh

  -- The same writes without the case split.
  unlinked : Node K V → SieveCache K V → SieveCache K V
  unlinked node c = record c {
    nodes =
        modify_opt node.next (λ n. record n { prev = node.prev })
          (modify_opt node.prev (λ n. record n { next = node.next }) c.nodes);
    head = pick node.prev node.next c.head;
    tail = pick node.next node.prev c.tail;
  }

  unlink_cases :
      (key : K) (value : V) (b : Bool) (prev next : Option Ptr) (c : SieveCache K V)
      → let node : Node K V = record {
        key = key;
        value = value;
        visited = b;
        prev = prev;
        next = next;
      } in
        unlink_next node (unlink_prev node c) ≡ unlinked node c
  unfolding unlink_next unlink_prev unlinked
  unlink_cases key value b none none c = refl
  unlink_cases key value b none (some n) c = refl
  unlink_cases key value b (some p) none c = refl
  unlink_cases key value b (some p) (some n) c = refl

  unlink_lem :
      (node : Node K V) (c : SieveCache K V)
      → unlink_next node (unlink_prev node c) ≡ unlinked node c
  unlink_lem node c = unlink_cases node.key node.value node.visited node.prev node.next c

  finish-some : (p : Ptr) (xs : List (Cell K V)) → (q : Ptr) × (finish (some p) xs ≡ some q)
  finish-some p [] = (p, refl)
  finish-some p (x ∷ xs) = finish-some x.ptr xs

  -- A stretch with the cell behind it taken out of the middle.
  module _ (c : SieveCache K V) (xs : List (Cell K V)) (y : Cell K V) (ys : List (Cell K V)) where
    abbrev pub victim : Node K V
    victim = node_of y (start ys none) (finish none xs)

    unlinked-Linked :
        Shape c (xs ++ (y ∷ ys))
        → Linked
            (modify y.ptr (λ n. record n { prev = none; next = none }) (unlinked victim c).nodes)
            none
            (xs ++ ys)
            none
    unfolding unlinked
    unlinked-Linked s =
        let (before, (e, behind)) = Linked-split c.nodes none none xs (y ∷ ys) s.linked in
        let (b1, b2) = Between-split 0 c.fresh xs y ys s.between in
        let h1 = modify_opt (start ys none) (λ n. record n { next = finish none xs }) c.nodes in
        let h2 = modify_opt (finish none xs) (λ n. record n { prev = start ys none }) h1 in
        let before1 : Linked h1 none xs (some y.ptr) =
          Linked-frame c.nodes h1 none (some y.ptr) 0 y.ptr xs
            (λ p l u. modify-start c.nodes _ (suc y.ptr) c.fresh p ys b2 (inl (omega arith))) b1
            before in
        let behind1 : Linked h1 (finish none xs) ys none =
          Linked-start c.nodes (some y.ptr) (finish none xs) none (suc y.ptr) c.fresh ys b2
            behind in
        let before2 : Linked h2 none xs (start ys none) =
          Linked-finish h1 none (some y.ptr) (start ys none) 0 y.ptr xs b1 before1 in
        let behind2 : Linked h2 (finish none xs) ys none =
          Linked-frame h1 h2 (finish none xs) none (suc y.ptr) c.fresh ys
            (λ p l u. modify-finish h1 _ 0 y.ptr p xs b1 (inr (omega arith))) b2 behind1 in
        Linked-append _ none none xs ys
          (Linked-modify h2 y.ptr _ none (start ys none) 0 y.ptr xs (inr (omega arith)) b1 before2)
          (Linked-modify h2 y.ptr _ (finish none xs) none (suc y.ptr) c.fresh ys (inl (omega arith))
            b2 behind2)

    unlinked-Between : Shape c (xs ++ (y ∷ ys)) → Between 0 (xs ++ ys) c.fresh
    unlinked-Between s =
        let (b1, b2) = Between-split 0 c.fresh xs y ys s.between in
        Between-append 0 (suc y.ptr) c.fresh xs ys
          (Between-mono 0 y.ptr (suc y.ptr) xs (omega arith) b1) b2

    unlinked-head : Shape c (xs ++ (y ∷ ys)) → (unlinked victim c).head ≡ finish none (xs ++ ys)
    unfolding unlinked
    unlinked-head s =
        pick_head ys (s.head ∙ finish-append none xs (y ∷ ys)) ∙ sym (finish-append none xs ys)
      where
        pick_head :
            (zs : List (Cell K V))
            → c.head ≡ finish (some y.ptr) zs
            → pick (start zs none) (finish none xs) c.head ≡ finish (finish none xs) zs
        pick_head [] e = refl
        pick_head (z ∷ zs) e = e

    unlinked-tail : Shape c (xs ++ (y ∷ ys)) → (unlinked victim c).tail ≡ start (xs ++ ys) none
    unfolding unlinked
    unlinked-tail s = pick_tail xs s.tail
      where
        pick_tail :
            (zs : List (Cell K V))
            → c.tail ≡ start (zs ++ (y ∷ ys)) none
            → pick (finish none zs) (start ys none) c.tail ≡ start (zs ++ ys) none
        pick_tail [] e = refl
        pick_tail (z ∷ zs) e = let (q, f) = finish-some z.ptr zs in rw f e

    -- `_remove` takes the cell out of the list.
    pub remove_node-Shape : Shape c (xs ++ (y ∷ ys)) → Shape (remove_node y.ptr victim c) (xs ++ ys)
    unfolding remove_node
    remove_node-Shape s = rw unlink_lem (record {
      linked = unlinked-Linked s;
      head = unlinked-head s;
      tail = unlinked-tail s;
      between = unfold unlinked in unlinked-Between s;
    })

  finish-change :
      (nxt : Option Ptr) (xs : List (Cell K V)) (x y : Cell K V) (ys : List (Cell K V))
      → x.ptr ≡ y.ptr
      → finish nxt (xs ++ (x ∷ ys)) ≡ finish nxt (xs ++ (y ∷ ys))
  finish-change nxt [] x y ys p = rw p
  finish-change nxt (z ∷ xs) x y ys p = finish-change (some z.ptr) xs x y ys p

  start-change :
      (xs : List (Cell K V)) (x y : Cell K V) (ys : List (Cell K V))
      → x.ptr ≡ y.ptr
      → start (xs ++ (x ∷ ys)) none ≡ start (xs ++ (y ∷ ys)) none
  start-change [] x y ys p = ap some p
  start-change (z ∷ xs) x y ys p = refl

  Between-change :
      (lo hi : Ptr) (xs : List (Cell K V)) (x y : Cell K V) (ys : List (Cell K V))
      → x.ptr ≡ y.ptr
      → Between lo (xs ++ (x ∷ ys)) hi
      → Between lo (xs ++ (y ∷ ys)) hi
  Between-change lo hi [] x y ys p (l, b) = (rw (← p) l, rw (← p) b)
  Between-change lo hi (z ∷ xs) x y ys p (l, b) = (l, Between-change (suc z.ptr) hi xs x y ys p b)

  -- An assignment to the value and the mark of a cell.
  pub Shape-change :
      (c : SieveCache K V) (f : Node K V → Node K V) (xs : List (Cell K V)) (x y : Cell K V)
      (ys : List (Cell K V))
      → x.ptr ≡ y.ptr
      → ((p n : Option Ptr) → f (node_of x p n) ≡ node_of y p n)
      → Shape c (xs ++ (x ∷ ys))
      → Shape (record c { nodes = modify x.ptr f c.nodes }) (xs ++ (y ∷ ys))
  Shape-change c f xs x y ys p change s = record {
    linked = Linked-middle c.nodes f none none 0 c.fresh xs x y ys p change s.between s.linked;
    head = s.head ∙ finish-change none xs x y ys p;
    tail = s.tail ∙ start-change xs x y ys p;
    between = Between-change 0 c.fresh xs x y ys p s.between;
  }

  pub map-remove_node :
      (p : Ptr) (node : Node K V) (c : SieveCache K V) → (remove_node p node c).map ≡ c.map
  unfolding remove_node unlinked
  map-remove_node p node c = rw unlink_lem

  pub hand-remove_node :
      (p : Ptr) (node : Node K V) (c : SieveCache K V)
      → (remove_node p node c).hand ≡ (if is_at c.hand p then node.prev else c.hand)
  unfolding remove_node unlinked
  hand-remove_node p node c = rw unlink_lem

  pub max_size-remove_node :
      (p : Ptr) (node : Node K V) (c : SieveCache K V)
      → (remove_node p node c).max_size ≡ c.max_size
  unfolding remove_node unlinked
  max_size-remove_node p node c = rw unlink_lem

  -- `_remove` neither reads nor writes the map.
  pub remove_node_map :
      (p : Ptr) (node : Node K V) (m : Dict K Ptr) (c : SieveCache K V)
      → remove_node p node (record c { map = m }) ≡ record (remove_node p node c) { map = m }
  unfolding remove_node unlinked
  remove_node_map p node m c = rw (unlink_lem, unlink_lem)
