-- ===== src/Cache/Add.antt =====
-- The insertion of a new key by `put` of mosec/cache.py, `_push_head` included.
use mosec.Prelude.{
  ◌+◌, ◌<◌, ◌≡◌, refl, sym, ap, subst, ◌∙◌, false, none, some, List, [], ◌∷◌, ◌++◌, append-nil,
  append_assoc, arith, inr, if◌then◌else◌, ◌==◌,
}
use mosec.Prelude.Eq.{Eq}
use mosec.Prelude.Dict.{has, insert}
use mosec.Cache.{Ptr, Heap, SieveCache, modify, modify_opt, or_else, add}
use mosec.Cache.Spec
use mosec.Cache.Spec.{Queue, entries, find, touch, take_out, push}
use mosec.Cache.Linked.{
  Cell, start, node_of, Linked, Between-append, finish-append, Linked-append, Linked-frame,
  modify-finish,
}
use mosec.Cache.Linked.Assign.{Linked-finish}
use mosec.Cache.Keys.{index, insert-index, Unique-add}
use mosec.Cache.Represents.{Shape}
use mosec.Cache.Holds.{Represents}

module _ {ℓ} {K V : Type ℓ} ⦃eq : Eq K⦄ where
  -- The newest cell, in front of which a new object is put.
  module _ (c : SieveCache K V) (xs : List (Cell K V)) (k : K) (v : V) where
    abbrev pub new_cell : Cell K V
    new_cell = record { ptr = c.fresh; key = k; value = v; visited = false }

    created : Heap K V
    created q =
        if q == c.fresh
        then some (record { key = k; value = v; visited = false; prev = none; next = none })
        else c.nodes q

    linked_new : Heap K V
    unfolding created
    linked_new = modify c.fresh (λ n. record n { prev = none; next = c.head }) created

    linked_new_same : (p : Ptr) → p < c.fresh → linked_new p ≡ c.nodes p
    unfolding linked_new
    linked_new_same p h = ground arith

    linked_new_self : linked_new c.fresh ≡ some (node_of new_cell none c.head)
    unfolding linked_new
    linked_new_self = ground arith

    push_head-Linked :
        Shape c xs
        → Linked
            (modify_opt c.head (λ n. record n { prev = some c.fresh }) linked_new)
            none
            (xs ++ (new_cell ∷ []))
            none
    push_head-Linked s =
        let old : Linked linked_new none xs none =
          Linked-frame c.nodes linked_new none none 0 c.fresh xs (λ p l u. linked_new_same p u)
            s.between s.linked in
        subst
          (λ p.
            Linked (modify_opt p (λ n. record n { prev = some c.fresh }) linked_new) none
              (xs ++ (new_cell ∷ [])) none)
          (sym s.head)
          (Linked-append _ none none xs (new_cell ∷ [])
            (Linked-finish linked_new none none (some c.fresh) 0 c.fresh xs s.between old)
            (
              modify-finish linked_new _ 0 c.fresh c.fresh xs s.between (inr (omega arith))
                  ∙ rw linked_new_self (ap (λ p. some (node_of new_cell none p)) s.head),
              tt,
            ))

    tail_new :
        (ys : List (Cell K V))
        → or_else (start ys none) (some c.fresh) ≡ start (ys ++ (new_cell ∷ [])) none
    tail_new [] = refl
    tail_new (y ∷ ys) = refl

    push-entries : (q : Queue (Cell K V)) → entries (push q new_cell) ≡ entries q ++ (new_cell ∷ [])
    push-entries q = by_rest q.swept q.rest
      where
        by_rest :
            (ss rs : List (Cell K V))
            → entries (Spec.push_to ss rs new_cell) ≡ (ss ++ rs) ++ (new_cell ∷ [])
        by_rest ss [] = rw (append-nil, append-nil)
        by_rest ss (r ∷ rs) = sym (append_assoc ss (r ∷ rs) (new_cell ∷ []))

    push-start : (q : Queue (Cell K V)) → start (push q new_cell).rest none ≡ start q.rest none
    push-start q = by_rest q.rest
      where
        by_rest :
            (rs : List (Cell K V))
            → start (Spec.push_to q.swept rs new_cell).rest none ≡ start rs none
        by_rest [] = refl
        by_rest (r ∷ rs) = refl

  -- A new key becomes the newest entry, without a mark.
  pub add-Represents :
      (c : SieveCache K V) (q : Queue (Cell K V)) (k : K) (v : V)
      → Represents c q
      → has k (index (entries q)) ≡ false
      → Represents (add k v c) (push q (new_cell c (entries q) k v))
  unfolding add linked_new
  add-Represents c q k v r absent =
      let s = r.holds.shape in
      let xs = entries q in
      record {
        holds = rw push-entries (record {
          shape = record {
            linked = push_head-Linked c xs k v s;
            head = sym (finish-append none xs (new_cell c xs k v ∷ []));
            tail = ap (λ p. or_else p (some c.fresh)) s.tail ∙ tail_new c xs k v xs;
            between =
                Between-append 0 c.fresh (c.fresh + 1) xs (new_cell c xs k v ∷ []) s.between
                  (omega arith, omega arith);
          };
          map =
              ap (insert k c.fresh) r.holds.map
              ∙ insert-index k c.fresh xs (new_cell c xs k v) refl refl absent;
          unique = Unique-add xs (new_cell c xs k v) r.holds.unique absent;
        });
        hand = r.hand ∙ sym (push-start c xs k v q);
      }
