-- ===== src/Cache/Access.antt =====
-- `get` and `remove` of mosec/cache.py against the queue.
use mathlib.Core.Option
use mosec.Prelude.{
  Option-cases, inl, inr, ◌≡◌, refl, sym, subst, ◌∙◌, true, Option, none, some, ◌∷◌, ◌++◌, arith,
  inl, inr,
}
use mosec.Prelude.Eq.{Eq}
use mosec.Prelude.Dict.{lookup, delete}
use mosec.Cache.{Ptr, Node, SieveCache, modify, remove_node, get, remove}
use mosec.Cache.Spec.{Queue, entries, find, touch, take_out}
use mosec.Cache.Linked.{Cell, start, node_of, modify_self}
use mosec.Cache.Locate.{has_key, Located}
use mosec.Cache.Locate.Cases.{Absent, locate}
use mosec.Cache.Represents.{
  max_size-remove_node, victim, map-remove_node, hand-remove_node, remove_node_map,
}
use mosec.Cache.Holds.{Holds, Represents, Holds-change, Holds-remove, nodes-at}

module _ {ℓ} {K V : Type ℓ} ⦃eq : Eq K⦄ where
  abbrev pub mark : Cell K V → Cell K V
  mark x = record x { visited = true }

  -- The value under a key.
  abbrev pub value_at : K → Queue (Cell K V) → Option V
  value_at k q = Option.map (λ x. x.value) (find (has_key k) (entries q))

  -- An assignment to the object under a key.
  pub touched-Represents :
      (c : SieveCache K V) (q : Queue (Cell K V)) (k : K) (f : Node K V → Node K V)
      (g : Cell K V → Cell K V)
      → ((x : Cell K V) → x.key ≡ (g x).key)
      → ((x : Cell K V) → (g x).ptr ≡ x.ptr)
      → ((x : Cell K V) (p n : Option Ptr) → f (node_of x p n) ≡ node_of (g x) p n)
      → (l : Located k q) → Represents c q
      → Represents (record c { nodes = modify l.cell.ptr f c.nodes }) (touch (has_key k) g q)
  touched-Represents c q k f g same_key same_ptr change l r = record {
    holds = rw l.touched (
        Holds-change c f l.before l.cell (g l.cell) l.behind (same_key l.cell)
          (sym (same_ptr l.cell)) (change l.cell) (rw l.split at r.holds));
    hand = r.hand ∙ sym (l.hand_touched g (same_ptr l.cell));
  }

  pub lookup-Located :
      (c : SieveCache K V) (q : Queue (Cell K V)) (k : K) (l : Located k q)
      → Represents c q
      → lookup k c.map ≡ some l.cell.ptr
  lookup-Located c q k l r = rw r.holds.map l.ptr

  pub lookup-Absent :
      (c : SieveCache K V) (q : Queue (Cell K V)) (k : K)
      → Absent k q
      → Represents c q
      → lookup k c.map ≡ none
  lookup-Absent c q k a r = rw r.holds.map a.no_ptr

  nodes-Located :
      (c : SieveCache K V) (q : Queue (Cell K V)) (k : K) (l : Located k q)
      → Represents c q
      → c.nodes l.cell.ptr ≡ some (victim c l.before l.cell l.behind)
  nodes-Located c q k l r = nodes-at c l.before l.cell l.behind (rw l.split at r.holds.shape)

  removed-hand :
      (c : SieveCache K V) (q : Queue (Cell K V)) (k : K) (l : Located k q)
      → Represents c q
      → (remove_node l.cell.ptr (victim c l.before l.cell l.behind) c).hand
        ≡ start (take_out (has_key k) q).rest none
  removed-hand c q k l r = elim l.hand_taken [
    | inl (e, apart) ↦ rw (hand-remove_node, r.hand, apart c.fresh r.holds.shape.between) (sym e)
    | inr (at, e) ↦ rw (hand-remove_node, r.hand, at, e) (ground arith)
  ]

  removed :
      (c : SieveCache K V) (q : Queue (Cell K V)) (k : K) (l : Located k q)
      → Represents c q
      → let d = record c { map = delete l.cell.key c.map } in
        Represents
          (remove_node l.cell.ptr (victim c l.before l.cell l.behind) d)
          (take_out (has_key k) q)
  removed c q k l r =
      let h : Holds c (l.before ++ (l.cell ∷ l.behind)) = rw l.split at r.holds in
      rw remove_node_map (record {
        holds = rw l.taken (
            subst
              (λ m.
                Holds
                  (record (remove_node l.cell.ptr (victim c l.before l.cell l.behind) c) {
                    map = delete l.cell.key m;
                  })
                  (l.before ++ l.behind))
              (map-remove_node l.cell.ptr (victim c l.before l.cell l.behind) c)
              (Holds-remove c l.before l.cell l.behind h));
        hand = removed-hand c q k l r;
      })

  -- For a cache that stands for a queue, `get` returns the value under the key, and marks its entry and
  -- nothing else; without the key it returns `None` and changes nothing.
  pub get-Represents :
      (c : SieveCache K V) (q : Queue (Cell K V)) (k : K)
      → Represents c q
      → ((get k c).0 ≡ value_at k q) × Represents (get k c).1 (touch (has_key k) mark q)
  unfolding get
  get-Represents c q k r = elim (locate k q) [
    | inl a ↦ (
      rw (lookup-Absent c q k a r, a.not_found, get),
      rw (lookup-Absent c q k a r, a.not_touched, get) r,
    )
    | inr l ↦ (
      rw (lookup-Located c q k l r, modify_self, nodes-Located c q k l r, l.found, get),
      rw (lookup-Located c q k l r, get)
          (touched-Represents c q k (λ n. record n { visited = true }) mark (λ x. refl) (λ x. refl)
            (λ x p n. refl) l r),
    )
  ]

  -- For a cache that stands for a queue, `remove` takes the entry out and returns its value; if the hand
  -- was at the entry, it moves to the next newer one. Without the key it returns `None` and changes
  -- nothing.
  pub remove-Represents :
      (c : SieveCache K V) (q : Queue (Cell K V)) (k : K)
      → Represents c q
      → ((remove k c).0 ≡ value_at k q) × Represents (remove k c).1 (take_out (has_key k) q)
  unfolding remove
  remove-Represents c q k r = elim (locate k q) [
    | inl a ↦ (
      rw (lookup-Absent c q k a r, a.not_found, remove),
      rw (lookup-Absent c q k a r, a.not_taken, remove) r,
    )
    | inr l ↦ (
      rw (lookup-Located c q k l r, nodes-Located c q k l r, l.found, remove),
      rw (lookup-Located c q k l r, nodes-Located c q k l r, remove)
          (subst
            (λ j.
              Represents
                (remove_node l.cell.ptr (victim c l.before l.cell l.behind)
                  (record c { map = delete j c.map }))
                (take_out (has_key k) q))
            l.key (removed c q k l r)),
    )
  ]

  pub max_size-get : (c : SieveCache K V) (k : K) → (get k c).1.max_size ≡ c.max_size
  unfolding get
  max_size-get c k = elim (Option-cases (lookup k c.map)) [
    | inl e ↦ rw (e, get) refl
    | inr (p, e) ↦ rw (e, get) refl
  ]

  pub max_size-remove : (c : SieveCache K V) (k : K) → (remove k c).1.max_size ≡ c.max_size
  unfolding remove
  max_size-remove c k = elim (Option-cases (lookup k c.map)) [
    | inl e ↦ rw (e, remove) refl
    | inr (p, e) ↦ elim (Option-cases (c.nodes p)) [
      | inl f ↦ rw (e, f, remove) refl
      | inr (n, f) ↦
          rw (e, f, remove) (max_size-remove_node p n (record c { map = delete k c.map }))
    ]
  ]
