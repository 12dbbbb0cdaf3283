-- ===== src/Cache/Items.antt =====
-- `items` of mosec/cache.py: the walk from the head to the tail.
use mathlib.Core.Option
use mosec.Prelude.{
  ℕ, suc, ◌+◌, ◌≡◌, refl, ap, ◌∙◌, Option, none, some, List, [], ◌∷◌, arith, length, length-map,
  Option-cases, inl, inr,
}
use mosec.Prelude.Eq.{Eq}
use mosec.Cache.{Ptr, Heap, SieveCache, items, items_from}
use mosec.Cache.Spec.{Queue, entries}
use mosec.Cache.Linked.{Cell, finish, Linked}
use mosec.Cache.Holds.{Represents}

module _ {ℓ} {K V : Type ℓ} ⦃eq : Eq K⦄ where
  -- The keys and values in front of others, the newest first.
  abbrev pub newest_first : List (Cell K V) → List (K × V) → List (K × V)
  newest_first [] rest = rest
  newest_first (x ∷ xs) rest = newest_first xs ((x.key, x.value) ∷ rest)

  -- Fuel for the cells, and `f` more.
  abbrev steps : List (Cell K V) → ℕ → ℕ
  steps [] f = f
  steps (x ∷ xs) f = steps xs (suc f)

  steps-length : (xs : List (Cell K V)) (f : ℕ) → steps xs f ≡ length xs + f
  steps-length [] f = omega arith
  steps-length (x ∷ xs) f = omega (arith, steps-length xs (suc f))

  items_from-Linked :
      (h : Heap K V) (nxt : Option Ptr) (f : ℕ) (xs : List (Cell K V))
      → Linked h nxt xs none
      → items_from (steps xs f) (finish nxt xs) h
        ≡ Option.map (newest_first xs) (items_from f nxt h)
  unfolding items_from
  items_from-Linked h nxt f [] l = elim (Option-cases (items_from f nxt h)) [
    | inl e ↦ rw e refl
    | inr (r, e) ↦ rw e refl
  ]
  items_from-Linked h nxt f (x ∷ xs) (e, l) =
      items_from-Linked h (some x.ptr) (suc f) xs l ∙ elim (Option-cases (items_from f nxt h)) [
        | inl g ↦ rw (items_from, e, g) refl
        | inr (r, g) ↦ rw (items_from, e, g) refl
      ]

  -- For a cache that stands for a queue, `items` ends, and lists its entries, the newest first.
  pub items-Represents :
      (c : SieveCache K V) (q : Queue (Cell K V))
      → Represents c q
      → items c ≡ some (newest_first (entries q) [])
  unfolding items items_from
  items-Represents c q r =
      let s = r.holds.shape in
      let size : length c.map ≡ steps (entries q) 0 =
        ap length r.holds.map
        ∙ length-map (entries q) _
        ∙ omega (arith, steps-length (entries q) 0) in
      rw (size, s.head) (items_from-Linked c.nodes none 0 (entries q) s.linked)
