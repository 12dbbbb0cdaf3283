-- ===== src/Cache/Lacks.antt =====
-- An eviction brings in no key.
use mosec.Prelude.{
  ◌≡◌, refl, ◌∙◌, false, Option, none, some, List, [], ◌∷◌, ◌++◌, arith, inl, inr, Bool-cases,
}
use mosec.Prelude.Eq.{Eq, ◌===◌}
use mosec.Prelude.Dict.{has}
use mosec.Cache.Spec
use mosec.Cache.Spec.{Queue, entries, ready, sweep, wrap, stop_at, find, touch, push}
use mosec.Cache.Linked.{Cell}
use mosec.Cache.Keys.{index}
use mosec.Cache.Locate.{has-append}
use mosec.Cache.Holds.{visited, clear}

module _ {ℓ} {K V : Type ℓ} ⦃eq : Eq K⦄ where
  -- No cell has the key.
  abbrev pub Lacks : K → List (Cell K V) → Type 0
  Lacks k xs = has k (index xs) ≡ false

  module _ (k : K) where
    Lacks-append : (xs ys : List (Cell K V)) → Lacks k xs → Lacks k ys → Lacks k (xs ++ ys)
    Lacks-append xs ys h g = has-append k xs ys h ∙ g

    Lacks-parts : (xs ys : List (Cell K V)) → Lacks k (xs ++ ys) → Lacks k xs × Lacks k ys
    unfolding has
    Lacks-parts [] ys h = (refl, h)
    Lacks-parts (x ∷ xs) ys h = ground (arith, Lacks-parts xs ys)

    abbrev StopLacks : Option (Cell K V × List (Cell K V)) → Type 0
    StopLacks none = Unit
    StopLacks (some (x, ys)) = Lacks k ys

    abbrev SweepLacks : List (Cell K V) × Option (Cell K V × List (Cell K V)) → Type 0
    SweepLacks (cleared, stop) = Lacks k cleared × StopLacks stop

    Lacks-cons :
        (x : Cell K V) (xs : List (Cell K V))
        → Lacks k (x ∷ xs)
        → ((x.key === k) ≡ false) × Lacks k xs
    unfolding has
    Lacks-cons x xs h = ground arith

    sweep-Lacks : (xs : List (Cell K V)) → Lacks k xs → SweepLacks (sweep visited clear xs)
    unfolding has
    sweep-Lacks [] h = (refl, tt)
    sweep-Lacks (x ∷ xs) h =
        let (ne, rest) = Lacks-cons x xs h in
        let (cleared, stop) = sweep-Lacks xs rest in
        elim (Bool-cases x.visited) [
          | inl e ↦ rw e (rw ne cleared, stop)
          | inr e ↦ rw e (refl, rest)
        ]

    abbrev pub LeftLacks : Option (Cell K V × Queue (Cell K V)) → Type 0
    LeftLacks none = Unit
    LeftLacks (some (x, q)) = Lacks k (entries q)

    wrap-Lacks :
        (r : List (Cell K V) × Option (Cell K V × List (Cell K V)))
        → SweepLacks r
        → LeftLacks (wrap visited clear r)
    wrap-Lacks (cleared, none) (h, g) = tt
    wrap-Lacks (cleared, some (x, ys)) (h, g) = Lacks-append cleared ys h g

    stop_at-Lacks :
        (pre : List (Cell K V)) (r : List (Cell K V) × Option (Cell K V × List (Cell K V)))
        → Lacks k pre
        → SweepLacks r
        → LeftLacks (stop_at visited clear pre r)
    stop_at-Lacks pre (cleared, none) p (h, g) =
        wrap-Lacks _ (sweep-Lacks (pre ++ cleared) (Lacks-append pre cleared p h))
    stop_at-Lacks pre (cleared, some (x, ys)) p (h, g) =
        Lacks-append (pre ++ cleared) ys (Lacks-append pre cleared p h) g

    -- An eviction brings in no key.
    pub evict-Lacks :
        (q : Queue (Cell K V)) → Lacks k (entries q) → LeftLacks (Spec.evict visited clear q)
    unfolding has
    evict-Lacks q h = by_rest q.swept q.rest (Lacks-parts q.swept q.rest h)
      where
        by_rest :
            (ss rs : List (Cell K V))
            → Lacks k ss × Lacks k rs
            → LeftLacks (Spec.evict visited clear (record { swept = ss; rest = rs }))
        by_rest ss [] (g, _) = stop_at-Lacks [] (sweep visited clear ss) refl (sweep-Lacks ss g)
        by_rest ss (r ∷ rs) (g, f) =
            stop_at-Lacks ss (sweep visited clear (r ∷ rs)) g (sweep-Lacks (r ∷ rs) f)
