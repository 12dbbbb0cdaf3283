-- ===== src/Runtime/Check/Fails.antt =====
-- When `PyRuntimeManager.check_and_start` of mosec/runtime.py reports a stage.
use mosec.Prelude.{
  ℕ, ◌≡◌, ◌↔◌, refl, ◌⊎◌, Bool, true, false, Option, none, some, List, [], ◌∷◌, map, inl, inr,
  Bool-cases,
}
use mosec.Prelude.Eq.{Eq}
use mosec.Runtime.{Host, Runtime, keep_healthy, all_there, any_there, check, check_and_start}
use mosec.Runtime.Check.{
  any_there-AllDown, AllDown-any_there, AllDown-all_there, all_there-nonempty, IsDown,
}

abbrev pub is_some {ℓ} : {A : Type ℓ} → Option A → Bool
is_some none = false
is_some (some a) = true

module _ {S : Type 0} ⦃eq : Eq S⦄ (empty : S) (running : ℕ → Bool) where
  abbrev pub HasDown : List (Runtime S) → Type 0
  HasDown [] = ⊥
  HasDown (r ∷ rs) = IsDown empty running r ⊎ HasDown rs

  check-fails-IsDown :
      (init : Bool) (r : Runtime S) (host : Host S)
      → (check empty running init r host).0 ≡ false
      → (init ≡ false) × IsDown empty running r
  unfolding check
  check-fails-IsDown init r host h =
      elim (Bool-cases (all_there (map (keep_healthy running) r.pool))) [
        | inl all_up ↦ cc (rw all_up at h)
        | inr missing ↦ elim (Bool-cases init) [
          | inl first ↦ cc (rw (missing, first) at h)
          | inr later ↦ elim (Bool-cases (any_there (map (keep_healthy running) r.pool))) [
            | inl up ↦ cc (rw (missing, later, up) at h)
            | inr down ↦ (
              later,
              (
                all_there-nonempty empty running r.pool missing,
                any_there-AllDown empty running r.pool down,
              ),
            )
          ]
        ]
      ]

  check-fails :
      (init : Bool) (r : Runtime S) (host : Host S)
      → ((check empty running init r host).0 ≡ false) ↔ ((init ≡ false) × IsDown empty running r)
  unfolding check
  check-fails init r host = (
    check-fails-IsDown init r host,
    λ h.
        rw
          (
            AllDown-all_there empty running r.pool h.1.0 h.1.1,
            h.0,
            AllDown-any_there empty running r.pool h.1.1,
          )
          refl,
  )

  -- `check_and_start` returns a stage exactly if, behind the first start, one of the stages has a pool
  -- without a running process.
  pub check_and_start-fails :
      (init : Bool) (rs : List (Runtime S)) (host : Host S)
      → (is_some (check_and_start empty running init rs host).0 ≡ true)
        ↔ ((init ≡ false) × HasDown rs)
  unfolding check_and_start
  check_and_start-fails init [] host = (λ h. cc, λ h. elim h.1 [ ])
  check_and_start-fails init (r ∷ rs) host =
      let here = check-fails init r host in
      let rest = check_and_start-fails init rs (check empty running init r host).2 in
      elim (Bool-cases (check empty running init r host).0) [
        | inr fails ↦
            rw (fails, check_and_start) (λ h. let (i, d) = here.0 fails in (i, inl d), λ h. refl)
        | inl fine ↦
            rw (fine, check_and_start)
              (
                λ h. let (i, d) = rest.0 h in (i, inr d),
                λ h. elim h.1 [ inl d ↦ cc (here.1 (h.0, d), fine) | inr d ↦ rest.1 (h.0, d) ],
              )
      ]
