-- ===== src/DryRun/Probe.antt =====
-- The liveness probe in `warmup` of mosec/dry_run.py.
use mosec.Prelude.{
  ℕ, zero, suc, ◌≡◌, ◌≢◌, refl, ap, ◌∙◌, Bool, false, Option, none, some, List, [], ◌∷◌, inl, inr,
  get_elem?, if◌then◌else◌, Option-cases,
}
use mosec.Prelude.Int.{ℤ, pos}
use mosec.DryRun.{Process, Pool, probe_worker_liveness}
use mosec.DryRun.Runner.{
  polling, leaving, exits, DryRun, notify, output, poll_round, receive_answer, step_main,
}

module _ {D B : Type 0} where
  -- The probe finds a process that has ended, if there is one.
  probe-ended :
      (k i : ℕ) (ps : List (Process D B)) (p : Process D B) (code : ℤ)
      → get_elem? ps i ≡ some p
      → p.code ≡ some code
      → (f : ℕ × ℤ) × (probe_worker_liveness k ps ≡ some f)
  unfolding probe_worker_liveness
  probe-ended k i [] p code at e = cc
  probe-ended k zero (q ∷ ps) p code at e =
      ((k, code), rw (ap (λ r. r.code) (some_inj at) ∙ e) refl)
    where
      some_inj : {a b : Process D B} → some a ≡ some b → a ≡ b
      some_inj e = cc
  probe-ended k (suc i) (q ∷ ps) p code at e = elim (Option-cases q.code) [
    | inl runs ↦ let (f, h) = probe-ended (suc k) i ps p code at e in (f, rw runs h)
    | inr (c, gone) ↦ ((k, c), rw gone refl)
  ]

  -- No answer has been sent yet.
  abbrev pub NoAnswer : Pool D B → Type 0
  NoAnswer pool = (b : B) → output pool ≢ some (some b)

  poll_round-ended :
      (pool : Pool D B) (f : ℕ × ℤ)
      → pool.shutdown_notify ≡ false
      → NoAnswer pool
      → probe_worker_liveness 0 pool.processes ≡ some f
      → poll_round pool ≡ record { pool = notify pool; main = leaving }
  unfolding poll_round
  poll_round-ended pool f on n h =
      by_notify pool.shutdown_notify _ _ on
      ∙ by_output (output pool) refl (probe_worker_liveness 0 pool.processes) h
    where
      by_notify : (b : Bool) (x y : DryRun D B) → b ≡ false → (if b then x else y) ≡ y
      by_notify b x y e = rw e refl

      by_output :
          (o : Option (Option B))
          → output pool ≡ o
          → (r : Option (ℕ × ℤ)) → r ≡ some f
          → elim o as (λ x. DryRun D B) [
            | some (some answer) ↦ record { pool = pool; main = leaving }
            | _ ↦ elim r [
              | none ↦ record { pool = pool; main = polling }
              | some dead ↦ record { pool = notify pool; main = leaving }
            ]
          ]
            ≡ record { pool = notify pool; main = leaving }
      by_output none e r h = rw h refl
      by_output (some none) e r h = rw h refl
      by_output (some (some b)) e r h = absurd (n b e)

  -- If the answer of the last stage is not there when the main process looks, and a stage has ended by
  -- then, with whatever exit code, also the 0 of a stage that has sent its result on, the main process
  -- exits with the code 1.
  pub step_main-probe :
      (pool : Pool D B) (i : ℕ) (p : Process D B) (code : ℤ)
      → pool.shutdown_notify ≡ false
      → NoAnswer pool
      → get_elem? pool.processes i ≡ some p
      → p.code ≡ some code
      → (step_main (step_main (record { pool = pool; main = polling }))).main ≡ exits (pos 1)
  unfolding step_main receive_answer
  step_main-probe pool i p code on n at e =
      let (f, h) = probe-ended 0 i pool.processes p code at e in
      rw (poll_round-ended pool f on n h) refl
