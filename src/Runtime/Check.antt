-- ===== src/Runtime/Check.antt =====
-- What `Runtime._check` and `PyRuntimeManager.check_and_start` of mosec/runtime.py leave running.
pub mod Fails
use mosec.Prelude.{
  ℕ, suc, ◌+◌, ◌≡◌, ◌≢◌, refl, Bool, true, false, Option, none, some, List, [], ◌∷◌, map,
  if◌then◌else◌, inl, inr, Bool-cases,
}
use mosec.Prelude.Eq.{Eq}
use mosec.Prelude.Dict.{Dict}
use mosec.Runtime.{
  Process, Host, Runtime, process_healthy, keep_healthy, all_there, any_there, start_process,
  start_missing, check,
}

module _ {S : Type 0} ⦃eq : Eq S⦄ (empty : S) (running : ℕ → Bool) where
  -- Each running process has stayed in its place, and every other place has a process that was
  -- started for the worker with its number.
  pub data Refilled : ℕ → List (Option (Process S)) → List (Option (Process S)) → Type 0 where
    done : {i : ℕ} → Refilled i [] []
    kept :
        {i : ℕ} {p : Process S} {ps qs : List (Option (Process S))}
        → running p.handle ≡ true
        → Refilled (suc i) ps qs
        → Refilled i (some p ∷ ps) (some p ∷ qs)
    started :
        {i : ℕ} {o : Option (Process S)} {q : Process S} {ps qs : List (Option (Process S))}
        → process_healthy running o ≡ false
        → q.worker_id ≡ i + 1
        → Refilled (suc i) ps qs
        → Refilled i (o ∷ ps) (some q ∷ qs)

  -- No process of the pool is running.
  abbrev pub AllDown : List (Option (Process S)) → Type 0
  AllDown [] = Unit
  AllDown (o ∷ os) = (process_healthy running o ≡ false) × AllDown os

  start_missing-Refilled :
      (env : Option (List (Dict S S))) (i : ℕ) (ps : List (Option (Process S))) (host : Host S)
      → Refilled i ps (start_missing empty env i (map (keep_healthy running) ps) host).0
  unfolding start_missing start_process keep_healthy process_healthy
  start_missing-Refilled env i [] host = done
  start_missing-Refilled env i (none ∷ ps) host =
      started refl refl (start_missing-Refilled env (suc i) ps (start_process empty env i host).1)
  start_missing-Refilled env i (some p ∷ ps) host = elim (Bool-cases (running p.handle)) [
    | inl up ↦ rw (up, start_missing) (kept up (start_missing-Refilled env (suc i) ps host))
    | inr down ↦
        rw (down, start_missing)
          (started down refl
            (start_missing-Refilled env (suc i) ps (start_process empty env i host).1))
  ]

  all_there-Refilled :
      (i : ℕ) (ps : List (Option (Process S)))
      → all_there (map (keep_healthy running) ps) ≡ true
      → Refilled i ps (map (keep_healthy running) ps)
  unfolding all_there keep_healthy process_healthy
  all_there-Refilled i [] h = done
  all_there-Refilled i (none ∷ ps) h = cc
  all_there-Refilled i (some p ∷ ps) h = elim (Bool-cases (running p.handle)) [
    | inl up ↦ rw up (kept up (all_there-Refilled (suc i) ps (rw (up, all_there) at h)))
    | inr down ↦ cc (rw (down, all_there) at h)
  ]

  any_there-AllDown :
      (ps : List (Option (Process S)))
      → any_there (map (keep_healthy running) ps) ≡ false
      → AllDown ps
  unfolding any_there keep_healthy process_healthy
  any_there-AllDown [] h = tt
  any_there-AllDown (none ∷ ps) h = (refl, any_there-AllDown ps h)
  any_there-AllDown (some p ∷ ps) h = elim (Bool-cases (running p.handle)) [
    | inl up ↦ cc (rw (up, any_there) at h)
    | inr down ↦ (down, any_there-AllDown ps (rw (down, any_there) at h))
  ]

  AllDown-any_there :
      (ps : List (Option (Process S)))
      → AllDown ps
      → any_there (map (keep_healthy running) ps) ≡ false
  unfolding any_there keep_healthy process_healthy
  AllDown-any_there [] d = refl
  AllDown-any_there (none ∷ ps) (h, d) = AllDown-any_there ps d
  AllDown-any_there (some p ∷ ps) (h, d) = rw (h, any_there) (AllDown-any_there ps d)

  AllDown-all_there :
      (ps : List (Option (Process S)))
      → ps ≢ []
      → AllDown ps
      → all_there (map (keep_healthy running) ps) ≡ false
  unfolding all_there keep_healthy process_healthy
  AllDown-all_there [] n d = absurd (n refl)
  AllDown-all_there (none ∷ ps) n (h, d) = refl
  AllDown-all_there (some p ∷ ps) n (h, d) = rw (h, all_there) refl

  all_there-nonempty :
      (ps : List (Option (Process S))) → all_there (map (keep_healthy running) ps) ≡ false → ps ≢ []
  unfolding all_there
  all_there-nonempty [] h = cc
  all_there-nonempty (p ∷ ps) h = λ e. cc

  -- A stage with a pool, none of whose processes is running.
  abbrev pub IsDown : Runtime S → Type 0
  IsDown r = (r.pool ≢ []) × AllDown r.pool

  -- The two outcomes of a check; nothing but the pool is changed.
  pub data Checked (init : Bool) (r : Runtime S) (host : Host S)
      : Bool × Runtime S × Host S → Type 0 where
    healthy :
        {s : Runtime S} {after : Host S}
        → ((init ≡ false) × IsDown r → ⊥)
        → Refilled 0 r.pool s.pool
        → s ≡ record r { pool = s.pool }
        → Checked init r host (true, s, after)
    failing :
        init ≡ false
        → IsDown r
        → Checked init r host (false, record r { pool = map (keep_healthy running) r.pool }, host)

  -- A check that reports a healthy stage has left a process in every place: those that are running
  -- are kept, and the others are started anew with the number of their place. It reports failure
  -- exactly if, behind the first start, the stage has a pool without a running process, and starts
  -- none then.
  pub check-Checked :
      (init : Bool) (r : Runtime S) (host : Host S)
      → Checked init r host (check empty running init r host)
  unfolding check
  check-Checked init r host = elim (Bool-cases (all_there (map (keep_healthy running) r.pool))) [
    | inl all_up ↦ rw all_up (
        healthy (λ d. cc (AllDown-all_there r.pool d.1.0 d.1.1, all_up))
          (all_there-Refilled 0 r.pool all_up) refl)
    | inr missing ↦ elim (Bool-cases init) [
      | inl first ↦
          rw (missing, first)
            (healthy (λ d. cc d.0) (start_missing-Refilled r.env 0 r.pool host) refl)
      | inr later ↦ elim (Bool-cases (any_there (map (keep_healthy running) r.pool))) [
        | inl some_up ↦
            rw (missing, later, some_up)
              (healthy (λ d. cc (AllDown-any_there r.pool d.1.1, some_up))
                (start_missing-Refilled r.env 0 r.pool host) refl)
        | inr down ↦
            rw (missing, later, down)
              (failing refl (all_there-nonempty r.pool missing, any_there-AllDown r.pool down))
      ]
    ]
  ]

  -- Stage by stage: refilled, up to the first that has a pool without a running process, if this is
  -- not the first start; the stages behind that one are not touched.
  pub data Started (init : Bool)
      : List (Runtime S) → Option (Runtime S) × List (Runtime S) × Host S → Type 0 where
    finished : {host : Host S} → Started init [] (none, [], host)
    refilled :
        {r s : Runtime S} {rs ss : List (Runtime S)} {failed : Option (Runtime S)} {host : Host S}
        → ((init ≡ false) × IsDown r → ⊥)
        → Refilled 0 r.pool s.pool
        → s ≡ record r { pool = s.pool }
        → Started init rs (failed, ss, host)
        → Started init (r ∷ rs) (failed, s ∷ ss, host)
    stopped :
        {r : Runtime S} {rs : List (Runtime S)} {host : Host S}
        → init ≡ false
        → IsDown r
        → Started init (r ∷ rs) (
          some (record r { pool = map (keep_healthy running) r.pool }),
          record r { pool = map (keep_healthy running) r.pool } ∷ rs,
          host,
        )

  join :
      Bool × Runtime S × Host S
      → List (Runtime S)
      → Option (Runtime S) × List (Runtime S) × Host S
      → Option (Runtime S) × List (Runtime S) × Host S
  join (fine, s, after) rs (failed, ss, last) =
      if fine then (failed, s ∷ ss, last) else (some s, s ∷ rs, after)
