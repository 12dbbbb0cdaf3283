-- ===== src/DryRun/Answer.antt =====
-- What the pipes of a dry run of mosec/dry_run.py hold.
pub mod Received
use mosec.Prelude.{
  ℕ, zero, suc, ◌+◌, ◌-◌, ◌≡◌, ◌≢◌, refl, sym, ap, ◌∙◌, subst, Bool, true, false, Option, none,
  some, List, [], ◌∷◌, ◌⊎◌, inl, inr, length, length-set, get_elem?, set, ◌==◌, if◌then◌else◌,
  arith, Bool-cases, Option-cases,
}
use mosec.Prelude.Int.{ℤ, pos}
use mosec.Errors.{
  Text, Raised, Result, ok, raised, diverged, failed, index_error, is_exception, Result-cases,
  ◌>>=◌,
}
use mosec.DryRun.{
  probe_worker_liveness, wait_all, collect_metrics, Stage, Process, Pool, new_pool, run_forward,
  handle, ended, settle, is_ok, dry_run_func, step_process,
}
use mosec.DryRun.Runner.{
  Main, polling, leaving, warm, joining, passed, exits, DryRun, Action, turn, proceed, terminate,
  notify, output, poll_round, receive_answer, join_all, step_main, perform, perform_all, start,
}
use mosec.DryRun.Wiring.{
  IsWired, AllWired, AllWired-get_elem?, AllWired-set, IsFresh, new_pool-IsFresh,
}

get_elem?-set :
    {A : Type 0} (xs : List A) (i : ℕ) (v : A) (k : ℕ) (w : A)
    → get_elem? (set xs i v) k ≡ some w
    → ((k ≡ i) × (w ≡ v)) ⊎ (get_elem? xs k ≡ some w)
get_elem?-set [] i v k w h = cc
get_elem?-set (x ∷ xs) zero v zero w h = inl (refl, cc)
get_elem?-set (x ∷ xs) zero v (suc k) w h = inr h
get_elem?-set (x ∷ xs) (suc i) v zero w h = inr h
get_elem?-set (x ∷ xs) (suc i) v (suc k) w h = elim (get_elem?-set xs i v k w h) [
  | inl (e, f) ↦ inl (ap suc e, f)
  | inr m ↦ inr m
]

module _ {D B : Type 0} (pickle : D → B) (unpickle : B → Result D) (stages : List (Stage D B))
    (example : D) where
  -- The bytes behind the first `k` stages, each applied to what the one before it has sent.
  unfoldable pub sent : ℕ → Result B
  sent zero = ok (pickle example)
  sent (suc k) = do
    bytes ← sent k
    elim (get_elem? stages k) [
      | none ↦ raised (failed index_error)
      | some stage ↦ handle unpickle stage (k == 0) bytes
    ]

  -- Each pipe has what the stages before it make of the example, if it has anything.
  record Holds (pool : Pool D B) : Type 0 where
    wired : AllWired stages 0 pool.processes
    pipes : (k : ℕ) (b : B) → get_elem? pool.pipes k ≡ some (some b) → sent k ≡ ok b
    size : length pool.pipes ≡ suc (length stages)

  with_pipe :
      (pool : Pool D B) (i : ℕ) (v : Option B)
      → Holds pool
      → ((b : B) → v ≡ some b → sent i ≡ ok b)
      → Holds (record pool { pipes = set pool.pipes i v })
  with_pipe pool i v h new = record {
    wired = h.wired;
    pipes = λ k b e. elim (get_elem?-set pool.pipes i v k (some b) e) [
      | inl (at, f) ↦ subst (λ j. sent j ≡ ok b) (sym at) (new b (sym f))
      | inr old ↦ h.pipes k b old
    ];
    size = length-set pool.pipes i v ∙ h.size;
  }

  with_ended :
      (pool : Pool D B) (i : ℕ) (p : Process D B) (reported : Bool) (code : ℕ) (quit : Bool)
      → Holds pool
      → get_elem? pool.processes i ≡ some p
      → Holds (record pool {
        processes = set pool.processes i (ended p reported code);
        shutdown_notify = quit;
      })
  with_ended pool i p reported code quit h at = record {
    wired = AllWired-set stages 0 i pool.processes p reported code h.wired at;
    pipes = h.pipes;
    size = h.size;
  }

  settle-Holds :
      (i : ℕ) (p : Process D B) (reported : Bool) (r : Result B) (pool : Pool D B)
      → Holds pool
      → get_elem? pool.processes i ≡ some p
      → ((b : B) → r ≡ ok b → sent p.sender ≡ ok b)
      → Holds (settle i p reported r pool)
  unfolding settle
  settle-Holds i p reported (ok answer) pool h at new =
      with_pipe (record pool { processes = set pool.processes i (ended p reported 0) }) p.sender
        (some answer) (with_ended pool i p reported 0 pool.shutdown_notify h at)
        (λ b e. new b (ap ok (some_inj e)))
    where
      some_inj : {a b : B} → some a ≡ some b → a ≡ b
      some_inj e = cc
  settle-Holds i p reported (raised e) pool h at new = elim (Bool-cases (is_exception e)) [
    | inl caught ↦ rw caught (with_ended pool i p reported 0 true h at)
    | inr passes ↦ rw passes (with_ended pool i p reported 1 pool.shutdown_notify h at)
  ]
  settle-Holds i p reported diverged pool h at new = h

  -- What a wired process makes of what it has received.
  sent-next :
      (i : ℕ) (p : Process D B) (b answer : B)
      → IsWired stages i p
      → sent p.receiver ≡ ok b
      → handle unpickle p.stage p.ingress b ≡ ok answer
      → sent p.sender ≡ ok answer
  unfolding sent
  sent-next i p b answer w h e =
      let from : sent i ≡ ok b = subst (λ k. sent k ≡ ok b) w.receiver h in
      let by : handle unpickle p.stage (i == 0) b ≡ ok answer =
        subst (λ f. handle unpickle p.stage f b ≡ ok answer) w.ingress e in
      subst (λ k. sent k ≡ ok answer) (sym w.sender) (rw (from, w.stage) by)

  if-Holds : (b : Bool) (x y : Pool D B) → Holds x → Holds y → Holds (if b then x else y)
  if-Holds true x y h g = h
  if-Holds false x y h g = g

  receive-Holds :
      (i : ℕ) (p : Process D B) (pool : Pool D B)
      → Holds pool
      → get_elem? pool.processes i ≡ some p
      → IsWired stages i p
      → (o : Option (Option B)) → get_elem? pool.pipes p.receiver ≡ o
      → Holds (elim o [
        | some (some bytes) ↦
            settle i p
              (is_ok (run_forward unpickle p.stage p.ingress bytes))
              (handle unpickle p.stage p.ingress bytes)
              (record pool { pipes = set pool.pipes p.receiver none })
        | _ ↦ pool
      ])
  receive-Holds i p pool h at w none e = h
  receive-Holds i p pool h at w (some none) e = h
  receive-Holds i p pool h at w (some (some bytes)) e =
      settle-Holds i p (is_ok (run_forward unpickle p.stage p.ingress bytes))
        (handle unpickle p.stage p.ingress bytes)
        (record pool { pipes = set pool.pipes p.receiver none })
        (with_pipe pool p.receiver none h (λ b f. cc)) at
        (λ b f. sent-next i p bytes b w (h.pipes p.receiver bytes e) f)

  dry_run_func-Holds :
      (i : ℕ) (p : Process D B) (pool : Pool D B)
      → Holds pool
      → get_elem? pool.processes i ≡ some p
      → Holds (dry_run_func unpickle i p pool)
  unfolding dry_run_func
  dry_run_func-Holds i p pool h at =
      if-Holds pool.shutdown_notify _ _ (with_ended pool i p false 0 pool.shutdown_notify h at) (
        receive-Holds i p pool h at
          (subst (λ k. IsWired stages k p) (omega arith)
            (AllWired-get_elem? stages 0 i pool.processes p h.wired at))
          (get_elem? pool.pipes p.receiver) refl)

  step_process-Holds : (i : ℕ) (pool : Pool D B) → Holds pool → Holds (step_process unpickle i pool)
  unfolding step_process
  step_process-Holds i pool h = by_process (get_elem? pool.processes i) refl
    where
      by_code :
          (p : Process D B) (code : Option ℤ)
          → get_elem? pool.processes i ≡ some p
          → Holds (elim code [ none ↦ dry_run_func unpickle i p pool | some c ↦ pool ])
      by_code p none at = dry_run_func-Holds i p pool h at
      by_code p (some c) at = h

      by_process :
          (o : Option (Process D B))
          → get_elem? pool.processes i ≡ o
          → Holds (elim o [
            | none ↦ pool
            | some p ↦ elim p.code [ none ↦ dry_run_func unpickle i p pool | some code ↦ pool ]
          ])
      by_process none at = h
      by_process (some p) at = by_code p p.code at
