-- ===== src/DryRun/Answer/Received.antt =====
-- What the main process of a dry run of mosec/dry_run.py receives.
use mosec.Prelude.{
  ℕ, suc, ◌-◌, ◌≡◌, ◌≢◌, refl, ap, ◌∙◌, subst, Bool, true, false, Option, none, some, List, [], ◌∷◌,
  length, set, if◌then◌else◌, arith,
}
use mosec.Prelude.Int.{ℤ, pos}
use mosec.Errors.{Text, Result, ok}
use mosec.DryRun.{probe_worker_liveness, wait_all, collect_metrics, Stage, Pool, new_pool}
use mosec.DryRun.Runner.{
  Main, polling, leaving, warm, joining, passed, exits, DryRun, Action, turn, proceed, terminate,
  notify, output, poll_round, receive_answer, join_all, step_main, perform, perform_all, start,
}
use mosec.DryRun.Wiring.{new_pool-IsFresh}
use mosec.DryRun.Answer.{sent, Holds, with_pipe, step_process-Holds}

module _ {D B : Type 0} (pickle : D → B) (unpickle : B → Result D) (stages : List (Stage D B))
    (example : D) where
  abbrev PoolHolds : Pool D B → Type 0
  PoolHolds = Holds pickle unpickle stages example

  abbrev pub answered : ℕ → Result B
  answered = sent pickle unpickle stages example

  -- What holds of a dry run: the answer that the main process has received is the one behind the last
  -- stage.
  record Kept (s : DryRun D B) : Type 0 where
    holds : PoolHolds s.pool
    answer :
        (b : B) (metrics : List Text)
        → s.main ≡ warm (some (b, metrics))
        → answered (length stages) ≡ ok b

  notified :
      (pool : Pool D B) (quit : Bool)
      → PoolHolds pool
      → PoolHolds (record pool { shutdown_notify = quit })
  notified pool quit h = record { wired = h.wired; pipes = h.pipes; size = h.size }

  if-Kept : (b : Bool) (x y : DryRun D B) → Kept x → Kept y → Kept (if b then x else y)
  if-Kept true x y h g = h
  if-Kept false x y h g = g

  no_answer :
      (pool : Pool D B) (m : Main B)
      → PoolHolds pool
      → ((r : B × List Text) → m ≢ warm (some r))
      → Kept (record { pool = pool; main = m })
  no_answer pool m h n = record { holds = h; answer = λ b ms e. absurd (n (b, ms) e) }

  poll_round-Kept : (pool : Pool D B) → PoolHolds pool → Kept (poll_round pool)
  unfolding poll_round
  poll_round-Kept pool h =
      if-Kept pool.shutdown_notify _ _ (no_answer pool leaving h (λ r e. cc))
        (by_output (output pool))
    where
      by_probe :
          (o : Option (ℕ × ℤ))
          → Kept (elim o [
            | none ↦ record { pool = pool; main = polling }
            | some dead ↦ record { pool = notify pool; main = leaving }
          ])
      by_probe none = no_answer pool polling h (λ r e. cc)
      by_probe (some f) = no_answer (notify pool) leaving (notified pool true h) (λ r e. cc)

      by_output :
          (o : Option (Option B))
          → Kept (elim o [
            | some (some answer) ↦ record { pool = pool; main = leaving }
            | _ ↦ elim (probe_worker_liveness 0 pool.processes) [
              | none ↦ record { pool = pool; main = polling }
              | some dead ↦ record { pool = notify pool; main = leaving }
            ]
          ])
      by_output none = by_probe (probe_worker_liveness 0 pool.processes)
      by_output (some none) = by_probe (probe_worker_liveness 0 pool.processes)
      by_output (some (some answer)) = no_answer pool leaving h (λ r e. cc)

  receive_answer-Kept : (pool : Pool D B) → PoolHolds pool → Kept (receive_answer pool)
  unfolding receive_answer
  receive_answer-Kept pool h =
      if-Kept pool.shutdown_notify _ _ (no_answer pool (exits (pos 1)) h (λ r e. cc))
        (by_output (output pool) refl)
    where
      warm_inj : {a b : B} {ms ns : List Text} → warm (some (a, ms)) ≡ warm (some (b, ns)) → a ≡ b
      warm_inj e = cc

      by_output :
          (o : Option (Option B))
          → output pool ≡ o
          → Kept (elim o [
            | some (some answer) ↦ record {
              pool = record pool { pipes = set pool.pipes (length pool.pipes - 1) none };
              main = warm (some (answer, collect_metrics pool.processes));
            }
            | _ ↦ record { pool = pool; main = leaving }
          ])
      by_output none e = no_answer pool leaving h (λ r e. cc)
      by_output (some none) e = no_answer pool leaving h (λ r e. cc)
      by_output (some (some answer)) e = record {
        holds =
            with_pipe pickle unpickle stages example pool (length pool.pipes - 1) none h
              (λ b f. cc);
        answer = λ b ms f.
            subst (λ c. answered (length stages) ≡ ok c) (warm_inj f)
              (subst (λ k. answered k ≡ ok answer) (omega (arith, h.size))
                (h.pipes (length pool.pipes - 1) answer e));
      }

  join_all-Kept : (pool : Pool D B) → PoolHolds pool → Kept (join_all pool)
  unfolding join_all
  join_all-Kept pool h = by_waiting (wait_all 0 pool.processes)
    where
      by_waiting :
          (o : Option (Option (ℕ × ℤ)))
          → Kept (elim o [
            | none ↦ record { pool = pool; main = joining }
            | some none ↦ record { pool = record pool { shutdown_notify = false }; main = passed }
            | some (some (i, code)) ↦ record { pool = pool; main = exits code }
          ])
      by_waiting none = no_answer pool joining h (λ r e. cc)
      by_waiting (some none) =
          no_answer (record pool { shutdown_notify = false }) passed (notified pool false h)
            (λ r e. cc)
      by_waiting (some (some (i, code))) = no_answer pool (exits code) h (λ r e. cc)

  step_main-Kept : (s : DryRun D B) → Kept s → Kept (step_main s)
  unfolding step_main
  step_main-Kept s k = by_main s.main refl
    where
      by_main :
          (m : Main B)
          → s.main ≡ m
          → Kept (elim m [
            | polling ↦ poll_round s.pool
            | leaving ↦ receive_answer s.pool
            | warm answer ↦ record { pool = notify s.pool; main = joining }
            | joining ↦ join_all s.pool
            | passed ↦ s
            | exits code ↦ s
          ])
      by_main polling e = poll_round-Kept s.pool k.holds
      by_main leaving e = receive_answer-Kept s.pool k.holds
      by_main (warm a) e =
          no_answer (notify s.pool) joining (notified s.pool true k.holds) (λ r e. cc)
      by_main joining e = join_all-Kept s.pool k.holds
      by_main passed e = k
      by_main (exits c) e = k

  perform_all-Kept :
      (actions : List Action) (s : DryRun D B) → Kept s → Kept (perform_all unpickle actions s)
  unfolding perform_all perform
  perform_all-Kept [] s k = k
  perform_all-Kept (turn i ∷ actions) s k =
      perform_all-Kept actions (perform unpickle (turn i) s) (record {
        holds = step_process-Holds pickle unpickle stages example i s.pool k.holds;
        answer = k.answer;
      })
  perform_all-Kept (proceed ∷ actions) s k =
      perform_all-Kept actions (step_main s) (step_main-Kept s k)
  perform_all-Kept (terminate ∷ actions) s k =
      perform_all-Kept actions (perform unpickle terminate s)
        (record { holds = notified s.pool true k.holds; answer = k.answer })

  start-Kept : Kept (start pickle stages (some example))
  unfolding start sent
  start-Kept =
      let (f, n) = new_pool-IsFresh stages in
      no_answer _ polling
        (with_pipe pickle unpickle stages example (new_pool stages) 0 (some (pickle example))
          (record {
            wired = f.wired;
            pipes = λ k b e. absurd (f.empty k b e);
            size = f.pipes ∙ ap suc n;
          })
          (λ b e. first_pipe b e))
        (λ r e. cc)
    where
      first_pipe : (b : B) → some (pickle example) ≡ some b → answered 0 ≡ ok b
      first_pipe b e = ap ok (some_inj e)
        where
          some_inj : {a b : B} → some a ≡ some b → a ≡ b
          some_inj e = cc

  -- In whatever order the processes, the main process and the signals come: the answer that the main
  -- process of a dry run receives is what the stages, each applied to what the one before it has sent,
  -- make of the example.
  pub perform_all-answered :
      (actions : List Action) (b : B) (metrics : List Text)
      → (perform_all unpickle actions (start pickle stages (some example))).main
        ≡ warm (some (b, metrics))
      → answered (length stages) ≡ ok b
  perform_all-answered actions b metrics h =
      (perform_all-Kept actions (start pickle stages (some example)) start-Kept).answer b metrics h
