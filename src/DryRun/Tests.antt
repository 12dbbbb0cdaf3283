-- ===== src/DryRun/Tests.antt =====
-- Dry runs of mosec/dry_run.py at concrete inputs: data and bytes are numbers.
use mosec.Prelude.{ℕ, ◌+◌, ◌*◌, ◌≡◌, refl, true, false, none, some, List, [], ◌∷◌, length, map}
use mosec.Prelude.Int.{pos}
use mosec.Errors.{text, Result, ok, raised, failed, user_error, is_exception}
use mosec.DryRun.{Stage, new_pool}
use mosec.DryRun.Runner.{
  DryRun, turn, proceed, polling, warm, passed, exits, perform, perform_all, step_main, start,
  choose_example,
}
use mosec.DryRun.Wiring.{IsFresh, new_pool-IsFresh}
use mosec.DryRun.Answer.Received.{answered, perform_all-answered}
use mosec.DryRun.Probe.{step_main-probe}

-- A stage that adds one, and one that doubles, in batches.
abbrev adding : Stage ℕ ℕ
adding = record {
  name = text "Add_1";
  batched = false;
  forward = λ x. ok (x + 1);
  forward_batch = λ xs. ok xs;
  deserialize = λ b. ok b;
  serialize = λ x. ok x;
}

abbrev doubling : Stage ℕ ℕ
doubling = record {
  name = text "Double_2";
  batched = true;
  forward = λ x. ok x;
  forward_batch = λ xs. ok (map (λ x. x * 2) xs);
  deserialize = λ b. ok b;
  serialize = λ x. ok x;
}

abbrev pickle : ℕ → ℕ
pickle x = x + 100

abbrev unpickle : ℕ → Result ℕ
unpickle b = ok b

abbrev stages : List (Stage ℕ ℕ)
stages = adding ∷ doubling ∷ []

abbrev begin : DryRun ℕ ℕ
begin = start pickle stages (some 5)

-- The main process looks when both stages have had their turn.
late_look :
    (perform_all unpickle (turn 1 ∷ turn 0 ∷ turn 1 ∷ proceed ∷ proceed ∷ []) begin).main
    ≡ warm (some (212, text "Add_1" ∷ text "Double_2" ∷ []))
unfolding perform_all start
late_look = refl

passes :
    (perform_all unpickle (turn 0 ∷ turn 1 ∷ proceed ∷ proceed ∷ proceed ∷ proceed ∷ []) begin).main
    ≡ passed
unfolding perform_all start
passes = refl

perform_all-answered_example : answered pickle unpickle stages 5 2 ≡ ok 212
unfolding perform_all start
perform_all-answered_example =
    perform_all-answered pickle unpickle stages 5 (turn 0 ∷ turn 1 ∷ proceed ∷ proceed ∷ []) 212
      (text "Add_1" ∷ text "Double_2" ∷ []) refl

-- The first stage has sent its result and ended, and the second is still at work.
abbrev between : DryRun ℕ ℕ
between = perform unpickle (turn 0) begin

step_main-probe_example :
    (step_main (step_main (record { pool = between.pool; main = polling }))).main ≡ exits (pos 1)
unfolding perform start
step_main-probe_example =
    step_main-probe between.pool 0
      (record {
        stage = adding;
        receiver = 0;
        sender = 1;
        ingress = true;
        reported = true;
        code = some (pos 0);
      })
      (pos 0) refl (λ b e. cc) refl refl

two_stages-IsFresh : IsFresh stages (new_pool stages) × (length (new_pool stages).processes ≡ 2)
two_stages-IsFresh = new_pool-IsFresh stages

-- Without an example, all workers end at the notification.
skipped :
    (perform_all unpickle
      (proceed ∷ turn 0 ∷ turn 1 ∷ proceed ∷ [])
      (start pickle stages none)).main
    ≡ passed
unfolding perform_all start
skipped = refl

-- An exception of a stage that is caught ends the warmup with the code 1, not the stage.
abbrev failing : Stage ℕ ℕ
failing = record adding { forward = λ x. raised (failed user_error) }

caught :
    (perform_all unpickle
      (turn 0 ∷ proceed ∷ proceed ∷ [])
      (start pickle (failing ∷ []) (some 5))).main
    ≡ exits (pos 1)
unfolding perform_all start is_exception
caught = refl

second_example : choose_example {D = ℕ} (λ n. true) none (7 ∷ 8 ∷ []) ≡ some 7
unfolding choose_example
second_example = refl
