-- ===== src/Coordinator/Tests.antt =====
-- The coordinator of mosec/coordinator.py with a worker that echoes, at concrete inputs.
use mosec.Prelude.{
  ◌==◌, Bool, none, if◌then◌else◌, false, true, some, ℕ, ◌≡◌, ◌≢◌, refl, List, [], ◌∷◌, ◌++◌, map,
  arith, inl,
}
use mosec.Errors.{
  raised, client_error, mosec_failure, failed, value_error, msg, Bytes, ok, diverged, success,
  internal, flag_value, text,
}
use mosec.Protocol.{ids, states, payloads}
use mosec.Protocol.Struct.{bytes_u16}
use mosec.Protocol.Socket.{Incoming, pause, push, packet}
use mosec.Protocol.RoundTrip.{Message-message}
use mosec.Protocol.Send.Format.{AllWire, message}
use mosec.Protocol.Tests.{cut, cut-Partial, both}
use mosec.Coordinator.Connect.{conn_max_retry, init_protocol, Waited, init_protocol-Waited}
use mosec.Coordinator.Run.{Session, run, run-closed}
use mosec.Coordinator.Loop.{Talk, Replied, over, idle, talk, coordinate-Replied}
use mosec.Coordinator.{
  Iteration, coordinate, Worker, Python, Answer, decode, encode, process, answer, Coordinator,
  again, hung, left, coordinate_round,
}
use mosec.Coordinator.Reply.{Answered, Outcome, answer-Answered, answer-single}
use mosec.Coordinator.Reply.Handled.{IsCivil, answer-civil}
use mosec.Coordinator.Reply.Served.{Served, none_left, task, IsBatched, answer-Served}
use mosec.Coordinator.Round.{
  with_payloads, coordinate_round-Message, coordinate_round-pause, coordinate_round-closed,
}

-- An object is a list of byte strings here.
abbrev joined : List (List Bytes) → List Bytes
joined [] = []
joined (x ∷ xs) = x ++ joined xs

abbrev flat : List Bytes → Bytes
flat [] = []
flat (x ∷ xs) = x ++ flat xs

abbrev python : Python (List Bytes)
python = record {
  list_of = joined;
  elements = λ x. ok (map (λ b. b ∷ []) x);
  encode_text = λ t. some t;
}

-- `deserialize_ipc` puts a byte in front, so that the two ways to decode differ.
abbrev echo : ℕ → Worker (List Bytes)
echo size = record {
  max_batch_size = size;
  serialize = λ x. ok (flat x);
  serialize_ipc = λ x. ok (0 ∷ flat x);
  deserialize = λ b. ok (b ∷ []);
  deserialize_ipc = λ b. ok ((9 ∷ b) ∷ []);
  forward = λ x. record { elapsed = 1; outcome = ok x };
}

-- A task that comes in here and leaves here, and one that does neither.
abbrev two_payloads : List Bytes
two_payloads = (5 ∷ []) ∷ (6 ∷ []) ∷ []

abbrev two_states : List ℕ
two_states = 3 ∷ 0 ∷ []

two_Served :
    Served python
      (echo 4)
      10
      (λ x. x)
      two_payloads
      two_states
      (((5 ∷ []) ∷ []) ∷ ((9 ∷ 6 ∷ []) ∷ []) ∷ [])
      ((5 ∷ []) ∷ (0 ∷ 9 ∷ 6 ∷ []) ∷ [])
unfolding decode encode
two_Served = task refl refl (task refl refl none_left)

echo-IsBatched : IsBatched python (echo 4) 10 (λ x. x) (((5 ∷ []) ∷ []) ∷ ((9 ∷ 6 ∷ []) ∷ []) ∷ [])
echo-IsBatched = record {
  batches = omega arith;
  in_time = omega arith;
  returns = refl;
  list_of = refl;
}

answer-Served_example :
    answer python (echo 4) 10 two_payloads two_states
    ≡ ok (record { status = success; payloads = (5 ∷ []) ∷ (0 ∷ 9 ∷ 6 ∷ []) ∷ [] })
answer-Served_example = answer-Served python (echo 4) 10 (λ x. x) two_Served echo-IsBatched

answer-Answered_example :
    Outcome python
      (echo 4)
      10
      2
      (process python (echo 4) 10 two_payloads two_states)
      (answer python (echo 4) 10 two_payloads two_states)
answer-Answered_example = answer-Answered python (echo 4) 10 two_payloads two_states

-- A `forward` that hangs.
abbrev hanging : Worker (List Bytes)
hanging = record (echo 4) { forward = λ x. record { elapsed = 11; outcome = diverged } }

hanging-IsCivil : IsCivil python hanging 10
hanging-IsCivil = record {
  serialize = λ x. tt;
  serialize_ipc = λ x. tt;
  deserialize = λ b. tt;
  deserialize_ipc = λ b. tt;
  forward = λ x. inl (omega arith, omega arith);
  elements = λ x. tt;
  alarm_text = λ e. cc;
  internal_text = λ e. cc;
}

answer-civil_example :
    Answered 2
      (process python hanging 10 two_payloads two_states)
      (answer python hanging 10 two_payloads two_states)
answer-civil_example = answer-civil python hanging 10 hanging-IsCivil two_payloads two_states

-- A `str.encode` that fails on a surrogate, and a worker that raises an error with one in its text.
abbrev has_surrogate : Bytes → Bool
has_surrogate [] = false
has_surrogate (c ∷ cs) = if c == 55296 then true else has_surrogate cs

abbrev strict_python : Python (List Bytes)
strict_python = record python { encode_text = λ t. if has_surrogate t then none else some t }

abbrev unlucky : Worker (List Bytes)
unlucky = record (echo 4) { deserialize = λ b. raised (mosec_failure client_error (55296 ∷ [])) }

unanswered : answer strict_python unlucky 10 two_payloads two_states ≡ raised (failed value_error)
unfolding answer decode msg
unanswered = refl

-- With a timeout of zero there is no alarm.
unlimited : answer python hanging 0 two_payloads two_states ≡ diverged
unfolding answer decode
unlimited = refl

abbrev refused : Answer
refused = record {
  status = internal;
  payloads = text "inference internal error" ∷ text "inference internal error" ∷ [];
}

refused_lem : answer python (echo 1) 10 two_payloads two_states ≡ ok refused
unfolding answer decode
refused_lem = refl

answer-single_example : internal ≢ success
answer-single_example =
    answer-single python (echo 1) 10 two_payloads two_states refused (omega arith)
      (λ e. omega (arith, e)) refused_lem

abbrev at_start : Incoming → Coordinator
at_start s = record { incoming = s; current_ids = []; semaphore = 1; written = []; closed = false }

-- One task of state 1, and one of state 3 without a payload.
abbrev echoed : Answer
echoed = record { status = success; payloads = (0 ∷ 65 ∷ 66 ∷ []) ∷ [] ∷ [] }

echoed_lem : answer python (echo 4) 10 (payloads both) (states both) ≡ ok echoed
unfolding answer decode encode
echoed_lem = refl

coordinate_round-Message_example :
    coordinate_round python 10 9 (echo 4) (ok tt) (at_start (push (message 1 both ++ []) [])) ≡ (
      again,
      record {
        incoming = [];
        current_ids = ids both;
        semaphore = 1;
        written = message 1 (with_payloads both echoed.payloads) ∷ [];
        closed = false;
      },
    )
unfolding flag_value
coordinate_round-Message_example =
    coordinate_round-Message python 10 9 (echo 4) (at_start (push (message 1 both ++ []) []))
      (bytes_u16 1) both echoed
      (Message-message 9 1 both [] [] (refl, omega arith, (refl, omega arith, tt))) echoed_lem refl
      (omega arith)
      (
        record { state_fits = omega arith; length_fits = omega arith },
        (record { state_fits = omega arith; length_fits = omega arith }, tt),
      )
      (omega arith)

coordinate_round-pause_example :
    coordinate_round python 10 9 (echo 4) (ok tt) (at_start (cut (pause ∷ packet 66 [] ∷ [])))
    ≡ (again, at_start (packet 66 [] ∷ []))
coordinate_round-pause_example =
    coordinate_round-pause python 10 9 (echo 4) (at_start (cut (pause ∷ packet 66 [] ∷ []))) 0
      (0 ∷ 1 ∷ []) [] (ok tt) (omega arith) (cut-Partial (pause ∷ packet 66 [] ∷ []))

closed_round : (coordinate_round python 10 9 (echo 4) (ok tt) (at_start (cut []))).0 ≡ hung
closed_round =
    coordinate_round-closed python 10 9 (echo 4) (at_start (cut [])) 0 (0 ∷ 1 ∷ []) [] (ok tt)
      (cut-Partial [])

-- An idle round, and then the message.
abbrev iterations : List (Iteration (List Bytes))
iterations =
    record { shutdown = false; worker = echo 4; sendall_outcome = ok tt }
    ∷ record { shutdown = false; worker = echo 4; sendall_outcome = ok tt }
    ∷ []

both-AllWire : AllWire (with_payloads both echoed.payloads)
both-AllWire = (
  record { state_fits = omega arith; length_fits = omega arith },
  (record { state_fits = omega arith; length_fits = omega arith }, tt),
)

coordinate-Replied_example :
    Replied python 10 9
      (at_start (pause ∷ push (message 1 both ++ []) []))
      (message (flag_value success) (with_payloads both echoed.payloads) ∷ [])
      []
      (coordinate python 10 9 iterations (at_start (pause ∷ push (message 1 both ++ []) [])))
coordinate-Replied_example =
    coordinate-Replied python 10 9 iterations (at_start (pause ∷ push (message 1 both ++ []) []))
      refl (omega arith)
      (idle refl (
        talk (bytes_u16 1) both echoed refl refl
          (Message-message 9 1 both [] [] (refl, omega arith, (refl, omega arith, tt))) echoed_lem
          refl (omega arith) both-AllWire over))

-- A connection with an idle round and the message, which the peer then closes.
abbrev one_reply : List Bytes
one_reply = message (flag_value success) (with_payloads both echoed.payloads) ∷ []

abbrev last_round : Iteration (List Bytes)
last_round = record { shutdown = false; worker = echo 4; sendall_outcome = ok tt }

abbrev connection : Session (List Bytes)
connection = record {
  shutdown = false;
  opened = ok tt;
  incoming = pause ∷ push (message 1 both ++ []) [];
  rounds = iterations ++ (last_round ∷ []);
}

connection-Talk : Talk python 10 9 iterations connection.incoming one_reply []
connection-Talk = idle refl (
    talk (bytes_u16 1) both echoed refl refl
      (Message-message 9 1 both [] [] (refl, omega arith, (refl, omega arith, tt))) echoed_lem refl
      (omega arith) both-AllWire over)

-- A second connection that would open, and bring the message again, is not served.
run-closed_example :
    ((run python 10 9 (connection ∷ connection ∷ []) (at_start [])).0 ≡ left)
    × ((run python 10 9 (connection ∷ connection ∷ []) (at_start [])).1.written
        ≡ (at_start []).written ++ one_reply)
    × ((run python 10 9 (connection ∷ connection ∷ []) (at_start [])).1.closed ≡ true)
run-closed_example =
    run-closed python 10 9 connection connection [] (at_start []) iterations last_round one_reply
      (omega arith) refl refl refl refl refl connection-Talk

-- The socket file appears at the fourth try.
init_protocol-Waited_example :
    Waited (λ i. false) (λ i. i == 3) 0 conn_max_retry (init_protocol (λ i. false) (λ i. i == 3))
init_protocol-Waited_example = init_protocol-Waited (λ i. false) (λ i. i == 3)
