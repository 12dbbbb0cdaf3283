-- ===== src/Coordinator.antt =====
-- mosec/coordinator.py: a worker process takes a batch off the socket, runs the user's worker on it,
-- and writes the reply. Log lines and the sleep behind `coordinate` are left out.
pub mod Reply
pub mod Round
pub mod Loop
pub mod Connect
pub mod Run
pub mod Streaming
pub mod Tests
use mosec.Prelude.{
  ℕ, zero, suc, ◌+◌, ◌-◌, ◌/◌, ◌%◌, Bool, true, false, Option, none, some, List, [], ◌∷◌, ◌++◌,
  ◌==◌, ltb, if◌then◌else◌, length, replicate,
}
use mosec.Errors.{
  Bytes, Text, text, HttpStatusCode, flag_value, success, internal, timed_out, ErrorClass, code,
  msg, timeout_msg, Raised, mosec_failure, mosec_timeout, failed, exited, socket_timeout,
  struct_error, os_error, index_error, value_error, Result, ok, raised, diverged, ◌>>=◌,
}
use mosec.Protocol.Socket.{Incoming}
use mosec.Protocol.Receive.{Received, receive}
use mosec.Protocol.Send.{send}

-- A call of the user's `forward`: how long it takes, and what it then does.
pub record Call (A : Type 0) : Type 0 where
  pub elapsed : ℕ
  pub outcome : Result A

-- What the coordinator calls of a user's worker. `A` stands for any Python object.
pub record Worker (A : Type 0) : Type 0 where
  pub max_batch_size : ℕ
  pub serialize : A → Result Bytes
  pub serialize_ipc : A → Result Bytes
  pub deserialize : Bytes → Result A
  pub deserialize_ipc : Bytes → Result A
  pub forward : A → Call A

-- What Python itself does: a list as an object, the elements of an object that has a length, and
-- `str.encode`, which has no bytes for a text with a lone surrogate.
pub record Python (A : Type 0) : Type 0 where
  pub list_of : List A → A
  pub elements : A → Result (List A)
  pub encode_text : Text → Option Bytes

-- The bits of `State`.
abbrev pub is_ingress : ℕ → Bool
is_ingress state = state % 2 == 1

abbrev pub is_egress : ℕ → Bool
is_egress state = state / 2 % 2 == 1

-- `str(err).replace("\n", " - ")`
abbrev pub one_line : Text → Text
one_line [] = []
one_line (c ∷ cs) = if c == 10 then text " - " ++ one_line cs else c ∷ one_line cs

abbrev pub text_or : Text → Text → Text
text_or [] other = other
text_or (c ∷ cs) other = c ∷ cs

abbrev pub describe : Text → Text → Text
describe msg t = msg ++ (text ": " ++ text_or (one_line t) msg)

-- What the alarm of `set_mosec_timeout` says.
abbrev pub alarm : Text
alarm = text "`forward` timeout"

-- `set_mosec_timeout`: the alarm raises in code that has not ended in time; a duration of zero sets no
-- alarm.
unfoldable pub set_mosec_timeout : {A : Type 0} → ℕ → Call A → Result A
set_mosec_timeout duration c =
    if duration == 0
    then c.outcome
    else if ltb duration c.elapsed
    then raised (mosec_timeout alarm)
    else c.outcome

abbrev pub first : {A : Type 0} → List A → Result A
first [] = raised (failed index_error)
first (x ∷ xs) = ok x

pub record Answer : Type 0 where
  pub status : HttpStatusCode
  pub payloads : List Bytes

abbrev pub internal_error : Text
internal_error = text "inference internal error"

-- `[....encode()] * count`; a `UnicodeEncodeError` is a `ValueError`, and leaves the `except` clause.
abbrev pub error_answer : HttpStatusCode → ℕ → Option Bytes → Result Answer
error_answer status count none = raised (failed value_error)
error_answer status count (some payload) =
    ok (record { status = status; payloads = replicate count payload })

module _ {A : Type 0} (python : Python A) (w : Worker A) (timeout : ℕ) where
  unfoldable pub decode : Bytes → ℕ → Result A
  decode payload state =
      if is_ingress state then w.deserialize payload else w.deserialize_ipc payload

  unfoldable pub encode : A → ℕ → Result Bytes
  encode datum state = if is_egress state then w.serialize datum else w.serialize_ipc datum

  -- The comprehensions over `zip(..., strict=True)`.
  unfoldable pub decode_all : List Bytes → List ℕ → Result (List A)
  decode_all [] [] = ok []
  decode_all (payload ∷ payloads) (state ∷ states) = do
    datum ← decode payload state
    data_left ← decode_all payloads states
    ok (datum ∷ data_left)
  decode_all _ _ = raised (failed value_error)

  unfoldable pub encode_all : List A → List ℕ → Result (List Bytes)
  encode_all [] [] = ok []
  encode_all (datum ∷ data_left) (state ∷ states) = do
    payload ← encode datum state
    payloads ← encode_all data_left states
    ok (payload ∷ payloads)
  encode_all _ _ = raised (failed value_error)

  -- The batch for a worker that takes one, and else the first request alone.
  unfoldable pub call_forward : List A → Result (List A)
  unfolding set_mosec_timeout
  call_forward inputs =
      if ltb 1 w.max_batch_size
      then (set_mosec_timeout timeout (w.forward (python.list_of inputs)) >>= python.elements)
      else (first inputs >>= λ x. set_mosec_timeout timeout (w.forward x) >>= λ y. ok (y ∷ []))

  -- The body of the `try` in `coordinate`.
  unfoldable pub process : List Bytes → List ℕ → Result (List Bytes)
  unfolding decode_all encode_all call_forward
  process payloads states = do
    inputs ← decode_all payloads states
    outputs ← call_forward inputs
    sized ← if length outputs == length payloads then ok outputs else raised (failed value_error)
    encode_all sized states

  -- Its `except` clauses, for a batch of `count` tasks.
  unfoldable pub answer_for : ℕ → Result (List Bytes) → Result Answer
  answer_for count (ok payloads) = ok (record { status = success; payloads = payloads })
  answer_for count (raised (mosec_failure c t)) =
      error_answer (code c) count (python.encode_text (describe (msg c) t))
  answer_for count (raised (mosec_timeout t)) =
      error_answer timed_out count (python.encode_text (describe timeout_msg t))
  answer_for count (raised (failed _)) =
      error_answer internal count (python.encode_text internal_error)
  answer_for count (raised exited) = raised exited
  answer_for count diverged = diverged

  unfoldable pub answer : List Bytes → List ℕ → Result Answer
  unfolding process answer_for
  answer payloads states = answer_for (length payloads) (process payloads states)

-- `current_ids` is what the streaming thread reads; `written` has the buffers that went to `sendall`,
-- and `closed` says that the socket, of which there is one for the life of the process, was closed.
pub record Coordinator : Type 0 where
  pub incoming : Incoming
  pub current_ids : List Bytes
  pub semaphore : ℕ
  pub written : List Bytes
  pub closed : Bool

-- How a round of the loop of `coordinate` ends: with the next, at `break`, with an exception that
-- leaves `coordinate`, or not at all.
pub data Next : Type 0 where
  again left : Next
  escaped : Raised → Next
  hung : Next

-- At zero, `acquire` gives up after the timeout, or takes a permit that is released meanwhile: the
-- count is zero afterwards. Its result is not looked at.
abbrev pub acquire : ℕ → ℕ
acquire count = count - 1

abbrev pub release : ℕ → ℕ
release count = count + 1

-- The `except` clauses around `receive`.
abbrev pub receive_error : Raised → Next
receive_error (failed socket_timeout) = again
receive_error (failed struct_error) = left
receive_error (failed os_error) = left
receive_error e = escaped e

-- Those around `send`; `socket.timeout` is an `OSError`.
abbrev pub send_error : Raised → Next
send_error (failed socket_timeout) = left
send_error (failed os_error) = left
send_error e = escaped e

-- `sendall` of a buffer, with the outcome that the operating system gives it.
abbrev pub sendall : Result (Unit {0}) → Bytes → Coordinator → Next × Coordinator
sendall (ok _) buffer c = (again, record c { written = c.written ++ (buffer ∷ []) })
sendall (raised e) buffer c = (send_error e, record c { written = c.written ++ (buffer ∷ []) })
sendall diverged buffer c = (hung, record c { written = c.written ++ (buffer ∷ []) })

abbrev pub write : Result (Unit {0}) → Result Bytes → Coordinator → Next × Coordinator
write os (ok buffer) c = sendall os buffer c
write os (raised e) c = (send_error e, c)
write os diverged c = (hung, c)

abbrev pub released : Next × Coordinator → Next × Coordinator
released (next, c) = (next, record c { semaphore = release c.semaphore })

abbrev pub reply :
    Result (Unit {0}) → List Bytes → List ℕ → Result Answer → Coordinator → Next × Coordinator
reply os ids states (ok a) c = released (
    write os (send (flag_value a.status) ids states a.payloads)
      (record c { semaphore = acquire c.semaphore }))
reply os ids states (raised e) c = (escaped e, c)
reply os ids states diverged c = (hung, c)

module _ {A : Type 0} (python : Python A) (timeout fuel : ℕ) where
  abbrev pub handle :
      Worker A → Result (Unit {0}) → Result Received → Coordinator → Next × Coordinator
  handle w os (raised e) c = (receive_error e, c)
  handle w os diverged c = (hung, c)
  handle w os (ok r) c =
      reply os r.ids r.states (answer python w timeout r.payloads r.states)
        (record c { current_ids = r.ids })

  -- One round of the loop, with the worker as it is then, and the outcome of `sendall`.
  unfoldable pub coordinate_round : Worker A → Result (Unit {0}) → Coordinator → Next × Coordinator
  coordinate_round w os c =
      let (r, rest) = receive fuel c.incoming in handle w os r (record c { incoming = rest })

-- `Protocol.close`
unfoldable pub close : Coordinator → Coordinator
close c = record c { closed = true }

-- What a round of the loop meets: whether a shutdown has been asked for, the worker as it is then,
-- and the outcome of `sendall`.
pub record Iteration (A : Type 0) : Type 0 where
  pub shutdown : Bool
  pub worker : Worker A
  pub sendall_outcome : Result (Unit {0})

module _ {A : Type 0} (python : Python A) (timeout fuel : ℕ) where
  -- The loop, as far as the rounds go; `again` is a loop that is still running then. Behind it, the
  -- socket is closed.
  unfoldable pub coordinate : List (Iteration A) → Coordinator → Next × Coordinator
  unfolding close
  coordinate [] c = (again, c)
  coordinate (r ∷ rs) c =
      let next = coordinate_round python timeout fuel r.worker r.sendall_outcome c in
      let rest = coordinate rs next.1 in
      if r.shutdown then (left, close c) else elim next.0 [
        | again ↦ rest
        | left ↦ (left, close next.1)
        | escaped e ↦ next
        | hung ↦ next
      ]
