-- ===== src/Coordinator/Round.antt =====
-- A round of the loop of `coordinate` of mosec/coordinator.py, from the socket back to the socket.
use mosec.Prelude.{ℕ, suc, ◌+◌, ◌-◌, ◌≤◌, ◌<◌, ◌≡◌, refl, ap, List, [], ◌∷◌, ◌++◌, length, arith}
use mosec.Errors.{
  Bytes, HttpStatusCode, flag_value, success, bad_request, validation, internal, timed_out,
  stream_event, Result, ok,
}
use mosec.Protocol.{Task, ids, states, payloads}
use mosec.Protocol.Struct.{u16_mod}
use mosec.Protocol.Socket.{Incoming, pause}
use mosec.Protocol.Receive.Delivers.{Message, receive-Message}
use mosec.Protocol.Receive.Interrupted.{Partial, receive-pause, receive-closed}
use mosec.Protocol.Send.{send}
use mosec.Protocol.Send.Format.{message, AllWire, send-message}
use mosec.Coordinator.{Worker, Python, Answer, answer, Coordinator, again, hung, coordinate_round}

-- The tasks with other payloads.
abbrev pub with_payloads : List Task → List Bytes → List Task
with_payloads [] ps = []
with_payloads (k ∷ ks) [] = []
with_payloads (k ∷ ks) (p ∷ ps) = record k { payload = p } ∷ with_payloads ks ps

ids-with_payloads :
    (ks : List Task) (ps : List Bytes) → length ps ≡ length ks → ids (with_payloads ks ps) ≡ ids ks
ids-with_payloads [] ps e = refl
ids-with_payloads (k ∷ ks) [] e = absurd (omega arith)
ids-with_payloads (k ∷ ks) (p ∷ ps) e = rw (ids-with_payloads ks ps (omega arith))

states-with_payloads :
    (ks : List Task) (ps : List Bytes)
    → length ps ≡ length ks
    → states (with_payloads ks ps) ≡ states ks
states-with_payloads [] ps e = refl
states-with_payloads (k ∷ ks) [] e = absurd (omega arith)
states-with_payloads (k ∷ ks) (p ∷ ps) e = rw (states-with_payloads ks ps (omega arith))

payloads-with_payloads :
    (ks : List Task) (ps : List Bytes) → length ps ≡ length ks → payloads (with_payloads ks ps) ≡ ps
payloads-with_payloads [] [] e = refl
payloads-with_payloads [] (p ∷ ps) e = absurd (omega arith)
payloads-with_payloads (k ∷ ks) [] e = absurd (omega arith)
payloads-with_payloads (k ∷ ks) (p ∷ ps) e = rw (payloads-with_payloads ks ps (omega arith))

length-with_payloads :
    (ks : List Task) (ps : List Bytes)
    → length ps ≡ length ks
    → length (with_payloads ks ps) ≡ length ks
length-with_payloads [] ps e = refl
length-with_payloads (k ∷ ks) [] e = absurd (omega arith)
length-with_payloads (k ∷ ks) (p ∷ ps) e = ap suc (length-with_payloads ks ps (omega arith))

flag_value-fits : (s : HttpStatusCode) → flag_value s < u16_mod
unfolding flag_value
flag_value-fits success = omega arith
flag_value-fits bad_request = omega arith
flag_value-fits validation = omega arith
flag_value-fits internal = omega arith
flag_value-fits timed_out = omega arith
flag_value-fits stream_event = omega arith

send-with_payloads :
    (a : Answer) (ks : List Task)
    → length a.payloads ≡ length ks
    → length ks < u16_mod
    → AllWire (with_payloads ks a.payloads)
    → send (flag_value a.status) (ids ks) (states ks) a.payloads
      ≡ ok (message (flag_value a.status) (with_payloads ks a.payloads))
send-with_payloads a ks e n fits =
    let ls = with_payloads ks a.payloads in
    let sent : send (flag_value a.status) (ids ls) (states ls) (payloads ls)
        ≡ ok (message (flag_value a.status) ls) =
      send-message (flag_value a.status) ls (flag_value-fits a.status)
        (rw (length-with_payloads ks a.payloads e) n) fits in
    rw
      (
        ids-with_payloads ks a.payloads e,
        states-with_payloads ks a.payloads e,
        payloads-with_payloads ks a.payloads e,
      )
      at sent

module _ {A : Type 0} (python : Python A) (timeout fuel : ℕ) (w : Worker A) (c : Coordinator) where
  -- A message arrives, the socket takes the reply, and no other thread owes a permit: the loop goes
  -- on behind the message, and has written one buffer, with the status of the answer, and for each
  -- task in order its own id and state and its payload of the answer.
  pub coordinate_round-Message :
      (flag : Bytes) (ks : List Task) (a : Answer) {rest : Incoming}
      → Message fuel flag ks c.incoming rest
      → answer python w timeout (payloads ks) (states ks) ≡ ok a
      → length a.payloads ≡ length ks
      → length ks < u16_mod
      → AllWire (with_payloads ks a.payloads)
      → 1 ≤ c.semaphore
      → coordinate_round python timeout fuel w (ok tt) c ≡ (
        again,
        record {
          incoming = rest;
          current_ids = ids ks;
          semaphore = c.semaphore;
          written = c.written ++ (message (flag_value a.status) (with_payloads ks a.payloads) ∷ []);
          closed = c.closed;
        },
      )
  unfolding coordinate_round
  coordinate_round-Message flag ks a m answered e n fits free =
      let back : c.semaphore - 1 + 1 ≡ c.semaphore = omega arith in
      rw (receive-Message fuel flag ks m, answered, send-with_payloads a ks e n fits, back)

  -- A payload is cut off by a pause longer than the socket's timeout: the round counts as one without
  -- a message, and the next one starts in the middle of that payload.
  pub coordinate_round-pause :
      (others : ℕ) (flag : Bytes) (ks : List Task) {id part : Bytes} {state size : ℕ}
      {rest : Incoming} (os : Result Unit)
      → size ≤ fuel
      → Partial fuel others flag ks id state size part c.incoming (pause ∷ rest)
      → coordinate_round python timeout fuel w os c ≡ (again, record c { incoming = rest })
  unfolding coordinate_round
  coordinate_round-pause others flag ks os h p = rw (receive-pause fuel others flag ks h p)

  -- The peer closes in the middle of a payload: the round never ends.
  pub coordinate_round-closed :
      (others : ℕ) (flag : Bytes) (ks : List Task) {id part : Bytes} {state size : ℕ}
      (os : Result Unit)
      → Partial fuel others flag ks id state size part c.incoming []
      → (coordinate_round python timeout fuel w os c).0 ≡ hung
  unfolding coordinate_round
  coordinate_round-closed others flag ks os p = rw (receive-closed fuel others flag ks p)
