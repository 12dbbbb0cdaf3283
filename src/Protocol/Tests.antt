-- ===== src/Protocol/Tests.antt =====
-- The protocol of mosec/protocol.py at concrete inputs.
use mosec.Prelude.{◌≡◌, refl, List, [], ◌∷◌, ◌++◌, arith}
use mosec.Errors.{Bytes, ok, raised, diverged, failed, socket_timeout, value_error}
use mosec.Protocol.{Task, ids, states, payloads}
use mosec.Protocol.Struct.{bytes_u16, bytes_u32}
use mosec.Protocol.Socket.{Incoming, packet, pause, push, recv_all}
use mosec.Protocol.Socket.Arrives.{Arrives, nothing, byte}
use mosec.Protocol.Socket.RecvAll.{recv_all-payload, recv_all-pause, recv_all-closed}
use mosec.Protocol.Receive.{received, receive}
use mosec.Protocol.Receive.Delivers.{Whole, Delivery, done, task, Message, receive-Message}
use mosec.Protocol.Receive.Interrupted.{Partial, receive-pause, receive-closed}
use mosec.Protocol.Send.{send}
use mosec.Protocol.Send.Format.{message, AllWire, Sent, send-message, send-Sent, send-mismatch}
use mosec.Protocol.RoundTrip.{receive-send}

-- Three bytes in two pieces, and a fourth that belongs to what follows.
abbrev pieces : Incoming
pieces = packet 7 [] ∷ packet 8 (9 ∷ 5 ∷ []) ∷ []

pieces-Arrives : Arrives pieces (7 ∷ 8 ∷ 9 ∷ []) (packet 5 [] ∷ [])
pieces-Arrives = byte (byte (byte nothing))

whole_payload : recv_all 3 3 pieces ≡ (ok (7 ∷ 8 ∷ 9 ∷ []), packet 5 [] ∷ [])
whole_payload = recv_all-payload 3 (7 ∷ 8 ∷ 9 ∷ []) pieces-Arrives (omega arith)

pause_in_payload :
    recv_all 3 3 (packet 7 [] ∷ pause ∷ packet 8 [] ∷ [])
    ≡ (raised (failed socket_timeout), packet 8 [] ∷ [])
pause_in_payload = recv_all-pause 3 3 (7 ∷ []) (byte nothing) (omega arith) (omega arith)

recv_all-closed_example : (recv_all 50 3 (packet 7 [] ∷ [])).0 ≡ diverged
recv_all-closed_example = recv_all-closed 50 3 (7 ∷ []) (byte nothing) (omega arith)

abbrev one : Task
one = record { id = 0 ∷ 0 ∷ 0 ∷ 1 ∷ []; state = 1; payload = 65 ∷ 66 ∷ [] }

abbrev empty_payload : Task
empty_payload = record { id = 0 ∷ 0 ∷ 0 ∷ 2 ∷ []; state = 3; payload = [] }

abbrev pub both : List Task
both = one ∷ empty_payload ∷ []

whole : (xs ys : Bytes) (s : Incoming) → Whole xs (push (xs ++ ys) s) (push ys s)
whole xs ys s = record { behind = ys; others = s; start = refl; rest = refl }

-- The payload of the first task comes in two pieces.
one-Delivery :
    Delivery 9 one
      (packet 0 (0 ∷ 0 ∷ 1 ∷ [])
        ∷ packet 0 (1 ∷ [])
        ∷ packet 0 (0 ∷ 0 ∷ 2 ∷ [])
        ∷ packet 65 []
        ∷ packet 66 []
        ∷ [])
      []
unfolding bytes_u16 bytes_u32
one-Delivery = record {
  after_id = packet 0 (1 ∷ []) ∷ packet 0 (0 ∷ 0 ∷ 2 ∷ []) ∷ packet 65 [] ∷ packet 66 [] ∷ [];
  after_state = packet 0 (0 ∷ 0 ∷ 2 ∷ []) ∷ packet 65 [] ∷ packet 66 [] ∷ [];
  after_length = packet 65 [] ∷ packet 66 [] ∷ [];
  id_size = refl;
  enough = omega arith;
  id = whole _ [] _;
  state = whole _ [] _;
  size = whole _ [] _;
  payload = byte (byte nothing);
}

abbrev arriving : Incoming
arriving =
    packet 0 (1 ∷ 0 ∷ 1 ∷ [])
    ∷ packet 0 (0 ∷ 0 ∷ 1 ∷ [])
    ∷ packet 0 (1 ∷ [])
    ∷ packet 0 (0 ∷ 0 ∷ 2 ∷ [])
    ∷ packet 65 []
    ∷ packet 66 []
    ∷ []

arriving-Message : Message 9 (0 ∷ 1 ∷ []) (one ∷ []) arriving []
unfolding bytes_u16
arriving-Message = record {
  after_flag = _;
  after_batch = _;
  flag_size = refl;
  flag_bytes = whole (0 ∷ 1 ∷ []) (0 ∷ 1 ∷ []) _;
  batch_bytes = whole (0 ∷ 1 ∷ []) [] _;
  tasks = task one-Delivery done;
}

receive-Message_example : receive 9 arriving ≡ (ok (received (0 ∷ 1 ∷ []) (one ∷ [])), [])
receive-Message_example = receive-Message 9 (0 ∷ 1 ∷ []) (one ∷ []) arriving-Message

-- A payload of two bytes, of which one arrives.
abbrev pub cut : Incoming → Incoming
cut rest =
    packet 0 (1 ∷ 0 ∷ 1 ∷ [])
    ∷ packet 0 (0 ∷ 0 ∷ 1 ∷ [])
    ∷ packet 0 (1 ∷ [])
    ∷ packet 0 (0 ∷ 0 ∷ 2 ∷ [])
    ∷ packet 65 []
    ∷ rest

pub cut-Partial :
    (rest : Incoming)
    → Partial 9 0 (0 ∷ 1 ∷ []) [] (0 ∷ 0 ∷ 0 ∷ 1 ∷ []) 1 2 (65 ∷ []) (cut rest) rest
unfolding bytes_u16 bytes_u32
cut-Partial rest = record {
  after_flag =
      packet 0 (1 ∷ [])
      ∷ packet 0 (0 ∷ 0 ∷ 1 ∷ [])
      ∷ packet 0 (1 ∷ [])
      ∷ packet 0 (0 ∷ 0 ∷ 2 ∷ [])
      ∷ packet 65 []
      ∷ rest;
  after_batch =
      packet 0 (0 ∷ 0 ∷ 1 ∷ [])
      ∷ packet 0 (1 ∷ [])
      ∷ packet 0 (0 ∷ 0 ∷ 2 ∷ [])
      ∷ packet 65 []
      ∷ rest;
  after_tasks =
      packet 0 (0 ∷ 0 ∷ 1 ∷ [])
      ∷ packet 0 (1 ∷ [])
      ∷ packet 0 (0 ∷ 0 ∷ 2 ∷ [])
      ∷ packet 65 []
      ∷ rest;
  flag_size = refl;
  flag_bytes = whole (0 ∷ 1 ∷ []) (0 ∷ 1 ∷ []) _;
  batch_bytes = whole (0 ∷ 1 ∷ []) [] _;
  tasks = done;
  begun = record {
    after_id = packet 0 (1 ∷ []) ∷ packet 0 (0 ∷ 0 ∷ 2 ∷ []) ∷ packet 65 [] ∷ rest;
    after_state = packet 0 (0 ∷ 0 ∷ 2 ∷ []) ∷ packet 65 [] ∷ rest;
    after_length = packet 65 [] ∷ rest;
    id_size = refl;
    short = omega arith;
    id_bytes = whole _ [] _;
    state_bytes = whole _ [] _;
    size_bytes = whole _ [] _;
    payload = byte nothing;
  };
}

pause_in_message :
    receive 9 (cut (pause ∷ packet 66 [] ∷ []))
    ≡ (raised (failed socket_timeout), packet 66 [] ∷ [])
pause_in_message =
    receive-pause 9 0 (0 ∷ 1 ∷ []) [] (omega arith) (cut-Partial (pause ∷ packet 66 [] ∷ []))

closed_in_message : (receive 9 (cut [])).0 ≡ diverged
closed_in_message = receive-closed 9 0 (0 ∷ 1 ∷ []) [] (cut-Partial [])

both-AllWire : AllWire both
both-AllWire = (
  record { state_fits = omega arith; length_fits = omega arith },
  (record { state_fits = omega arith; length_fits = omega arith }, tt),
)

send-message_example : send 8 (ids both) (states both) (payloads both) ≡ ok (message 8 both)
send-message_example = send-message 8 both (omega arith) (omega arith) both-AllWire

send-Sent_example : Sent 8 (ids both) (states both) (payloads both) (message 8 both)
send-Sent_example = send-Sent 8 (ids both) (states both) (payloads both) refl send-message_example

mismatch_refused : send 8 (ids both) (states both) ((65 ∷ []) ∷ []) ≡ raised (failed value_error)
mismatch_refused =
    send-mismatch 8 (ids both) (states both) ((65 ∷ []) ∷ []) (omega arith) (λ e. omega (arith, e))

receive-send_example :
    receive 9 (push (message 8 both ++ (1 ∷ 2 ∷ [])) [])
    ≡ (ok (received (bytes_u16 8) both), packet 1 (2 ∷ []) ∷ [])
receive-send_example =
    receive-send 9 8 both (1 ∷ 2 ∷ []) [] (refl, omega arith, (refl, omega arith, tt))
      (send-message 8 both (omega arith) (omega arith) both-AllWire)
