-- ===== src/Protocol/RoundTrip.antt =====
-- `Protocol.receive` reads back what `Protocol.send` writes.
use mosec.Prelude.{
  ℕ, ◌≤◌, ◌≡◌, refl, sym, List, [], ◌∷◌, ◌++◌, append_assoc, length, length-map, ◌∙◌, arith,
}
use mosec.Errors.{Bytes, ok}
use mosec.Protocol.{Task, ids, states, payloads}
use mosec.Protocol.Struct.{bytes_u16, bytes_u32, length-bytes_u16}
use mosec.Protocol.Socket.{Incoming, push}
use mosec.Protocol.Socket.Arrives.{push-Arrives}
use mosec.Protocol.Receive.{received, receive}
use mosec.Protocol.Receive.Delivers.{Whole, Delivers, done, task, Message, receive-Message}
use mosec.Protocol.Send.{send}
use mosec.Protocol.Send.Format.{body_bytes, message, send-Sent}

-- The ids are those that `receive` reads, and no payload is longer than the fuel.
abbrev pub AllReadable : ℕ → List Task → Type 0
AllReadable fuel [] = Unit
AllReadable fuel (k ∷ ks) = (length k.id ≡ 4) × (length k.payload ≤ fuel) × AllReadable fuel ks

whole : (xs ys : Bytes) (s : Incoming) → Whole xs (push (xs ++ ys) s) (push ys s)
whole xs ys s = record { behind = ys; others = s; start = refl; rest = refl }

Delivers-body_bytes :
    (fuel : ℕ) (ks : List Task) (more : Bytes) (s : Incoming)
    → AllReadable fuel ks
    → Delivers fuel ks (push (body_bytes ks ++ more) s) (push more s)
Delivers-body_bytes fuel [] more s h = done
Delivers-body_bytes fuel (k ∷ ks) more s (size, enough, h) =
    task
      (record {
        after_id =
            push
              (bytes_u16 k.state
                ++ (bytes_u32 (length k.payload) ++ (k.payload ++ (body_bytes ks ++ more))))
              s;
        after_state =
            push (bytes_u32 (length k.payload) ++ (k.payload ++ (body_bytes ks ++ more))) s;
        after_length = push (k.payload ++ (body_bytes ks ++ more)) s;
        id_size = size;
        enough = enough;
        id = rw append_assoc (rw append_assoc (rw append_assoc (rw append_assoc (whole k.id _ s))));
        state = whole (bytes_u16 k.state) _ s;
        size = whole (bytes_u32 (length k.payload)) _ s;
        payload = push-Arrives k.payload (body_bytes ks ++ more) s;
      })
      (Delivers-body_bytes fuel ks more s h)

pub Message-message :
    (fuel flag : ℕ) (ks : List Task) (more : Bytes) (s : Incoming)
    → AllReadable fuel ks
    → Message fuel (bytes_u16 flag) ks (push (message flag ks ++ more) s) (push more s)
Message-message fuel flag ks more s h = record {
  after_flag = push (bytes_u16 (length ks) ++ (body_bytes ks ++ more)) s;
  after_batch = push (body_bytes ks ++ more) s;
  flag_size = length-bytes_u16 flag;
  flag_bytes = rw append_assoc (rw append_assoc (whole (bytes_u16 flag) _ s));
  batch_bytes = whole (bytes_u16 (length ks)) _ s;
  tasks = Delivers-body_bytes fuel ks more s h;
}

tasks_ext :
    (ks ls : List Task)
    → ids ks ≡ ids ls
    → states ks ≡ states ls
    → payloads ks ≡ payloads ls
    → ks ≡ ls
tasks_ext [] [] i s p = refl
tasks_ext [] (l ∷ ls) i s p = cc
tasks_ext (k ∷ ks) [] i s p = cc
tasks_ext (k ∷ ks) (l ∷ ls) i s p = ground (arith, tasks_ext ks ls (cc) (cc) (cc))

-- If `send` returns a buffer and the peer reads it in one piece, then `receive` gives back the
-- flag, the ids, the states and the payloads, warns about exactly the batches of more than 1 MB,
-- and leaves what follows the buffer; each id has four bytes, as `receive` itself produces them,
-- and the fuel covers each payload.
pub receive-send :
    (fuel flag : ℕ) (ks : List Task) (more : Bytes) (s : Incoming) {d : Bytes}
    → AllReadable fuel ks
    → send flag (ids ks) (states ks) (payloads ks) ≡ ok d
    → receive fuel (push (d ++ more) s) ≡ (ok (received (bytes_u16 flag) ks), push more s)
receive-send fuel flag ks more s h e =
    let w =
      send-Sent flag (ids ks) (states ks) (payloads ks) (length-map ks _ ∙ sym (length-map ks _))
        e in
    rw (w.bytes, ← tasks_ext ks w.tasks w.is_ids w.is_states w.is_payloads)
      (receive-Message fuel (bytes_u16 flag) ks (Message-message fuel flag ks more s h))
