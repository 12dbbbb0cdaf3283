-- ===== src/Coordinator/Loop.antt =====
-- The loop of `coordinate` of mosec/coordinator.py on a connection that goes on.
use mosec.Prelude.{
  ℕ, ◌≤◌, ◌<◌, ◌≡◌, refl, sym, ◌∙◌, false, List, [], ◌∷◌, ◌++◌, append-nil, append_assoc, length,
}
use mosec.Errors.{Bytes, flag_value, ok}
use mosec.Protocol.{Task, ids, states, payloads}
use mosec.Protocol.Struct.{u16_mod}
use mosec.Protocol.Socket.{Incoming, pause}
use mosec.Protocol.Receive.Delivers.{Message}
use mosec.Protocol.Receive.Interrupted.{receive-idle}
use mosec.Protocol.Send.Format.{message, AllWire}
use mosec.Coordinator.{
  Python, Answer, answer, Coordinator, Next, again, coordinate_round, Iteration, coordinate,
}
use mosec.Coordinator.Round.{with_payloads, coordinate_round-Message}

module _ {A : Type 0} (python : Python A) (timeout fuel : ℕ) where
  -- Rounds in which the connection is idle, or brings a whole message whose reply the socket takes;
  -- the replies, and what is then still to come.
  pub data Talk : List (Iteration A) → Incoming → List Bytes → Incoming → Type 0 where
    over : {s : Incoming} → Talk [] s [] s
    idle :
        {r : Iteration A} {rs : List (Iteration A)} {s t : Incoming} {replies : List Bytes}
        → r.shutdown ≡ false
        → Talk rs s replies t
        → Talk (r ∷ rs) (pause ∷ s) replies t
    talk :
        {r : Iteration A} {rs : List (Iteration A)} {s u t : Incoming} {replies : List Bytes}
        (flag : Bytes) (ks : List Task) (a : Answer)
        → r.shutdown ≡ false
        → r.sendall_outcome ≡ ok tt
        → Message fuel flag ks s u
        → answer python r.worker timeout (payloads ks) (states ks) ≡ ok a
        → length a.payloads ≡ length ks
        → length ks < u16_mod
        → AllWire (with_payloads ks a.payloads)
        → Talk rs u replies t
        → Talk (r ∷ rs) s (message (flag_value a.status) (with_payloads ks a.payloads) ∷ replies) t

  pub record Replied (c : Coordinator) (replies : List Bytes) (t : Incoming)
      (o : Next × Coordinator) : Type 0 where
    pub running : o.0 ≡ again
    pub replied : o.1.written ≡ c.written ++ replies
    pub incoming : o.1.incoming ≡ t
    pub semaphore : o.1.semaphore ≡ c.semaphore

  coordinate_round-idle :
      (r : Iteration A) (c : Coordinator) (s : Incoming)
      → c.incoming ≡ pause ∷ s
      → coordinate_round python timeout fuel r.worker r.sendall_outcome c
        ≡ (again, record c { incoming = s })
  unfolding coordinate_round
  coordinate_round-idle r c s e = rw (e, receive-idle fuel s) refl

  Replied-from :
      (c d : Coordinator) (b : List Bytes) {replies : List Bytes} {t : Incoming}
      {o : Next × Coordinator}
      → d.written ≡ c.written ++ b
      → d.semaphore ≡ c.semaphore
      → Replied d replies t o
      → Replied c (b ++ replies) t o
  Replied-from c d b w p s = record {
    running = s.running;
    replied = s.replied ∙ rw (w, append_assoc) refl;
    incoming = s.incoming;
    semaphore = s.semaphore ∙ p;
  }

  -- As long as no shutdown is asked for, no other thread owes a permit, and each round is either idle
  -- up to the socket's timeout or brings a whole message with its headers in one piece, which the
  -- worker answers with one payload for each task, all of them in the bounds of the format, and
  -- `sendall` takes the reply: then over any number of rounds the loop answers each message with one
  -- reply, in the order in which they came, is still running, and has given back its permits.
  pub coordinate-Replied :
      (rs : List (Iteration A)) (c : Coordinator) {s t : Incoming} {replies : List Bytes}
      → c.incoming ≡ s
      → 1 ≤ c.semaphore
      → Talk rs s replies t
      → Replied c replies t (coordinate python timeout fuel rs c)
  unfolding coordinate
  coordinate-Replied [] c e free over = record {
    running = refl;
    replied = sym (append-nil c.written);
    incoming = e;
    semaphore = refl;
  }
  coordinate-Replied (r ∷ rs) c e free (idle {s = s} on rest) =
      rw (on, coordinate_round-idle r c s e, coordinate_round-idle r c s e)
        (Replied-from c (record c { incoming = s }) [] (sym (append-nil c.written)) refl
          (coordinate-Replied rs (record c { incoming = s }) refl free rest))
  coordinate-Replied (r ∷ rs) c {replies = b ∷ replies} e free
        (talk {u = u} flag ks a on sent m answered n small fits rest) =
      let d : Coordinator = record {
        incoming = u;
        current_ids = ids ks;
        semaphore = c.semaphore;
        written = c.written ++ (message (flag_value a.status) (with_payloads ks a.payloads) ∷ []);
        closed = c.closed;
      } in
      let step : coordinate_round python timeout fuel r.worker r.sendall_outcome c ≡ (again, d) =
        rw sent (
          coordinate_round-Message python timeout fuel r.worker c flag ks a (rw e m) answered n
            small fits free) in
      rw (on, step, step)
        (Replied-from c d (message (flag_value a.status) (with_payloads ks a.payloads) ∷ []) refl
          refl (coordinate-Replied rs d refl free rest))
