-- ===== src/Coordinator/Streaming/Ordered.antt =====
-- The order of stream events and replies of mosec/coordinator.py on the socket.
use mosec.Prelude.{
  ℕ, ◌+◌, ◌-◌, ◌≡◌, refl, sym, ap, ◌∙◌, subst, Bool, true, false, some, List, [], ◌∷◌, ◌++◌,
  if◌then◌else◌, get_elem?, arith, append-nil,
}
use mosec.Errors.{Text, Bytes, Result, ok}
use mosec.Coordinator.Streaming.{
  Frame, event, answer, Streams, send_stream_event, id_at, stream_frame, finish_round, take_event,
  streaming_round, reply_round, Step, emits, streams, replies, Steps, done, next,
}

module _ (encode : Text → Result Bytes) (send : Frame → Result (Unit {0}))
    (sends : (f : Frame) → send f ≡ ok tt) where
  -- Either no event is pending and the semaphore is free, and everything that was asked for is
  -- written; or one event is, the last thing that was asked for, and the semaphore is taken.
  pub data InOrder (s : Streams) (asked : List Frame) : Type 0 where
    idle : s.stream ≡ [] → s.semaphore ≡ 1 → s.is_alive ≡ true → s.written ≡ asked → InOrder s asked
    pending :
        (text : Text) (index : ℕ) (id payload : Bytes)
        → s.stream ≡ (text, index) ∷ []
        → s.semaphore ≡ 0
        → s.is_alive ≡ true
        → encode text ≡ ok payload
        → get_elem? s.current_ids index ≡ some id
        → s.written ++ (event id payload ∷ []) ≡ asked
        → InOrder s asked

  stream_frame-ok :
      (ids : List Bytes) (text : Text) (index : ℕ) (id payload : Bytes)
      → encode text ≡ ok payload
      → get_elem? ids index ≡ some id
      → stream_frame encode send ids text index ≡ ok (event id payload)
  unfolding stream_frame id_at
  stream_frame-ok ids text index id payload e at = rw (e, id_at, at, sends (event id payload)) refl

  streaming_round-finish :
      (s : Streams) (text : Text) (index : ℕ) (id payload : Bytes)
      → s.is_alive ≡ true
      → s.stream ≡ (text, index) ∷ []
      → encode text ≡ ok payload
      → get_elem? s.current_ids index ≡ some id
      → streaming_round encode send s ≡ finish_round (ok (event id payload)) [] s
  unfolding streaming_round take_event
  streaming_round-finish s text index id payload alive one e at =
      by_life s.is_alive _ alive
      ∙ (ap (λ q. take_event encode send q s) one
          ∙ ap (λ r. finish_round r [] s)
              (stream_frame-ok s.current_ids text index id payload e at))
    where
      by_life : (b : Bool) (t : Streams) → b ≡ true → (if b then t else s) ≡ t
      by_life b t h = rw h refl

  streaming_round-idle : (s : Streams) → s.stream ≡ [] → streaming_round encode send s ≡ s
  unfolding streaming_round take_event
  streaming_round-idle s e = by_life s.is_alive _ (ap (λ q. take_event encode send q s) e)
    where
      by_life : (b : Bool) (t : Streams) → t ≡ s → (if b then t else s) ≡ s
      by_life true t h = h
      by_life false t h = refl

  Step-InOrder :
      (s t : Streams) (asked frames : List Frame)
      → InOrder s frames
      → Step encode send s asked t
      → InOrder t (frames ++ asked)
  unfolding send_stream_event reply_round finish_round
  Step-InOrder s _ _ frames (idle q m alive w) (emits text index n id payload h e at) =
      pending text index id payload (ap (λ l. l ++ ((text, index) ∷ [])) q) (ap (λ k. k - 1) m)
        alive e at (ap (λ l. l ++ (event id payload ∷ [])) w)
  Step-InOrder s _ _ frames (pending x i d p q m alive f a w)
        (emits text index n id payload h e at) =
      absurd (omega (arith, h, m))
  Step-InOrder s _ _ frames (idle q m alive w) streams =
      subst (λ u. InOrder u (frames ++ [])) (sym (streaming_round-idle s q))
        (idle q m alive (w ∙ sym (append-nil frames)))
  Step-InOrder s _ _ frames (pending x i d p q m alive f a w) streams =
      subst (λ u. InOrder u (frames ++ [])) (sym (streaming_round-finish s x i d p alive q f a))
        (idle refl (ap (λ k. k + 1) m) alive (w ∙ sym (append-nil frames)))
  Step-InOrder s _ _ frames (idle q m alive w) (replies n next_ids h) =
      idle q (ap (λ k. k - 1 + 1) m) alive (ap (λ l. l ++ (answer s.current_ids ∷ [])) w)
  Step-InOrder s _ _ frames (pending x i d p q m alive f a w) (replies n next_ids h) =
      absurd (omega (arith, h, m))

  -- If every frame can be sent: in any order of the steps of the worker, the streaming thread and the
  -- replies, in which no reply gives up waiting for the semaphore, and from a state in order, what is
  -- on the socket is what was asked for, in the order in which it was, but for at most one event, the
  -- last, which is pending. So a reply is behind all events of its batch.
  pub Steps-InOrder :
      (s t : Streams) (frames : List Frame)
      → InOrder s []
      → Steps encode send s frames t
      → InOrder t frames
  Steps-InOrder s _ _ g done = g
  Steps-InOrder s _ frames g (next asked before steps step e) =
      subst (InOrder _) (sym e)
        (Step-InOrder _ _ asked before (Steps-InOrder s _ before g steps) step)
