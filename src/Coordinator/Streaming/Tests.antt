-- ===== src/Coordinator/Streaming/Tests.antt =====
-- Stream events of mosec/coordinator.py at concrete inputs.
use mosec.Prelude.{◌≡◌, refl, true, false, List, [], ◌∷◌}
use mosec.Errors.{Text, text, Bytes, Result, ok}
use mosec.Coordinator.Streaming.{
  Frame, event, answer, Streams, send_stream_event, id_at, streaming_round, reply_round, emits,
  streams, replies, Steps, done, next,
}
use mosec.Coordinator.Streaming.Ordered.{InOrder, idle, Steps-InOrder}

abbrev encode : Text → Result Bytes
encode t = ok t

abbrev send : Frame → Result (Unit {0})
send f = ok tt

-- A batch of two requests.
abbrev fresh : Streams
fresh = record {
  current_ids = (5 ∷ []) ∷ (6 ∷ []) ∷ [];
  stream = [];
  semaphore = 1;
  is_alive = true;
  written = [];
}

abbrev one_event : Streams
one_event = send_stream_event (text "a") 1 fresh

abbrev streamed : Streams
streamed = streaming_round encode send one_event

abbrev replied : Streams
replied = reply_round true ((7 ∷ []) ∷ []) streamed

abbrev frames : List Frame
frames = event (6 ∷ []) (text "a") ∷ answer ((5 ∷ []) ∷ (6 ∷ []) ∷ []) ∷ []

-- An event for the second request, which the thread sends, and the reply.
replied-Steps : Steps encode send fresh frames replied
unfolding send_stream_event streaming_round reply_round id_at
replied-Steps =
    next {t = streamed} (answer ((5 ∷ []) ∷ (6 ∷ []) ∷ []) ∷ []) (event (6 ∷ []) (text "a") ∷ [])
      (next {t = one_event} [] (event (6 ∷ []) (text "a") ∷ [])
        (next {t = fresh} (event (6 ∷ []) (text "a") ∷ []) [] done
          (emits {s = fresh} (text "a") 1 0 (6 ∷ []) (text "a") refl refl refl) refl)
        (streams {s = one_event}) refl)
      (replies {s = streamed} 0 ((7 ∷ []) ∷ []) refl) refl

Steps-InOrder_example : InOrder encode send (λ f. refl) replied frames
Steps-InOrder_example =
    Steps-InOrder encode send (λ f. refl) fresh replied frames (idle refl refl refl refl)
      replied-Steps

-- An event for a request that is not in the batch ends the thread, and the semaphore stays taken.
wrong_index :
    streaming_round encode send (send_stream_event (text "a") 2 fresh)
    ≡ record fresh { semaphore = 0; is_alive = false }
unfolding send_stream_event streaming_round id_at
wrong_index = refl
