-- ===== src/Coordinator/Streaming.antt =====
-- Stream events: `SSEWorker.send_stream_event` of mosec/worker.py, the thread `Coordinator.streaming`
-- and the reply of `coordinate` of mosec/coordinator.py, which share a queue and a semaphore. A step is
-- a part of one thread that no other thread can see half done.
pub mod Ordered
pub mod Tests
use mosec.Prelude.{
  ℕ, suc, ◌+◌, ◌-◌, ◌≡◌, Bool, true, false, Option, none, some, List, [], ◌∷◌, ◌++◌, if◌then◌else◌,
  get_elem?, ◌==◌,
}
use mosec.Errors.{Text, Bytes, Result, ok, raised, diverged, failed, index_error, ◌>>=◌}

-- What is written to the socket.
pub data Frame : Type 0 where
  event : Bytes → Bytes → Frame
  answer : List Bytes → Frame

-- `current_ids`, the queue of events, the semaphore, whether the thread is alive, and the frames that
-- were written.
pub record Streams : Type 0 where
  pub current_ids : List Bytes
  pub stream : List (Text × ℕ)
  pub semaphore : ℕ
  pub is_alive : Bool
  pub written : List Frame

-- Behind the acquisition, which waits until the semaphore is positive.
unfoldable pub send_stream_event : Text → ℕ → Streams → Streams
send_stream_event text index s = record s {
  semaphore = s.semaphore - 1;
  stream = s.stream ++ ((text, index) ∷ []);
}

-- `current_ids[index]`
unfoldable pub id_at : List Bytes → ℕ → Result Bytes
id_at ids index = elim (get_elem? ids index) [
  | none ↦ raised (failed index_error)
  | some id ↦ ok id
]

-- A round of the loop with what it has made of the first event; an exception ends the thread.
unfoldable pub finish_round : Result Frame → List (Text × ℕ) → Streams → Streams
finish_round (ok frame) rest s = record s {
  stream = rest;
  written = s.written ++ (frame ∷ []);
  semaphore = s.semaphore + 1;
}
finish_round (raised e) rest s = record s { stream = rest; is_alive = false }
finish_round diverged rest s = s

-- `encode` is `str.encode`, and `send` the `send` of the protocol.
module _ (encode : Text → Result Bytes) (send : Frame → Result (Unit {0})) where
  unfoldable pub stream_frame : List Bytes → Text → ℕ → Result Frame
  unfolding id_at
  stream_frame ids text index = do
    payload ← encode text
    id ← id_at ids index
    _ ← send (event id payload)
    ok (event id payload)

  unfoldable pub take_event : List (Text × ℕ) → Streams → Streams
  unfolding stream_frame finish_round
  take_event [] s = s
  take_event ((text, index) ∷ rest) s = finish_round (stream_frame s.current_ids text index) rest s

  unfoldable pub streaming_round : Streams → Streams
  unfolding take_event
  streaming_round s = if s.is_alive then take_event s.stream s else s

-- The end of a round of `coordinate` behind the acquisition of the semaphore, if `acquired`, or behind
-- its timeout: the reply is sent and the semaphore released. Then the next batch is received.
unfoldable pub reply_round : Bool → List Bytes → Streams → Streams
reply_round acquired next_ids s = record s {
  written = s.written ++ (answer s.current_ids ∷ []);
  semaphore = (if acquired then s.semaphore - 1 else s.semaphore) + 1;
  current_ids = next_ids;
}

-- The steps without a timeout of the semaphore, each with the frame that it asks for: an event for a
-- request of the batch, with a text that can be encoded, or a reply.
pub data Step (encode : Text → Result Bytes) (send : Frame → Result (Unit {0}))
    : Streams → List Frame → Streams → Type 0 where
  emits :
      {s : Streams} (text : Text) (index n : ℕ) (id payload : Bytes)
      → s.semaphore ≡ suc n
      → encode text ≡ ok payload
      → get_elem? s.current_ids index ≡ some id
      → Step encode send s (event id payload ∷ []) (send_stream_event text index s)
  streams : {s : Streams} → Step encode send s [] (streaming_round encode send s)
  replies :
      {s : Streams} (n : ℕ) (next_ids : List Bytes)
      → s.semaphore ≡ suc n
      → Step encode send s (answer s.current_ids ∷ []) (reply_round true next_ids s)

pub data Steps (encode : Text → Result Bytes) (send : Frame → Result (Unit {0}))
    : Streams → List Frame → Streams → Type 0 where
  done : {s : Streams} → Steps encode send s [] s
  next :
      {s t u : Streams} {all : List Frame} (asked frames : List Frame)
      → Steps encode send s frames t
      → Step encode send t asked u
      → all ≡ frames ++ asked
      → Steps encode send s all u
