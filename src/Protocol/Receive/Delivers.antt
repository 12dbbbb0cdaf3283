-- ===== src/Protocol/Receive/Delivers.antt =====
-- A connection on which whole messages arrive: no fixed-size field is split, payloads may be.
use mosec.Prelude.{
  ℕ, suc, ◌≤◌, ◌≡◌, refl, List, [], ◌∷◌, ◌++◌, arith, length, take-append, drop-append,
}
use mosec.Errors.{Bytes, ok}
use mosec.Protocol.{Task}
use mosec.Protocol.Struct.{
  bytes_u16, bytes_u32, unpack_u16-bytes_u16, unpack_u32-bytes_u32, length-bytes_u16,
  length-bytes_u32,
}
use mosec.Protocol.Socket.{Incoming, push, recv}
use mosec.Protocol.Socket.Arrives.{Arrives}
use mosec.Protocol.Socket.RecvAll.{recv_all-payload}
use mosec.Protocol.Receive.{receive_task, receive_tasks, receive, received}

-- The field `xs` comes in one piece, which may go on behind it.
pub record Whole (xs : Bytes) (s t : Incoming) : Type 0 where
  pub behind : Bytes
  pub others : Incoming
  pub start : s ≡ push (xs ++ behind) others
  pub rest : t ≡ push behind others

pub recv-Whole :
    (n : ℕ) (xs : Bytes) {s t : Incoming}
    → length xs ≡ suc n
    → Whole xs s t
    → recv (suc n) s ≡ (ok xs, t)
unfolding recv
recv-Whole n [] e w = absurd (omega arith)
recv-Whole n (x ∷ xs) e w =
    let m : length xs ≡ n = omega arith in rw (w.start, w.rest, ← m, take-append, drop-append)

-- A task that arrives: its payload in any pieces, at most `fuel` bytes long.
pub record Delivery (fuel : ℕ) (k : Task) (s t : Incoming) : Type 0 where
  pub after_id : Incoming
  pub after_state : Incoming
  pub after_length : Incoming
  pub id_size : length k.id ≡ 4
  pub enough : length k.payload ≤ fuel
  pub id : Whole k.id s after_id
  pub state : Whole (bytes_u16 k.state) after_id after_state
  pub size : Whole (bytes_u32 (length k.payload)) after_state after_length
  pub payload : Arrives after_length k.payload t

pub receive_task-Delivery :
    (fuel : ℕ) (k : Task) {s t : Incoming} → Delivery fuel k s t → receive_task fuel s ≡ (ok k, t)
unfolding receive_task
receive_task-Delivery fuel k d = rw (
  recv-Whole 3 k.id d.id_size d.id,
  recv-Whole 1 (bytes_u16 k.state) (length-bytes_u16 k.state) d.state,
  recv-Whole 3 (bytes_u32 (length k.payload)) (length-bytes_u32 (length k.payload)) d.size,
  unpack_u32-bytes_u32 (length k.payload),
  recv_all-payload fuel k.payload d.payload d.enough,
  unpack_u16-bytes_u16 k.state,
)

pub data Delivers (fuel : ℕ) : List Task → Incoming → Incoming → Type 0 where
  done : {s : Incoming} → Delivers fuel [] s s
  task :
      {k : Task} {ks : List Task} {s t u : Incoming}
      → Delivery fuel k s t
      → Delivers fuel ks t u
      → Delivers fuel (k ∷ ks) s u

pub receive_tasks-Delivers :
    (fuel : ℕ) (ks : List Task) {s t : Incoming}
    → Delivers fuel ks s t
    → receive_tasks fuel (length ks) s ≡ (ok ks, t)
unfolding receive_tasks
receive_tasks-Delivers fuel [] done = refl
receive_tasks-Delivers fuel (k ∷ ks) (task d ds) =
    rw (receive_task-Delivery fuel k d, receive_tasks-Delivers fuel ks ds)

pub record Message (fuel : ℕ) (flag : Bytes) (ks : List Task) (s t : Incoming) : Type 0 where
  pub after_flag : Incoming
  pub after_batch : Incoming
  pub flag_size : length flag ≡ 2
  pub flag_bytes : Whole flag s after_flag
  pub batch_bytes : Whole (bytes_u16 (length ks)) after_flag after_batch
  pub tasks : Delivers fuel ks after_batch t

-- `receive` returns exactly the tasks of a message whose fixed-size fields are not split, with
-- their order, ids, states and payloads, whatever the pieces of the payloads, and reads nothing
-- of what follows the message.
pub receive-Message :
    (fuel : ℕ) (flag : Bytes) (ks : List Task) {s t : Incoming}
    → Message fuel flag ks s t
    → receive fuel s ≡ (ok (received flag ks), t)
unfolding receive
receive-Message fuel flag ks m = rw (
  recv-Whole 1 flag m.flag_size m.flag_bytes,
  recv-Whole 1 (bytes_u16 (length ks)) (length-bytes_u16 (length ks)) m.batch_bytes,
  unpack_u16-bytes_u16 (length ks),
  receive_tasks-Delivers fuel ks m.tasks,
)
