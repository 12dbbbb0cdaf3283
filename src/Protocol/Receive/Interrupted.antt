-- ===== src/Protocol/Receive/Interrupted.antt =====
-- What `Protocol.receive` does when the peer stops in the middle of a payload.
use mosec.Prelude.{refl, ℕ, zero, suc, arith, ◌+◌, ◌≤◌, ◌<◌, ◌≡◌, List, [], ◌∷◌, length}
use mosec.Errors.{struct_error, Bytes, raised, failed, diverged, socket_timeout}
use mosec.Protocol.{Task}
use mosec.Protocol.Struct.{
  unpack_u16, bytes_u16, bytes_u32, unpack_u16-bytes_u16, unpack_u32-bytes_u32, length-bytes_u16,
  length-bytes_u32,
}
use mosec.Protocol.Socket.{recv, pause, Incoming}
use mosec.Protocol.Socket.Arrives.{Arrives}
use mosec.Protocol.Socket.RecvAll.{recv_all-pause, recv_all-closed}
use mosec.Protocol.Receive.{receive_task, receive_tasks, receive}
use mosec.Protocol.Receive.Delivers.{Whole, recv-Whole, Delivers, done, task, receive_task-Delivery}

-- The header of a task arrives, and then `part` of the `size` bytes that it announces.
pub record Begun (id : Bytes) (state size : ℕ) (part : Bytes) (s t : Incoming) : Type 0 where
  pub after_id : Incoming
  pub after_state : Incoming
  pub after_length : Incoming
  pub id_size : length id ≡ 4
  pub short : length part < size
  pub id_bytes : Whole id s after_id
  pub state_bytes : Whole (bytes_u16 state) after_id after_state
  pub size_bytes : Whole (bytes_u32 size) after_state after_length
  pub payload : Arrives after_length part t

-- A message of `ks`, of the task that is cut off, and of `others` that are still to come.
pub record Partial (fuel others : ℕ) (flag : Bytes) (ks : List Task) (id : Bytes) (state size : ℕ)
    (part : Bytes) (s t : Incoming) : Type 0 where
  pub after_flag : Incoming
  pub after_batch : Incoming
  pub after_tasks : Incoming
  pub flag_size : length flag ≡ 2
  pub flag_bytes : Whole flag s after_flag
  pub batch_bytes : Whole (bytes_u16 (length ks + suc others)) after_flag after_batch
  pub tasks : Delivers fuel ks after_batch after_tasks
  pub begun : Begun id state size part after_tasks t

-- A connection on which nothing comes in time.
pub receive-idle :
    (fuel : ℕ) (s : Incoming) → receive fuel (pause ∷ s) ≡ (raised (failed socket_timeout), s)
unfolding receive recv
receive-idle fuel s = refl

-- A peer that has closed before a message: the batch size cannot be unpacked.
pub receive-gone : (fuel : ℕ) → receive fuel [] ≡ (raised (failed struct_error), [])
unfolding receive recv unpack_u16
receive-gone fuel = refl

module _ (fuel : ℕ) {id : Bytes} {state size : ℕ} {part : Bytes} where
  receive_task-pause :
      {s t : Incoming}
      → size ≤ fuel
      → Begun id state size part s (pause ∷ t)
      → receive_task fuel s ≡ (raised (failed socket_timeout), t)
  unfolding receive_task
  receive_task-pause h b = rw (
    recv-Whole 3 id b.id_size b.id_bytes,
    recv-Whole 1 (bytes_u16 state) (length-bytes_u16 state) b.state_bytes,
    recv-Whole 3 (bytes_u32 size) (length-bytes_u32 size) b.size_bytes,
    unpack_u32-bytes_u32 size,
    recv_all-pause fuel size part b.payload b.short h,
  )

  receive_task-closed :
      {s : Incoming} → Begun id state size part s [] → (receive_task fuel s).0 ≡ diverged
  unfolding receive_task
  receive_task-closed {s} b =
      rw
        (
          recv-Whole 3 id b.id_size b.id_bytes,
          recv-Whole 1 (bytes_u16 state) (length-bytes_u16 state) b.state_bytes,
          recv-Whole 3 (bytes_u32 size) (length-bytes_u32 size) b.size_bytes,
          unpack_u32-bytes_u32 size,
        )
        (rw (recv_all-closed fuel size part b.payload b.short))

  receive_tasks-pause :
      (batch_size : ℕ) (ks : List Task) {s t u : Incoming}
      → length ks < batch_size
      → size ≤ fuel
      → Delivers fuel ks s t
      → Begun id state size part t (pause ∷ u)
      → receive_tasks fuel batch_size s ≡ (raised (failed socket_timeout), u)
  unfolding receive_tasks
  receive_tasks-pause zero ks n h ds b = absurd (omega arith)
  receive_tasks-pause (suc batch_size) [] n h done b = rw (receive_task-pause h b)
  receive_tasks-pause (suc batch_size) (k ∷ ks) n h (task d ds) b =
      rw (receive_task-Delivery fuel k d, receive_tasks-pause batch_size ks (omega arith) h ds b)

  receive_tasks-closed :
      (batch_size : ℕ) (ks : List Task) {s t : Incoming}
      → length ks < batch_size
      → Delivers fuel ks s t
      → Begun id state size part t []
      → (receive_tasks fuel batch_size s).0 ≡ diverged
  unfolding receive_tasks
  receive_tasks-closed zero ks n ds b = absurd (omega arith)
  receive_tasks-closed (suc batch_size) [] n done b = rw (receive_task-closed b)
  receive_tasks-closed (suc batch_size) (k ∷ ks) n (task d ds) b =
      rw (receive_task-Delivery fuel k d)
        (rw (receive_tasks-closed batch_size ks (omega arith) ds b))

  -- A payload that is cut off by a pause longer than the socket's timeout, after any number of
  -- whole tasks: `receive` raises the timeout, and the connection stands in the middle of that
  -- payload. What was read of the message is in no result, and the next `receive` takes what is
  -- left of the payload for a header.
  pub receive-pause :
      (others : ℕ) (flag : Bytes) (ks : List Task) {s u : Incoming}
      → size ≤ fuel
      → Partial fuel others flag ks id state size part s (pause ∷ u)
      → receive fuel s ≡ (raised (failed socket_timeout), u)
  unfolding receive
  receive-pause others flag ks h p = rw (
    recv-Whole 1 flag p.flag_size p.flag_bytes,
    recv-Whole 1 (bytes_u16 (length ks + suc others)) (length-bytes_u16 _) p.batch_bytes,
    unpack_u16-bytes_u16 (length ks + suc others),
    receive_tasks-pause (length ks + suc others) ks (omega arith) h p.tasks p.begun,
  )

  -- The same message, where the peer closes the connection instead: `receive` never returns.
  pub receive-closed :
      (others : ℕ) (flag : Bytes) (ks : List Task) {s : Incoming}
      → Partial fuel others flag ks id state size part s []
      → (receive fuel s).0 ≡ diverged
  unfolding receive
  receive-closed others flag ks p =
      rw
        (
          recv-Whole 1 flag p.flag_size p.flag_bytes,
          recv-Whole 1 (bytes_u16 (length ks + suc others)) (length-bytes_u16 _) p.batch_bytes,
          unpack_u16-bytes_u16 (length ks + suc others),
        )
        (rw (receive_tasks-closed (length ks + suc others) ks (omega arith) p.tasks p.begun))
