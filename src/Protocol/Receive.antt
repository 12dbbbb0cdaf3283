-- ===== src/Protocol/Receive.antt =====
-- `Protocol.receive` of mosec/protocol.py. Log lines are left out.
pub mod Delivers
pub mod Interrupted
use mosec.Prelude.{ℕ, zero, suc, Bool, List, [], ◌∷◌, map, ltb}
use mosec.Errors.{Bytes}
use mosec.Protocol.{Task, ids, states, payloads, total_bytes, ipc_large_data_size}
use mosec.Protocol.Struct.{unpack_u16, unpack_u32}
use mosec.Protocol.Socket.{Recv, pure, lift, ◌>>=◌, recv, recv_all}

-- What `receive` returns, and whether it warns about large data.
pub record Received : Type 0 where
  pub flag : Bytes
  pub ids : List Bytes
  pub states : List ℕ
  pub payloads : List Bytes
  pub large : Bool

abbrev pub received : Bytes → List Task → Received
received flag ks = record {
  flag = flag;
  ids = ids ks;
  states = states ks;
  payloads = payloads ks;
  large = ltb ipc_large_data_size (total_bytes ks);
}

-- The body of the `while batch_size > 0` loop; the state is unpacked after the payload is read.
pub receive_task : ℕ → Recv Task
unfolding recv recv_all unpack_u16 unpack_u32
receive_task fuel = do
  id_bytes ← recv 4
  state_bytes ← recv 2
  length_bytes ← recv 4
  size ← lift (unpack_u32 length_bytes)
  payload ← recv_all fuel size
  state ← lift (unpack_u16 state_bytes)
  pure (record { id = id_bytes; state = state; payload = payload })

-- The loop, on the batch size that is left.
pub receive_tasks : ℕ → ℕ → Recv (List Task)
unfolding receive_task
receive_tasks fuel zero = pure []
receive_tasks fuel (suc batch_size) = do
  k ← receive_task fuel
  ks ← receive_tasks fuel batch_size
  pure (k ∷ ks)

-- `fuel` bounds the rounds of each `_recv_all`.
pub receive : ℕ → Recv Received
unfolding receive_tasks
receive fuel = do
  flag ← recv 2
  batch_size_bytes ← recv 2
  batch_size ← lift (unpack_u16 batch_size_bytes)
  ks ← receive_tasks fuel batch_size
  pure (received flag ks)
