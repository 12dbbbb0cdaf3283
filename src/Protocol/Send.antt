-- ===== src/Protocol/Send.antt =====
-- `Protocol.send` of mosec/protocol.py: the buffer that it hands to `sendall`, or what it raises
-- before it writes a byte.
pub mod Format
use mosec.Prelude.{
  ℕ, ◌<◌, ◌≡◌, List, [], ◌∷◌, ◌++◌, map, arith, leb, ◌==◌, if◌then◌else◌, length, length-map,
}
use mosec.Errors.{Bytes, Result, ok, raised, failed, value_error, struct_error, ◌>>=◌}
use mosec.Protocol.{Task}
use mosec.Protocol.Struct.{
  u16_mod, u32_mod, bytes_u16, bytes_u32, pack_u16, pack_u32, pack_u16-ok, pack_u32-ok,
}

-- The loop over `zip(ids, states, payloads, strict=True)`.
pub write_tasks : List Bytes → List ℕ → List Bytes → Result Bytes
unfolding pack_u16 pack_u32
write_tasks [] [] [] = ok []
write_tasks (task_id ∷ ids) (state ∷ states) (payload ∷ payloads) = do
  state_bytes ← pack_u16 state
  length_bytes ← pack_u32 (length payload)
  rest ← write_tasks ids states payloads
  ok (task_id ++ (state_bytes ++ (length_bytes ++ (payload ++ rest))))
write_tasks _ _ _ = raised (failed value_error)

write_batch : List Bytes → List ℕ → List Bytes → Result Bytes
unfolding write_tasks
write_batch ids states payloads = do
  count_bytes ← pack_u16 (length ids)
  body ← if leb 1 (length ids) then write_tasks ids states payloads else ok []
  ok (count_bytes ++ body)

pub send : ℕ → List Bytes → List ℕ → List Bytes → Result Bytes
unfolding write_batch
send flag ids states payloads = do
  flag_bytes ← pack_u16 flag
  batch ←
      if length ids == length payloads
      then write_batch ids states payloads
      else raised (failed value_error)
  ok (flag_bytes ++ batch)
