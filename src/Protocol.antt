-- ===== src/Protocol.antt =====
-- mosec/protocol.py: the tasks that the server and a worker exchange.
pub mod Struct
pub mod Socket
pub mod Receive
pub mod Send
pub mod RoundTrip
pub mod Tests
use mosec.Prelude.{ℕ, zero, ◌+◌, ◌*◌, List, [], ◌∷◌, map, length}
use mosec.Errors.{Bytes}

-- 1 MB
abbrev pub ipc_large_data_size : ℕ
ipc_large_data_size = 1024 * 1024

-- One entry of the parallel lists `ids`, `states` and `payloads`.
pub record Task : Type 0 where
  pub id : Bytes
  pub state : ℕ
  pub payload : Bytes

abbrev pub total_bytes : List Task → ℕ
total_bytes [] = 0
total_bytes (k ∷ ks) = length k.payload + total_bytes ks

abbrev pub ids : List Task → List Bytes
ids ks = map (λ k. k.id) ks

abbrev pub states : List Task → List ℕ
states ks = map (λ k. k.state) ks

abbrev pub payloads : List Task → List Bytes
payloads ks = map (λ k. k.payload) ks
