-- ===== src/Redis.antt =====
-- mosec/mixin/redis_worker.py: `RedisShmIPCMixin`, by which the workers of one stage pass data to the
-- next through a Redis server. The client is a parameter; that its URL is not
-- set, or that it cannot be reached, is left out.
pub mod Ids
pub mod Delivers
pub mod Tests
use mosec.Prelude.{
  ℕ, suc, ◌≡◌, ◌≢◌, Bool, true, false, Option, none, some, List, [], ◌∷◌, if◌then◌else◌, ◌==◌,
}
use mosec.Errors.{Bytes, Result, ok, raised, failed, type_error}

-- The commands that the mixin sends: `R` is the state of the server.
pub record Client (R : Type 0) : Type 0 where
  pub incr : Bytes → R → ℕ × R
  pub put : Bytes → Bytes → R → R
  pub get : Bytes → R → Option Bytes
  pub delete : Bytes → R → R

-- What the commands are documented to do, for the counter under `key` and the numbered objects, whose
-- ids `show` writes: `count` is the counter.
pub record IsClient {R : Type 0} (c : Client R) (key : Bytes) (show : ℕ → Bytes) (count : R → ℕ)
    : Type 0 where
  pub show_inj : (m n : ℕ) → show m ≡ show n → m ≡ n
  pub incr-value : (r : R) → (c.incr key r).0 ≡ suc (count r)
  pub count-incr : (r : R) → count (c.incr key r).1 ≡ suc (count r)
  pub get-incr : (n : ℕ) (r : R) → c.get (show n) (c.incr key r).1 ≡ c.get (show n) r
  pub count-put : (n : ℕ) (v : Bytes) (r : R) → count (c.put (show n) v r) ≡ count r
  pub get-put : (i : Bytes) (v : Bytes) (r : R) → c.get i (c.put i v r) ≡ some v
  pub get-put_other : (i j : Bytes) (v : Bytes) (r : R) → i ≢ j → c.get i (c.put j v r) ≡ c.get i r
  pub count-delete : (n : ℕ) (r : R) → count (c.delete (show n) r) ≡ count r
  pub get-delete_other : (i j : Bytes) (r : R) → i ≢ j → c.get i (c.delete j r) ≡ c.get i r

-- The server, and the attribute `_next_id` of each worker: an id is kept as the number that it writes.
pub record Workers (R : Type 0) : Type 0 where
  pub redis : R
  pub next_id : ℕ → Option ℕ

abbrev pub assign : {A : Type 0} → ℕ → A → (ℕ → A) → ℕ → A
assign w v f u = if u == w then v else f u

-- A worker gets ready, stores data, or a worker of the next stage takes the data of an id.
pub data Action : Type 0 where
  prepare : ℕ → Action
  send : ℕ → Bytes → Action
  take : ℕ → Action

-- Workers without an id, at a server.
abbrev pub began : {R : Type 0} → R → Workers R
began redis = record { redis = redis; next_id = λ w. none }

module _ {R : Type 0} (c : Client R) (key : Bytes) (show : ℕ → Bytes) where
  -- `_prepare_next_id` of the worker `w`
  unfoldable pub prepare_next_id : ℕ → Workers R → Workers R
  prepare_next_id w s = elim (s.next_id w) [
    | some n ↦ s
    | none ↦
        let (n, redis) = c.incr key s.redis in
        record { redis = redis; next_id = assign w (some n) s.next_id }
  ]

  -- The transaction of `serialize_ipc`, with the id that it returns; `none` is a worker without an id.
  unfoldable pub store : ℕ → Bytes → Workers R → Option ℕ × Workers R
  store w bytes s = elim (s.next_id w) [
    | none ↦ (none, s)
    | some current_id ↦
        let (n, redis) = c.incr key (c.put (show current_id) bytes s.redis) in
        (some current_id, record { redis = redis; next_id = assign w (some n) s.next_id })
  ]

  unfoldable pub serialize_ipc : ℕ → Bytes → Workers R → Option ℕ × Workers R
  unfolding prepare_next_id store
  serialize_ipc w bytes s = store w bytes (prepare_next_id w s)

  -- The transaction of `deserialize_ipc`, on the number of the id.
  unfoldable pub deserialize_ipc : ℕ → Workers R → Result Bytes × Workers R
  deserialize_ipc n s =
      let after = record s { redis = c.delete (show n) s.redis } in
      elim (c.get (show n) s.redis) [
        | none ↦ (raised (failed type_error), after)
        | some bytes ↦ (ok bytes, after)
      ]

  -- What an action does.
  unfoldable pub perform : Action → Workers R → Workers R
  unfolding prepare_next_id store deserialize_ipc
  perform (prepare w) s = prepare_next_id w s
  perform (send w bytes) s = (store w bytes s).1
  perform (take n) s = (deserialize_ipc n s).1

  unfoldable pub perform_all : List Action → Workers R → Workers R
  unfolding perform
  perform_all [] s = s
  perform_all (a ∷ actions) s = perform_all actions (perform a s)
