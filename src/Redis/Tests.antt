-- ===== src/Redis/Tests.antt =====
-- mosec/mixin/redis_worker.py with a small server: a counter, and objects as a function of the id.
use mosec.Prelude.{
  ℕ, suc, ◌≡◌, ◌≢◌, refl, Option, none, some, List, [], ◌∷◌, if◌then◌else◌, Bool-cases, inl, inr,
}
use mosec.Prelude.Eq.{◌===◌, nat_eq, list_eq}
use mosec.Errors.{Bytes, ok, raised, failed, type_error}
use mosec.Redis.{
  Client, IsClient, prepare_next_id, store, serialize_ipc, deserialize_ipc, Action, prepare, send,
  take, began, perform_all,
}
use mosec.Redis.Delivers.{perform_all-delivers}

abbrev Store : Type 0
Store = ℕ × (Bytes → Option Bytes)

abbrev client : Client Store
client = record {
  incr = λ k s. (suc s.0, (suc s.0, s.1));
  put = λ i v s. (s.0, λ j. if i === j then some v else s.1 j);
  get = λ i s. s.1 i;
  delete = λ i s. (s.0, λ j. if i === j then none else s.1 j);
}

abbrev show : ℕ → Bytes
show n = n ∷ []

abbrev key : Bytes
key = 0 ∷ 0 ∷ []

same : (i : Bytes) (x y : Option Bytes) → (if i === i then x else y) ≡ x
same i x y = rw ((list_eq.beq_iff i i).1 refl) refl

other : (i j : Bytes) (x y : Option Bytes) → i ≢ j → (if j === i then x else y) ≡ y
other i j x y n = elim (Bool-cases (j === i)) [
  | inl e ↦ absurd (n (let f : j ≡ i = (list_eq.beq_iff j i).0 e in cc))
  | inr e ↦ rw e refl
]

client-IsClient : IsClient client key show (λ s. s.0)
client-IsClient = record {
  show_inj = λ m n e. cc;
  incr-value = λ r. refl;
  count-incr = λ r. refl;
  get-incr = λ n r. refl;
  count-put = λ n v r. refl;
  get-put = λ i v r. same i (some v) (r.1 i);
  get-put_other = λ i j v r n. other i j (some v) (r.1 i) n;
  count-delete = λ n r. refl;
  get-delete_other = λ i j r n. other i j none (r.1 i) n;
}

-- Two workers store, the first twice, and behind that one more, before the first object is taken.
abbrev before_it : List Action
before_it = prepare 0 ∷ prepare 1 ∷ send 1 (7 ∷ []) ∷ send 0 (8 ∷ []) ∷ []

abbrev behind : List Action
behind = send 1 (6 ∷ []) ∷ send 0 (5 ∷ []) ∷ take 2 ∷ []

abbrev nothing : Store
nothing = (0, λ i. none)

perform_all-delivers_example :
    (deserialize_ipc client key show 4 (
      perform_all client key show
        (send 0 (9 ∷ []) ∷ behind)
        (perform_all client key show before_it (began nothing)))).0
    ≡ ok (9 ∷ [])
unfolding perform_all prepare_next_id store
perform_all-delivers_example =
    perform_all-delivers client key show (λ s. s.0) client-IsClient nothing before_it behind 0 4
      (9 ∷ []) refl ((λ e. cc), tt)

-- An object is delivered once.
taken :
    (deserialize_ipc client key show 2 (
      perform_all client key show behind (perform_all client key show before_it (began nothing)))).0
    ≡ raised (failed type_error)
unfolding perform_all prepare_next_id store deserialize_ipc
taken = refl

first_id : (serialize_ipc client key show 0 (7 ∷ []) (began nothing)).0 ≡ some 1
unfolding serialize_ipc
first_id = refl
