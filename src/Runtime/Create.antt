-- ===== src/Runtime/Create.antt =====
-- The creation of a `Runtime` of mosec/runtime.py, with the validation of mosec/env.py. What is
-- validated has the type that the signature asks for.
use mosec.Prelude.{
  ℕ, suc, ◌≡◌, refl, sym, subst, ap, ◌∙◌, Bool, true, false, Option, none, some, List,
  if◌then◌else◌, length, length-replicate, replicate, ◌==◌, ==_iff, Bool-cases, inl, inr, ◌⊎◌,
}
use mosec.Prelude.Eq.{◌===◌, nat_eq, list_eq}
use mosec.Prelude.Int.{ℤ, pos, negsuc, at_least, to_nat}
use mosec.Prelude.Dict.{Dict}
use mosec.Errors.{Text, text, Result, ok, raised, failed, assertion_error, ◌>>=◌, >>=-eq-ok}
use mosec.Runtime.{WorkerClass, Runtime}

abbrev pub assert_that : Bool → Result (Unit {0})
assert_that b = if b then ok tt else raised (failed assertion_error)

-- `validate_int_ge` and `validate_float_ge`
unfoldable pub validate_ge : ℤ → ℕ → Result (Unit {0})
validate_ge number threshold = assert_that (at_least threshold number)

-- `len(env) == num`
abbrev pub has_size : ℤ → ℕ → Bool
has_size (pos n) size = size == n
has_size (negsuc n) size = false

unfoldable pub validate_env : Option (List (Dict Text Text)) → ℤ → Result (Unit {0})
validate_env none num = ok tt
validate_env (some env) num = assert_that (has_size num (length env))

-- `NEW_PROCESS_METHOD`
abbrev pub is_process_method : Text → Bool
is_process_method method = if method === text "spawn" then true else method === text "fork"

unfoldable pub validate : Runtime Text → Result (Unit {0})
unfolding validate_ge validate_env
validate r = do
  _ ← validate_env r.env r.num
  _ ← assert_that r.worker.is_worker
  _ ← validate_ge r.num 1
  _ ← validate_ge r.max_batch_size 1
  _ ← validate_ge r.max_wait_time 0
  _ ← validate_ge r.timeout_sec 0
  assert_that (is_process_method r.start_method)

-- The arguments of `Runtime(...)`.
pub record Arguments : Type 0 where
  pub worker : WorkerClass Text
  pub num : ℤ
  pub max_batch_size : ℤ
  pub max_wait_time : ℤ
  pub timeout : ℤ
  pub start_method : Text
  pub env : Option (List (Dict Text Text))

-- The attributes that `Runtime.__init__` sets; the name is that of the class with the stage id.
abbrev pub new_runtime : Arguments → ℕ → Runtime Text
new_runtime a stage_id = record {
  stage_id = suc stage_id;
  worker = a.worker;
  num = a.num;
  max_batch_size = a.max_batch_size;
  max_wait_time = a.max_wait_time;
  timeout_sec = a.timeout;
  start_method = a.start_method;
  env = a.env;
  pool = replicate (to_nat a.num) none;
}

-- `Runtime.__init__`, on the class attribute `_stage_id`, which counts also the creations that fail.
unfoldable pub create_runtime : Arguments → ℕ → Result (Runtime Text) × ℕ
unfolding validate
create_runtime a stage_id =
    (validate (new_runtime a stage_id) >>= λ _. ok (new_runtime a stage_id), suc stage_id)

-- `_align_timeout_wait`: a timeout and a wait that are not positive are taken from the options.
unfoldable pub align_timeout_wait : ℤ → ℤ → Runtime Text → Runtime Text
align_timeout_wait timeout_sec max_wait_time r = record r {
  timeout_sec = if at_least 1 r.timeout_sec then r.timeout_sec else timeout_sec;
  max_wait_time = if at_least 1 r.max_wait_time then r.max_wait_time else max_wait_time;
}

-- What a validated runtime has.
pub record IsValid (r : Runtime Text) : Type 0 where
  pub worker : r.worker.is_worker ≡ true
  pub num : at_least 1 r.num ≡ true
  pub max_batch_size : at_least 1 r.max_batch_size ≡ true
  pub max_wait_time : at_least 0 r.max_wait_time ≡ true
  pub timeout_sec : at_least 0 r.timeout_sec ≡ true
  pub start_method : (r.start_method ≡ text "spawn") ⊎ (r.start_method ≡ text "fork")
  pub env : (env : List (Dict Text Text)) → r.env ≡ some env → pos (length env) ≡ r.num
  pub pool : pos (length r.pool) ≡ r.num

assert_that-ok : (b : Bool) {u : Unit {0}} → assert_that b ≡ ok u → b ≡ true
assert_that-ok true h = refl
assert_that-ok false h = cc

has_size-eq : (num : ℤ) (size : ℕ) → has_size num size ≡ true → pos size ≡ num
has_size-eq (pos n) size h = ap pos ((==_iff size n).0 h)
has_size-eq (negsuc n) size h = cc

to_nat-pos : (num : ℤ) → at_least 1 num ≡ true → pos (to_nat num) ≡ num
to_nat-pos (pos n) h = refl
to_nat-pos (negsuc n) h = cc

validate_env-size :
    (env : Option (List (Dict Text Text))) (num : ℤ) {u : Unit {0}}
    → validate_env env num ≡ ok u
    → (vs : List (Dict Text Text)) → env ≡ some vs
    → pos (length vs) ≡ num
unfolding validate_env
validate_env-size none num h vs e = cc
validate_env-size (some env) num h vs e =
    has_size-eq num (length vs) (rw (some_inj e) at (assert_that-ok (has_size num (length env)) h))
  where
    some_inj : {A : Type 0} {a b : A} → some a ≡ some b → a ≡ b
    some_inj e = cc

is_process_method-cases :
    (m : Text) → is_process_method m ≡ true → (m ≡ text "spawn") ⊎ (m ≡ text "fork")
is_process_method-cases m h = elim (Bool-cases (m === text "spawn")) [
  | inl same ↦ inl ((list_eq.beq_iff m (text "spawn")).0 same)
  | inr other ↦ inr ((list_eq.beq_iff m (text "fork")).0 (rw other at h))
]

validate-IsValid :
    (r : Runtime Text) {u : Unit {0}}
    → validate r ≡ ok u
    → r.pool ≡ replicate (to_nat r.num) none
    → IsValid r
unfolding validate validate_ge
validate-IsValid r h p =
    let (_, env, h1) = >>=-eq-ok (validate_env r.env r.num) _ h in
    let (_, worker, h2) = >>=-eq-ok (assert_that r.worker.is_worker) _ h1 in
    let (_, num, h3) = >>=-eq-ok (assert_that (at_least 1 r.num)) _ h2 in
    let (_, batch, h4) = >>=-eq-ok (assert_that (at_least 1 r.max_batch_size)) _ h3 in
    let (_, wait, h5) = >>=-eq-ok (assert_that (at_least 0 r.max_wait_time)) _ h4 in
    let (_, time, h6) = >>=-eq-ok (assert_that (at_least 0 r.timeout_sec)) _ h5 in
    record {
      worker = assert_that-ok r.worker.is_worker worker;
      num = assert_that-ok (at_least 1 r.num) num;
      max_batch_size = assert_that-ok (at_least 1 r.max_batch_size) batch;
      max_wait_time = assert_that-ok (at_least 0 r.max_wait_time) wait;
      timeout_sec = assert_that-ok (at_least 0 r.timeout_sec) time;
      start_method =
          is_process_method-cases r.start_method
            (assert_that-ok (is_process_method r.start_method) h6);
      env = validate_env-size r.env r.num env;
      pool =
          ap pos (ap length p ∙ length-replicate (to_nat r.num) none)
          ∙ to_nat-pos r.num (assert_that-ok (at_least 1 r.num) num);
    }

-- A runtime that is created has passed each check: at least one worker and a batch size of at least
-- one, no negative duration, a known start method, as many environments as workers, if any, and a
-- pool with a place for each worker. It has a new stage id.
pub create_runtime-IsValid :
    (a : Arguments) (stage_id : ℕ) (r : Runtime Text)
    → (create_runtime a stage_id).0 ≡ ok r
    → IsValid r × (r.stage_id ≡ (create_runtime a stage_id).1)
unfolding create_runtime
create_runtime-IsValid a stage_id r h =
    let (_, valid, e) =
      >>=-eq-ok (validate (new_runtime a stage_id)) (λ _. ok (new_runtime a stage_id)) h in
    let same = ok_inj e in
    (
      subst IsValid same (validate-IsValid (new_runtime a stage_id) valid refl),
      ap (λ q. q.stage_id) (sym same),
    )
  where
    ok_inj : {A : Type 0} {a b : A} → ok a ≡ ok b → a ≡ b
    ok_inj e = cc
