-- ===== src/Server/Tests.antt =====
-- The server of mosec/server.py at concrete inputs.
use mosec.Prelude.{
  arith, ◌≡◌, refl, ◌∙◌, Bool, true, false, none, List, [], ◌∷◌, map, if◌then◌else◌, ◌==◌, ==_iff,
  Bool-cases, inl, inr,
}
use mosec.Prelude.Eq.{nat_eq, list_eq}
use mosec.Prelude.Int.{pos}
use mosec.Prelude.Dict.{append_at}
use mosec.Errors.{Text, text, ok, raised, failed, value_error}
use mosec.Runtime.{Runtime}
use mosec.Runtime.Create.{Arguments, new_runtime, align_timeout_wait}
use mosec.Server.{Server, Router, append_worker, register_runtime, worker_arguments}
use mosec.Server.Routes.{IsOneOf, Distinct, IsSound, Proper}
use mosec.Server.Routes.Append.{Appended, append_worker-IsSound}
use mosec.Server.Routes.Register.{IsSetOrder, register_runtime-IsSound}

abbrev empty_server : Server
empty_server = record {
  configs = record { timeout = pos 3000; wait = pos 10; dry_run = false };
  router = [];
  runtimes = [];
  stage_id = 0;
}

abbrev empty-IsSound : IsSound empty_server
empty-IsSound = record { proper = tt; backed = tt; below = tt; distinct = tt }

abbrev arguments : Arguments
arguments = record {
  worker = record {
    name = text "Adder";
    is_worker = true;
    is_sse = false;
    is_typed = false;
    req_mime_type = text "a";
    resp_mime_type = text "b";
  };
  num = pos 1;
  max_batch_size = pos 8;
  max_wait_time = pos 0;
  timeout = pos 0;
  start_method = text "spawn";
  env = none;
}

abbrev route : List Text
route = text "/inference" ∷ text "/add" ∷ []

append_worker-IsSound_example :
    ((append_worker arguments route empty_server).0 ≡ ok tt
      → Appended empty_server (append_worker arguments route empty_server).1)
    × Proper (append_worker arguments route empty_server).1.router
append_worker-IsSound_example = append_worker-IsSound arguments route empty_server empty-IsSound

abbrev stage : Runtime Text
stage = new_runtime (worker_arguments empty_server.configs arguments) 0

abbrev served : Server
served = record empty_server {
  router = (text "/inference", stage ∷ []) ∷ (text "/add", stage ∷ []) ∷ [];
  runtimes = stage ∷ [];
  stage_id = 1;
}

appends : append_worker arguments route empty_server ≡ (ok tt, served)
unfolding append_worker worker_arguments append_at
appends = refl

-- The endpoint before the reserved one stays registered, to a stage that is not managed.
half_registered : append_worker arguments (text "/add" ∷ text "/metrics" ∷ []) empty_server ≡ (
  raised (failed value_error),
  record empty_server { router = (text "/add", stage ∷ []) ∷ []; stage_id = 1 },
)
unfolding append_worker worker_arguments append_at
half_registered = refl

-- A set that is iterated from the back, where each element was added last.
abbrev holds : Runtime Text → List (Runtime Text) → Bool
holds x [] = false
holds x (r ∷ rs) = if r.stage_id == x.stage_id then true else holds x rs

abbrev dedup : List (Runtime Text) → List (Runtime Text)
dedup [] = []
dedup (r ∷ rs) = if holds r (dedup rs) then dedup rs else r ∷ dedup rs

holds-IsOneOf : (x : Runtime Text) (rs : List (Runtime Text)) → holds x rs ≡ true → IsOneOf x rs
holds-IsOneOf x [] h = cc
holds-IsOneOf x (r ∷ rs) h = elim (Bool-cases (r.stage_id == x.stage_id)) [
  | inl same ↦ inl ((==_iff r.stage_id x.stage_id).0 same)
  | inr other ↦ inr (holds-IsOneOf x rs (rw other at h))
]

IsOneOf-holds : (x : Runtime Text) (rs : List (Runtime Text)) → IsOneOf x rs → holds x rs ≡ true
IsOneOf-holds x [] m = elim m [ ]
IsOneOf-holds x (r ∷ rs) (inl e) = rw ((==_iff r.stage_id x.stage_id).1 e) refl
IsOneOf-holds x (r ∷ rs) (inr m) = elim (Bool-cases (r.stage_id == x.stage_id)) [
  | inl same ↦ rw same refl
  | inr other ↦ rw other (IsOneOf-holds x rs m)
]

same_object :
    (x r : Runtime Text) (rs : List (Runtime Text))
    → r.stage_id ≡ x.stage_id
    → IsOneOf r rs
    → IsOneOf x rs
same_object x r [] e m = m
same_object x r (q ∷ rs) e (inl f) = inl (f ∙ e)
same_object x r (q ∷ rs) e (inr m) = inr (same_object x r rs e m)

dedup-has_all : (rs : List (Runtime Text)) (x : Runtime Text) → IsOneOf x rs → IsOneOf x (dedup rs)
dedup-has_all [] x m = m
dedup-has_all (r ∷ rs) x m = elim (Bool-cases (holds r (dedup rs))) [
  | inl there ↦ rw there (elim m [
    | inl e ↦ same_object x r (dedup rs) e (holds-IsOneOf r (dedup rs) there)
    | inr n ↦ dedup-has_all rs x n
  ])
  | inr new ↦ rw new (elim m [ inl e ↦ inl e | inr n ↦ inr (dedup-has_all rs x n) ])
]

dedup-has_only : (rs : List (Runtime Text)) (x : Runtime Text) → IsOneOf x (dedup rs) → IsOneOf x rs
dedup-has_only [] x m = m
dedup-has_only (r ∷ rs) x m = elim (Bool-cases (holds r (dedup rs))) [
  | inl there ↦ inr (dedup-has_only rs x (rw there at m))
  | inr new ↦ (elim (rw new at m) [ inl e ↦ inl e | inr n ↦ inr (dedup-has_only rs x n) ])
]

dedup-Distinct : (rs : List (Runtime Text)) → Distinct (dedup rs)
dedup-Distinct [] = tt
dedup-Distinct (r ∷ rs) = elim (Bool-cases (holds r (dedup rs))) [
  | inl there ↦ rw there (dedup-Distinct rs)
  | inr new ↦ rw new ((λ m. cc (IsOneOf-holds r (dedup rs) m, new)), dedup-Distinct rs)
]

dedup-IsSetOrder : IsSetOrder dedup
dedup-IsSetOrder = record {
  has_all = dedup-has_all;
  has_only = dedup-has_only;
  once = dedup-Distinct;
}

-- Two endpoints that share a stage.
abbrev shared : Router
shared = (text "/a", stage ∷ []) ∷ (text "/b", stage ∷ []) ∷ []

abbrev counted : Server
counted = record empty_server { stage_id = 1 }

register_runtime-IsSound_example :
    ((register_runtime dedup shared counted).0 ≡ ok tt
      → IsSound (register_runtime dedup shared counted).1)
    × Proper (register_runtime dedup shared counted).1.router
register_runtime-IsSound_example =
    register_runtime-IsSound dedup shared counted dedup-IsSetOrder
      ((omega arith, tt), ((omega arith, tt), tt))
      (record { proper = tt; backed = tt; below = tt; distinct = tt })

managed_once : map (λ r. r.stage_id) (register_runtime dedup shared counted).1.runtimes ≡ 1 ∷ []
unfolding register_runtime append_at align_timeout_wait
managed_once = refl
