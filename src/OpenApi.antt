-- ===== src/OpenApi.antt =====
-- mosec/openapi.py: which types and media types `generate_openapi` gives to the endpoints. The document
-- of the library `defspec` is a parameter; the fixed routes, the texts and the files are left out.
pub mod Fails
pub mod Covers
pub mod Tests
use mosec.Prelude.{
  ℕ, ◌≡◌, ◌↔◌, refl, ap, Bool, true, false, Option, none, some, List, [], ◌∷◌, if◌then◌else◌,
}
use mosec.Prelude.Eq.{Eq, ◌===◌, nat_eq, list_eq, pair_eq}
use mosec.Prelude.Dict.{Dict, lookup, insert}
use mosec.Errors.{
  Text, Raised, Result, ok, raised, diverged, failed, key_error, type_error, value_error,
  name_error, syntax_error, ◌>>=◌,
}
use mosec.Annotations.{
  Annotation, anything, typ, Hints, above_one, get_forward_input_type, get_forward_return_type,
}
use mosec.Runtime.{Runtime}
use mosec.Server.{Router}

pub data Direction : Type 0 where
  request response : Direction

abbrev pub same_direction : Direction → Direction → Bool
same_direction request request = true
same_direction request response = false
same_direction response request = false
same_direction response response = true

pub same_direction_iff : (d e : Direction) → (same_direction d e ≡ true) ↔ (d ≡ e)
same_direction_iff request request = (λ h. refl, λ h. refl)
same_direction_iff request response = (λ h. cc, λ h. cc)
same_direction_iff response request = (λ h. cc, λ h. cc)
same_direction_iff response response = (λ h. refl, λ h. refl)

instance abbrev pub direction_eq : Eq Direction
direction_eq = record { beq = same_direction; beq_iff = same_direction_iff }

unfoldable pub schema_type : {T : Type 0} → Annotation T → Option T
schema_type anything = none
schema_type (typ t) = some t

-- The exceptions that `_try_schema_type` catches.
unfoldable pub is_annotation_error : Raised → Bool
is_annotation_error (failed type_error) = true
is_annotation_error (failed value_error) = true
is_annotation_error (failed name_error) = true
is_annotation_error (failed syntax_error) = true
is_annotation_error _ = false

-- What is registered for an endpoint.
pub record Operation (T : Type 0) : Type 0 where
  pub endpoint : Text
  pub request_type : Option T
  pub request_content_type : Text
  pub response_type : Option T
  pub response_content_type : Text
  pub is_stream : Bool

-- `register` is a registration at the document of the schemas, `register_route` one at the document
-- that is generated.
pub record Schemas (T D : Type 0) : Type 0 where
  pub hints : Hints T
  pub register : D → Option T → Result (Unit {0}) × D
  pub register_route : D → Operation T → Result (Unit {0}) × D

-- The types of a boundary, with the batching of its runtime.
unfoldable pub extract :
    {T D : Type 0} → Schemas T D → Direction → Runtime Text → Result (Annotation T)
unfolding get_forward_input_type get_forward_return_type
extract schemas request runtime =
    get_forward_input_type schemas.hints runtime (above_one runtime.max_batch_size)
extract schemas response runtime =
    get_forward_return_type schemas.hints runtime (above_one runtime.max_batch_size)

-- `schema_doc` and `boundary_types`
pub record Types (T D : Type 0) : Type 0 where
  pub schema_doc : D
  pub boundary_types : Dict (Text × Direction) (Option T)

-- The last stage of a pipeline that begins with `runtime`.
abbrev pub last_of : Runtime Text → List (Runtime Text) → Runtime Text
last_of runtime [] = runtime
last_of runtime (next ∷ runtimes) = last_of next runtimes

module _ {T D : Type 0} (schemas : Schemas T D) where
  -- The `except` of `_try_schema_type`.
  unfoldable pub tolerate : Bool → Result (Option T) → Result (Option T)
  unfolding is_annotation_error
  tolerate strict (ok t) = ok t
  tolerate strict (raised e) =
      if strict then raised e else if is_annotation_error e then ok none else raised e
  tolerate strict diverged = diverged

  -- The `try`: the type is taken and registered.
  unfoldable pub stage_type : D → Result (Annotation T) → Result (Option T) × D
  unfolding schema_type
  stage_type doc (ok annotation) =
      let (r, after) = schemas.register doc (schema_type annotation) in
      (r >>= λ _. ok (schema_type annotation), after)
  stage_type doc (raised e) = (raised e, doc)
  stage_type doc diverged = (diverged, doc)

  unfoldable pub try_schema_type : Bool → Direction → Runtime Text → D → Result (Option T) × D
  unfolding tolerate stage_type extract
  try_schema_type strict direction runtime doc =
      let (r, after) = stage_type doc (extract schemas direction runtime) in
      (tolerate strict r, after)

  -- The body of the inner loop, for a boundary of an endpoint.
  unfoldable pub add_boundary :
      Bool → Text → Direction → Runtime Text → Types T D → Result (Types T D)
  unfolding try_schema_type insert
  add_boundary strict endpoint direction runtime types =
      let (r, doc) = try_schema_type strict direction runtime types.schema_doc in
      let added : Result (Types T D) = do
        t ← r
        ok (record {
          schema_doc = doc;
          boundary_types = insert (endpoint, direction) t types.boundary_types;
        })
      in if runtime.worker.is_typed
        then (if strict then added else ok types)
        else if strict
        then ok types
        else added

  -- A round of the outer loop, over the endpoints.
  unfoldable pub add_boundaries : Bool → Router → Types T D → Result (Types T D)
  unfolding add_boundary
  add_boundaries strict [] types = ok types
  add_boundaries strict ((endpoint, []) ∷ routes) types = add_boundaries strict routes types
  add_boundaries strict ((endpoint, worker ∷ workers) ∷ routes) types = do
    asked ← add_boundary strict endpoint request worker types
    answered ← add_boundary strict endpoint response (last_of worker workers) asked
    add_boundaries strict routes answered

-- The arguments of the registration of an endpoint.
abbrev pub new_path :
    {T : Type 0} → Text → Runtime Text → Runtime Text → Option T → Option T → Operation T
new_path endpoint request_runtime response_runtime request_type response_type = record {
  endpoint = endpoint;
  request_type = request_type;
  request_content_type = request_runtime.worker.req_mime_type;
  response_type = response_type;
  response_content_type = response_runtime.worker.resp_mime_type;
  is_stream = response_runtime.worker.is_sse;
}

-- `boundary_types[endpoint, direction]`
unfoldable pub boundary_type :
    {T : Type 0} → Text → Direction → Dict (Text × Direction) (Option T) → Result (Option T)
unfolding lookup
boundary_type endpoint direction types = elim (lookup (endpoint, direction) types) [
  | none ↦ raised (failed key_error)
  | some t ↦ ok t
]

-- The second loop over the endpoints, with what was registered.
unfoldable pub paths_of :
    {T D : Type 0}
    → Schemas T D
    → Router
    → Dict (Text × Direction) (Option T)
    → D
    → Result (List (Operation T))
unfolding boundary_type
paths_of schemas [] types openapi = ok []
paths_of schemas ((endpoint, []) ∷ routes) types openapi = paths_of schemas routes types openapi
paths_of schemas ((endpoint, worker ∷ workers) ∷ routes) types openapi = do
  request_type ← boundary_type endpoint request types
  response_type ← boundary_type endpoint response types
  let path = new_path endpoint worker (last_of worker workers) request_type response_type
  let o = schemas.register_route openapi path
  _ ← o.0
  paths ← paths_of schemas routes types o.1
  ok (path ∷ paths)

-- The typed boundaries first, whatever the order of the routes; `doc` and `openapi` are the two
-- documents at the start, `openapi` with the fixed routes.
unfoldable pub generate_openapi :
    {T D : Type 0} → Schemas T D → (doc openapi : D) → Router → Result (List (Operation T))
unfolding add_boundaries paths_of
generate_openapi schemas doc openapi routes = do
  typed ← add_boundaries schemas true routes (record { schema_doc = doc; boundary_types = [] })
  types ← add_boundaries schemas false routes typed
  paths_of schemas routes types.boundary_types openapi
