-- ===== src/OpenApi/Covers.antt =====
-- `generate_openapi` of mosec/openapi.py finds the types of every endpoint.
use mosec.Prelude.{◌≡◌, Bool, true, not, Option, List, [], ◌∷◌, map, if◌then◌else◌}
use mosec.Prelude.Eq.{nat_eq, list_eq, pair_eq}
use mosec.Prelude.Dict.{Dict, insert, has}
use mosec.Errors.{Text, Raised, raised, diverged}
use mosec.Runtime.{Runtime}
use mosec.Server.{Router}
use mosec.OpenApi.{Direction, request, response, direction_eq, Schemas, Types, Operation, last_of}

-- The endpoints that have a pipeline.
abbrev pub served : Router → List Text
served [] = []
served ((endpoint, []) ∷ routes) = served routes
served ((endpoint, worker ∷ workers) ∷ routes) = endpoint ∷ served routes

module _ {T D : Type 0} (schemas : Schemas T D) where
  -- Nothing that was there is lost.
  abbrev Grows : Types T D → Types T D → Type 0
  Grows types after =
      (k : Text × Direction) → has k types.boundary_types ≡ true → has k after.boundary_types ≡ true

  -- What is added with a type, and what a boundary of the other kind leaves.
  abbrev with_type : Text → Direction → Types T D → D → Option T → Types T D
  with_type endpoint d types doc t = record {
    schema_doc = doc;
    boundary_types = insert (endpoint, d) t types.boundary_types;
  }

  abbrev Adds : Bool → Text → Direction → Types T D → Types T D → Type 0
  Adds same endpoint d types after =
      Grows types after × (same ≡ true → has (endpoint, d) after.boundary_types ≡ true)

  -- Each boundary whose worker is of the kind of the round has an entry.
  abbrev Covers : Bool → Router → Types T D → Type 0
  Covers strict [] types = Unit
  Covers strict ((endpoint, []) ∷ routes) types = Covers strict routes types
  Covers strict ((endpoint, worker ∷ workers) ∷ routes) types =
      ((if strict then worker.worker.is_typed else not worker.worker.is_typed) ≡ true
        → has (endpoint, request) types.boundary_types ≡ true)
      × ((if strict
              then (last_of worker workers).worker.is_typed
              else not (last_of worker workers).worker.is_typed)
            ≡ true
          → has (endpoint, response) types.boundary_types ≡ true)
      × Covers strict routes types

  -- The document refuses the registration of the path of an endpoint, or does not return from it.
  abbrev pub Refuses : Raised → Type 0
  Refuses e = (doc : D) × (p : Operation T) × ((schemas.register_route doc p).0 ≡ raised e)

  abbrev pub NeverRegisters : Type 0
  NeverRegisters = (doc : D) × (p : Operation T) × ((schemas.register_route doc p).0 ≡ diverged)

  -- A path for each endpoint that has a pipeline, in order.
  abbrev pub Complete : Router → List (Operation T) → Type 0
  Complete routes paths = map (λ p. p.endpoint) paths ≡ served routes
