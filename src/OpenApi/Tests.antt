-- ===== src/OpenApi/Tests.antt =====
-- mosec/openapi.py at concrete inputs: the documents count what is registered.
use mosec.Prelude.{
  ℕ, suc, ◌≡◌, refl, Bool, true, false, Option, none, some, [], ◌∷◌, map, ◌⊎◌, inl, inr,
  if◌then◌else◌,
}
use mosec.Prelude.Int.{pos}
use mosec.Prelude.Eq.{◌===◌, nat_eq, list_eq, pair_eq}
use mosec.Prelude.Dict.{Dict, insert, lookup}
use mosec.Errors.{◌>>=◌, Text, text, ok, raised, failed, name_error}
use mosec.Runtime.{Runtime}
use mosec.Server.{Router}
use mosec.OpenApi.{Schemas, is_annotation_error, generate_openapi}
use mosec.Annotations.{Annotation, typ, Hints, get_forward_input_type, get_forward_return_type}

abbrev stage : Bool → Runtime Text
stage typed = record {
  stage_id = 1;
  worker = record {
    name = text "A";
    is_worker = true;
    is_sse = false;
    is_typed = typed;
    req_mime_type = text "a";
    resp_mime_type = text "b";
  };
  num = pos 1;
  max_batch_size = pos 1;
  max_wait_time = pos 0;
  timeout_sec = pos 0;
  start_method = text "spawn";
  env = none;
  pool = none ∷ [];
}

-- A type is a number, or a text. `forward` of a typed worker takes what the text `A` stands for and
-- returns it; the one of an ordinary worker takes anything, and its result is a name that is unknown.
abbrev name_of : Bool → Dict Text (Annotation (ℕ ⊎ Text))
name_of true = (text "data", typ (inr (text "A"))) ∷ (text "return", typ (inr (text "A"))) ∷ []
name_of false = (text "return", typ (inr (text "B"))) ∷ []

abbrev text_in : ℕ ⊎ Text → Option Text
text_in (inl n) = none
text_in (inr t) = some t

abbrev hints : Hints (ℕ ⊎ Text)
hints = record {
  get_type_hints = λ r. raised (failed name_error);
  get_annotations = λ r. ok (name_of r.worker.is_typed);
  evaluate = λ r t. if t === text "A" then ok (typ (inl 7)) else raised (failed name_error);
  as_text = text_in;
  list_args = λ t. none;
  rounds = 2;
}

abbrev schemas : Schemas (ℕ ⊎ Text) ℕ
schemas = record {
  hints = hints;
  register = λ doc t. (ok tt, suc doc);
  register_route = λ doc p. (ok tt, suc doc);
}

abbrev routes : Router
routes =
    (text "/a", stage false ∷ stage true ∷ [])
    ∷ (text "/none", [])
    ∷ (text "/b", stage true ∷ stage false ∷ [])
    ∷ []

-- The ordinary boundaries have no type: one is not annotated, the other one's annotation is refused.
types_of :
    (generate_openapi schemas 0 0 routes >>= λ paths. ok (
      map {B = Option (ℕ ⊎ Text) × Option (ℕ ⊎ Text)}
        (λ p. (p.request_type, p.response_type))
        paths))
    ≡ ok ((none, some (inl 7)) ∷ (some (inl 7), none) ∷ [])
unfolding generate_openapi insert lookup is_annotation_error get_forward_input_type
    get_forward_return_type
types_of = refl
