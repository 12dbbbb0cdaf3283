-- ===== src/Models/Tests.antt =====
-- `MultiModelWorker._ensure_model` of mosec/worker.py at concrete inputs.
use mosec.Prelude.{
  none, some, List, true, [], ◌∷◌, map, ◌*◌, ℕ, ◌≡◌, ◌≢◌, refl, Option, ◌==◌, not, ◌+◌,
  if◌then◌else◌,
}
use mosec.Prelude.Eq.{nat_eq}
use mosec.Prelude.Dict.{has}
use mosec.Errors.{Result, ok, raised, failed, user_error}
use mosec.Cache.Tests.{two, full, full-Represents, full-IsSound}
use mosec.Cache.Runs.{IsSound}
use mosec.Cache.Every.{Hosts}
use mosec.Models.{Methods, ensure_model}
use mosec.Models.Forward.{Inference, many, forward}
use mosec.Models.Forward.Places.{wanted}
use mosec.Models.Forward.Order.{Serves, forward-wanted}
use mosec.Models.Ensure.{Loads, ensure_model-Loads, ensure_model-refused, ensure_model-IsSound}

-- There is no model 40, and the model 50 does not load.
abbrev methods : Methods ℕ ℕ
methods = record {
  load_model = λ k. if k == 50 then raised (failed user_error) else ok (k + 1);
  unload_model = λ k v. ok tt;
  has_model = λ k. ok (not (k == 40));
}

ensure_model-Loads_example : Loads methods 2 30 31 full (ensure_model methods 30 full)
unfolding has
ensure_model-Loads_example =
    ensure_model-Loads methods 2 30 31 full full-IsSound refl refl refl (λ j w. refl)

ensure_model-refused_example :
    ((ensure_model methods 40 full).1 ≡ full)
    × ((v : Option ℕ) → (ensure_model methods 40 full).0 ≢ ok v)
unfolding has
ensure_model-refused_example = ensure_model-refused methods 2 40 full refl (λ e. cc)

ensure_model-IsSound_example : IsSound 2 (ensure_model methods 50 full).1
ensure_model-IsSound_example = ensure_model-IsSound methods 2 50 full full-IsSound

-- A worker whose models are there, and that adds the model to a request; without a model it fails. The
-- requests name the models 30 and 10, of which the second is in the cache.
abbrev all_models : Methods ℕ ℕ
all_models = record {
  load_model = λ k. ok (k * 10);
  unload_model = λ k v. ok tt;
  has_model = λ k. ok true;
}

abbrev add_model : Option ℕ → List ℕ → Result (List ℕ)
add_model none xs = raised (failed user_error)
add_model (some v) xs = ok (map (λ x. v + x) xs)

abbrev adding : Inference ℕ ℕ ℕ ℕ
adding = record { get_model_id = λ x. ok (x * 10); forward_model = λ k m xs. add_model m xs }

adding-Serves : Serves all_models adding (λ x. x * 10) (λ x. x * 10 * 10 + x)
adding-Serves = record {
  named = λ x. refl;
  available = λ k. refl;
  model = λ k. k * 10;
  loads = λ k. refl;
  unloads = λ k v. refl;
  infer = λ k x. k * 10 + x;
  infers = λ x. refl;
  forwards = λ k xs. refl;
}

full-Hosts : Hosts (λ k v. v ≡ k * 10) full
full-Hosts = record { queue = two; stands = full-Represents; every = (refl, (refl, tt)) }

forward-wanted_example :
    ((forward all_models adding (many (3 ∷ 1 ∷ 3 ∷ [])) full).0
      ≡ ok (many (wanted (3 ∷ 1 ∷ 3 ∷ []) (λ x. x * 10 * 10 + x))))
    × IsSound 2 (forward all_models adding (many (3 ∷ 1 ∷ 3 ∷ [])) full).1
    × Hosts (λ k v. v ≡ k * 10) (forward all_models adding (many (3 ∷ 1 ∷ 3 ∷ [])) full).1
unfolding adding-Serves
forward-wanted_example =
    forward-wanted all_models adding (λ x. x * 10) (λ x. x * 10 * 10 + x) adding-Serves 2
      (3 ∷ 1 ∷ 3 ∷ []) full full-IsSound full-Hosts
