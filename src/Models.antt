-- ===== src/Models.antt =====
-- mosec/worker.py: `MultiModelWorker._ensure_model`, which keeps the models that it has loaded in a
-- `SieveCache`. Log lines are left out.
pub mod Ensure
pub mod Forward
pub mod Tests
use mosec.Prelude.{Bool, true, false, Option, none, some, leb, if◌then◌else◌, length}
use mosec.Prelude.Eq.{Eq}
use mosec.Prelude.Dict.{has}
use mosec.Errors.{Result, ok, raised, diverged, mosec_failure, client_error, text}
use mosec.Cache.{SieveCache, Evicted, get, put, evict}

-- What a user overrides.
pub record Methods (K V : Type 0) : Type 0 where
  pub load_model : K → Result V
  pub unload_model : K → V → Result (Unit {0})
  pub has_model : K → Result Bool

module _ {K V : Type 0} ⦃eq : Eq K⦄ (methods : Methods K V) where
  -- An evicted model is unloaded. `none` is an `evict` that ran out of fuel.
  unfoldable pub unload :
      Option (Evicted K V × SieveCache K V) → SieveCache K V → Result (Unit {0}) × SieveCache K V
  unload none c = (diverged, c)
  unload (some (none, d)) c = (ok tt, d)
  unload (some (some (key, model), d)) c = (methods.unload_model key model, d)

  unfoldable pub free_room : SieveCache K V → Result (Unit {0}) × SieveCache K V
  unfolding unload
  free_room c = if leb c.max_size (length c.map) then unload (evict c) c else (ok tt, c)

  unfoldable pub store : K → Result V → SieveCache K V → Result (Option V) × SieveCache K V
  store model_id (ok model) c = elim (put model_id model c) [
    | none ↦ (diverged, c)
    | some (_, d) ↦ (ok (some model), d)
  ]
  store model_id (raised e) c = (raised e, c)
  store model_id diverged c = (diverged, c)

  unfoldable pub load : K → Result (Unit {0}) × SieveCache K V → Result (Option V) × SieveCache K V
  unfolding store
  load model_id (ok _, c) = store model_id (methods.load_model model_id) c
  load model_id (raised e, c) = (raised e, c)
  load model_id (diverged, c) = (diverged, c)

  -- A miss, with the answer of `has_model`.
  unfoldable pub on_miss : K → Result Bool → SieveCache K V → Result (Option V) × SieveCache K V
  unfolding load free_room
  on_miss model_id (ok true) c = load model_id (free_room c)
  on_miss model_id (ok false) c =
      (raised (mosec_failure client_error (text "model is not available")), c)
  on_miss model_id (raised e) c = (raised e, c)
  on_miss model_id diverged c = (diverged, c)

  -- `get` returns `None` for a missing key, so the model is an option.
  unfoldable pub ensure_model : K → SieveCache K V → Result (Option V) × SieveCache K V
  unfolding on_miss
  ensure_model model_id c =
      if has model_id c.map
      then (let (model, d) = get model_id c in (ok model, d))
      else on_miss model_id (methods.has_model model_id) c
