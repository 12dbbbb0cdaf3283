-- ===== src/Models/Forward.antt =====
-- `MultiModelWorker.forward` of mosec/worker.py: the batch is split by model, each part goes to its
-- model, and the results are put back where the requests stood.
pub mod Groups
pub mod Places
pub mod Order
use mosec.Prelude.{
  ℕ, zero, suc, Bool, true, false, not, Option, none, some, List, [], ◌∷◌, ◌++◌, map, if◌then◌else◌,
  length, replicate, get_elem?, set,
}
use mosec.Prelude.Eq.{Eq}
use mosec.Prelude.Dict.{Dict, has, append_at}
use mosec.Errors.{Result, ok, raised, diverged, failed, value_error, index_error, ◌>>=◌}
use mosec.Cache.{SieveCache}
use mosec.Models.{Methods, ensure_model}

-- What a user overrides for the requests `I` and the results `R`. A model is an option since `None`
-- is a valid one.
pub record Inference (K V I R : Type 0) : Type 0 where
  pub get_model_id : I → Result K
  pub forward_model : K → Option V → List I → Result (List R)

-- The argument and the value of `forward`: a list if the worker takes batches, and else one item. A
-- result that was never written is `None`.
pub data Payload (A : Type 0) : Type 0 where
  one : A → Payload A
  many : List A → Payload A

-- `defaultdict(list)`: the items of a model with their places in the batch.
abbrev pub Groups : Type 0 → Type 0 → Type 0
Groups K I = Dict K (List (ℕ × I))

module _ {K I : Type 0} where
  -- The groups whose model is in the cache, or is not.
  unfoldable pub groups_where : (K → Bool) → Groups K I → Groups K I
  groups_where p [] = []
  groups_where p ((k, xs) ∷ g) = let rest = groups_where p g in if p k then (k, xs) ∷ rest else rest

module _ {K I : Type 0} ⦃eq : Eq K⦄ where
  unfoldable pub group_items : (I → Result K) → ℕ → List I → Groups K I → Result (Groups K I)
  unfolding append_at
  group_items get_model_id idx [] g = ok g
  group_items get_model_id idx (item ∷ items) g = do
    mid ← get_model_id item
    group_items get_model_id (suc idx) items (append_at mid (idx, item) g)

-- The loop over `zip(indexed_items, sub_results, strict=True)`.
unfoldable pub place :
    {I R : Type 0} → List (ℕ × I) → List R → List (Option R) → Result (List (Option R))
place [] [] results = ok results
place ((idx, _) ∷ xs) (result ∷ sub_results) results =
    place xs sub_results (set results idx (some result))
place _ _ results = raised (failed value_error)

module _ {K V I R : Type 0} ⦃eq : Eq K⦄ (methods : Methods K V)
    (inference : Inference K V I R) where
  unfoldable pub run_group :
      K → List (ℕ × I) → Option V → List (Option R) → Result (List (Option R))
  unfolding place
  run_group model_id indexed_items model results = do
    sub_results ← inference.forward_model model_id model (map (λ x. x.1) indexed_items)
    place indexed_items sub_results results

  -- The loop over the groups. What the cache holds stays when an exception ends it.
  unfoldable pub run_groups :
      Groups K I → List (Option R) → SieveCache K V → Result (List (Option R)) × SieveCache K V
  unfolding run_group
  run_groups [] results c = (ok results, c)
  run_groups ((k, xs) ∷ g) results c =
      let (r, d) = ensure_model methods k c in
      elim r [
        | ok model ↦ elim (run_group k xs model results) [
          | ok filled ↦ run_groups g filled d
          | raised e ↦ (raised e, d)
          | diverged ↦ (diverged, d)
        ]
        | raised e ↦ (raised e, d)
        | diverged ↦ (diverged, d)
      ]

  unfoldable pub forward_items : List I → SieveCache K V → Result (List (Option R)) × SieveCache K V
  unfolding group_items groups_where run_groups
  forward_items items c = elim (group_items inference.get_model_id 0 items []) [
    | ok g ↦
        run_groups (groups_where (λ k. has k c.map) g ++ groups_where (λ k. not (has k c.map)) g)
          (replicate (length items) none) c
    | raised e ↦ (raised e, c)
    | diverged ↦ (diverged, c)
  ]

  -- `results if is_batched else results[0]`
  unfoldable pub first_of : Result (List (Option R)) → Result (Payload (Option R))
  first_of (ok []) = raised (failed index_error)
  first_of (ok (r ∷ rs)) = ok (one r)
  first_of (raised e) = raised e
  first_of diverged = diverged

  unfoldable pub forward : Payload I → SieveCache K V → Result (Payload (Option R)) × SieveCache K V
  unfolding forward_items first_of
  forward (many items) c =
      let (r, d) = forward_items items c in (r >>= λ results. ok (many results), d)
  forward (one item) c = let (r, d) = forward_items (item ∷ []) c in (first_of r, d)
