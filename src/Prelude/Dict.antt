-- ===== src/Prelude/Dict.antt =====
-- A Python `dict`: an association list in insertion order. A write to a present key keeps its place.
use mathlib.Core.Path.{◌≡◌, refl}
use mathlib.Core.Logic.{inl, inr}
use mathlib.Core.Bool.{Bool, true, false}
use mathlib.Core.Option.{Option, none, some}
use mathlib.Core.List.{List, [], ◌∷◌, ◌++◌}
use mosec.Prelude.Tests.{if◌then◌else◌, Bool-cases}
use mosec.Prelude.Eq.{Eq, ◌===◌}

abbrev pub Dict {ℓ κ} : Type ℓ → Type κ → Type (ℓ ⊔ κ)
Dict K V = List (K × V)

module _ {ℓ κ} {K : Type ℓ} {V : Type κ} ⦃e : Eq K⦄ where
  unfoldable pub lookup : K → Dict K V → Option V
  lookup k [] = none
  lookup k ((j, v) ∷ m) = if j === k then some v else lookup k m

  -- `k in m`
  unfoldable pub has : K → Dict K V → Bool
  has k [] = false
  has k ((j, v) ∷ m) = if j === k then true else has k m

  -- `m[k] = v`
  unfoldable pub insert : K → V → Dict K V → Dict K V
  insert k v [] = (k, v) ∷ []
  insert k v ((j, w) ∷ m) = if j === k then (j, v) ∷ m else (j, w) ∷ insert k v m

  -- `del m[k]`, where a missing key changes nothing
  unfoldable pub delete : K → Dict K V → Dict K V
  delete k [] = []
  delete k ((j, w) ∷ m) = if j === k then m else (j, w) ∷ delete k m

-- `m[k].append(v)` on a `defaultdict(list)`
unfoldable pub append_at {ℓ κ} :
    {K : Type ℓ} {V : Type κ} ⦃e : Eq K⦄ → K → V → Dict K (List V) → Dict K (List V)
append_at k v [] = (k, v ∷ []) ∷ []
append_at k v ((j, vs) ∷ m) = if j === k then (j, vs ++ (v ∷ [])) ∷ m else (j, vs) ∷ append_at k v m

-- Keys that are there, and that are not.
pub lookup-has {ℓ κ} :
    {K : Type ℓ} {V : Type κ} ⦃eq : Eq K⦄ (k : K) (m : Dict K V)
    → has k m ≡ false
    → lookup k m ≡ none
unfolding has lookup
lookup-has k [] h = refl
lookup-has ⦃eq⦄ k ((j, v) ∷ m) h = elim (Bool-cases (j === k)) [
  | inl same ↦ cc (rw same at h)
  | inr other ↦ rw other (lookup-has k m (rw other at h))
]

pub has-insert {ℓ κ} :
    {K : Type ℓ} {V : Type κ} ⦃eq : Eq K⦄ (k : K) (v : V) (m : Dict K V)
    → has k (insert k v m) ≡ true
unfolding has insert
has-insert ⦃eq⦄ k v [] = rw ((eq.beq_iff k k).1 refl) refl
has-insert ⦃eq⦄ k v ((j, w) ∷ m) = elim (Bool-cases (j === k)) [
  | inl same ↦ rw (same, has, same) refl
  | inr other ↦ rw (other, has, other) (has-insert k v m)
]

pub has-insert_kept {ℓ κ} :
    {K : Type ℓ} {V : Type κ} ⦃eq : Eq K⦄ (i k : K) (v : V) (m : Dict K V)
    → has i m ≡ true
    → has i (insert k v m) ≡ true
unfolding has insert
has-insert_kept i k v [] h = cc
has-insert_kept ⦃eq⦄ i k v ((j, w) ∷ m) h = elim (Bool-cases (j === k)) [
  | inl same ↦ rw (same, has) h
  | inr other ↦ elim (Bool-cases (j === i)) [
    | inl at ↦ rw (other, has, at) refl
    | inr off ↦ rw (other, has, off) (has-insert_kept i k v m (rw off at h))
  ]
]

pub has-lookup {ℓ κ} :
    {K : Type ℓ} {V : Type κ} ⦃eq : Eq K⦄ (k : K) (m : Dict K V)
    → has k m ≡ true
    → (v : V) × (lookup k m ≡ some v)
unfolding has lookup
has-lookup k [] h = cc
has-lookup ⦃eq⦄ k ((j, v) ∷ m) h = elim (Bool-cases (j === k)) [
  | inl same ↦ (v, rw same refl)
  | inr other ↦ let (w, e) = has-lookup k m (rw other at h) in (w, rw other e)
]
