-- ===== src/OpenApi/Fails.antt =====
-- How the boundaries of `generate_openapi` of mosec/openapi.py fail.
use mosec.Prelude.{
  ◌≡◌, refl, Bool, true, false, Option, ◌⊎◌, inl, inr, [], ◌∷◌, if◌then◌else◌, Bool-cases,
}
use mosec.Prelude.Eq.{nat_eq, list_eq, pair_eq}
use mosec.Prelude.Dict.{insert}
use mosec.Errors.{Text, Raised, Result, ok, raised, diverged, ◌>>=◌}
use mosec.Runtime.{Runtime}
use mosec.Server.{Router}
use mosec.OpenApi.{
  Direction, request, response, direction_eq, is_annotation_error, Schemas, extract, Types, last_of,
  tolerate, stage_type, try_schema_type, add_boundary, add_boundaries,
}

-- A value with a property, an exception with a cause, or a call that never returns, with one.
pub data Ends {A : Type 0} (P : A → Type 0) (C : Raised → Type 0) (H : Type 0)
    : Result A → Type 0 where
  returned : {a : A} → P a → Ends P C H (ok a)
  raised_by : {e : Raised} → C e → Ends P C H (raised e)
  endless : H → Ends P C H diverged

pub Ends->>= :
    {A B : Type 0} {P : A → Type 0} {Q : B → Type 0} {C C2 : Raised → Type 0} {H H2 : Type 0}
    (m : Result A) (f : A → Result B)
    → Ends P C H m
    → ((e : Raised) → C e → C2 e)
    → (H → H2)
    → ((a : A) → m ≡ ok a → P a → Ends Q C2 H2 (f a))
    → Ends Q C2 H2 (m >>= f)
Ends->>= (ok a) f (returned p) c h k = k a refl p
Ends->>= (raised e) f (raised_by w) c h k = raised_by (c e w)
Ends->>= diverged f (endless w) c h k = endless (h w)

pub Ends-mono :
    {A : Type 0} {P : A → Type 0} {C C2 : Raised → Type 0} {H H2 : Type 0} {m : Result A}
    → Ends P C H m
    → ((e : Raised) → C e → C2 e)
    → (H → H2)
    → Ends P C2 H2 m
Ends-mono (returned p) c h = returned p
Ends-mono (raised_by w) c h = raised_by (c _ w)
Ends-mono (endless w) c h = endless (h w)

-- A stage at a boundary of one of the routes.
abbrev pub Among : Router → Direction → Runtime Text → Type 0
Among [] d x = ⊥
Among ((endpoint, []) ∷ routes) d x = Among routes d x
Among ((endpoint, worker ∷ workers) ∷ routes) d x =
    ((d ≡ request) × (x ≡ worker))
    ⊎ ((d ≡ response) × (x ≡ last_of worker workers))
    ⊎ Among routes d x

module _ {T D : Type 0} (schemas : Schemas T D) where
  -- The extraction or the registration at a boundary raises an exception that is not tolerated: any, if
  -- the worker is typed, and else one that `_try_schema_type` does not catch.
  abbrev pub Stops : Direction → Runtime Text → Raised → Type 0
  Stops d x e =
      (doc : D) × ((stage_type schemas doc (extract schemas d x)).0 ≡ raised e)
      × ((x.worker.is_typed ≡ true) ⊎ (is_annotation_error e ≡ false))

  abbrev pub Hangs : Direction → Runtime Text → Type 0
  Hangs d x = (doc : D) × ((stage_type schemas doc (extract schemas d x)).0 ≡ diverged)

  abbrev pub StopsIn : Router → Raised → Type 0
  StopsIn routes e = (d : Direction) × (x : Runtime Text) × Among routes d x × Stops d x e

  abbrev pub HangsIn : Router → Type 0
  HangsIn routes = (d : Direction) × (x : Runtime Text) × Among routes d x × Hangs d x

  tolerate-Ends :
      (strict : Bool) (m : Result (Option T))
      → Ends
          (λ t. Unit {0})
          (λ e. (m ≡ raised e) × ((strict ≡ true) ⊎ (is_annotation_error e ≡ false)))
          (m ≡ diverged)
          (tolerate schemas strict m)
  unfolding tolerate
  tolerate-Ends strict (ok t) = returned tt
  tolerate-Ends true (raised e) = raised_by (refl, inl refl)
  tolerate-Ends false (raised e) = elim (Bool-cases (is_annotation_error e)) [
    | inl caught ↦ rw caught (returned tt)
    | inr passes ↦ rw passes (raised_by (refl, inr passes))
  ]
  tolerate-Ends strict diverged = endless refl

  add_boundary-Ends :
      (strict : Bool) (endpoint : Text) (d : Direction) (x : Runtime Text) (types : Types T D)
      → Ends
          (λ t. Unit {0})
          (Stops d x)
          (Hangs d x)
          (add_boundary schemas strict endpoint d x types)
  unfolding add_boundary try_schema_type
  add_boundary-Ends strict endpoint d x types = by_kind x.worker.is_typed strict refl
    where
      o : Bool → Result (Option T) × D
      o strict = try_schema_type schemas strict d x types.schema_doc

      with_type : D → Option T → Types T D
      with_type doc t = record {
        schema_doc = doc;
        boundary_types = insert (endpoint, d) t types.boundary_types;
      }

      added :
          (strict : Bool)
          → (strict ≡ true → x.worker.is_typed ≡ true)
          → Ends
              (λ t. Unit {0})
              (Stops d x)
              (Hangs d x)
              ((o strict).0 >>= λ t. ok (with_type (o strict).1 t))
      added strict typed =
          Ends->>= (o strict).0 (λ t. ok (with_type (o strict).1 t))
            (tolerate-Ends strict (stage_type schemas types.schema_doc (extract schemas d x)).0)
            (λ e w. (types.schema_doc, w.0, elim w.1 [ inl s ↦ inl (typed s) | inr s ↦ inr s ]))
            (λ h. (types.schema_doc, h)) (λ t _ _. returned tt)

      by_kind :
          (b strict : Bool)
          → x.worker.is_typed ≡ b
          → Ends
              (λ t. Unit {0})
              (Stops d x)
              (Hangs d x)
              (if b
                then (if strict
                    then ((o strict).0 >>= λ t. ok (with_type (o strict).1 t))
                    else ok types)
                else if strict
                then ok types
                else ((o strict).0 >>= λ t. ok (with_type (o strict).1 t)))
      by_kind true true e = added true (λ _. e)
      by_kind true false e = returned tt
      by_kind false true e = returned tt
      by_kind false false e = added false (λ s. cc)

  pub add_boundaries-Ends :
      (strict : Bool) (routes : Router) (types : Types T D)
      → Ends
          (λ t. Unit {0})
          (StopsIn routes)
          (HangsIn routes)
          (add_boundaries schemas strict routes types)
  unfolding add_boundaries
  add_boundaries-Ends strict [] types = returned tt
  add_boundaries-Ends strict ((endpoint, []) ∷ routes) types =
      add_boundaries-Ends strict routes types
  add_boundaries-Ends strict ((endpoint, worker ∷ workers) ∷ routes) types =
      let last = last_of worker workers in
      Ends->>= (add_boundary schemas strict endpoint request worker types) _
        (add_boundary-Ends strict endpoint request worker types)
        (λ e w. (request, worker, inl (refl, refl), w))
        (λ w. (request, worker, inl (refl, refl), w))
        (λ asked _ _.
          Ends->>= (add_boundary schemas strict endpoint response last asked) _
            (add_boundary-Ends strict endpoint response last asked)
            (λ e w. (response, last, inr (inl (refl, refl)), w))
            (λ w. (response, last, inr (inl (refl, refl)), w))
            (λ answered _ _.
              Ends-mono (add_boundaries-Ends strict routes answered)
                (λ e w. let (d, x, m, s) = w in (d, x, inr (inr m), s))
                (λ w. let (d, x, m, s) = w in (d, x, inr (inr m), s))))
