-- ===== src/Runtime/Environ.antt =====
-- What `env_var_context` of mosec/env.py leaves behind.
use mosec.Prelude.{
  ℕ, ◌≡◌, refl, sym, ap, ◌∙◌, true, false, Option, none, some, List, [], ◌∷◌, if◌then◌else◌, inl,
  inr, Bool-cases, get_elem?,
}
use mosec.Prelude.Eq.{Eq, ◌===◌}
use mosec.Prelude.Dict.{lookup-has, Dict, lookup, has, insert}
use mosec.Runtime.{getenv, enter, restore, env_var_context}

module _ {S : Type 0} ⦃eq : Eq S⦄ where
  -- No key comes twice, as in any `dict`.
  abbrev pub Unique : Dict S S → Type 0
  Unique [] = Unit
  Unique ((k, v) ∷ m) = (has k m ≡ false) × Unique m

  lookup-insert_same :
      (k j v : S) (m : Dict S S) → (k === j) ≡ true → lookup j (insert k v m) ≡ some v
  unfolding lookup insert
  lookup-insert_same k j v [] h = rw h refl
  lookup-insert_same k j v ((i, w) ∷ m) h = elim (Bool-cases (i === k)) [
    | inl same ↦
        let at : (i === j) ≡ true = rw ((eq.beq_iff i k).0 same) h in rw (same, at, lookup) refl
    | inr other ↦
        let apart : (i === j) ≡ false = rw (← (eq.beq_iff k j).0 h) other in
        rw (other, apart, lookup) (lookup-insert_same k j v m h)
  ]

  lookup-insert_other :
      (k j v : S) (m : Dict S S) → (k === j) ≡ false → lookup j (insert k v m) ≡ lookup j m
  unfolding lookup insert
  lookup-insert_other k j v [] h = rw h refl
  lookup-insert_other k j v ((i, w) ∷ m) h = elim (Bool-cases (i === k)) [
    | inl same ↦
        let apart : (i === j) ≡ false = rw ((eq.beq_iff i k).0 same) h in
        rw (same, apart, lookup) refl
    | inr other ↦ elim (Bool-cases (i === j)) [
      | inl at ↦ rw (other, at, lookup) refl
      | inr apart ↦ rw (other, apart, lookup) (lookup-insert_other k j v m h)
    ]
  ]

  has-insert_other :
      (k j v : S) (m : Dict S S)
      → (k === j) ≡ false
      → has j m ≡ false
      → has j (insert k v m) ≡ false
  unfolding has insert
  has-insert_other k j v [] h g = rw h refl
  has-insert_other k j v ((i, w) ∷ m) h g = elim (Bool-cases (i === j)) [
    | inl at ↦ cc (rw (at, has) at g)
    | inr apart ↦ elim (Bool-cases (i === k)) [
      | inl same ↦ rw (same, apart, has) (rw (apart, has) at g)
      | inr other ↦ rw (other, apart, has) (has-insert_other k j v m h (rw (apart, has) at g))
    ]
  ]

  insert-Unique : (k v : S) (m : Dict S S) → Unique m → Unique (insert k v m)
  unfolding insert has
  insert-Unique k v [] u = (refl, tt)
  insert-Unique k v ((i, w) ∷ m) (h, u) = elim (Bool-cases (i === k)) [
    | inl same ↦ rw same (h, u)
    | inr other ↦ rw other (has-insert_other k i v m (flip other) h, insert-Unique k v m u)
  ]
    where
      flip : {i k : S} → (i === k) ≡ false → (k === i) ≡ false
      flip {i} {k} h = elim (Bool-cases (k === i)) [
        | inl same ↦ cc ((eq.beq_iff i k).1 (sym ((eq.beq_iff k i).0 same)), h)
        | inr other ↦ other
      ]

  abbrev over : Option S → Option S → Option S
  over none other = other
  over (some v) other = some v

  lookup-restore :
      (j : S) (d m : Dict S S) → Unique d → lookup j (restore d m) ≡ over (lookup j d) (lookup j m)
  unfolding restore lookup
  lookup-restore j [] m u = refl
  lookup-restore j ((k, v) ∷ d) m (h, u) = elim (Bool-cases (k === j)) [
    | inl same ↦
        let gone : lookup j d ≡ none = rw (← (eq.beq_iff k j).0 same) (lookup-has k d h) in
        lookup-restore j d (insert k v m) u
        ∙ rw (gone, same, lookup) (lookup-insert_same k j v m same)
    | inr other ↦
        lookup-restore j d (insert k v m) u
        ∙ rw (other, lookup, lookup-insert_other k j v m other) refl
  ]

  module _ (empty : S) where
    enter-Unique : (vs d m : Dict S S) → Unique d → Unique (enter empty vs d m).0
    unfolding enter
    enter-Unique [] d m u = u
    enter-Unique ((k, v) ∷ vs) d m u =
        enter-Unique vs (insert k (getenv empty k m) d) (insert k v m)
          (insert-Unique k (getenv empty k m) d u)

    enter-outside :
        (j : S) (vs d m : Dict S S)
        → has j vs ≡ false
        → lookup j (enter empty vs d m).1 ≡ lookup j m
    unfolding enter has
    enter-outside j [] d m h = refl
    enter-outside j ((k, v) ∷ vs) d m h = elim (Bool-cases (k === j)) [
      | inl same ↦ cc (rw (same, has) at h)
      | inr other ↦
          enter-outside j vs (insert k (getenv empty k m) d) (insert k v m) (rw (other, has) at h)
          ∙ lookup-insert_other k j v m other
    ]

    getenv-insert_other :
        (k j v : S) (m : Dict S S)
        → (k === j) ≡ false
        → getenv empty j (insert k v m) ≡ getenv empty j m
    unfolding getenv
    getenv-insert_other k j v m h = rw (lookup-insert_other k j v m h, getenv) refl

    enter-defaults :
        (j : S) (vs d m : Dict S S)
        → Unique vs
        → lookup j (enter empty vs d m).0
          ≡ (if has j vs then some (getenv empty j m) else lookup j d)
    unfolding enter has
    enter-defaults j [] d m u = refl
    enter-defaults j ((k, v) ∷ vs) d m (h, u) = elim (Bool-cases (k === j)) [
      | inl same ↦
          let e = (eq.beq_iff k j).0 same in
          let gone : has j vs ≡ false = rw e at h in
          enter-defaults j vs (insert k (getenv empty k m) d) (insert k v m) u
          ∙ rw (gone, same, has)
              (lookup-insert_same k j (getenv empty k m) d same
                ∙ ap (λ i. some (getenv empty i m)) e)
      | inr other ↦
          enter-defaults j vs (insert k (getenv empty k m) d) (insert k v m) u
          ∙ rw
              (
                other,
                has,
                getenv-insert_other k j v m other,
                lookup-insert_other k j (getenv empty k m) d other,
              )
              refl
    ]

    -- Where the worker has variables of its own, no name twice: behind the context a variable that it did
    -- not set is as it was, and one that it set has its old value again; but one that it set and that did
    -- not exist before is there, with the empty string.
    pub lookup-env_var_context :
        (env : List (Dict S S)) (index : ℕ) (vs environ : Dict S S) (k : S)
        → get_elem? env index ≡ some vs
        → Unique vs
        → lookup k (env_var_context empty (some env) index environ).1
          ≡ (if has k vs then some (getenv empty k environ) else lookup k environ)
    unfolding env_var_context lookup
    lookup-env_var_context env index vs environ k at u =
        rw (at, env_var_context)
          (lookup-restore k (enter empty vs [] environ).0 (enter empty vs [] environ).1
              (enter-Unique vs [] environ tt)
            ∙ by_set)
      where
        by_set :
            over (lookup k (enter empty vs [] environ).0) (lookup k (enter empty vs [] environ).1)
            ≡ (if has k vs then some (getenv empty k environ) else lookup k environ)
        by_set = elim (Bool-cases (has k vs)) [
          | inl set ↦ rw (enter-defaults k vs [] environ u, set) refl
          | inr apart ↦
              rw (enter-defaults k vs [] environ u, apart) (enter-outside k vs [] environ apart)
        ]
