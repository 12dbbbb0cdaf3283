-- ===== src/Options/Namespace.antt =====
-- What `get_env_namespace` of mosec/env.py takes from the environment.
use mathlib.Core.Option
use mosec.Prelude.{
  ℕ, ◌≡◌, refl, sym, ap, ◌∙◌, true, false, Option, none, some, [], ◌∷◌, Bool-cases, Option-cases,
  inl, inr,
}
use mosec.Prelude.Eq.{◌===◌, nat_eq, list_eq}
use mosec.Prelude.Int.{ℤ}
use mosec.Prelude.Dict.{Dict, lookup, has}
use mosec.Errors.{Text, text}
use mosec.Runtime.{getenv}
use mosec.Options.{
  Converter, str, int, bool, Value, str_value, int_value, bool_value, env_config, variable, convert,
  read_option, env_namespace, get_env_namespace,
}

module _ (parse_int : Text → Option ℤ) (environ : Dict Text Text) where
  -- What an option is to have, by its converter and its variable: nothing where it is no option, or
  -- the variable is missing or empty, or not the number that it is to be.
  abbrev pub value_of : Option Converter → Option Text → Option Value
  value_of none t = none
  value_of (some converter) none = none
  value_of (some converter) (some []) = none
  value_of (some str) (some (c ∷ cs)) = some (str_value (c ∷ cs))
  value_of (some bool) (some (c ∷ cs)) = some (bool_value true)
  value_of (some int) (some (c ∷ cs)) = Option.map int_value (parse_int (c ∷ cs))

  getenv-lookup :
      (name : Text) → getenv [] name environ ≡ elim (lookup name environ) [ none ↦ [] | some v ↦ v ]
  unfolding getenv
  getenv-lookup name = refl

  -- What the code takes, by its own `read_option`.
  abbrev taken : Text → Option Converter → Option Value
  taken name none = none
  taken name (some converter) = read_option parse_int converter (getenv [] (variable name) environ)

  read_option-value_of :
      (converter : Converter) (t : Option Text)
      → read_option parse_int converter (elim t [ none ↦ [] | some v ↦ v ])
        ≡ value_of (some converter) t
  unfolding read_option convert
  read_option-value_of converter none = refl
  read_option-value_of converter (some []) = refl
  read_option-value_of str (some (c ∷ cs)) = refl
  read_option-value_of bool (some (c ∷ cs)) = refl
  read_option-value_of int (some (c ∷ cs)) = by_number (parse_int (c ∷ cs))
    where
      by_number :
          (o : Option ℤ)
          → (elim o as (λ x. Option Value) [ none ↦ none | some n ↦ some (int_value n) ])
            ≡ Option.map int_value o
      by_number none = refl
      by_number (some n) = refl

  taken-value_of :
      (name : Text) (o : Option Converter)
      → taken name o ≡ value_of o (lookup (variable name) environ)
  taken-value_of name none = refl
  taken-value_of name (some converter) =
      ap (read_option parse_int converter) (getenv-lookup (variable name))
      ∙ read_option-value_of converter (lookup (variable name) environ)

  abbrev Names : Dict Text Converter → Type 0
  Names [] = Unit
  Names ((name, converter) ∷ config) = (has name config ≡ false) × Names config

  lookup-namespace_has :
      (name : Text) (config : Dict Text Converter)
      → has name config ≡ false
      → lookup name (env_namespace parse_int config environ) ≡ none
  unfolding env_namespace has lookup
  lookup-namespace_has name [] h = refl
  lookup-namespace_has name ((j, converter) ∷ config) h = elim (Bool-cases (j === name)) [
    | inl same ↦ cc (rw same at h)
    | inr other ↦
        let rest = lookup-namespace_has name config (rw other at h) in
        elim (Option-cases (read_option parse_int converter (getenv [] (variable j) environ))) [
          | inl e ↦ rw (e, env_namespace) rest
          | inr (v, e) ↦ rw (e, env_namespace, other, lookup) rest
        ]
  ]

  lookup-env_namespace :
      (name : Text) (config : Dict Text Converter)
      → Names config
      → lookup name (env_namespace parse_int config environ) ≡ taken name (lookup name config)
  unfolding env_namespace lookup
  lookup-env_namespace name [] u = refl
  lookup-env_namespace name ((j, converter) ∷ config) (h, u) = elim (Bool-cases (j === name)) [
    | inl same ↦
        let at = (list_eq.beq_iff j name).0 same in
        let gone = lookup-namespace_has name config (rw at at h) in
        elim (Option-cases (read_option parse_int converter (getenv [] (variable j) environ))) [
          | inl e ↦ rw (e, env_namespace, same) (gone ∙ sym (rw at at e))
          | inr (v, e) ↦ rw (e, env_namespace, same, lookup) (sym (rw at at e))
        ]
    | inr other ↦
        let rest = lookup-env_namespace name config u in
        elim (Option-cases (read_option parse_int converter (getenv [] (variable j) environ))) [
          | inl e ↦ rw (e, env_namespace, other) rest
          | inr (v, e) ↦ rw (e, env_namespace, other, lookup) rest
        ]
  ]

  config_Names : Names env_config
  unfolding has
  config_Names = (refl, (refl, (refl, (refl, (refl, (refl, (refl, (refl, (refl, (refl, tt))))))))))

  -- A name that is no option has no value, nor has one whose variable is missing or empty, or is to be
  -- a number and is none. Else the option has its variable as a text or as a number, and a switch is on
  -- whatever its variable says.
  pub lookup-get_env_namespace :
      (name : Text)
      → lookup name (get_env_namespace parse_int environ)
        ≡ value_of (lookup name env_config) (lookup (variable name) environ)
  unfolding get_env_namespace
  lookup-get_env_namespace name =
      lookup-env_namespace name env_config config_Names
      ∙ taken-value_of name (lookup name env_config)

  -- `MOSEC_DEBUG` turns the debug log on, whatever it is set to, if it is not empty: also `false`.
  pub get_env_namespace-debug :
      (c : ℕ) (cs : Text)
      → lookup (variable (text "debug")) environ ≡ some (c ∷ cs)
      → lookup (text "debug") (get_env_namespace parse_int environ) ≡ some (bool_value true)
  unfolding lookup
  get_env_namespace-debug c cs h =
      lookup-get_env_namespace (text "debug") ∙ ap (value_of (some bool)) h
