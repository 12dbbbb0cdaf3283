-- ===== src/Options.antt =====
-- The options of a server: `get_env_namespace` of mosec/env.py, and what `parse_arguments` and
-- `get_log_level` of mosec/args.py do with the namespace that argparse returns. Warnings are left out.
pub mod Namespace
pub mod Tests
use mosec.Prelude.{
  ℕ, ◌+◌, ◌-◌, ◌≡◌, refl, Bool, true, false, Option, none, some, List, [], ◌∷◌, ◌++◌, map,
  if◌then◌else◌, leb, ◌==◌, Bool-cases, inl, inr,
}
use mosec.Prelude.Eq.{Eq, ◌===◌, nat_eq, list_eq}
use mosec.Prelude.Int.{ℤ}
use mosec.Prelude.Dict.{Dict}
use mosec.Errors.{Text, text, Result, ok, raised, failed, runtime_error, key_error}
use mosec.Runtime.{getenv}

pub data Converter : Type 0 where
  str int bool : Converter

pub data Value : Type 0 where
  str_value : Text → Value
  int_value : ℤ → Value
  bool_value : Bool → Value

-- `MOSEC_ENV_CONFIG`
abbrev pub env_config : Dict Text Converter
env_config =
    (text "path", str)
    ∷ (text "capacity", int)
    ∷ (text "timeout", int)
    ∷ (text "address", str)
    ∷ (text "port", int)
    ∷ (text "namespace", str)
    ∷ (text "debug", bool)
    ∷ (text "dry_run", bool)
    ∷ (text "log_level", str)
    ∷ (text "max_request_size", int)
    ∷ []

abbrev pub is_empty : Text → Bool
is_empty [] = true
is_empty (c ∷ cs) = false

-- `str.upper` of a name in ASCII.
abbrev pub upper : Text → Text
upper [] = []
upper (c ∷ cs) = (if leb 97 c then (if leb c 122 then c - 32 else c) else c) ∷ upper cs

abbrev pub variable : Text → Text
variable name = text "MOSEC_" ++ upper name

-- `parse_int` is Python's `int(...)`, and `none` its `ValueError`.
module _ (parse_int : Text → Option ℤ) where
  unfoldable pub convert : Converter → Text → Option Value
  convert str value = some (str_value value)
  convert bool value = some (bool_value (if is_empty value then false else true))
  convert int value = elim (parse_int value) [ none ↦ none | some n ↦ some (int_value n) ]

  -- What a variable sets: nothing where it is missing, empty, or not converted.
  unfoldable pub read_option : Converter → Text → Option Value
  unfolding convert
  read_option converter value = if is_empty value then none else convert converter value

  -- The loop over the configuration.
  unfoldable pub env_namespace : Dict Text Converter → Dict Text Text → Dict Text Value
  unfolding read_option
  env_namespace [] environ = []
  env_namespace ((name, converter) ∷ config) environ =
      let rest = env_namespace config environ in
      elim (read_option converter (getenv [] (variable name) environ)) [
        | none ↦ rest
        | some v ↦ (name, v) ∷ rest
      ]

  unfoldable pub get_env_namespace : Dict Text Text → Dict Text Value
  unfolding env_namespace
  get_env_namespace environ = env_namespace env_config environ

-- What is read of the parsed arguments.
pub record Parsed : Type 0 where
  pub wait : ℤ
  pub debug : Bool
  pub log_level : Text

-- `parse_arguments`, on what argparse returns, and whether the port is free.
unfoldable pub check_arguments : Bool → Parsed → Result Parsed
check_arguments available args =
    let checked = if args.debug then record args { log_level = text "debug" } else args in
    if available then ok checked else raised (failed runtime_error)

pub data LogLevel : Type 0 where
  debug info warning error : LogLevel

-- `level_map[...]`; argparse admits no other level.
unfoldable pub level_of : Text → Result LogLevel
level_of level =
    if level === text "debug"
    then ok debug
    else if level === text "info"
    then ok info
    else if level === text "warning"
    then ok warning
    else if level === text "error"
    then ok error
    else raised (failed key_error)

unfoldable pub get_log_level : Parsed → Result LogLevel
unfolding level_of
get_log_level args = if args.debug then ok debug else level_of args.log_level

-- The level of the log is the one of the checked arguments, which the server hands on to the
-- controller: the deprecated `--debug` means the same to both.
pub get_log_level-check_arguments :
    (args checked : Parsed)
    → check_arguments true args ≡ ok checked
    → get_log_level args ≡ level_of checked.log_level
unfolding get_log_level check_arguments
get_log_level-check_arguments args checked h = elim (Bool-cases args.debug) [
  | inl on ↦ rw (on, ← level_ok (rw on at h)) refl
  | inr off ↦ rw (off, ← level_ok (rw off at h)) refl
]
  where
    level_ok : {a b : Parsed} → ok a ≡ ok b → a.log_level ≡ b.log_level
    level_ok e = cc
