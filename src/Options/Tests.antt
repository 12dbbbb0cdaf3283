-- ===== src/Options/Tests.antt =====
-- The options of mosec/env.py and mosec/args.py at concrete inputs.
use mosec.Prelude.{◌≡◌, refl, true, Option, none, some, [], ◌∷◌, if◌then◌else◌}
use mosec.Prelude.Eq.{◌===◌, nat_eq, list_eq}
use mosec.Prelude.Int.{ℤ, pos}
use mosec.Prelude.Dict.{Dict, lookup}
use mosec.Errors.{Text, text}
use mosec.Runtime.{getenv}
use mosec.Options.{
  Parsed, bool_value, int_value, env_config, get_env_namespace, check_arguments, get_log_level,
  level_of, variable, get_log_level-check_arguments,
}
use mosec.Options.Namespace.{value_of, lookup-get_env_namespace, get_env_namespace-debug}

-- An `int` that reads one number only.
abbrev only_80 : Text → Option ℤ
only_80 t = if t === text "80" then some (pos 80) else none

abbrev environ : Dict Text Text
environ =
    (text "MOSEC_PORT", text "80")
    ∷ (text "MOSEC_DEBUG", text "false")
    ∷ (text "MOSEC_TIMEOUT", text "soon")
    ∷ []

lookup-get_env_namespace_example :
    lookup (text "port") (get_env_namespace only_80 environ)
    ≡ value_of only_80 environ
        (lookup (text "port") env_config)
        (lookup (variable (text "port")) environ)
lookup-get_env_namespace_example = lookup-get_env_namespace only_80 environ (text "port")

-- The port, and the debug log; the timeout is no number.
namespace_of :
    get_env_namespace only_80 environ
    ≡ (text "port", int_value (pos 80)) ∷ (text "debug", bool_value true) ∷ []
unfolding get_env_namespace getenv
namespace_of = refl

debug_by_false : lookup (text "debug") (get_env_namespace only_80 environ) ≡ some (bool_value true)
unfolding lookup
debug_by_false = get_env_namespace-debug only_80 environ _ _ refl

abbrev parsed : Parsed
parsed = record { wait = pos 10; debug = true; log_level = text "error" }

abbrev checked : Parsed
checked = record { wait = pos 10; debug = true; log_level = text "debug" }

get_log_level-check_arguments_example : get_log_level parsed ≡ level_of checked.log_level
unfolding check_arguments
get_log_level-check_arguments_example = get_log_level-check_arguments parsed checked refl
