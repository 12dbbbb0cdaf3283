-- ===== src/Annotations.antt =====
-- mosec/utils.py: the types that the annotations of a worker's `forward` give to its input and its
-- output. What Python's `typing` and `inspect` do is a parameter.
use mosec.Prelude.{ℕ, zero, suc, Bool, false, Option, none, some, List, [], ◌∷◌, if◌then◌else◌, ltb}
use mosec.Prelude.Eq.{◌===◌, nat_eq, list_eq}
use mosec.Prelude.Int.{ℤ, pos, negsuc}
use mosec.Prelude.Dict.{Dict, lookup}
use mosec.Errors.{Text, text, Result, ok, raised, diverged, failed, type_error, is_exception, ◌>>=◌}
use mosec.Runtime.{Runtime}

-- The value of an annotation; `anything` is `Any`, also of a `forward` without one.
pub data Annotation (T : Type 0) : Type 0 where
  anything : Annotation T
  typ : T → Annotation T

-- Of a runtime's `forward`: `get_type_hints` and `inspect.get_annotations`, in the order of the
-- parameters, and `eval` with its globals. `as_text` is the text of a string, `list_args` has the
-- arguments of a `list[...]`. `rounds` bounds the loop that evaluates a string.
pub record Hints (T : Type 0) : Type 0 where
  pub get_type_hints : Runtime Text → Result (Dict Text (Annotation T))
  pub get_annotations : Runtime Text → Result (Dict Text (Annotation T))
  pub evaluate : Runtime Text → Text → Result (Annotation T)
  pub as_text : T → Option Text
  pub list_args : T → Option (List (Annotation T))
  pub rounds : ℕ

-- `max_batch_size > 1`
abbrev pub above_one : ℤ → Bool
above_one (pos n) = ltb 1 n
above_one (negsuc n) = false

-- The annotation of the first parameter, and of the result.
unfoldable pub first_parameter : {T : Type 0} → Dict Text (Annotation T) → Annotation T
first_parameter [] = anything
first_parameter ((name, value) ∷ annotations) =
    if name === text "return" then first_parameter annotations else value

unfoldable pub return_type : {T : Type 0} → Dict Text (Annotation T) → Annotation T
unfolding lookup
return_type annotations = elim (lookup (text "return") annotations) [
  | none ↦ anything
  | some value ↦ value
]

-- The `except Exception` of `_resolve_annotations`.
unfoldable pub or_raw : {A : Type 0} → Result A → Result A → Result A
unfolding is_exception
or_raw (ok hints) raw = ok hints
or_raw (raised e) raw = if is_exception e then raw else raised e
or_raw diverged raw = diverged

-- The argument of a `list[...]`.
unfoldable pub only_arg :
    {T : Type 0} → Annotation T → Option (List (Annotation T)) → Result (Annotation T)
only_arg t none = ok t
only_arg t (some []) = raised (failed type_error)
only_arg t (some (a ∷ [])) = ok a
only_arg t (some (a ∷ b ∷ args)) = raised (failed type_error)

module _ {T : Type 0} (h : Hints T) where
  unfoldable pub resolve_annotations : Runtime Text → Result (Dict Text (Annotation T))
  unfolding or_raw
  resolve_annotations func = or_raw (h.get_type_hints func) (h.get_annotations func)

  abbrev pub text_of : Annotation T → Option Text
  text_of anything = none
  text_of (typ t) = h.as_text t

  -- `resolved == typ`, for a `typ` that is a string.
  abbrev pub is_text : Annotation T → Text → Bool
  is_text resolved s = elim (text_of resolved) [ none ↦ false | some u ↦ u === s ]

  -- The loop of `_unwrap_batch_type`.
  unfoldable pub unwrap_text : ℕ → Runtime Text → Annotation T → Result (Annotation T)
  unwrap_text zero func t = elim (text_of t) [ none ↦ ok t | some s ↦ diverged ]
  unwrap_text (suc rounds) func t = elim (text_of t) [
    | none ↦ ok t
    | some s ↦ h.evaluate func s >>= λ resolved.
        let next = unwrap_text rounds func resolved in if is_text resolved s then ok t else next
  ]

  abbrev pub args_of : Annotation T → Option (List (Annotation T))
  args_of anything = none
  args_of (typ t) = h.list_args t

  unfoldable pub unwrap_batch_type :
      Runtime Text → Annotation T → (batched : Bool) → Result (Annotation T)
  unfolding unwrap_text only_arg
  unwrap_batch_type func annotation batched = do
    t ← unwrap_text h.rounds func annotation
    if batched then only_arg t (args_of t) else ok t

  unfoldable pub get_forward_input_type : Runtime Text → (batched : Bool) → Result (Annotation T)
  unfolding resolve_annotations first_parameter unwrap_batch_type
  get_forward_input_type func batched = do
    annotations ← resolve_annotations func
    unwrap_batch_type func (first_parameter annotations) batched

  unfoldable pub get_forward_return_type : Runtime Text → (batched : Bool) → Result (Annotation T)
  unfolding resolve_annotations return_type unwrap_batch_type
  get_forward_return_type func batched = do
    annotations ← resolve_annotations func
    unwrap_batch_type func (return_type annotations) batched
