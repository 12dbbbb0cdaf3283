-- ===== src/Errors.antt =====
-- mosec/errors.py, and `HTTPStatusCode` of mosec/protocol.py. A raised exception is a value.
use Prim.Native.String.{String}
use Prim.Native.Char
use mosec.Prelude.{
  ◌⊎◌, inl, inr, ℕ, ◌≡◌, refl, Bool, true, false, Option, none, some, List, [], ◌∷◌,
}

-- The flag that stands for an HTTP status on the wire.
pub data HttpStatusCode : Type 0 where
  success bad_request validation internal timed_out stream_event : HttpStatusCode

unfoldable pub flag_value : HttpStatusCode → ℕ
flag_value success = 1
flag_value bad_request = 2
flag_value validation = 4
flag_value internal = 8
flag_value timed_out = 16
flag_value stream_event = 32768

-- A Python `str` as its code points, and `bytes`.
abbrev pub Text : Type 0
Text = List ℕ

abbrev pub Bytes : Type 0
Bytes = List ℕ

-- The subclasses of `MosecError`.
pub data ErrorClass : Type 0 where
  mosec_error client_error server_error encoding_error decoding_error validation_error : ErrorClass

-- The method resolution order, from the class itself to `MosecError`.
unfoldable pub mro : ErrorClass → List ErrorClass
mro mosec_error = mosec_error ∷ []
mro client_error = client_error ∷ mosec_error ∷ []
mro server_error = server_error ∷ mosec_error ∷ []
mro encoding_error = encoding_error ∷ server_error ∷ mosec_error ∷ []
mro decoding_error = decoding_error ∷ client_error ∷ mosec_error ∷ []
mro validation_error = validation_error ∷ mosec_error ∷ []

-- The `code` that a class body sets itself.
unfoldable pub own_code : ErrorClass → Option HttpStatusCode
own_code mosec_error = some internal
own_code client_error = some bad_request
own_code server_error = some internal
own_code encoding_error = none
own_code decoding_error = none
own_code validation_error = some validation

first_some : List ErrorClass → HttpStatusCode
unfolding own_code
first_some [] = internal
first_some (c ∷ cs) = elim (own_code c) [ none ↦ first_some cs | some s ↦ s ]

-- The class attribute `code`, inherited along the resolution order.
unfoldable pub code : ErrorClass → HttpStatusCode
unfolding first_some mro
code c = first_some (mro c)

-- A text that the source writes as a literal.
abbrev pub text : String → Text
text String.[] = []
text (String.◌∷◌ c s) = Char.code c ∷ text s

-- The class attribute `msg`; every class body sets it.
unfoldable pub msg : ErrorClass → Text
msg mosec_error = text "mosec error"
msg client_error = text "bad request"
msg server_error = text "internal error"
msg encoding_error = text "encoding error"
msg decoding_error = text "decoding error"
msg validation_error = text "request validation error"

abbrev pub timeout_msg : Text
timeout_msg = text "mosec timeout error"

-- What a `raise` carries. `failed` is any other `Exception`, `exited` a `BaseException` that no
-- handler of the program names (`SystemExit`, `KeyboardInterrupt`).
pub data Failure : Type 0 where
  value_error type_error key_error index_error runtime_error assertion_error : Failure
  struct_error os_error socket_timeout user_error name_error syntax_error : Failure

pub data Raised : Type 0 where
  mosec_failure : ErrorClass → Text → Raised
  mosec_timeout : Text → Raised
  failed : Failure → Raised
  exited : Raised

-- The outcome of a call: a value, an exception, or a loop that has used up its fuel.
pub data Result {ℓ} (A : Type ℓ) : Type ℓ where
  ok : A → Result A
  raised : Raised → Result A
  diverged : Result A

infixl 5 ◌>>=◌
abbrev pub ◌>>=◌ {ℓ κ} : {A : Type ℓ} {B : Type κ} → Result A → (A → Result B) → Result B
diverged >>= f = diverged
raised e >>= f = raised e
ok a >>= f = f a

-- The three outcomes.
pub Result-cases {ℓ} :
    {A : Type ℓ} (r : Result A)
    → ((a : A) × (r ≡ ok a)) ⊎ ((e : Raised) × (r ≡ raised e)) ⊎ (r ≡ diverged)
Result-cases (ok a) = inl (a, refl)
Result-cases (raised e) = inr (inl (e, refl))
Result-cases diverged = inr (inr refl)

-- A chain returns only if its first call does.
pub >>=-eq-ok {ℓ κ} :
    {A : Type ℓ} {B : Type κ} {b : B} (m : Result A) (f : A → Result B)
    → m >>= f ≡ ok b
    → (a : A) × (m ≡ ok a) × (f a ≡ ok b)
>>=-eq-ok diverged f h = cc
>>=-eq-ok (raised e) f h = cc
>>=-eq-ok (ok a) f h = (a, refl, h)

-- `isinstance(err, Exception)`: what `except Exception` catches
unfoldable pub is_exception : Raised → Bool
is_exception (mosec_failure _ _) = true
is_exception (mosec_timeout _) = false
is_exception (failed _) = true
is_exception exited = false

decoding_code : code decoding_error ≡ bad_request
unfolding code
decoding_code = refl
