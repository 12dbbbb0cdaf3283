-- ===== src/Coordinator/Reply/Handled.antt =====
-- When `coordinate` of mosec/coordinator.py answers for sure: the timeout cuts `forward` off.
use mosec.Prelude.{
  ℕ, ◌≤◌, ◌<◌, ◌≡◌, ◌≢◌, refl, none, some, ◌%◌, ◌/◌, Bool, true, false, ◌⊎◌, inl, inr, List, [],
  ◌∷◌, ltb, if◌then◌else◌, length, ◌==◌, Bool-cases, arith,
}
use mosec.Errors.{
  Bytes, mosec_failure, mosec_timeout, failed, exited, Result, ok, raised, diverged, ◌>>=◌,
  value_error, Text, Raised, msg, timeout_msg,
}
use mosec.Coordinator.{
  Worker, Python, decode, encode, decode_all, encode_all, call_forward, process, answer,
  set_mosec_timeout, first, describe, alarm, internal_error,
}
use mosec.Coordinator.Reply.{Answered, answer-Answered, error_text}

-- A value, or an exception that `coordinate` handles, with a text that has an encoding.
abbrev pub Handled : {A B : Type 0} → Python A → Result B → Type 0
Handled python (ok a) = Unit
Handled python (raised (mosec_failure c t)) = python.encode_text (describe (msg c) t) ≢ none
Handled python (raised (mosec_timeout t)) = python.encode_text (describe timeout_msg t) ≢ none
Handled python (raised (failed f)) = Unit
Handled python (raised exited) = ⊥
Handled python diverged = ⊥

-- A worker of which each call ends so, but for a `forward` that takes longer than a timeout that is
-- not zero; and the two texts of `coordinate` itself have an encoding.
pub record IsCivil {A : Type 0} (python : Python A) (w : Worker A) (timeout : ℕ) : Type 0 where
  pub serialize : (x : A) → Handled python (w.serialize x)
  pub serialize_ipc : (x : A) → Handled python (w.serialize_ipc x)
  pub deserialize : (b : Bytes) → Handled python (w.deserialize b)
  pub deserialize_ipc : (b : Bytes) → Handled python (w.deserialize_ipc b)
  pub forward :
      (x : A)
      → ((1 ≤ timeout) × (timeout < (w.forward x).elapsed)) ⊎ Handled python (w.forward x).outcome
  pub elements : (x : A) → Handled python (python.elements x)
  pub alarm_text : python.encode_text (describe timeout_msg alarm) ≢ none
  pub internal_text : python.encode_text internal_error ≢ none

Handled->>= :
    {A B C : Type 0} (python : Python A) (m : Result B) (f : B → Result C)
    → Handled python m
    → ((a : B) → Handled python (f a))
    → Handled python (m >>= f)
Handled->>= python (ok a) f h g = g a
Handled->>= python (raised (mosec_failure c t)) f h g = h
Handled->>= python (raised (mosec_timeout t)) f h g = h
Handled->>= python (raised (failed e)) f h g = tt
Handled->>= python (raised exited) f h g = h
Handled->>= python diverged f h g = h

module _ {A : Type 0} (python : Python A) (w : Worker A) (timeout : ℕ)
    (civil : IsCivil python w timeout) where
  decode-Handled : (b : Bytes) (s : ℕ) → Handled python (decode python w timeout b s)
  unfolding decode
  decode-Handled b s = elim (Bool-cases (s % 2 == 1)) [
    | inl e ↦ rw e (civil.deserialize b)
    | inr e ↦ rw e (civil.deserialize_ipc b)
  ]

  encode-Handled : (x : A) (s : ℕ) → Handled python (encode python w timeout x s)
  unfolding encode
  encode-Handled x s = elim (Bool-cases (s / 2 % 2 == 1)) [
    | inl e ↦ rw e (civil.serialize x)
    | inr e ↦ rw e (civil.serialize_ipc x)
  ]

  decode_all-Handled :
      (ps : List Bytes) (ss : List ℕ) → Handled python (decode_all python w timeout ps ss)
  unfolding decode_all
  decode_all-Handled [] [] = tt
  decode_all-Handled [] (s ∷ ss) = tt
  decode_all-Handled (p ∷ ps) [] = tt
  decode_all-Handled (p ∷ ps) (s ∷ ss) =
      Handled->>= python (decode python w timeout p s) _ (decode-Handled p s) (λ x.
        Handled->>= python (decode_all python w timeout ps ss) _ (decode_all-Handled ps ss)
          (λ xs. tt))

  encode_all-Handled :
      (xs : List A) (ss : List ℕ) → Handled python (encode_all python w timeout xs ss)
  unfolding encode_all
  encode_all-Handled [] [] = tt
  encode_all-Handled [] (s ∷ ss) = tt
  encode_all-Handled (x ∷ xs) [] = tt
  encode_all-Handled (x ∷ xs) (s ∷ ss) =
      Handled->>= python (encode python w timeout x s) _ (encode-Handled x s) (λ p.
        Handled->>= python (encode_all python w timeout xs ss) _ (encode_all-Handled xs ss)
          (λ ps. tt))

  forward-Handled : (x : A) → Handled python (set_mosec_timeout timeout (w.forward x))
  unfolding set_mosec_timeout
  forward-Handled x = by_alarm (timeout == 0) (ltb timeout (w.forward x).elapsed) refl refl
    where
      by_alarm :
          (unset late : Bool)
          → (timeout == 0) ≡ unset
          → ltb timeout (w.forward x).elapsed ≡ late
          → Handled {B = A} python (
              if unset
              then (w.forward x).outcome
              else if late
              then raised (mosec_timeout alarm)
              else (w.forward x).outcome)
      by_alarm true late e f = elim (civil.forward x) [ inl h ↦ absurd (ground arith) | inr h ↦ h ]
      by_alarm false true e f = civil.alarm_text
      by_alarm false false e f = elim (civil.forward x) [
        | inl h ↦ absurd (ground arith)
        | inr h ↦ h
      ]

  first-Handled : (xs : List A) → Handled python (first xs)
  first-Handled [] = tt
  first-Handled (x ∷ xs) = tt

  call_forward-Handled : (xs : List A) → Handled python (call_forward python w timeout xs)
  unfolding call_forward
  call_forward-Handled xs = elim (Bool-cases (ltb 1 w.max_batch_size)) [
    | inl batched ↦ rw batched (
        Handled->>= python (set_mosec_timeout timeout (w.forward (python.list_of xs))) _
          (forward-Handled (python.list_of xs)) civil.elements)
    | inr single ↦ rw single (
        Handled->>= python (first xs) _ (first-Handled xs) (λ x.
          Handled->>= python (set_mosec_timeout timeout (w.forward x)) _ (forward-Handled x)
            (λ y. tt)))
  ]

  sized-Handled :
      (ys : List A) (b : Bool)
      → Handled {B = List A} python (if b then ok ys else raised (failed value_error))
  sized-Handled ys true = tt
  sized-Handled ys false = tt

  process-Handled :
      (ps : List Bytes) (ss : List ℕ) → Handled python (process python w timeout ps ss)
  unfolding process
  process-Handled ps ss =
      Handled->>= python (decode_all python w timeout ps ss) _ (decode_all-Handled ps ss) (λ xs.
        Handled->>= python (call_forward python w timeout xs) _ (call_forward-Handled xs) (λ ys.
          Handled->>= python (if length ys == length ps then ok ys else raised (failed value_error))
            _ (sized-Handled ys (length ys == length ps)) (λ zs. encode_all-Handled zs ss)))

  -- The worker's calls each return, or raise an `Exception` or a timeout whose text has an encoding;
  -- `forward` may even hang, if the timeout is not zero, since it is then cut off; and the two texts of
  -- `coordinate` itself have an encoding. Then each batch is answered, with one payload for each task.
  pub answer-civil :
      (payloads : List Bytes) (states : List ℕ)
      → Answered
          (length payloads)
          (process python w timeout payloads states)
          (answer python w timeout payloads states)
  answer-civil payloads states =
      let h = process-Handled payloads states in
      elim (answer-Answered python w timeout payloads states) [
        | inl g ↦ g
        | inr (inl u) ↦
            absurd (unanswered u.error u.said (rw u.raised_by at h) u.text_of u.no_bytes)
        | inr (inr (inl (p, r))) ↦ absurd (rw p at h)
        | inr (inr (inr (p, r))) ↦ absurd (rw p at h)
      ]
    where
      some_inj : {a b : Text} → some a ≡ some b → a ≡ b
      some_inj e = cc

      told : {a b : Text} → a ≡ b → python.encode_text a ≢ none → python.encode_text b ≢ none
      told e n = rw (← e) n

      unanswered :
          (e : Raised) (t : Text)
          → Handled {B = List Bytes} python (raised e)
          → error_text e ≡ some t
          → python.encode_text t ≢ none
      unanswered (mosec_failure c s) t h said = told (some_inj said) h
      unanswered (mosec_timeout s) t h said = told (some_inj said) h
      unanswered (failed f) t h said = told (some_inj said) civil.internal_text
      unanswered exited t h said = absurd h
