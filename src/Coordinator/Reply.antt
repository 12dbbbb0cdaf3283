-- ===== src/Coordinator/Reply.antt =====
-- What `coordinate` of mosec/coordinator.py answers to a batch.
pub mod Handled
pub mod Served
use mosec.Prelude.{
  ℕ, zero, suc, ◌≤◌, ◌<◌, ◌≡◌, ◌≢◌, ◌↔◌, refl, sym, ap, ◌∙◌, Bool, true, false, ◌⊎◌, inl, inr,
  Option, none, some, List, [], ◌∷◌, map, ◌==◌, ==_iff, ltb, arith, if◌then◌else◌, length,
  length-map, length-replicate, replicate, Bool-cases, tests,
}
use mosec.Errors.{
  >>=-eq-ok, Bytes, Text, HttpStatusCode, timed_out, internal, msg, timeout_msg, value_error,
  Raised, success, code, mosec_error, client_error, server_error, encoding_error, decoding_error,
  validation_error, mosec_failure, mosec_timeout, failed, exited, Result, ok, raised, diverged,
  ◌>>=◌, ErrorClass,
}
use mosec.Coordinator.{
  Worker, Python, Answer, decode, encode, decode_all, encode_all, call_forward, process, answer_for,
  answer, set_mosec_timeout, first, describe, internal_error, error_answer,
}

code-failure : (c : ErrorClass) → code c ≢ success
unfolding code
code-failure mosec_error e = cc
code-failure client_error e = cc
code-failure server_error e = cc
code-failure encoding_error e = cc
code-failure decoding_error e = cc
code-failure validation_error e = cc

-- A batch of `count` tasks gets one payload for each; the status is success exactly if the batch
-- went through.
pub record Answered (count : ℕ) (p : Result (List Bytes)) (r : Result Answer) : Type 0 where
  pub given : Answer
  pub result : r ≡ ok given
  pub count_kept : length given.payloads ≡ count
  pub status : (given.status ≡ success) ↔ (p ≡ ok given.payloads)

-- What `coordinate` says of an exception that it handles.
abbrev pub error_text : Raised → Option Text
error_text (mosec_failure c t) = some (describe (msg c) t)
error_text (mosec_timeout t) = some (describe timeout_msg t)
error_text (failed f) = some internal_error
error_text exited = none

-- The text of the error that is to be answered has no encoding.
pub record Unencoded {A : Type 0} (python : Python A) (p : Result (List Bytes)) (r : Result Answer)
    : Type 0 where
  pub error : Raised
  pub said : Text
  pub raised_by : p ≡ raised error
  pub text_of : error_text error ≡ some said
  pub no_bytes : python.encode_text said ≡ none
  pub result : r ≡ raised (failed value_error)

module _ {A : Type 0} (python : Python A) (w : Worker A) (timeout : ℕ) where
  abbrev pub Outcome : ℕ → Result (List Bytes) → Result Answer → Type 0
  Outcome count p r =
      Answered count p r
      ⊎ Unencoded python p r
      ⊎ ((p ≡ raised exited) × (r ≡ raised exited))
      ⊎ ((p ≡ diverged) × (r ≡ diverged))

  encode_all-length :
      (xs : List A) (states : List ℕ) {ps : List Bytes}
      → encode_all python w timeout xs states ≡ ok ps
      → length ps ≡ length xs
  unfolding encode_all
  encode_all-length [] [] h = cc
  encode_all-length (x ∷ xs) (s ∷ states) h =
      let (p, e, h1) = >>=-eq-ok (encode python w timeout x s) _ h in
      let (ps, e1, h2) = >>=-eq-ok (encode_all python w timeout xs states) (λ l. ok (p ∷ l)) h1 in
      let n = encode_all-length xs states e1 in ground (arith, n, h2)
  encode_all-length _ _ h = cc

  process-length :
      (payloads : List Bytes) (states : List ℕ) {ps : List Bytes}
      → process python w timeout payloads states ≡ ok ps
      → length ps ≡ length payloads
  unfolding process
  process-length payloads states h =
      let (xs, e, h1) = >>=-eq-ok (decode_all python w timeout payloads states) _ h in
      let (ys, e1, h2) = >>=-eq-ok (call_forward python w timeout xs) _ h1 in
      elim (Bool-cases (length ys == length payloads)) [
        | inl same ↦
            encode_all-length ys states (rw same at h2)
            ∙ (==_iff (length ys) (length payloads)).0 same
        | inr other ↦ cc (rw other at h2)
      ]

  error_answer-Answered :
      (count : ℕ) (status : HttpStatusCode) (e : Raised) {t : Text} (b : Option Bytes)
      → status ≢ success
      → error_text e ≡ some t
      → python.encode_text t ≡ b
      → Outcome count (raised e) (error_answer status count b)
  error_answer-Answered count status e none other said f = inr (
      inl (record {
        error = e;
        said = _;
        raised_by = refl;
        text_of = said;
        no_bytes = f;
        result = refl;
      }))
  error_answer-Answered count status e (some b) other said f = inl (record {
    given = _;
    result = refl;
    count_kept = length-replicate count b;
    status = (λ g. absurd (other g), λ g. cc);
  })

  answer_for-Answered :
      (count : ℕ) (p : Result (List Bytes))
      → ((ps : List Bytes) → p ≡ ok ps → length ps ≡ count)
      → Outcome count p (answer_for python w timeout count p)
  unfolding answer_for
  answer_for-Answered count (ok ps) h =
      inl (record {
        given = _;
        result = refl;
        count_kept = h ps refl;
        status = (λ e. refl, λ e. refl);
      })
  answer_for-Answered count (raised (mosec_failure c t)) h =
      error_answer-Answered count (code c) (mosec_failure c t) _ (code-failure c) refl refl
  answer_for-Answered count (raised (mosec_timeout t)) h =
      error_answer-Answered count timed_out (mosec_timeout t) _ (λ e. cc) refl refl
  answer_for-Answered count (raised (failed f)) h =
      error_answer-Answered count internal (failed f) _ (λ e. cc) refl refl
  answer_for-Answered count (raised exited) h = inr (inr (inl (refl, refl)))
  answer_for-Answered count diverged h = inr (inr (inr (refl, refl)))

  -- The batch is answered with as many payloads as it has tasks, and with the success status exactly
  -- if it was decoded, computed and encoded; unless the text of the error that the worker raised has
  -- no encoding, and a `ValueError` leaves `coordinate`; or one of the worker's calls raises an
  -- exception that is no `Exception` and no timeout, or never returns.
  pub answer-Answered :
      (payloads : List Bytes) (states : List ℕ)
      → Outcome
          (length payloads)
          (process python w timeout payloads states)
          (answer python w timeout payloads states)
  unfolding answer
  answer-Answered payloads states =
      answer_for-Answered (length payloads) (process python w timeout payloads states)
        (λ ps. process-length payloads states)

  call_forward-single :
      (xs ys : List A)
      → ltb 1 w.max_batch_size ≡ false
      → call_forward python w timeout xs ≡ ok ys
      → length ys ≡ 1
  unfolding call_forward
  call_forward-single xs ys single h =
      let (x, e, h1) =
        >>=-eq-ok (first xs) (λ x. set_mosec_timeout timeout (w.forward x) >>= λ y. ok (y ∷ []))
          (rw single at h) in
      let (y, e1, h2) = >>=-eq-ok (set_mosec_timeout timeout (w.forward x)) (λ y. ok (y ∷ [])) h1 in
      ap length (sym (ok_inj h2))
    where
      ok_inj : {B : Type 0} {a b : B} → ok a ≡ ok b → a ≡ b
      ok_inj e = cc

  process-single :
      (payloads : List Bytes) (states : List ℕ) {ps : List Bytes}
      → ltb 1 w.max_batch_size ≡ false
      → process python w timeout payloads states ≡ ok ps
      → length payloads ≡ 1
  unfolding process
  process-single payloads states single h =
      let (xs, e, h1) = >>=-eq-ok (decode_all python w timeout payloads states) _ h in
      let (ys, e1, h2) = >>=-eq-ok (call_forward python w timeout xs) _ h1 in
      elim (Bool-cases (length ys == length payloads)) [
        | inl same ↦
            sym ((==_iff (length ys) (length payloads)).0 same)
            ∙ call_forward-single xs ys single e1
        | inr other ↦ cc (rw other at h2)
      ]

  -- A worker without batching that is sent a batch of any size but one answers no task of it with
  -- success, whatever its `forward` returns.
  pub answer-single :
      (payloads : List Bytes) (states : List ℕ) (a : Answer)
      → w.max_batch_size ≤ 1
      → length payloads ≢ 1
      → answer python w timeout payloads states ≡ ok a
      → a.status ≢ success
  answer-single payloads states a single other h e = elim (answer-Answered payloads states) [
    | inl g ↦
        let same : g.given ≡ a = cc (g.result, h) in
        other
          (process-single payloads states (ground arith) (g.status.0 (ap (λ b. b.status) same ∙ e)))
    | inr (inl u) ↦ cc (u.result, h)
    | inr (inr (inl (p, r))) ↦ cc
    | inr (inr (inr (p, r))) ↦ cc
  ]
