-- ===== src/Coordinator/Reply/Served.antt =====
-- The results of a worker of mosec/coordinator.py that computes a function for each request.
use mosec.Prelude.{
  ℕ, suc, ◌≤◌, ◌<◌, ◌≡◌, refl, ap, ◌∙◌, true, false, List, [], ◌∷◌, map, ltb, ◌==◌, ==_iff, length,
  length-map, arith, Bool-cases, inl, inr,
}
use mosec.Errors.{Bytes, success, ok}
use mosec.Coordinator.{
  Call, Worker, Python, decode, encode, decode_all, encode_all, call_forward, process, answer_for,
  answer, set_mosec_timeout,
}

set_mosec_timeout-in_time :
    {A : Type 0} (timeout : ℕ) (c : Call A)
    → c.elapsed ≤ timeout
    → set_mosec_timeout timeout c ≡ c.outcome
unfolding set_mosec_timeout
set_mosec_timeout-in_time timeout c h =
    let early : ltb timeout c.elapsed ≡ false = ground arith in
    elim (Bool-cases (timeout == 0)) [ inl unset ↦ rw unset | inr is_set ↦ rw (is_set, early) ]

module _ {A : Type 0} (python : Python A) (w : Worker A) (timeout : ℕ) (f : A → A) where
  -- Each payload is decoded by its state, and the reply to it is the encoding, by the same state, of
  -- `f` at what it stands for.
  pub data Served : List Bytes → List ℕ → List A → List Bytes → Type 0 where
    none_left : Served [] [] [] []
    task :
        {p q : Bytes} {s : ℕ} {x : A} {ps qs : List Bytes} {ss : List ℕ} {xs : List A}
        → decode python w timeout p s ≡ ok x
        → encode python w timeout (f x) s ≡ ok q
        → Served ps ss xs qs
        → Served (p ∷ ps) (s ∷ ss) (x ∷ xs) (q ∷ qs)

  decode_all-Served :
      {ps qs : List Bytes} {ss : List ℕ} {xs : List A}
      → Served ps ss xs qs
      → decode_all python w timeout ps ss ≡ ok xs
  unfolding decode_all
  decode_all-Served none_left = refl
  decode_all-Served (task d e s) = rw (d, decode_all-Served s)

  encode_all-Served :
      {ps qs : List Bytes} {ss : List ℕ} {xs : List A}
      → Served ps ss xs qs
      → encode_all python w timeout (map f xs) ss ≡ ok qs
  unfolding encode_all
  encode_all-Served none_left = refl
  encode_all-Served (task d e s) = rw (e, encode_all-Served s)

  length-Served :
      {ps qs : List Bytes} {ss : List ℕ} {xs : List A} → Served ps ss xs qs → length xs ≡ length ps
  length-Served none_left = refl
  length-Served (task d e s) = ap suc (length-Served s)

  -- `forward` is in time, and returns a list of the results in the order of the requests.
  pub record IsBatched (xs : List A) : Type 0 where
    pub batches : 1 < w.max_batch_size
    pub in_time : (w.forward (python.list_of xs)).elapsed ≤ timeout
    pub returns : (w.forward (python.list_of xs)).outcome ≡ ok (python.list_of (map f xs))
    pub list_of : python.elements (python.list_of (map f xs)) ≡ ok (map f xs)

  call_forward-IsBatched :
      (xs : List A) → IsBatched xs → call_forward python w timeout xs ≡ ok (map f xs)
  unfolding call_forward
  call_forward-IsBatched xs b =
      let batches : ltb 1 w.max_batch_size ≡ true = let h = b.batches in ground arith in
      rw
        (
          batches,
          set_mosec_timeout-in_time timeout (w.forward (python.list_of xs)) b.in_time,
          b.returns,
        )
        b.list_of

  -- A worker that computes `f` for each request of a batch, in time: every payload of the answer is
  -- the one for the task at its place, decoded and encoded by the bits of that task's own state.
  pub answer-Served :
      {payloads replies : List Bytes} {states : List ℕ} {xs : List A}
      → Served payloads states xs replies
      → IsBatched xs
      → answer python w timeout payloads states
        ≡ ok (record { status = success; payloads = replies })
  unfolding answer process answer_for
  answer-Served {payloads} {xs = xs} s b =
      let same : (length (map f xs) == length payloads) ≡ true =
        (==_iff (length (map f xs)) (length payloads)).1 (length-map xs f ∙ length-Served s) in
      rw (decode_all-Served s, call_forward-IsBatched xs b, same, encode_all-Served s)
