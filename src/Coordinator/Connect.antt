-- ===== src/Coordinator/Connect.antt =====
-- `init_protocol` of mosec/coordinator.py: the wait for the socket file. Log lines are left out.
use mosec.Prelude.{
  ℕ, zero, suc, ◌+◌, ◌≤◌, ◌<◌, ◌≡◌, Bool, true, false, arith, if◌then◌else◌, Bool-cases, inl, inr,
  ◌⊎◌,
}

abbrev pub conn_max_retry : ℕ
conn_max_retry = 10

-- At each try, counted from zero: whether a shutdown has been asked for, and whether the file is there.
module _ (shutdown exists : ℕ → Bool) where
  -- The loop, with the tries that are left, and the sleeps so far: whether the file was found, and
  -- after how many sleeps of a second the loop has ended.
  unfoldable pub find_socket : (tries retry_count : ℕ) → Bool × ℕ
  find_socket zero retry_count = (false, retry_count)
  find_socket (suc tries) retry_count =
      let later = find_socket tries (suc retry_count) in
      if shutdown retry_count
      then (false, retry_count)
      else if exists retry_count
      then (true, retry_count)
      else later

  unfoldable pub init_protocol : Bool × ℕ
  unfolding find_socket
  init_protocol = find_socket conn_max_retry 0

  -- The wait found the file at the try at which it ended, no earlier one found it, and none had been
  -- asked to shut down.
  pub record Waited (first last : ℕ) (o : Bool × ℕ) : Type 0 where
    pub bound : o.1 ≤ last
    pub found : o.0 ≡ true → (exists o.1 ≡ true) × (shutdown o.1 ≡ false)
    pub given_up : o.0 ≡ false → o.1 < last → shutdown o.1 ≡ true
    pub before : (i : ℕ) → first ≤ i → i < o.1 → (exists i ≡ false) × (shutdown i ≡ false)

  find_socket-Waited :
      (tries retry_count : ℕ)
      → Waited retry_count (tries + retry_count) (find_socket tries retry_count)
  unfolding find_socket
  find_socket-Waited zero t = record {
    bound = omega arith;
    found = λ e. cc;
    given_up = λ e l. absurd (omega arith);
    before = λ i l u. absurd (omega arith);
  }
  find_socket-Waited (suc tries) t = elim (Bool-cases (shutdown t)) [
    | inl down ↦ rw down (record {
      bound = omega arith;
      found = λ e. cc;
      given_up = λ e l. down;
      before = λ i l u. absurd (omega arith);
    })
    | inr up ↦ elim (Bool-cases (exists t)) [
      | inl there ↦
          rw (up, there)
            (record {
              bound = omega arith;
              found = λ e. (there, up);
              given_up = λ e l. cc;
              before = λ i l u. absurd (omega arith);
            })
      | inr missing ↦
          let w = find_socket-Waited tries (suc t) in
          rw (up, missing)
            (record {
              bound = let b = w.bound in omega arith;
              found = w.found;
              given_up = λ e l. w.given_up e (omega arith);
              before = λ i l u. elim (split i t l) [
                | inl e ↦ rw e (missing, up)
                | inr later ↦ w.before i later u
              ];
            })
    ]
  ]
    where
      split : (i t : ℕ) → t ≤ i → (i ≡ t) ⊎ (suc t ≤ i)
      split i t l = omega arith

  -- The wait ends after ten sleeps at most. If it has found the file, the file was there at its last
  -- try; it gives up earlier only for a shutdown; and no try before its last had the file or a
  -- shutdown.
  pub init_protocol-Waited : Waited 0 conn_max_retry init_protocol
  unfolding init_protocol
  init_protocol-Waited = find_socket-Waited conn_max_retry 0
