-- ===== src/Protocol/Send/Format.antt =====
-- The wire format of mosec/protocol.py, and that `send` writes it.
use mosec.Prelude.{
  ℕ, ◌<◌, ◌≡◌, ◌≢◌, refl, sym, ◌∙◌, List, [], ◌∷◌, ◌++◌, arith, length, length-map, leb, ◌==◌,
  ==_iff, Bool-cases, inl, inr, suc, true,
}
use mosec.Errors.{>>=-eq-ok, Bytes, ok, raised, failed, value_error}
use mosec.Protocol.{Task, ids, states, payloads}
use mosec.Protocol.Struct.{
  u16_mod, u32_mod, bytes_u16, bytes_u32, pack_u16, pack_u32, pack_u16-ok, pack_u32-ok,
}
use mosec.Protocol.Send.{write_tasks, write_batch, send}

-- The format: id, state and length of each task in front of its payload.
abbrev pub body_bytes : List Task → Bytes
body_bytes [] = []
body_bytes (k ∷ ks) =
    k.id ++ (bytes_u16 k.state ++ (bytes_u32 (length k.payload) ++ (k.payload ++ body_bytes ks)))

abbrev pub message : ℕ → List Task → Bytes
message flag ks = bytes_u16 flag ++ (bytes_u16 (length ks) ++ body_bytes ks)

-- What the fields of the format can hold.
pub record IsWire (k : Task) : Type 0 where
  pub state_fits : k.state < u16_mod
  pub length_fits : length k.payload < u32_mod

abbrev pub AllWire : List Task → Type 0
AllWire [] = Unit
AllWire (k ∷ ks) = IsWire k × AllWire ks

write_tasks-body_bytes :
    (ks : List Task)
    → AllWire ks
    → write_tasks (ids ks) (states ks) (payloads ks) ≡ ok (body_bytes ks)
unfolding write_tasks
write_tasks-body_bytes [] h = refl
write_tasks-body_bytes (k ∷ ks) (w, h) = rw (
  pack_u16-ok k.state w.state_fits,
  pack_u32-ok (length k.payload) w.length_fits,
  write_tasks-body_bytes ks h,
)

write_batch-ok :
    (ks : List Task)
    → length ks < u16_mod
    → AllWire ks
    → write_batch (ids ks) (states ks) (payloads ks) ≡ ok (bytes_u16 (length ks) ++ body_bytes ks)
unfolding write_batch bytes_u16
write_batch-ok [] n h = refl
write_batch-ok (k ∷ ks) n h =
    rw
      (
        length-map ks (λ (j : Task). j.id),
        pack_u16-ok (suc (length ks)) n,
        write_tasks-body_bytes (k ∷ ks) h,
      )
      (ground arith)

same_length : (ks : List Task) → (length (ids ks) == length (payloads ks)) ≡ true
same_length ks = (==_iff _ _).1 (length-map ks _ ∙ sym (length-map ks _))

-- With a flag and a number of tasks below 2^16, each state below 2^16 and each payload shorter than
-- 2^32, `send` writes the message for the tasks: flag, batch size, and the tasks in order.
pub send-message :
    (flag : ℕ) (ks : List Task)
    → flag < u16_mod
    → length ks < u16_mod
    → AllWire ks
    → send flag (ids ks) (states ks) (payloads ks) ≡ ok (message flag ks)
unfolding send
send-message flag ks f n h = rw (pack_u16-ok flag f, same_length ks, write_batch-ok ks n h)

pack_u16-eq-ok : (n : ℕ) {b : Bytes} → pack_u16 n ≡ ok b → (n < u16_mod) × (b ≡ bytes_u16 n)
unfolding pack_u16
pack_u16-eq-ok n h = ground arith

pack_u32-eq-ok : (n : ℕ) {b : Bytes} → pack_u32 n ≡ ok b → (n < u32_mod) × (b ≡ bytes_u32 n)
unfolding pack_u32
pack_u32-eq-ok n h = ground arith

-- The lists are those of tasks that the format can hold.
pub record Written (is : List Bytes) (ss : List ℕ) (ps : List Bytes) (d : Bytes) : Type 0 where
  pub tasks : List Task
  pub is_ids : is ≡ ids tasks
  pub is_states : ss ≡ states tasks
  pub is_payloads : ps ≡ payloads tasks
  pub fits : AllWire tasks
  pub bytes : d ≡ body_bytes tasks

Written-cons :
    (i : Bytes) (s : ℕ) (p : Bytes) (is : List Bytes) (ss : List ℕ) (ps : List Bytes)
    {sb lb rest d : Bytes}
    → pack_u16 s ≡ ok sb
    → pack_u32 (length p) ≡ ok lb
    → Written is ss ps rest
    → ok (i ++ (sb ++ (lb ++ (p ++ rest)))) ≡ ok d
    → Written (i ∷ is) (s ∷ ss) (p ∷ ps) d
Written-cons i s p is ss ps hs hl w e =
    let (s_fits, s_bytes) = pack_u16-eq-ok s hs in
    let (l_fits, l_bytes) = pack_u32-eq-ok (length p) hl in
    record {
      tasks = record { id = i; state = s; payload = p } ∷ w.tasks;
      is_ids = rw (← w.is_ids);
      is_states = rw (← w.is_states);
      is_payloads = rw (← w.is_payloads);
      fits = (record { state_fits = s_fits; length_fits = l_fits }, w.fits);
      bytes = cc (s_bytes, l_bytes, w.bytes, e);
    }

write_tasks-Written :
    (is : List Bytes) (ss : List ℕ) (ps : List Bytes) {d : Bytes}
    → write_tasks is ss ps ≡ ok d
    → Written is ss ps d
unfolding write_tasks
write_tasks-Written [] [] [] h = record {
  tasks = [];
  is_ids = refl;
  is_states = refl;
  is_payloads = refl;
  fits = tt;
  bytes = cc;
}
write_tasks-Written (i ∷ is) (s ∷ ss) (p ∷ ps) h =
    let (sb, hs, h1) = >>=-eq-ok (pack_u16 s) _ h in
    let (lb, hl, h2) = >>=-eq-ok (pack_u32 (length p)) _ h1 in
    let (rest, hr, h3) = >>=-eq-ok (write_tasks is ss ps) _ h2 in
    Written-cons i s p is ss ps hs hl (write_tasks-Written is ss ps hr) h3
write_tasks-Written _ _ _ h = cc

-- A buffer that `send` produced is the message of tasks that the format can hold.
pub record Sent (flag : ℕ) (is : List Bytes) (ss : List ℕ) (ps : List Bytes) (d : Bytes)
    : Type 0 where
  pub tasks : List Task
  pub is_ids : is ≡ ids tasks
  pub is_states : ss ≡ states tasks
  pub is_payloads : ps ≡ payloads tasks
  pub fits : AllWire tasks
  pub flag_fits : flag < u16_mod
  pub count_fits : length tasks < u16_mod
  pub bytes : d ≡ message flag tasks

Sent-cons :
    (flag : ℕ) (is : List Bytes) (ss : List ℕ) (ps : List Bytes) {fb nb body d : Bytes}
    → pack_u16 flag ≡ ok fb
    → pack_u16 (length is) ≡ ok nb
    → Written is ss ps body
    → ok (fb ++ (nb ++ body)) ≡ ok d
    → Sent flag is ss ps d
Sent-cons flag is ss ps hf hn w e =
    let (f_fits, f_bytes) = pack_u16-eq-ok flag hf in
    let (n_fits, n_bytes) = pack_u16-eq-ok (length is) hn in
    let n : length is ≡ length w.tasks = rw w.is_ids (length-map w.tasks _) in
    record {
      tasks = w.tasks;
      is_ids = w.is_ids;
      is_states = w.is_states;
      is_payloads = w.is_payloads;
      fits = w.fits;
      flag_fits = f_fits;
      count_fits = omega arith;
      bytes = cc (f_bytes, n_bytes, n, w.bytes, e);
    }

leb-suc : (n : ℕ) → leb 1 (suc n) ≡ true
leb-suc n = ground arith

write_batch-Written :
    (is : List Bytes) (ss : List ℕ) (ps : List Bytes) {d : Bytes}
    → length ss ≡ length is
    → length ps ≡ length is
    → write_batch is ss ps ≡ ok d
    → (nb body : Bytes) × (pack_u16 (length is) ≡ ok nb) × Written is ss ps body × (nb ++ body ≡ d)
unfolding write_batch
write_batch-Written [] [] [] hs hp h =
    let (nb, hn, h1) = >>=-eq-ok (pack_u16 0) (λ nb. ok (nb ++ [])) h in
    (nb, [], hn, write_tasks-Written [] [] [] (unfold write_tasks in refl), cc)
write_batch-Written (i ∷ is) ss ps hs hp h =
    let (nb, hn, h1) = >>=-eq-ok (pack_u16 (length (i ∷ is))) _ h in
    let (body, hb, h2) =
      >>=-eq-ok (write_tasks (i ∷ is) ss ps) (λ body. ok (nb ++ body))
        (rw (leb-suc (length is)) at h1) in
    (nb, body, hn, write_tasks-Written (i ∷ is) ss ps hb, cc)
write_batch-Written _ _ _ hs hp h = absurd (omega arith)

-- A `send` of as many states as ids that returns has written the message of its tasks, in their
-- order, and the format can hold them: no field is cut off.
pub send-Sent :
    (flag : ℕ) (is : List Bytes) (ss : List ℕ) (ps : List Bytes) {d : Bytes}
    → length ss ≡ length is
    → send flag is ss ps ≡ ok d
    → Sent flag is ss ps d
unfolding send
send-Sent flag is ss ps hs h =
    let (fb, hf, h1) = >>=-eq-ok (pack_u16 flag) _ h in
    elim (Bool-cases (length is == length ps)) [
      | inl same ↦
          let (batch, hb, h2) =
            >>=-eq-ok (write_batch is ss ps) (λ batch. ok (fb ++ batch)) (rw same at h1) in
          let (nb, body, hn, w, e) = write_batch-Written is ss ps hs (ground arith) hb in
          Sent-cons flag is ss ps hf hn w (cc (e, h2))
      | inr other ↦ cc (rw other at h1)
    ]

-- Lists of ids and payloads that differ in length are refused, whatever they hold, before any byte
-- is written, if the flag fits its field.
pub send-mismatch :
    (flag : ℕ) (is : List Bytes) (ss : List ℕ) (ps : List Bytes)
    → flag < u16_mod
    → length is ≢ length ps
    → send flag is ss ps ≡ raised (failed value_error)
unfolding send
send-mismatch flag is ss ps f h = rw (pack_u16-ok flag f) (ground arith)
