-- ===== src/Protocol/Socket/Arrives.antt =====
-- What `recv` and `_recv_all` return, in terms of the bytes that the peer has sent.
use mosec.Prelude.{
  ℕ, zero, suc, ◌≤◌, ◌≡◌, refl, sym, ap, subst, ◌⊎◌, inl, inr, [], ◌∷◌, ◌++◌, arith, length, take,
  drop,
}
use mosec.Errors.{Bytes, ok}
use mosec.Protocol.Socket.{packet, pause, broken, Incoming, push, recv}

-- `Arrives s bs t`: the next bytes to come on `s` are `bs`, in whatever pieces, and then `t`.
pub data Arrives : Incoming → Bytes → Incoming → Type 0 where
  nothing : {s : Incoming} → Arrives s [] s
  byte :
      {b : ℕ} {bs cs : Bytes} {s t : Incoming}
      → Arrives (push bs s) cs t
      → Arrives (packet b bs ∷ s) (b ∷ cs) t

-- Bytes that come in one piece.
pub push-Arrives : (xs ys : Bytes) (s : Incoming) → Arrives (push (xs ++ ys) s) xs (push ys s)
push-Arrives [] ys s = nothing
push-Arrives (x ∷ xs) ys s = byte (push-Arrives xs ys s)

-- No further bytes: the peer has closed, pauses, or the connection breaks.
pub data Stops : Incoming → Type 0 where
  closed : Stops []
  paused : {s : Incoming} → Stops (pause ∷ s)
  broke : {s : Incoming} → Stops (broken ∷ s)

pub Arrives-nil : {s t : Incoming} → Arrives s [] t → s ≡ t
Arrives-nil nothing = refl

-- `n` bytes of `bs` can be read without running into bytes that come behind `bs`.
abbrev pub Fits : ℕ → Bytes → Incoming → Type 0
Fits n bs t = (n ≤ length bs) ⊎ Stops t

pub Fits-tail : (n b : ℕ) (bs : Bytes) {t : Incoming} → Fits (suc n) (b ∷ bs) t → Fits n bs t
Fits-tail n b bs (inl h) = inl (omega arith)
Fits-tail n b bs (inr st) = inr st

-- One piece gives a first part of what is to come, at least a byte, and the rest is still to come.
pub record Piece (n : ℕ) (s : Incoming) (b : ℕ) (bs : Bytes) (t : Incoming) : Type 0 where
  pub more : Bytes
  pub left : Bytes
  pub after : Incoming
  pub received : recv (suc n) s ≡ (ok (b ∷ more), after)
  pub parts : bs ≡ more ++ left
  pub rest : Arrives after left t

not_stopped {ℓ} : {A : Type ℓ} {b : ℕ} {bs : Bytes} {s : Incoming} → Stops (packet b bs ∷ s) → A
not_stopped h = elim h [ ]

no_room {ℓ} :
    {A : Type ℓ} (n : ℕ) {b : ℕ} {bs : Bytes} {s t : Incoming}
    → packet b bs ∷ s ≡ t
    → Fits (suc n) [] t
    → A
no_room n e (inl h) = absurd (omega arith)
no_room n e (inr st) = not_stopped (subst Stops (sym e) st)

-- The bytes after the first one, as far as this piece and `n` allow.
split_piece :
    (n : ℕ) (bs cs : Bytes) (s t : Incoming)
    → Arrives (push bs s) cs t
    → Fits n cs t
    → (more left : Bytes) × (take n bs ≡ more)
      × (cs ≡ more ++ left)
      × Arrives (push (drop n bs) s) left t
split_piece zero bs cs s t a h = ([], cs, refl, refl, a)
split_piece (suc n) [] cs s t a h = ([], cs, refl, refl, a)
split_piece (suc n) (b ∷ bs) [] s t a h = no_room n (Arrives-nil a) h
split_piece (suc n) (b ∷ bs) (_ ∷ cs) s t (byte a) h =
    let (more, left, e, parts, rest) = split_piece n bs cs s t a (Fits-tail n b cs h) in
    (b ∷ more, left, ap (λ l. b ∷ l) e, ap (λ l. b ∷ l) parts, rest)

pub recv-Piece :
    (n : ℕ) (b : ℕ) (bs : Bytes) {s t : Incoming}
    → Arrives s (b ∷ bs) t
    → Fits n bs t
    → Piece n s b bs t
unfolding recv
recv-Piece n b cs (byte {bs = bs} {s = s} {t = t} a) h =
    let (more, left, e, parts, rest) = split_piece n bs cs s t a h in
    record {
      more = more;
      left = left;
      after = push (drop n bs) s;
      received = rw e;
      parts = parts;
      rest = rest;
    }
