-- ===== src/Protocol/Socket/RecvAll.antt =====
-- `_recv_all` of mosec/protocol.py collects a payload from any pieces, and never ends on a
-- connection that the peer closes too early.
use mosec.Prelude.{
  ℕ, zero, suc, ◌-◌, ◌≤◌, ◌<◌, ◌≡◌, refl, ap, ◌∙◌, [], ◌∷◌, ◌++◌, append_assoc, append-nil, inl,
  inr, arith, length, length-append,
}
use mosec.Errors.{Bytes, Raised, ok, raised, diverged, failed, socket_timeout}
use mosec.Protocol.Socket.{pause, Incoming, recv, recv_all_loop, recv_all}
use mosec.Protocol.Socket.Arrives.{Arrives, nothing, Stops, closed, paused, Arrives-nil, recv-Piece}

-- After a piece, the rest is as long as the view that is left.
length-left :
    (b view : ℕ) (bs more left : Bytes)
    → bs ≡ more ++ left
    → length bs ≡ view
    → length left ≡ suc view - length (b ∷ more)
length-left b view bs more left e h = omega (arith, ap length e, length-append more left)

shorter :
    (b view : ℕ) (bs more left : Bytes)
    → bs ≡ more ++ left
    → length (b ∷ bs) < suc view
    → length left < suc view - length (b ∷ more)
shorter b view bs more left e h = omega (arith, ap length e, length-append more left)

regroup :
    (buffer : Bytes) (b : ℕ) (bs more left : Bytes)
    → bs ≡ more ++ left
    → (buffer ++ (b ∷ more)) ++ left ≡ buffer ++ (b ∷ bs)
regroup buffer b bs more left e = rw (append_assoc, e)

recv_all_loop-ok :
    (fuel view : ℕ) (buffer bs : Bytes) {s t : Incoming}
    → Arrives s bs t
    → length bs ≡ view
    → view ≤ fuel
    → recv_all_loop fuel view buffer s ≡ (ok (buffer ++ bs), t)
unfolding recv_all_loop
recv_all_loop-ok fuel zero buffer [] a e h = rw (append-nil, Arrives-nil a)
recv_all_loop-ok fuel zero buffer (b ∷ bs) a e h = absurd (omega arith)
recv_all_loop-ok zero (suc view) buffer bs a e h = absurd (omega arith)
recv_all_loop-ok (suc fuel) (suc view) buffer [] a e h = absurd (omega arith)
recv_all_loop-ok (suc fuel) (suc view) buffer (b ∷ bs) {t = t} a e h =
    let p = recv-Piece view b bs a (inl (omega arith)) in
    rw p.received (
      recv_all_loop-ok fuel (suc view - length (b ∷ p.more)) (buffer ++ (b ∷ p.more)) p.left p.rest
        (length-left b view bs p.more p.left p.parts (omega arith)) (omega arith)
      ∙ ap (λ l. (ok l, t)) (regroup buffer b bs p.more p.left p.parts))

-- Where the peer stops early, what comes next decides: an error is raised at once.
recv_all_loop-cut :
    (fuel view : ℕ) (buffer bs : Bytes) (e : Raised) {s t u : Incoming}
    → Arrives s bs t
    → Stops t
    → ((n : ℕ) → recv (suc n) t ≡ (raised e, u))
    → length bs < view
    → view ≤ fuel
    → recv_all_loop fuel view buffer s ≡ (raised e, u)
unfolding recv_all_loop
recv_all_loop-cut fuel zero buffer bs e a st stop h k = absurd (omega arith)
recv_all_loop-cut zero (suc view) buffer bs e a st stop h k = absurd (omega arith)
recv_all_loop-cut (suc fuel) (suc view) buffer [] e a st stop h k = rw (Arrives-nil a, stop view)
recv_all_loop-cut (suc fuel) (suc view) buffer (b ∷ bs) e a st stop h k =
    let p = recv-Piece view b bs a (inr st) in
    rw p.received (
      recv_all_loop-cut fuel (suc view - length (b ∷ p.more)) (buffer ++ (b ∷ p.more)) p.left e
        p.rest st stop (shorter b view bs p.more p.left p.parts h) (omega arith))

recv_all_loop-closed :
    (fuel view : ℕ) (buffer bs : Bytes) {s : Incoming}
    → Arrives s bs []
    → length bs < view
    → (recv_all_loop fuel view buffer s).0 ≡ diverged
unfolding recv_all_loop
recv_all_loop-closed fuel zero buffer bs a h = absurd (omega arith)
recv_all_loop-closed zero (suc view) buffer bs a h = refl
recv_all_loop-closed (suc fuel) (suc view) buffer [] a h =
    rw (Arrives-nil a)
      (recv_all_loop-closed fuel (suc view - 0) (buffer ++ []) [] nothing (omega arith))
recv_all_loop-closed (suc fuel) (suc view) buffer (b ∷ bs) a h =
    let p = recv-Piece view b bs a (inr closed) in
    rw p.received (
      recv_all_loop-closed fuel (suc view - length (b ∷ p.more)) (buffer ++ (b ∷ p.more)) p.left
        p.rest (shorter b view bs p.more p.left p.parts h))

-- Whatever the pieces in which a payload arrives, `_recv_all` returns its bytes in order, reads
-- none of those that follow, and takes at most one round for each byte.
pub recv_all-payload :
    (fuel : ℕ) (payload : Bytes) {s t : Incoming}
    → Arrives s payload t
    → length payload ≤ fuel
    → recv_all fuel (length payload) s ≡ (ok payload, t)
unfolding recv_all
recv_all-payload fuel payload a h = recv_all_loop-ok fuel (length payload) [] payload a refl h

-- A payload that stops short of its announced size before a pause longer than the socket's
-- timeout: the timeout is raised, and the bytes read so far are gone from the connection.
pub recv_all-pause :
    (fuel size : ℕ) (part : Bytes) {s t : Incoming}
    → Arrives s part (pause ∷ t)
    → length part < size
    → size ≤ fuel
    → recv_all fuel size s ≡ (raised (failed socket_timeout), t)
unfolding recv_all recv
recv_all-pause fuel size part a h k =
    recv_all_loop-cut fuel size [] part (failed socket_timeout) a paused (λ n. refl) h k

-- A peer that closes the connection before the announced size has arrived: `recv_into` keeps
-- returning no bytes, and `_recv_all` never ends, however many rounds it is given.
pub recv_all-closed :
    (fuel size : ℕ) (part : Bytes) {s : Incoming}
    → Arrives s part []
    → length part < size
    → (recv_all fuel size s).0 ≡ diverged
unfolding recv_all
recv_all-closed fuel size part a h = recv_all_loop-closed fuel size [] part a h
