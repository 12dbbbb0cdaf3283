-- ===== src/Protocol/Socket.antt =====
-- The receiving side of the Unix socket, and `_recv_all` of mosec/protocol.py. The operating system
-- decides what arrives and in which pieces, so a connection is the list of what is still to come.
pub mod Arrives
pub mod RecvAll
use mosec.Prelude.{ℕ, zero, suc, ◌-◌, List, [], ◌∷◌, ◌++◌, length, take, drop}
use mosec.Errors.{Bytes, Raised, Result, ok, raised, diverged, failed, socket_timeout, os_error}

-- A piece of at least one byte, a pause longer than the socket's timeout, or an error.
pub data Arrival : Type 0 where
  packet : ℕ → Bytes → Arrival
  pause : Arrival
  broken : Arrival

-- The empty list is a connection that the peer has closed.
abbrev pub Incoming : Type 0
Incoming = List Arrival

abbrev pub push : Bytes → Incoming → Incoming
push [] s = s
push (b ∷ bs) s = packet b bs ∷ s

abbrev pub Recv : Type 0 → Type 0
Recv A = Incoming → Result A × Incoming

abbrev pub pure : {A : Type 0} → A → Recv A
pure a s = (ok a, s)

abbrev pub lift : {A : Type 0} → Result A → Recv A
lift r s = (r, s)

abbrev pub continue : {A B : Type 0} → Result A → (A → Recv B) → Recv B
continue (ok a) f s = f a s
continue (raised e) f s = (raised e, s)
continue diverged f s = (diverged, s)

infixl 5 ◌>>=◌
abbrev pub ◌>>=◌ : {A B : Type 0} → Recv A → (A → Recv B) → Recv B
◌>>=◌ m f s = let (r, s') = m s in continue r f s'

-- `socket.recv(n)`: at most `n` bytes of the next piece, no byte at all once the peer has closed.
unfoldable pub recv : ℕ → Recv Bytes
recv n [] = (ok [], [])
recv n (packet b bs ∷ s) = (ok (take n (b ∷ bs)), push (drop n (b ∷ bs)) s)
recv n (pause ∷ s) = (raised (failed socket_timeout), s)
recv n (broken ∷ s) = (raised (failed os_error), s)

-- The loop of `_recv_all`: `buffer` is the part that is filled, and `view` the room that is left.
unfoldable pub recv_all_loop : ℕ → (view : ℕ) → (buffer : Bytes) → Recv Bytes
unfolding recv
recv_all_loop fuel zero buffer = pure buffer
recv_all_loop zero (suc view) buffer = lift diverged
recv_all_loop (suc fuel) (suc view) buffer = do
  part ← recv (suc view)
  recv_all_loop fuel (suc view - length part) (buffer ++ part)

unfoldable pub recv_all : ℕ → ℕ → Recv Bytes
unfolding recv_all_loop
recv_all fuel size = recv_all_loop fuel size []
