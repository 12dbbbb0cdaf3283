-- ===== src/Coordinator/Run.antt =====
-- `run` of mosec/coordinator.py: the loop around `coordinate`. It is to connect again, but the
-- socket of the process is closed by then.
use mosec.Prelude.{
  ℕ, ◌≤◌, ◌≡◌, refl, sym, ap, ◌∙◌, Bool, true, false, List, [], ◌∷◌, ◌++◌, if◌then◌else◌,
}
use mosec.Errors.{Bytes, Result, ok, raised, diverged, failed, os_error}
use mosec.Protocol.Socket.{Incoming}
use mosec.Protocol.Receive.Interrupted.{receive-gone}
use mosec.Coordinator.{
  Python, Coordinator, Next, again, left, escaped, hung, send_error, coordinate_round, Iteration,
  coordinate, close,
}
use mosec.Coordinator.Loop.{Talk, coordinate-Replied}

-- What a round of `run` meets: whether a shutdown has been asked for, what `open` comes to, what the
-- connection brings, and the rounds of `coordinate`.
pub record Session (A : Type 0) : Type 0 where
  pub shutdown : Bool
  pub opened : Result (Unit {0})
  pub incoming : Incoming
  pub rounds : List (Iteration A)

module _ {A : Type 0} (python : Python A) (timeout fuel : ℕ) where
  -- `again` is a loop that is still running behind the rounds that are given; `except OSError` is the
  -- same as around `send`. A socket that was closed raises an `OSError` when it is connected.
  unfoldable pub run : List (Session A) → Coordinator → Next × Coordinator
  unfolding coordinate close
  run [] c = (again, c)
  run (x ∷ xs) c =
      let o = coordinate python timeout fuel x.rounds (record c { incoming = x.incoming }) in
      let rest = run xs o.1 in
      let opened = if c.closed then raised (failed os_error) else x.opened in
      if x.shutdown then (left, c) else (elim opened [
        | raised e ↦ (send_error e, c)
        | diverged ↦ (hung, c)
        | ok _ ↦ elim o.0 [ left ↦ rest | again ↦ o | escaped e ↦ o | hung ↦ o ]
      ])

  -- Between two messages, a peer that has closed ends `coordinate`.
  coordinate_round-gone :
      (r : Iteration A) (c : Coordinator)
      → c.incoming ≡ []
      → coordinate_round python timeout fuel r.worker r.sendall_outcome c ≡ (left, c)
  unfolding coordinate_round
  coordinate_round-gone r c e = rw (e, receive-gone fuel, ← e) refl

  -- How a round of `coordinate` goes on.
  abbrev by_round :
      Bool → Next × Coordinator → Coordinator → Next × Coordinator → Next × Coordinator
  by_round b n c rest =
      if b
      then (left, close c)
      else elim n.0 [ again ↦ rest | left ↦ (left, close n.1) | escaped e ↦ n | hung ↦ n ]

  goes_on :
      (b : Bool) (n : Next × Coordinator) (c : Coordinator) (rest : Next × Coordinator)
      → (by_round b n c rest).0 ≡ again
      → (b ≡ false) × (n.0 ≡ again)
  goes_on true n c rest h = cc
  goes_on false (again, d) c rest h = (refl, refl)
  goes_on false (left, d) c rest h = cc
  goes_on false (escaped e, d) c rest h = cc
  goes_on false (hung, d) c rest h = cc

  passes :
      (b : Bool) (n : Next × Coordinator) (c : Coordinator) (rest : Next × Coordinator)
      → b ≡ false
      → n.0 ≡ again
      → by_round b n c rest ≡ rest
  passes b n c rest e f = rw (e, f) refl

  coordinate-append :
      (rs qs : List (Iteration A)) (c : Coordinator)
      → (coordinate python timeout fuel rs c).0 ≡ again
      → coordinate python timeout fuel (rs ++ qs) c
        ≡ coordinate python timeout fuel qs (coordinate python timeout fuel rs c).1
  unfolding coordinate
  coordinate-append [] qs c h = refl
  coordinate-append (r ∷ rs) qs c h =
      let n = coordinate_round python timeout fuel r.worker r.sendall_outcome c in
      let (on, more) = goes_on r.shutdown n c _ h in
      let here = passes r.shutdown n c (coordinate python timeout fuel rs n.1) on more in
      passes r.shutdown n c (coordinate python timeout fuel (rs ++ qs) n.1) on more
      ∙ (coordinate-append rs qs n.1 (sym (ap (λ p. p.0) here) ∙ h)
          ∙ ap (λ p. coordinate python timeout fuel qs p.1) (sym here))

  -- The last round of a connection that the peer has closed.
  coordinate-gone :
      (r : Iteration A) (c : Coordinator)
      → r.shutdown ≡ false
      → c.incoming ≡ []
      → coordinate python timeout fuel (r ∷ []) c ≡ (left, close c)
  unfolding coordinate
  coordinate-gone r c on e =
      let n = coordinate_round python timeout fuel r.worker r.sendall_outcome c in
      by_left r.shutdown n (again, n.1) on (coordinate_round-gone r c e)
    where
      by_left :
          (b : Bool) (n rest : Next × Coordinator)
          → b ≡ false
          → n ≡ (left, c)
          → by_round b n c rest ≡ (left, close c)
      by_left true n rest off e = cc
      by_left false (left, d) rest off e = ap (λ p. (left, close p.1)) e
      by_left false (again, d) rest off e = cc e
      by_left false (escaped x, d) rest off e = cc e
      by_left false (hung, d) rest off e = cc e

  run-step :
      (x : Session A) (xs : List (Session A)) (c d : Coordinator)
      → c.closed ≡ false
      → x.shutdown ≡ false
      → x.opened ≡ ok tt
      → coordinate python timeout fuel x.rounds (record c { incoming = x.incoming }) ≡ (left, d)
      → run (x ∷ xs) c ≡ run xs d
  unfolding run
  run-step x xs c d fresh on opens e =
      by_session c.closed x.shutdown x.opened
        (coordinate python timeout fuel x.rounds (record c { incoming = x.incoming })) fresh on
        opens e
    where
      by_session :
          (closed b : Bool) (opened : Result (Unit {0})) (o : Next × Coordinator)
          → closed ≡ false
          → b ≡ false
          → opened ≡ ok tt
          → o ≡ (left, d)
          → (if b
              then (left, c)
              else (elim (if closed then raised (failed os_error) else opened)
                  as (λ u. Next × Coordinator) [
                    | raised e ↦ (send_error e, c)
                    | diverged ↦ (hung, c)
                    | ok _ ↦ elim o.0 [ left ↦ run xs o.1 | again ↦ o | escaped e ↦ o | hung ↦ o ]
                  ]))
            ≡ run xs d
      by_session closed b opened (left, e) new off ready f =
          rw (new, off, ready) (ap (λ p. run xs p.1) f)
      by_session closed b opened (again, e) new off ready f = cc (ap (λ p. p.0) f)
      by_session closed b opened (escaped x, e) new off ready f = cc (ap (λ p. p.0) f)
      by_session closed b opened (hung, e) new off ready f = cc (ap (λ p. p.0) f)

  -- With a closed socket, no session is opened.
  run-stops :
      (y : Session A) (ys : List (Session A)) (d : Coordinator)
      → d.closed ≡ true
      → run (y ∷ ys) d ≡ (left, d)
  unfolding run
  run-stops y ys d gone = by_shutdown y.shutdown d.closed gone
    where
      o : Next × Coordinator
      o = coordinate python timeout fuel y.rounds (record d { incoming = y.incoming })

      by_shutdown :
          (b closed : Bool)
          → closed ≡ true
          → (if b
              then (left, d)
              else (elim (if closed then raised (failed os_error) else y.opened)
                  as (λ u. Next × Coordinator) [
                    | raised e ↦ (send_error e, d)
                    | diverged ↦ (hung, d)
                    | ok _ ↦ elim o.0 [ left ↦ run ys o.1 | again ↦ o | escaped e ↦ o | hung ↦ o ]
                  ]))
            ≡ (left, d)
      by_shutdown true closed gone = refl
      by_shutdown false true gone = refl
      by_shutdown false false gone = cc

  -- With a socket that is not closed, a free semaphore and no shutdown: the first connection opens,
  -- brings idle times and whole messages that are answered and whose replies `sendall` takes, and is
  -- then closed by the peer between two messages. Then each of these messages has its one reply,
  -- and the coordinator closes the socket. Then it serves no further connection, whatever that would
  -- bring, also if the server would accept it: the next `open` fails on the closed socket, and `run`
  -- ends.
  pub run-closed :
      (x y : Session A) (ys : List (Session A)) (c : Coordinator) (rs : List (Iteration A))
      (r : Iteration A) (replies : List Bytes)
      → 1 ≤ c.semaphore
      → c.closed ≡ false
      → x.shutdown ≡ false
      → x.opened ≡ ok tt
      → x.rounds ≡ rs ++ (r ∷ [])
      → r.shutdown ≡ false
      → Talk python timeout fuel rs x.incoming replies []
      → ((run (x ∷ y ∷ ys) c).0 ≡ left)
        × ((run (x ∷ y ∷ ys) c).1.written ≡ c.written ++ replies)
        × ((run (x ∷ y ∷ ys) c).1.closed ≡ true)
  unfolding close
  run-closed x y ys c rs r replies free fresh on opens rounds quiet talked =
      let start : Coordinator = record c { incoming = x.incoming } in
      let served = coordinate-Replied python timeout fuel rs start refl free talked in
      let d = (coordinate python timeout fuel rs start).1 in
      let ends =
        ap (λ q. coordinate python timeout fuel q start) rounds
        ∙ (coordinate-append rs (r ∷ []) start served.running
            ∙ coordinate-gone r d quiet served.incoming) in
      let all =
        run-step x (y ∷ ys) c (close d) fresh on opens ends ∙ run-stops y ys (close d) refl in
      (ap (λ o. o.0) all, ap (λ o. o.1.written) all ∙ served.replied, ap (λ o. o.1.closed) all)
