-- ===== src/Server/Life/Rounds.antt =====
-- When `_manage_py_runtime` of mosec/server.py goes on, and when it ends.
use mosec.Prelude.{
  ℕ, ◌≡◌, ◌↔◌, refl, ◌∙◌, Bool, true, false, Option, none, some, List, [], ◌∷◌, ◌++◌, ◌⊎◌,
  if◌then◌else◌, inl, inr, Bool-cases, Option-cases,
}
use mosec.Prelude.Eq.{nat_eq, list_eq}
use mosec.Prelude.Int.{ℤ}
use mosec.Prelude.Dict.{Dict}
use mosec.Errors.{Text, Raised, Result, ok, raised, diverged}
use mosec.Runtime.{check_and_start}
use mosec.Runtime.Check.Fails.{HasDown, check_and_start-fails}
use mosec.Server.Life.{
  Life, Round, terminate, check_daemon, with_runtimes, manage_round, manage_py_runtime,
}

-- One of the registered daemons has an exit code.
abbrev pub HasExited : (ℕ → Option ℤ) → Dict Text (Option ℕ) → Type 0
HasExited code [] = ⊥
HasExited code ((name, none) ∷ daemon) = HasExited code daemon
HasExited code ((name, some proc) ∷ daemon) =
    ((c : ℤ) × (code proc ≡ some c)) ⊎ HasExited code daemon

-- Why a round is the last one: a signal, a daemon that has exited, or, behind the first round, a
-- stage that had started processes of which none is running.
pub data Alarm (init : Bool) (round : Round) (l : Life) : Type 0 where
  signal : round.signalled ≡ true → Alarm init round l
  exited : HasExited round.code l.daemon → Alarm init round l
  stage_down : init ≡ false → HasDown [] round.running l.server.runtimes → Alarm init round l

check_daemon-Exited :
    (code : ℕ → Option ℤ) (daemon : Dict Text (Option ℕ)) (l : Life)
    → ((check_daemon code daemon l).server_shutdown ≡ true)
      ↔ ((l.server_shutdown ≡ true) ⊎ HasExited code daemon)
unfolding check_daemon terminate
check_daemon-Exited code [] l = (inl, λ h. elim h [ inl e ↦ e | inr m ↦ elim m [ ] ])
check_daemon-Exited code ((name, none) ∷ daemon) l = check_daemon-Exited code daemon l
check_daemon-Exited code ((name, some proc) ∷ daemon) l = elim (Option-cases (code proc)) [
  | inl up ↦
      let rest = check_daemon-Exited code daemon l in
      rw (up, check_daemon)
        (
          λ h. elim (rest.0 h) [ inl e ↦ inl e | inr m ↦ inr (inr m) ],
          λ h. elim h [
            | inl e ↦ rest.1 (inl e)
            | inr (inl (c, e)) ↦ cc e
            | inr (inr m) ↦ rest.1 (inr m)
          ],
        )
  | inr (c, down) ↦
      rw (down, check_daemon)
        (
          λ h. inr (inl (c, refl)),
          λ h. (check_daemon-Exited code daemon (terminate l)).1 (inl refl),
        )
]

-- A round that begins in a running server ends it exactly for one of these reasons.
pub manage_round-Alarm :
    (init : Bool) (round : Round) (l : Life)
    → l.server_shutdown ≡ false
    → ((manage_round init round l).server_shutdown ≡ true) ↔ Alarm init round l
unfolding manage_round
manage_round-Alarm init round l on =
    let o = check_and_start [] round.running init l.server.runtimes l.host in
    let fails = check_and_start-fails [] round.running init l.server.runtimes l.host in
    let checked = with_runtimes l o.1 o.2 in
    elim (Bool-cases round.signalled) [
      | inl s ↦ rw (s, terminate) (λ h. signal refl, λ h. refl)
      | inr quiet ↦ elim (Option-cases o.0) [
        | inl up ↦
            let d = check_daemon-Exited round.code l.daemon checked in
            rw (quiet, up)
              (
                λ h. elim (d.0 h) [ inl e ↦ cc (e, on) | inr m ↦ exited m ],
                λ h. elim h [
                  | signal s ↦ cc s
                  | exited m ↦ d.1 (inr m)
                  | stage_down i m ↦ cc (rw up at (fails.1 (i, m)))
                ],
              )
        | inr (r, down) ↦
            let d = check_daemon-Exited round.code l.daemon (terminate checked) in
            let (i, m) = fails.0 (rw down refl) in
            rw (quiet, down) (λ h. stage_down i m, λ h. d.1 (inl (shut checked)))
      ]
    ]
  where
    shut : (l : Life) → (terminate l).server_shutdown ≡ true
    shut l = refl

-- Where the rounds lead to, and whether a round behind them is the first one.
abbrev pub reached : Bool → List Round → Life → Life
reached init [] l = l
reached init (round ∷ rounds) l = reached false rounds (manage_round init round l)

abbrev pub init_after : Bool → List Round → Bool
init_after init [] = init
init_after init (round ∷ rounds) = false

-- No round raises, or has a reason to be the last one.
abbrev pub Calm : Bool → List Round → Life → Type 0
Calm init [] l = Unit
Calm init (round ∷ rounds) l =
    (round.fault ≡ none) × (Alarm init round l → ⊥) × Calm false rounds (manage_round init round l)

still_on :
    (init : Bool) (round : Round) (l : Life)
    → l.server_shutdown ≡ false
    → (Alarm init round l → ⊥)
    → (manage_round init round l).server_shutdown ≡ false
still_on init round l on calm = elim (Bool-cases (manage_round init round l).server_shutdown) [
  | inl off ↦ absurd (calm ((manage_round-Alarm init round l on).0 off))
  | inr yet ↦ yet
]

goes_on :
    (b : Bool) (fault : Option Raised) (l : Life) (rest : Result Life)
    → b ≡ false
    → fault ≡ none
    → (if b then ok l else (elim fault [ none ↦ rest | some e ↦ raised e ])) ≡ rest
goes_on b fault l rest on fine = rw (on, fine) refl

manage-step :
    (init : Bool) (round : Round) (rounds : List Round) (l : Life)
    → l.server_shutdown ≡ false
    → round.fault ≡ none
    → manage_py_runtime init (round ∷ rounds) l
      ≡ manage_py_runtime false rounds (manage_round init round l)
unfolding manage_py_runtime
manage-step init round rounds l on fine = goes_on l.server_shutdown round.fault l _ on fine

-- A running server goes on through calm rounds.
pub manage_py_runtime-Calm :
    (init : Bool) (rounds : List Round) (l : Life)
    → l.server_shutdown ≡ false
    → Calm init rounds l
    → manage_py_runtime init rounds l ≡ diverged
unfolding manage_py_runtime
manage_py_runtime-Calm init [] l on calm = rw on refl
manage_py_runtime-Calm init (round ∷ rounds) l on (f, a, calm) =
    manage-step init round rounds l on f
    ∙ manage_py_runtime-Calm false rounds (manage_round init round l) (still_on init round l on a)
        calm

stops :
    (m : Life) (later : List Round)
    → m.server_shutdown ≡ true
    → manage_py_runtime false later m ≡ ok m
unfolding manage_py_runtime
stops m [] off = by_test m.server_shutdown m off
  where
    by_test : (b : Bool) (m : Life) → b ≡ true → (if b then ok m else diverged) ≡ ok m
    by_test b m e = rw e refl
stops m (r ∷ later) off = by_test m.server_shutdown m _ off
  where
    by_test :
        (b : Bool) (m : Life) (rest : Result Life) → b ≡ true → (if b then ok m else rest) ≡ ok m
    by_test b m rest e = rw e refl

-- A running server whose rounds so far neither raised nor had a reason to be the last one ends at the
-- end of the first round that has one and does not raise, with what that round has left, whatever
-- would have come later.
pub manage_py_runtime-Alarm :
    (init : Bool) (before : List Round) (round : Round) (later : List Round) (l : Life)
    → l.server_shutdown ≡ false
    → Calm init before l
    → round.fault ≡ none
    → Alarm (init_after init before) round (reached init before l)
    → manage_py_runtime init (before ++ (round ∷ later)) l
      ≡ ok (reached init (before ++ (round ∷ [])) l)
manage_py_runtime-Alarm init [] round later l on calm fine alarm =
    manage-step init round later l on fine
    ∙ stops (manage_round init round l) later ((manage_round-Alarm init round l on).1 alarm)
manage_py_runtime-Alarm init (first ∷ before) round later l on (f, a, calm) fine alarm =
    manage-step init first (before ++ (round ∷ later)) l on f
    ∙ manage_py_runtime-Alarm false before round later (manage_round init first l)
        (still_on init first l on a) calm fine
        (after_first (manage_round init first l) before alarm)
  where
    after_first :
        (m : Life) (before : List Round)
        → Alarm false round (reached false before m)
        → Alarm (init_after false before) round (reached false before m)
    after_first m [] h = h
    after_first m (r ∷ before) h = h
