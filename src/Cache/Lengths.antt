-- ===== src/Cache/Lengths.antt =====
-- How many entries the operations of the queue leave.
use mosec.Prelude.{
  ℕ, suc, ◌+◌, ◌≤◌, ◌≡◌, refl, ap, Bool, Option, none, some, List, [], ◌∷◌, ◌++◌, arith, inl, inr,
  subst, append-nil, length, length-append, Bool-cases,
}
use mosec.Cache.Spec
use mosec.Cache.Spec.{
  Queue, entries, push, sweep, wrap, stop_at, change, without, touch, take_out, any,
}

module _ {ℓ} {A : Type ℓ} where
  pub length-push : (q : Queue A) (x : A) → length (entries (push q x)) ≡ suc (length (entries q))
  length-push q x = by_rest q.swept q.rest
    where
      by_rest : (ss rs : List A) → length (entries (Spec.push_to ss rs x)) ≡ suc (length (ss ++ rs))
      by_rest ss [] =
          omega (
            arith,
            length-append (ss ++ (x ∷ [])) [],
            length-append ss (x ∷ []),
            length-append ss [],
          )
      by_rest ss (r ∷ rs) = omega (
        arith,
        length-append ss ((r ∷ rs) ++ (x ∷ [])),
        length-append ss (r ∷ rs),
        length-append (r ∷ rs) (x ∷ []),
      )

  module _ (visited : A → Bool) (clear : A → A) where
    -- One entry fewer, where there is a victim.
    abbrev LengthSwept : ℕ → List A × Option (A × List A) → Type 0
    LengthSwept n (cleared, none) = n ≡ length cleared
    LengthSwept n (cleared, some (x, xs)) = n ≡ length cleared + suc (length xs)

    abbrev pub LengthEvicted : ℕ → Option (A × Queue A) → Type 0
    LengthEvicted n none = Unit
    LengthEvicted n (some (x, q)) = n ≡ suc (length (entries q))

    cons_swept :
        (n : ℕ) (x : A) (r : List A × Option (A × List A))
        → LengthSwept n r
        → LengthSwept (suc n) (x ∷ r.0, r.1)
    cons_swept n x (cleared, none) h = ap suc h
    cons_swept n x (cleared, some (y, ys)) h = omega arith

    length-sweep : (xs : List A) → LengthSwept (length xs) (sweep visited clear xs)
    length-sweep [] = refl
    length-sweep (x ∷ xs) = elim (Bool-cases (visited x)) [
      | inl v ↦ rw v (cons_swept (length xs) (clear x) (sweep visited clear xs) (length-sweep xs))
      | inr v ↦ rw v (omega arith)
    ]

    length-wrap :
        (n : ℕ) (r : List A × Option (A × List A))
        → LengthSwept n r
        → LengthEvicted n (wrap visited clear r)
    length-wrap n (cleared, none) h = tt
    length-wrap n (cleared, some (x, xs)) h = omega (arith, length-append cleared xs)

    length-stop_at :
        (pre : List A) (n : ℕ) (r : List A × Option (A × List A))
        → LengthSwept n r
        → LengthEvicted (length pre + n) (stop_at visited clear pre r)
    length-stop_at pre n (cleared, none) h =
        rw (h, ← length-append pre cleared)
          (length-wrap (length (pre ++ cleared)) (sweep visited clear (pre ++ cleared))
            (length-sweep (pre ++ cleared)))
    length-stop_at pre n (cleared, some (x, xs)) h =
        omega (arith, length-append (pre ++ cleared) xs, length-append pre cleared)

    pub length-evict :
        (q : Queue A) → LengthEvicted (length (entries q)) (Spec.evict visited clear q)
    length-evict q = by_rest q.swept q.rest
      where
        zero_add : (n : ℕ) → 0 + n ≡ n
        zero_add n = omega arith

        by_swept :
            (ss : List A)
            → LengthEvicted
                (0 + length ss)
                (Spec.evict visited clear (record { swept = ss; rest = [] }))
        by_swept ss = length-stop_at [] (length ss) (sweep visited clear ss) (length-sweep ss)

        by_rest :
            (ss rs : List A)
            → LengthEvicted
                (length (ss ++ rs))
                (Spec.evict visited clear (record { swept = ss; rest = rs }))
        by_rest ss [] = rw append-nil (
            subst
              (λ n. LengthEvicted n (Spec.evict visited clear (record { swept = ss; rest = [] })))
              (zero_add (length ss)) (by_swept ss))
        by_rest ss (r ∷ rs) = rw length-append (
            length-stop_at ss (length (r ∷ rs)) (sweep visited clear (r ∷ rs))
              (length-sweep (r ∷ rs)))

  module _ (test : A → Bool) where
    length-change : (f : A → A) (xs : List A) → length (change test f xs) ≡ length xs
    length-change f [] = refl
    length-change f (x ∷ xs) = elim (Bool-cases (test x)) [
      | inl t ↦ rw t refl
      | inr t ↦ rw t (ap suc (length-change f xs))
    ]

    length-without : (xs : List A) → length (without test xs) ≤ length xs
    length-without [] = omega arith
    length-without (x ∷ xs) = elim (Bool-cases (test x)) [
      | inl t ↦ rw t (omega arith)
      | inr t ↦ rw t (let h = length-without xs in omega arith)
    ]

    pub length-touch :
        (f : A → A) (q : Queue A) → length (entries (touch test f q)) ≡ length (entries q)
    length-touch f q = elim (Bool-cases (any test q.swept)) [
      | inl t ↦ rw t (
          omega (
            arith,
            length-append (change test f q.swept) q.rest,
            length-append q.swept q.rest,
            length-change f q.swept,
          ))
      | inr t ↦ rw t (
          omega (
            arith,
            length-append q.swept (change test f q.rest),
            length-append q.swept q.rest,
            length-change f q.rest,
          ))
    ]

    pub length-take_out : (q : Queue A) → length (entries (take_out test q)) ≤ length (entries q)
    length-take_out q = elim (Bool-cases (any test q.swept)) [
      | inl t ↦ rw t (
          omega (
            arith,
            length-append (without test q.swept) q.rest,
            length-append q.swept q.rest,
            length-without q.swept,
          ))
      | inr t ↦ rw t (
          omega (
            arith,
            length-append q.swept (without test q.rest),
            length-append q.swept q.rest,
            length-without q.rest,
          ))
    ]
