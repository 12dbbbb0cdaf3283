-- ===== src/Cache/Spec.antt =====
-- SIEVE as its paper describes it, on plain lists: a queue, and a hand that stands in it.
use mosec.Prelude.{Bool, true, false, Option, none, some, List, [], ◌∷◌, ◌++◌, if◌then◌else◌}

-- The queue from its oldest entry to its newest. The hand is at the first entry of `rest`, and at no
-- entry if `rest` is empty.
pub record Queue {ℓ} (A : Type ℓ) : Type ℓ where
  pub swept : List A
  pub rest : List A

module _ {ℓ} {A : Type ℓ} where
  abbrev pub entries : Queue A → List A
  entries q = q.swept ++ q.rest

  -- With no hand, a pass starts at the oldest entry.
  abbrev pub ready : List A → List A → Queue A
  ready swept [] = record { swept = []; rest = swept }
  ready swept (x ∷ xs) = record { swept = swept; rest = x ∷ xs }

  abbrev pub push_to : List A → List A → A → Queue A
  push_to swept [] x = record { swept = swept ++ (x ∷ []); rest = [] }
  push_to swept (y ∷ ys) x = record { swept = swept; rest = (y ∷ ys) ++ (x ∷ []) }

  -- A new entry is the newest. The hand does not move.
  abbrev pub push : Queue A → A → Queue A
  push q x = push_to q.swept q.rest x

  module _ (visited : A → Bool) (clear : A → A) where
    -- A pass takes the mark off the entries that carry one, and stops at the first that does not.
    abbrev pub sweep : List A → List A × Option (A × List A)
    sweep [] = ([], none)
    sweep (x ∷ xs) =
        let (cleared, stop) = sweep xs in
        if visited x then (clear x ∷ cleared, stop) else ([], some (x, xs))

    -- The second pass meets an entry without a mark, unless there is no entry.
    abbrev pub wrap : List A × Option (A × List A) → Option (A × Queue A)
    wrap (cleared, none) = none
    wrap (cleared, some (x, xs)) = some (x, record { swept = cleared; rest = xs })

    abbrev pub stop_at : List A → List A × Option (A × List A) → Option (A × Queue A)
    stop_at swept (cleared, none) = wrap (sweep (swept ++ cleared))
    stop_at swept (cleared, some (x, xs)) = some (x, record { swept = swept ++ cleared; rest = xs })

    -- The victim, and the queue without it; the hand is at the entry behind which it stood.
    abbrev pub evict : Queue A → Option (A × Queue A)
    evict q = let r = ready q.swept q.rest in stop_at r.swept (sweep r.rest)

  -- The first entry for which a test holds: is there one, changed, and taken out.
  module _ (test : A → Bool) where
    abbrev pub any : List A → Bool
    any [] = false
    any (x ∷ xs) = if test x then true else any xs

    abbrev pub find : List A → Option A
    find [] = none
    find (x ∷ xs) = if test x then some x else find xs

    abbrev pub change : (A → A) → List A → List A
    change f [] = []
    change f (x ∷ xs) = if test x then f x ∷ xs else x ∷ change f xs

    abbrev pub without : List A → List A
    without [] = []
    without (x ∷ xs) = if test x then xs else x ∷ without xs

    -- A hit changes the entry where it stands.
    abbrev pub touch : (A → A) → Queue A → Queue A
    touch f q =
        if any q.swept
        then record { swept = change f q.swept; rest = q.rest }
        else record { swept = q.swept; rest = change f q.rest }

    -- If the hand is at the entry that goes, it moves to the next newer one.
    abbrev pub take_out : Queue A → Queue A
    take_out q =
        if any q.swept
        then record { swept = without q.swept; rest = q.rest }
        else record { swept = q.swept; rest = without q.rest }
