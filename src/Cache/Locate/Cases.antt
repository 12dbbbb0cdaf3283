-- ===== src/Cache/Locate/Cases.antt =====
-- Every key is located in a queue of cells or absent from it.
use mosec.Prelude.{
  suc, ◌==◌, ◌≡◌, refl, sym, ap, ◌∙◌, true, false, none, some, List, [], ◌∷◌, ◌++◌, append_assoc,
  arith, ◌⊎◌, inl, inr,
}
use mosec.Prelude.Eq.{Eq}
use mosec.Prelude.Dict.{lookup, has}
use mosec.Cache.{Ptr, is_at}
use mosec.Cache.Spec.{Queue, entries, any, find, change, without, touch, take_out}
use mosec.Cache.Linked.{Cell, start, Between, Between-split, Between-le}
use mosec.Cache.Keys.{index, lookup_cases}
use mosec.Cache.Locate.{
  has_key, Located, any-has, change-split, without-split, find-split, lookup-split, has-split,
  has-append,
}

module _ {ℓ} {K V : Type ℓ} ⦃eq : Eq K⦄ where
  abbrev queue : List (Cell K V) → List (Cell K V) → Queue (Cell K V)
  queue swept rest = record { swept = swept; rest = rest }

  module _ (k : K) (xs : List (Cell K V)) (x : Cell K V) (ys : List (Cell K V))
      (e : x.key ≡ k) where
    any_split : any (has_key k) (xs ++ (x ∷ ys)) ≡ true
    any_split = any-has k (xs ++ (x ∷ ys)) ∙ has-split k xs x ys e

    -- The hand is at a newer cell, or at none.
    apart_swept :
        (rest : List (Cell K V)) (hi : Ptr)
        → Between 0 (xs ++ (x ∷ (ys ++ rest))) hi
        → is_at (start rest none) x.ptr ≡ false
    apart_swept [] hi b = refl
    apart_swept (r ∷ rest) hi b =
        let (_, b1) = Between-split 0 hi xs x (ys ++ (r ∷ rest)) b in
        let (b2, _) = Between-split (suc x.ptr) hi ys r rest b1 in
        ground (arith, Between-le (suc x.ptr) r.ptr ys b2)

    -- The hand is at an older cell.
    apart_rest :
        (swept : List (Cell K V)) (z : Cell K V) (zs : List (Cell K V)) (hi : Ptr)
        → Between 0 (swept ++ (z ∷ (zs ++ (x ∷ ys)))) hi
        → (z.ptr == x.ptr) ≡ false
    apart_rest swept z zs hi b =
        let (_, b1) = Between-split 0 hi swept z (zs ++ (x ∷ ys)) b in
        let (b2, _) = Between-split (suc z.ptr) hi zs x ys b1 in
        ground (arith, Between-le (suc z.ptr) x.ptr zs b2)

    locate_swept :
        (rest : List (Cell K V))
        → has k (index xs) ≡ false
        → Located k (queue (xs ++ (x ∷ ys)) rest)
    locate_swept rest h = record {
      before = xs;
      cell = x;
      behind = ys ++ rest;
      split = append_assoc xs (x ∷ ys) rest;
      key = e;
      ptr = rw append_assoc (lookup-split k xs x (ys ++ rest) h e);
      found = rw append_assoc (find-split k xs x (ys ++ rest) h e);
      touched = λ f. rw (any_split, change-split k f xs x ys h e) (append_assoc xs (f x ∷ ys) rest);
      hand_touched = λ f p. rw any_split;
      taken = rw (any_split, without-split k xs x ys h e) (append_assoc xs ys rest);
      hand_taken = rw any_split (inl (refl, λ hi b. apart_swept rest hi (rw append_assoc at b)));
    }

    locate_rest :
        (swept : List (Cell K V))
        → has k (index swept) ≡ false
        → has k (index xs) ≡ false
        → Located k (queue swept (xs ++ (x ∷ ys)))
    locate_rest swept g h =
        let absent = any-has k swept ∙ g in
        record {
          before = swept ++ xs;
          cell = x;
          behind = ys;
          split = sym (append_assoc swept xs (x ∷ ys));
          key = e;
          ptr =
              rw (← append_assoc swept xs (x ∷ ys))
                (lookup-split k (swept ++ xs) x ys (has-append k swept xs g ∙ h) e);
          found =
              rw (← append_assoc swept xs (x ∷ ys))
                (find-split k (swept ++ xs) x ys (has-append k swept xs g ∙ h) e);
          touched = λ f.
              rw (absent, change-split k f xs x ys h e) (sym (append_assoc swept xs (f x ∷ ys)));
          hand_touched = λ f p. rw (absent, change-split k f xs x ys h e) (start_same xs f p);
          taken = rw (absent, without-split k xs x ys h e) (sym (append_assoc swept xs ys));
          hand_taken = rw (absent, without-split k xs x ys h e) (start_taken swept xs);
        }
      where
        start_same :
            (zs : List (Cell K V)) (f : Cell K V → Cell K V)
            → (f x).ptr ≡ x.ptr
            → start (zs ++ (f x ∷ ys)) none ≡ start (zs ++ (x ∷ ys)) none
        start_same [] f p = ap some p
        start_same (z ∷ zs) f p = refl

        start_taken :
            (ss zs : List (Cell K V))
            → (start (zs ++ ys) none ≡ start (zs ++ (x ∷ ys)) none)
                × ((hi : Ptr)
                    → Between 0 (ss ++ (zs ++ (x ∷ ys))) hi
                    → is_at (start (zs ++ (x ∷ ys)) none) x.ptr ≡ false)
              ⊎ (start (zs ++ (x ∷ ys)) none ≡ some x.ptr) × (start (zs ++ ys) none ≡ start ys none)
        start_taken ss [] = inr (refl, refl)
        start_taken ss (z ∷ zs) = inl (refl, λ hi b. apart_rest ss z zs hi b)

  pub record Absent (k : K) (q : Queue (Cell K V)) : Type ℓ where
    pub no_key : has k (index (entries q)) ≡ false
    pub no_ptr : lookup k (index (entries q)) ≡ none
    pub not_found : find (has_key k) (entries q) ≡ none
    pub not_touched : (f : Cell K V → Cell K V) → touch (has_key k) f q ≡ q
    pub not_taken : take_out (has_key k) q ≡ q

  find_absent :
      (k : K) (xs : List (Cell K V)) → has k (index xs) ≡ false → find (has_key k) xs ≡ none
  unfolding has
  find_absent k [] h = refl
  find_absent k (x ∷ xs) h = ground (arith, find_absent k xs)

  lookup_absent :
      (k : K) (xs : List (Cell K V)) → has k (index xs) ≡ false → lookup k (index xs) ≡ none
  unfolding has lookup
  lookup_absent k [] h = refl
  lookup_absent k (x ∷ xs) h = ground (arith, lookup_absent k xs)

  change_absent :
      (k : K) (f : Cell K V → Cell K V) (xs : List (Cell K V))
      → has k (index xs) ≡ false
      → change (has_key k) f xs ≡ xs
  unfolding has
  change_absent k f [] h = refl
  change_absent k f (x ∷ xs) h = ground (arith, change_absent k f xs)

  without_absent :
      (k : K) (xs : List (Cell K V)) → has k (index xs) ≡ false → without (has_key k) xs ≡ xs
  unfolding has
  without_absent k [] h = refl
  without_absent k (x ∷ xs) h = ground (arith, without_absent k xs)

  absent_lem :
      (k : K) (q : Queue (Cell K V))
      → has k (index q.swept) ≡ false
      → has k (index q.rest) ≡ false
      → Absent k q
  absent_lem k q g h =
      let e = has-append k q.swept q.rest g ∙ h in
      record {
        no_key = e;
        no_ptr = lookup_absent k (entries q) e;
        not_found = find_absent k (entries q) e;
        not_touched = λ f. rw (any-has k q.swept ∙ g, change_absent k f q.rest h);
        not_taken = rw (any-has k q.swept ∙ g, without_absent k q.rest h);
      }

  pub locate : (k : K) (q : Queue (Cell K V)) → Absent k q ⊎ Located k q
  locate k q = elim (lookup_cases k q.swept) [
    | inr f ↦
        inr
          (subst_queue f.split refl (locate_swept k f.before f.cell f.behind f.key q.rest f.first))
    | inl (g, _) ↦ elim (lookup_cases k q.rest) [
      | inr f ↦ inr (
          subst_queue refl f.split (locate_rest k f.before f.cell f.behind f.key q.swept g f.first))
      | inl (h, _) ↦ inl (absent_lem k q g h)
    ]
  ]
    where
      subst_queue :
          {s r : List (Cell K V)} → q.swept ≡ s → q.rest ≡ r → Located k (queue s r) → Located k q
      subst_queue e f l = rw (← e, ← f) at l
