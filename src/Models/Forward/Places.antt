-- ===== src/Models/Forward/Places.antt =====
-- The results of `MultiModelWorker.forward` of mosec/worker.py at the places of their requests.
use mosec.Prelude.{
  ℕ, zero, suc, ◌<◌, ◌≡◌, refl, sym, ap, subst, ◌∙◌, Option, some, ◌⊎◌, inl, inr, List, [], ◌∷◌,
  map, length, length-set, get_elem?, set, arith,
}
use mosec.Errors.{Result, ok}
use mosec.Models.Forward.{place}
use mosec.Models.Forward.Groups.{InGroup, IsGroup}

module _ {A : Type 0} where
  elem-set_same : (xs : List A) (i : ℕ) (v : A) → i < length xs → get_elem? (set xs i v) i ≡ some v
  elem-set_same [] i v h = absurd (omega (arith, h))
  elem-set_same (x ∷ xs) zero v h = refl
  elem-set_same (x ∷ xs) (suc i) v h = elem-set_same xs i v (omega (arith, h))

  elem-set_other :
      (xs : List A) (i j : ℕ) (v : A) → (i ≡ j → ⊥) → get_elem? (set xs i v) j ≡ get_elem? xs j
  elem-set_other [] i j v h = refl
  elem-set_other (x ∷ xs) zero zero v h = absurd (h refl)
  elem-set_other (x ∷ xs) zero (suc j) v h = refl
  elem-set_other (x ∷ xs) (suc i) zero v h = refl
  elem-set_other (x ∷ xs) (suc i) (suc j) v h = elem-set_other xs i j v (λ e. h (ap suc e))

  elem-bound : (xs : List A) (i : ℕ) {x : A} → get_elem? xs i ≡ some x → i < length xs
  elem-bound [] i h = cc
  elem-bound (x ∷ xs) zero h = omega arith
  elem-bound (x ∷ xs) (suc i) h = omega (arith, elem-bound xs i h)

  -- Lists with the same elements at the same places are equal.
  pub list_ext :
      (xs ys : List A)
      → length xs ≡ length ys
      → ((i : ℕ) → i < length ys → get_elem? xs i ≡ get_elem? ys i)
      → xs ≡ ys
  list_ext [] [] e h = refl
  list_ext [] (y ∷ ys) e h = absurd (omega (arith, e))
  list_ext (x ∷ xs) [] e h = absurd (omega (arith, e))
  list_ext (x ∷ xs) (y ∷ ys) e h =
      let heads = h 0 (omega arith) in
      let tails = list_ext xs ys (omega (arith, e)) (λ i l. h (suc i) (omega (arith, l))) in
      cc (heads, tails)

  elem-map :
      {B : Type 0} (f : A → B) (xs : List A) (i : ℕ) {x : A}
      → get_elem? xs i ≡ some x
      → get_elem? (map f xs) i ≡ some (f x)
  elem-map f [] i h = cc
  elem-map f (x ∷ xs) zero h = cc
  elem-map f (x ∷ xs) (suc i) h = elem-map f xs i h

same_or_other : (i j : ℕ) → (i ≡ j) ⊎ (i ≡ j → ⊥)
same_or_other i j = omega arith

module _ {I R : Type 0} (items : List I) (g : I → R) where
  abbrev pub wanted : List (Option R)
  wanted = map (λ x. some (g x)) items

  -- The result at a place is the one that is wanted there.
  abbrev pub IsRight : List (Option R) → ℕ → Type 0
  IsRight results i = get_elem? results i ≡ get_elem? wanted i

  set-IsRight :
      (results : List (Option R)) (i j : ℕ) (x : I)
      → length results ≡ length items
      → get_elem? items i ≡ some x
      → (i ≡ j) ⊎ IsRight results j
      → IsRight (set results i (some (g x))) j
  set-IsRight results i j x size at r = elim (same_or_other i j) [
    | inl e ↦
        let h = elem-set_same results i (some (g x)) (omega (arith, size, elem-bound items i at)) in
        subst (λ m. IsRight (set results i (some (g x))) m) e
          (h ∙ sym (elem-map (λ y. some (g y)) items i at))
    | inr apart ↦ elim r [
      | inl e ↦ absurd (apart e)
      | inr right ↦ elem-set_other results i j (some (g x)) apart ∙ right
    ]
  ]

module _ {K I R : Type 0} (get_model_id : I → Result K) (items : List I) (f : K → I → R)
    (g : I → R) where
  pub record Placed (xs : List (ℕ × I)) (results : List (Option R)) (r : Result (List (Option R)))
      : Type 0 where
    pub filled : List (Option R)
    pub result : r ≡ ok filled
    pub size : length filled ≡ length items
    pub right : (i : ℕ) → InGroup i xs ⊎ IsRight items g results i → IsRight items g filled i

  -- The results of a group go to the places of its items, and none that is there is lost.
  pub place-Placed :
      (k : K) (xs : List (ℕ × I)) (results : List (Option R))
      → ((x : I) → get_model_id x ≡ ok k → f k x ≡ g x)
      → IsGroup get_model_id items k xs
      → length results ≡ length items
      → Placed xs results (place xs (map (f k) (map (λ x. x.1) xs)) results)
  unfolding place
  place-Placed k [] results agree v size = record {
    filled = results;
    result = refl;
    size = size;
    right = λ i h. elim h [ inl m ↦ elim m [ ] | inr r ↦ r ];
  }
  place-Placed k ((i, x) ∷ xs) results agree (at, named, v) size =
      let p =
        place-Placed k xs (set results i (some (g x))) agree v
          (length-set results i (some (g x)) ∙ size) in
      rw (agree x named) (record {
        filled = p.filled;
        result = p.result;
        size = p.size;
        right = λ j h. p.right j (by_place j h);
      })
    where
      by_place :
          (j : ℕ)
          → InGroup j ((i, x) ∷ xs) ⊎ IsRight items g results j
          → InGroup j xs ⊎ IsRight items g (set results i (some (g x))) j
      by_place j (inl (inl e)) = inr (set-IsRight items g results i j x size at (inl e))
      by_place j (inl (inr m)) = inl m
      by_place j (inr r) = inr (set-IsRight items g results i j x size at (inr r))
