-- ===== src/Models/Forward/Groups.antt =====
-- The grouping of `MultiModelWorker.forward` of mosec/worker.py loses no request and mixes no models.
use mosec.Prelude.{
  ℕ, suc, ◌<◌, ◌≡◌, refl, sym, ap, ◌∙◌, Bool, not, some, ◌⊎◌, inl, inr, List, [], ◌∷◌, ◌++◌, length,
  get_elem?, arith, Bool-cases, append_assoc, subst, length-append,
}
use mosec.Prelude.Eq.{Eq, ◌===◌}
use mosec.Errors.{Result, ok}
use mosec.Prelude.Dict.{append_at}
use mosec.Models.Forward.{Groups, group_items, groups_where}

module _ {I : Type 0} where
  -- The place `i` is among those of a group.
  abbrev pub InGroup : ℕ → List (ℕ × I) → Type 0
  InGroup i [] = ⊥
  InGroup i (x ∷ xs) = (x.0 ≡ i) ⊎ InGroup i xs

  InGroup-snoc : (i : ℕ) (xs : List (ℕ × I)) (x : ℕ × I) → InGroup i xs → InGroup i (xs ++ (x ∷ []))
  InGroup-snoc i [] x h = elim h [ ]
  InGroup-snoc i (y ∷ xs) x (inl e) = inl e
  InGroup-snoc i (y ∷ xs) x (inr h) = inr (InGroup-snoc i xs x h)

  InGroup-last : (xs : List (ℕ × I)) (x : ℕ × I) → InGroup x.0 (xs ++ (x ∷ []))
  InGroup-last [] x = inl refl
  InGroup-last (y ∷ xs) x = inr (InGroup-last xs x)

module _ {K I : Type 0} where
  -- It is among those of some group.
  abbrev pub InGroups : ℕ → Groups K I → Type 0
  InGroups i [] = ⊥
  InGroups i ((k, xs) ∷ g) = InGroup i xs ⊎ InGroups i g

  pub InGroups-append :
      (i : ℕ) (g h : Groups K I) → InGroups i g ⊎ InGroups i h → InGroups i (g ++ h)
  InGroups-append i [] h (inl m) = elim m [ ]
  InGroups-append i [] h (inr m) = m
  InGroups-append i ((k, xs) ∷ g) h (inl (inl m)) = inl m
  InGroups-append i ((k, xs) ∷ g) h (inl (inr m)) = inr (InGroups-append i g h (inl m))
  InGroups-append i ((k, xs) ∷ g) h (inr m) = inr (InGroups-append i g h (inr m))

  -- Each group is among the hits or among the misses.
  pub InGroups-groups_where :
      (p : K → Bool) (i : ℕ) (g : Groups K I)
      → InGroups i g
      → InGroups i (groups_where p g) ⊎ InGroups i (groups_where (λ k. not (p k)) g)
  unfolding groups_where
  InGroups-groups_where p i [] m = elim m [ ]
  InGroups-groups_where p i ((k, xs) ∷ g) (inl m) = elim (Bool-cases (p k)) [
    | inl e ↦ rw (e, groups_where) (inl (inl m))
    | inr e ↦ rw (e, groups_where) (inr (inl m))
  ]
  InGroups-groups_where p i ((k, xs) ∷ g) (inr m) = elim (Bool-cases (p k)) [
    | inl e ↦ elim (InGroups-groups_where p i g m) [
      | inl h ↦ rw (e, groups_where) (inl (inr h))
      | inr h ↦ rw (e, groups_where) (inr h)
    ]
    | inr e ↦ elim (InGroups-groups_where p i g m) [
      | inl h ↦ rw (e, groups_where) (inl h)
      | inr h ↦ rw (e, groups_where) (inr (inr h))
    ]
  ]

module _ {K I : Type 0} (get_model_id : I → Result K) (items : List I) where
  -- Each item of a group stands at its place in the batch, and belongs to the group's model.
  abbrev pub IsGroup : K → List (ℕ × I) → Type 0
  IsGroup k [] = Unit
  IsGroup k ((i, x) ∷ xs) = (get_elem? items i ≡ some x) × (get_model_id x ≡ ok k) × IsGroup k xs

  abbrev pub AreGroups : Groups K I → Type 0
  AreGroups [] = Unit
  AreGroups ((k, xs) ∷ g) = IsGroup k xs × AreGroups g

  IsGroup-snoc :
      (k : K) (xs : List (ℕ × I)) (i : ℕ) (x : I)
      → IsGroup k xs
      → get_elem? items i ≡ some x
      → get_model_id x ≡ ok k
      → IsGroup k (xs ++ ((i, x) ∷ []))
  IsGroup-snoc k [] i x v e h = (e, h, tt)
  IsGroup-snoc k ((j, y) ∷ xs) i x (a, b, v) e h = (a, b, IsGroup-snoc k xs i x v e h)

  pub AreGroups-append : (g h : Groups K I) → AreGroups g → AreGroups h → AreGroups (g ++ h)
  AreGroups-append [] h v w = w
  AreGroups-append ((k, xs) ∷ g) h (a, v) w = (a, AreGroups-append g h v w)

  pub AreGroups-groups_where :
      (p : K → Bool) (g : Groups K I) → AreGroups g → AreGroups (groups_where p g)
  unfolding groups_where
  AreGroups-groups_where p [] v = tt
  AreGroups-groups_where p ((k, xs) ∷ g) (a, v) = elim (Bool-cases (p k)) [
    | inl e ↦ rw (e, groups_where) (a, AreGroups-groups_where p g v)
    | inr e ↦ rw (e, groups_where) (AreGroups-groups_where p g v)
  ]

  module _ ⦃eq : Eq K⦄ where
    AreGroups-append_at :
        (k : K) (i : ℕ) (x : I) (g : Groups K I)
        → AreGroups g
        → get_elem? items i ≡ some x
        → get_model_id x ≡ ok k
        → AreGroups (append_at k (i, x) g)
    unfolding append_at
    AreGroups-append_at k i x [] v e h = ((e, h, tt), tt)
    AreGroups-append_at k i x ((j, xs) ∷ g) (a, v) e h = elim (Bool-cases (j === k)) [
      | inl same ↦
          rw (same, append_at)
            (IsGroup-snoc j xs i x a e (h ∙ ap ok (sym ((eq.beq_iff j k).0 same))), v)
      | inr other ↦ rw (other, append_at) (a, AreGroups-append_at k i x g v e h)
    ]

    InGroups-append_at :
        (k : K) (i : ℕ) (x : ℕ × I) (g : Groups K I)
        → (x.0 ≡ i) ⊎ InGroups i g
        → InGroups i (append_at k x g)
    unfolding append_at
    InGroups-append_at k i x [] (inl e) = inl (inl e)
    InGroups-append_at k i x [] (inr m) = elim m [ ]
    InGroups-append_at k i x ((j, xs) ∷ g) m = elim (Bool-cases (j === k)) [
      | inl same ↦ elim m [
        | inl e ↦
            rw (same, append_at)
              (inl (subst (λ n. InGroup n (xs ++ (x ∷ []))) e (InGroup-last xs x)))
        | inr (inl h) ↦ rw (same, append_at) (inl (InGroup-snoc i xs x h))
        | inr (inr h) ↦ rw (same, append_at) (inr h)
      ]
      | inr other ↦ elim m [
        | inl e ↦ rw (other, append_at) (inr (InGroups-append_at k i x g (inl e)))
        | inr (inl h) ↦ rw (other, append_at) (inl h)
        | inr (inr h) ↦ rw (other, append_at) (inr (InGroups-append_at k i x g (inr h)))
      ]
    ]

    -- The groups of a batch: sound, and with all places from 0 to the end.
    pub record Grouped (r : Result (Groups K I)) : Type 0 where
      pub groups : Groups K I
      pub result : r ≡ ok groups
      pub sound : AreGroups groups
      pub complete : (i : ℕ) → i < length items → InGroups i groups

    last_or_before : (i n : ℕ) → i < suc n → (n ≡ i) ⊎ (i < n)
    last_or_before i n l = omega arith

    elem_at :
        (before : List I) (x : I) (behind : List I)
        → get_elem? (before ++ (x ∷ behind)) (length before) ≡ some x
    elem_at [] x behind = refl
    elem_at (y ∷ before) x behind = elem_at before x behind

    group_items-Grouped :
        (named : (x : I) → (k : K) × (get_model_id x ≡ ok k)) (before rest : List I)
        (g : Groups K I)
        → items ≡ before ++ rest
        → AreGroups g
        → ((i : ℕ) → i < length before → InGroups i g)
        → Grouped (group_items get_model_id (length before) rest g)
    unfolding group_items
    group_items-Grouped named before [] g e v c = record {
      groups = g;
      result = refl;
      sound = v;
      complete = λ i h. c i (omega (arith, ap length e, length-append before [], h));
    }
    group_items-Grouped named before (x ∷ rest) g e v c =
        let (k, h) = named x in
        let at : get_elem? items (length before) ≡ some x = rw e (elem_at before x rest) in
        let size : length (before ++ (x ∷ [])) ≡ suc (length before) =
          omega (arith, length-append before (x ∷ [])) in
        let rest_grouped =
          group_items-Grouped named (before ++ (x ∷ [])) rest (append_at k (length before, x) g)
            (e ∙ sym (append_assoc before (x ∷ []) rest))
            (AreGroups-append_at k (length before) x g v at h)
            (λ i l.
              InGroups-append_at k i (length before, x) g
                (by_place i (omega (arith, size, l)) c)) in
        rw (h, group_items) (rw size at rest_grouped)
      where
        by_place :
            (i : ℕ)
            → i < suc (length before)
            → ((i : ℕ) → i < length before → InGroups i g)
            → (length before ≡ i) ⊎ InGroups i g
        by_place i l c = elim (last_or_before i (length before) l) [
          | inl e ↦ inl e
          | inr h ↦ inr (c i h)
        ]

    pub group_items_complete :
        ((x : I) → (k : K) × (get_model_id x ≡ ok k))
        → Grouped (group_items get_model_id 0 items [])
    group_items_complete named =
        group_items-Grouped named [] items [] refl tt (λ i h. absurd (omega (arith, h)))
