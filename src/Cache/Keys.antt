-- ===== src/Cache/Keys.antt =====
-- The map of a `SieveCache`: its entries are in the order of the queue, since a Python `dict` keeps
-- the order of insertion and every new key goes to the head of the list.
use mosec.Prelude.{
  ◌≡◌, ◌≢◌, refl, ap, false, none, some, List, [], ◌∷◌, ◌++◌, map, arith, Bool-cases, ◌⊎◌, inl, inr,
}
use mosec.Prelude.Eq.{Eq, ◌===◌}
use mosec.Prelude.Dict.{Dict, lookup, has, insert, delete}
use mosec.Cache.{Ptr}
use mosec.Cache.Linked.{Cell}

module _ {ℓ} {K V : Type ℓ} ⦃eq : Eq K⦄ where
  abbrev pub index : List (Cell K V) → Dict K Ptr
  index xs = map (λ x. (x.key, x.ptr)) xs

  abbrev pub Unique : List (Cell K V) → Type 0
  Unique [] = Unit
  Unique (x ∷ xs) = (has x.key (index xs) ≡ false) × Unique xs

  -- The first cell with a key.
  pub record Found (k : K) (xs : List (Cell K V)) : Type ℓ where
    pub before : List (Cell K V)
    pub cell : Cell K V
    pub behind : List (Cell K V)
    pub split : xs ≡ before ++ (cell ∷ behind)
    pub key : cell.key ≡ k
    pub first : has k (index before) ≡ false
    pub ptr : lookup k (index xs) ≡ some cell.ptr

  pub lookup_cases :
      (k : K) (xs : List (Cell K V))
      → (has k (index xs) ≡ false) × (lookup k (index xs) ≡ none) ⊎ Found k xs
  unfolding has lookup
  lookup_cases k [] = inl (refl, refl)
  lookup_cases k (x ∷ xs) = elim (Bool-cases (x.key === k)) [
    | inl same ↦ inr (record {
      before = [];
      cell = x;
      behind = xs;
      split = refl;
      key = (eq.beq_iff x.key k).0 same;
      first = refl;
      ptr = rw same;
    })
    | inr other ↦ elim (lookup_cases k xs) [
      | inl (h, l) ↦ inl (rw other h, rw other l)
      | inr f ↦ inr (record {
        before = x ∷ f.before;
        cell = f.cell;
        behind = f.behind;
        split = ap (λ l. x ∷ l) f.split;
        key = f.key;
        first = rw other f.first;
        ptr = rw other f.ptr;
      })
    ]
  ]

  pub insert-index :
      (k : K) (p : Ptr) (xs : List (Cell K V)) (x : Cell K V)
      → x.key ≡ k
      → x.ptr ≡ p
      → has k (index xs) ≡ false
      → insert k p (index xs) ≡ index (xs ++ (x ∷ []))
  unfolding insert has
  insert-index k p [] x ek ep h = cc
  insert-index k p (y ∷ ys) x ek ep h = ground (arith, insert-index k p ys x ek ep)

  pub delete-index :
      (xs : List (Cell K V)) (y : Cell K V) (ys : List (Cell K V))
      → has y.key (index xs) ≡ false
      → delete y.key (index (xs ++ (y ∷ ys))) ≡ index (xs ++ ys)
  unfolding delete has
  delete-index [] y ys h = ground (arith, eq.beq_iff y.key y.key)
  delete-index (x ∷ xs) y ys h = ground (arith, delete-index xs y ys)

  pub index_change :
      (xs : List (Cell K V)) (x y : Cell K V) (ys : List (Cell K V))
      → x.key ≡ y.key
      → x.ptr ≡ y.ptr
      → index (xs ++ (x ∷ ys)) ≡ index (xs ++ (y ∷ ys))
  index_change [] x y ys k p = cc
  index_change (z ∷ xs) x y ys k p = rw (index_change xs x y ys k p)

  pub Unique-change :
      (xs : List (Cell K V)) (x y : Cell K V) (ys : List (Cell K V))
      → x.key ≡ y.key
      → x.ptr ≡ y.ptr
      → Unique (xs ++ (x ∷ ys))
      → Unique (xs ++ (y ∷ ys))
  Unique-change [] x y ys k p (h, u) = (rw (← k) h, u)
  Unique-change (z ∷ xs) x y ys k p (h, u) =
      (rw (← index_change xs x y ys k p) h, Unique-change xs x y ys k p u)

  has-remove :
      (k : K) (xs : List (Cell K V)) (y : Cell K V) (ys : List (Cell K V))
      → has k (index (xs ++ (y ∷ ys))) ≡ false
      → (has k (index (xs ++ ys)) ≡ false) × (y.key ≢ k)
  unfolding has
  has-remove k [] y ys h = ground (arith, eq.beq_iff y.key k)
  has-remove k (x ∷ xs) y ys h = ground (arith, has-remove k xs y ys)

  pub Unique-remove :
      (xs : List (Cell K V)) (y : Cell K V) (ys : List (Cell K V))
      → Unique (xs ++ (y ∷ ys))
      → (has y.key (index xs) ≡ false) × Unique (xs ++ ys)
  unfolding has
  Unique-remove [] y ys (h, u) = (refl, u)
  Unique-remove (x ∷ xs) y ys (h, u) =
      let (fresh, rest) = Unique-remove xs y ys u in
      let (gone, ne) = has-remove x.key xs y ys h in
      (ground (arith, eq.beq_iff x.key y.key, fresh), (gone, rest))

  has-add :
      (k : K) (xs : List (Cell K V)) (x : Cell K V)
      → has k (index xs) ≡ false
      → x.key ≢ k
      → has k (index (xs ++ (x ∷ []))) ≡ false
  unfolding has
  has-add k [] x h n = ground (arith, eq.beq_iff x.key k)
  has-add k (y ∷ xs) x h n = ground (arith, has-add k xs x)

  pub Unique-add :
      (xs : List (Cell K V)) (x : Cell K V)
      → Unique xs
      → has x.key (index xs) ≡ false
      → Unique (xs ++ (x ∷ []))
  unfolding has
  Unique-add [] x u h = (refl, tt)
  Unique-add (y ∷ xs) x (g, u) h = (
    has-add y.key xs x g (ground (arith, eq.beq_iff y.key x.key)),
    Unique-add xs x u (ground arith),
  )
