-- ===== src/Cache/Locate.antt =====
-- Where a key stands in a queue of cells, and what a change there does to the list and the hand.
pub mod Cases
use mosec.Prelude.{
  ℕ, ◌≡◌, refl, sym, ap, ◌∙◌, Bool, true, false, Option, none, some, List, [], ◌∷◌, ◌++◌,
  append_assoc, arith, ◌⊎◌, inl, inr, if◌then◌else◌,
}
use mosec.Prelude.Eq.{Eq, ◌===◌}
use mosec.Prelude.Dict.{lookup, has}
use mosec.Cache.{Ptr, is_at}
use mosec.Cache.Spec.{Queue, entries, any, find, change, without, touch, take_out}
use mosec.Cache.Linked.{Cell, start, Between}
use mosec.Cache.Keys.{index, Found, lookup_cases}

module _ {ℓ} {K V : Type ℓ} ⦃eq : Eq K⦄ where
  abbrev pub has_key : K → Cell K V → Bool
  has_key k x = x.key === k

  pub record Located (k : K) (q : Queue (Cell K V)) : Type ℓ where
    pub before : List (Cell K V)
    pub cell : Cell K V
    pub behind : List (Cell K V)
    pub split : entries q ≡ before ++ (cell ∷ behind)
    pub key : cell.key ≡ k
    pub ptr : lookup k (index (entries q)) ≡ some cell.ptr
    pub found : find (has_key k) (entries q) ≡ some cell
    pub touched :
        (f : Cell K V → Cell K V) → entries (touch (has_key k) f q) ≡ before ++ (f cell ∷ behind)
    pub hand_touched :
        (f : Cell K V → Cell K V)
        → (f cell).ptr ≡ cell.ptr
        → start (touch (has_key k) f q).rest none ≡ start q.rest none
    pub taken : entries (take_out (has_key k) q) ≡ before ++ behind
    pub hand_taken :
        (start (take_out (has_key k) q).rest none ≡ start q.rest none)
          × ((hi : Ptr) → Between 0 (entries q) hi → is_at (start q.rest none) cell.ptr ≡ false)
        ⊎ (start q.rest none ≡ some cell.ptr)
          × (start (take_out (has_key k) q).rest none ≡ start behind none)

  pub any-has : (k : K) (xs : List (Cell K V)) → any (has_key k) xs ≡ has k (index xs)
  unfolding has
  any-has k [] = refl
  any-has k (x ∷ xs) = rw (any-has k xs)

  change-split :
      (k : K) (f : Cell K V → Cell K V) (xs : List (Cell K V)) (x : Cell K V) (ys : List (Cell K V))
      → has k (index xs) ≡ false
      → x.key ≡ k
      → change (has_key k) f (xs ++ (x ∷ ys)) ≡ xs ++ (f x ∷ ys)
  unfolding has
  change-split k f [] x ys h e = rw ((eq.beq_iff x.key k).1 e)
  change-split k f (z ∷ xs) x ys h e = ground (arith, change-split k f xs x ys)

  without-split :
      (k : K) (xs : List (Cell K V)) (x : Cell K V) (ys : List (Cell K V))
      → has k (index xs) ≡ false
      → x.key ≡ k
      → without (has_key k) (xs ++ (x ∷ ys)) ≡ xs ++ ys
  unfolding has
  without-split k [] x ys h e = rw ((eq.beq_iff x.key k).1 e)
  without-split k (z ∷ xs) x ys h e = ground (arith, without-split k xs x ys)

  find-split :
      (k : K) (xs : List (Cell K V)) (x : Cell K V) (ys : List (Cell K V))
      → has k (index xs) ≡ false
      → x.key ≡ k
      → find (has_key k) (xs ++ (x ∷ ys)) ≡ some x
  unfolding has
  find-split k [] x ys h e = rw ((eq.beq_iff x.key k).1 e)
  find-split k (z ∷ xs) x ys h e = ground (arith, find-split k xs x ys)

  lookup-split :
      (k : K) (xs : List (Cell K V)) (x : Cell K V) (ys : List (Cell K V))
      → has k (index xs) ≡ false
      → x.key ≡ k
      → lookup k (index (xs ++ (x ∷ ys))) ≡ some x.ptr
  unfolding has lookup
  lookup-split k [] x ys h e = rw ((eq.beq_iff x.key k).1 e)
  lookup-split k (z ∷ xs) x ys h e = ground (arith, lookup-split k xs x ys)

  pub has-split :
      (k : K) (xs : List (Cell K V)) (x : Cell K V) (ys : List (Cell K V))
      → x.key ≡ k
      → has k (index (xs ++ (x ∷ ys))) ≡ true
  unfolding has
  has-split k [] x ys e = rw ((eq.beq_iff x.key k).1 e)
  has-split k (z ∷ xs) x ys e = rw (has-split k xs x ys e) (ground arith)

  pub has-append :
      (k : K) (xs ys : List (Cell K V))
      → has k (index xs) ≡ false
      → has k (index (xs ++ ys)) ≡ has k (index ys)
  unfolding has
  has-append k [] ys h = refl
  has-append k (x ∷ xs) ys h = ground (arith, has-append k xs ys)
