-- ===== src/Cache/Evict.antt =====
-- `_evict` of mosec/cache.py does what the algorithm does, and always ends.
pub mod Passes
pub mod Refines
use mosec.Prelude.{
  ℕ, zero, suc, ◌+◌, ◌-◌, ◌*◌, ◌≤◌, ◌<◌, ◌≡◌, refl, sym, ap, ◌∙◌, Bool, true, false, Option, none,
  some, List, [], ◌∷◌, ◌++◌, append-nil, append_assoc, arith, ◌⊎◌, inl, inr, map, length,
  length-append, length-map, Bool-cases, if◌then◌else◌, ◌==◌,
}
use mosec.Prelude.Eq.{Eq}
use mosec.Cache.{
  Ptr, Node, SieveCache, Evicted, modify, or_else, is_at, remove_node, evict_node, evict_loop,
  evict, enough_fuel,
}
use mosec.Cache.Spec
use mosec.Cache.Spec.{Queue, entries, ready, sweep}
use mosec.Cache.Linked.{Cell, start, finish, node_of}
use mosec.Cache.Represents.{victim, hand-remove_node, max_size-remove_node}
use mosec.Cache.Holds.{
  Holds, Represents, visited, clear, Holds-change, Holds-remove, nodes-at, start_ne, Holds-hand,
}

module _ {ℓ} {A : Type ℓ} where
  -- Fuel for a round at each cell, and `f` more.
  abbrev pub rounds : List A → ℕ → ℕ
  rounds [] f = f
  rounds (x ∷ xs) f = suc (rounds xs f)

  pub rounds-length : (xs : List A) (f : ℕ) → rounds xs f ≡ length xs + f
  rounds-length [] f = omega arith
  rounds-length (x ∷ xs) f = omega (arith, rounds-length xs f)

module _ {ℓ} {K V : Type ℓ} ⦃eq : Eq K⦄ where
  -- The cell `x` was evicted from `c`, and what is left stands for `q`.
  pub record Ended (c : SieveCache K V) (r : Option (Evicted K V × SieveCache K V)) (x : Cell K V)
      (q : Queue (Cell K V)) : Type ℓ where
    pub after : SieveCache K V
    pub result : r ≡ some (some (x.key, x.value), after)
    pub stands : Represents after q
    pub max_size : after.max_size ≡ c.max_size

  module _ (c : SieveCache K V) (xs : List (Cell K V)) (y : Cell K V) (ys : List (Cell K V)) where
    hand-evict_node :
        Holds c (xs ++ (y ∷ ys)) → (evict_node y.ptr (victim c xs y ys) c).1.hand ≡ start ys none
    unfolding evict_node
    hand-evict_node h = rw (hand-remove_node, start_ne c xs y ys h.shape)

    Holds-evict_node :
        Holds c (xs ++ (y ∷ ys)) → Holds (evict_node y.ptr (victim c xs y ys) c).1 (xs ++ ys)
    unfolding evict_node
    Holds-evict_node h =
        let d = record c { hand = start ys none } in
        Holds-remove d xs y ys (Holds-hand c (start ys none) (xs ++ (y ∷ ys)) h)

    pub evict_node-Ended :
        Holds c (xs ++ (y ∷ ys))
        → Ended c
            (some (evict_node y.ptr (victim c xs y ys) c))
            y
            (record { swept = xs; rest = ys })
    evict_node-Ended h = record {
      after = (evict_node y.ptr (victim c xs y ys) c).1;
      result = unfold evict_node in refl;
      stands = record { holds = Holds-evict_node h; hand = hand-evict_node h };
      max_size = unfold evict_node in max_size-remove_node y.ptr (victim c xs y ys) _;
    }

  abbrev pub AllVisited : List (Cell K V) → Type 0
  AllVisited [] = Unit
  AllVisited (x ∷ xs) = (x.visited ≡ true) × AllVisited xs

  pub not-AllVisited :
      (xs : List (Cell K V)) (y : Cell K V) (ys : List (Cell K V))
      → y.visited ≡ false
      → AllVisited (xs ++ (y ∷ ys))
      → ⊥
  not-AllVisited [] y ys e (h, a) = cc
  not-AllVisited (x ∷ xs) y ys e (h, a) = not-AllVisited xs y ys e a

  -- A pass over `ws` from `c` that meets only marked cells, with fuel `f` left.
  pub record Passed (f : ℕ) (c : SieveCache K V) (pre ws : List (Cell K V)) : Type ℓ where
    pub cleared : List (Cell K V)
    pub after : SieveCache K V
    pub swept : sweep visited clear ws ≡ (cleared, none)
    pub all : AllVisited ws
    pub marks : cleared ≡ map clear ws
    pub continues : evict_loop (rounds ws f) (start ws none) c ≡ evict_loop f none after
    pub holds : Holds after (pre ++ cleared)
    pub max_size : after.max_size ≡ c.max_size

  -- A pass that evicts.
  pub record Stopped (f : ℕ) (c : SieveCache K V) (pre ws : List (Cell K V)) : Type ℓ where
    pub cleared : List (Cell K V)
    pub cell : Cell K V
    pub behind : List (Cell K V)
    pub swept : sweep visited clear ws ≡ (cleared, some (cell, behind))
    pub ended :
        Ended c
          (evict_loop (rounds ws f) (start ws none) c)
          cell
          (record { swept = pre ++ cleared; rest = behind })

  module _ (f : ℕ) (c : SieveCache K V) (pre : List (Cell K V)) (x : Cell K V)
      (ws : List (Cell K V)) (h : Holds c (pre ++ (x ∷ ws))) where
    pub marked : SieveCache K V
    marked = record c { nodes = modify x.ptr (λ n. record n { visited = false }) c.nodes }

    pub marked-Holds : Holds marked ((pre ++ (clear x ∷ [])) ++ ws)
    unfolding marked
    marked-Holds = rw append_assoc (Holds-change c _ pre x (clear x) ws refl refl (λ p n. refl) h)

    pub loop_on :
        x.visited ≡ true
        → evict_loop (rounds (x ∷ ws) f) (some x.ptr) c
          ≡ evict_loop (rounds ws f) (start ws none) marked
    unfolding evict_loop marked
    loop_on e = rw (nodes-at c pre x ws h.shape, e)

    pub loop_stops :
        x.visited ≡ false
        → evict_loop (rounds (x ∷ ws) f) (some x.ptr) c
          ≡ some (evict_node x.ptr (victim c pre x ws) c)
    unfolding evict_loop
    loop_stops e = rw (nodes-at c pre x ws h.shape, e)
