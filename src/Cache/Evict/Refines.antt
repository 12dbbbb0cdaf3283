-- ===== src/Cache/Evict/Refines.antt =====
-- `evict` of mosec/cache.py against the algorithm on lists.
use mosec.Prelude.{
  ℕ, suc, ◌+◌, ◌≡◌, refl, ap, ◌∙◌, false, Option, none, some, List, [], ◌∷◌, ◌++◌, append-nil,
  arith, ◌⊎◌, inl, inr, map, length, length-append, length-map, ◌==◌,
}
use mosec.Prelude.Eq.{Eq}
use mosec.Cache.{Ptr, SieveCache, Evicted, or_else, evict_loop, evict, enough_fuel}
use mosec.Cache.Spec
use mosec.Cache.Spec.{Queue, entries, ready, sweep, wrap, stop_at}
use mosec.Cache.Linked.{Cell, start}
use mosec.Cache.Holds.{Holds, Represents, visited, clear, Holds-hand}
use mosec.Cache.Evict.{rounds, rounds-length, Ended, not-AllVisited}
use mosec.Cache.Evict.Passes.{Ended-from, scan}

module _ {ℓ} {K V : Type ℓ} ⦃eq : Eq K⦄ where
  -- The code returns, with the victim and the queue of the specification.
  pub record Evicts (c : SieveCache K V) (r : Option (Evicted K V × SieveCache K V))
      (o : Option (Cell K V × Queue (Cell K V))) : Type ℓ where
    pub cell : Cell K V
    pub queue : Queue (Cell K V)
    pub chosen : o ≡ some (cell, queue)
    pub ended : Ended c r cell queue

  module _ (g : ℕ) (c : SieveCache K V) (pre : List (Cell K V)) (x : Cell K V)
      (ws : List (Cell K V)) where
    abbrev fuel_for : ℕ
    fuel_for = rounds (x ∷ ws) (suc (rounds (pre ++ map clear (x ∷ ws)) g))

    second_pass :
        (d : SieveCache K V)
        → Holds d (pre ++ map clear (x ∷ ws))
        → d.max_size ≡ c.max_size
        → Evicts c
            (evict_loop (suc (rounds (pre ++ map clear (x ∷ ws)) g)) none d)
            (wrap visited clear (sweep visited clear (pre ++ map clear (x ∷ ws))))
    unfolding evict_loop
    second_pass d h m =
        let cells = pre ++ map clear (x ∷ ws) in
        elim (scan g (record d { hand = d.tail }) [] cells (Holds-hand d d.tail cells h)) [
          | inl p ↦ absurd (not-AllVisited pre (clear x) (map clear ws) refl p.all)
          | inr p ↦ record {
            cell = p.cell;
            queue = record { swept = p.cleared; rest = p.behind };
            chosen = rw p.swept;
            ended = Ended-from c (record d { hand = d.tail }) p.cell _ (rw h.shape.tail) m p.ended;
          }
        ]

    two_passes :
        Holds c (pre ++ (x ∷ ws))
        → Evicts c
            (evict_loop fuel_for (some x.ptr) c)
            (stop_at visited clear pre (sweep visited clear (x ∷ ws)))
    two_passes h = elim (scan (suc (rounds (pre ++ map clear (x ∷ ws)) g)) c pre (x ∷ ws) h) [
      | inl p ↦
          let e = second_pass p.after (rw p.marks at p.holds) p.max_size in
          record {
            cell = e.cell;
            queue = e.queue;
            chosen = rw (p.swept, p.marks) e.chosen;
            ended = Ended-from c c e.cell e.queue p.continues refl e.ended;
          }
      | inr p ↦ record {
        cell = p.cell;
        queue = record { swept = pre ++ p.cleared; rest = p.behind };
        chosen = rw p.swept;
        ended = p.ended;
      }
    ]

  size_lem :
      (c : SieveCache K V) (pre : List (Cell K V)) (x : Cell K V) (ws : List (Cell K V))
      → Holds c (pre ++ (x ∷ ws))
      → length c.map ≡ length pre + suc (length ws)
  size_lem c pre x ws h =
      ap length h.map ∙ length-map (pre ++ (x ∷ ws)) _ ∙ length-append pre (x ∷ ws)

  not_empty :
      (c : SieveCache K V) (m n : ℕ) → length c.map ≡ m + suc n → (length c.map == 0) ≡ false
  not_empty c m n e = ground arith

  enough_lem :
      (c : SieveCache K V) (pre : List (Cell K V)) (x : Cell K V) (ws : List (Cell K V))
      → length c.map ≡ length pre + suc (length ws)
      → enough_fuel c ≡ fuel_for (length pre + 1) c pre x ws
  enough_lem c pre x ws size = omega (
    arith,
    size,
    rounds-length ws (suc (rounds (pre ++ map clear (x ∷ ws)) (length pre + 1))),
    rounds-length (pre ++ map clear (x ∷ ws)) (length pre + 1),
    length-append pre (map clear (x ∷ ws)),
    length-map ws clear,
  )

  Evicts-from :
      (c : SieveCache K V) {p : Option Ptr} {r : Option (Evicted K V × SieveCache K V)}
      {o : Option (Cell K V × Queue (Cell K V))}
      → Evicts (record c { hand = p }) r o
      → Evicts c r o
  Evicts-from c n = record {
    cell = n.cell;
    queue = n.queue;
    chosen = n.chosen;
    ended = Ended-from c _ n.cell n.queue refl refl n.ended;
  }

  evict-ready :
      (c : SieveCache K V) (pre : List (Cell K V)) (x : Cell K V) (ws : List (Cell K V))
      → Holds c (pre ++ (x ∷ ws))
      → or_else c.hand c.tail ≡ some x.ptr
      → Evicts c (evict c) (stop_at visited clear pre (sweep visited clear (x ∷ ws)))
  unfolding evict
  evict-ready c pre x ws h e =
      let g = length pre + 1 in
      let size = size_lem c pre x ws h in
      rw (not_empty c (length pre) (length ws) size, e, enough_lem c pre x ws size)
        (Evicts-from c (two_passes g _ pre x ws (Holds-hand c (some x.ptr) _ h)))

  evict-empty : (c : SieveCache K V) → length c.map ≡ 0 → evict c ≡ some (none, c)
  unfolding evict
  evict-empty c e = rw e

  -- For a cache that stands for a queue: an empty one is left alone; from any other, `evict` returns
  -- within its fuel the key and value of the entry that the algorithm chooses, and the objects, the map
  -- and the hand stand for the queue that it leaves.
  pub evict-Represents :
      (c : SieveCache K V) (q : Queue (Cell K V))
      → Represents c q
      → (entries q ≡ []) × (Spec.evict visited clear q ≡ none) × (evict c ≡ some (none, c))
        ⊎ Evicts c (evict c) (Spec.evict visited clear q)
  evict-Represents c q r = by_queue q.swept q.rest r.holds r.hand
    where
      by_queue :
          (swept rest : List (Cell K V))
          → Holds c (swept ++ rest)
          → c.hand ≡ start rest none
          → let p : Queue (Cell K V) = record { swept = swept; rest = rest } in
            (entries p ≡ []) × (Spec.evict visited clear p ≡ none) × (evict c ≡ some (none, c))
            ⊎ Evicts c (evict c) (Spec.evict visited clear p)
      by_queue [] [] h e = inl (refl, refl, evict-empty c (ap length h.map))
      by_queue (x ∷ xs) [] h e =
          inr (evict-ready c [] x xs (rw append-nil at h) (rw (e, h.shape.tail)))
      by_queue xs (y ∷ ys) h e = inr (evict-ready c xs y ys h (rw e))
