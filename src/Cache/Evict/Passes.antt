-- ===== src/Cache/Evict/Passes.antt =====
-- The two passes of `_evict` of mosec/cache.py over a represented queue.
use mosec.Prelude.{
  ℕ, ◌≡◌, refl, ap, ◌∙◌, true, Option, List, [], ◌∷◌, ◌++◌, append-nil, append_assoc, ◌⊎◌, inl, inr,
  Bool-cases,
}
use mosec.Prelude.Eq.{Eq}
use mosec.Cache.{SieveCache, Evicted}
use mosec.Cache.Spec.{Queue}
use mosec.Cache.Linked.{Cell}
use mosec.Cache.Holds.{Holds, clear}
use mosec.Cache.Evict.{
  Ended, evict_node-Ended, Passed, Stopped, marked, marked-Holds, loop_on, loop_stops,
}

module _ {ℓ} {K V : Type ℓ} ⦃eq : Eq K⦄ where
  pub Ended-from :
      (c d : SieveCache K V) (x : Cell K V) (q : Queue (Cell K V))
      {r s : Option (Evicted K V × SieveCache K V)}
      → r ≡ s
      → d.max_size ≡ c.max_size
      → Ended d s x q
      → Ended c r x q
  Ended-from c d x q e m n = record {
    after = n.after;
    result = e ∙ n.result;
    stands = n.stands;
    max_size = n.max_size ∙ m;
  }

  extend-Passed :
      (f : ℕ) (c : SieveCache K V) (pre : List (Cell K V)) (x : Cell K V) (ws : List (Cell K V))
      (h : Holds c (pre ++ (x ∷ ws)))
      → x.visited ≡ true
      → Passed f (marked f c pre x ws h) (pre ++ (clear x ∷ [])) ws
      → Passed f c pre (x ∷ ws)
  extend-Passed f c pre x ws h e p = record {
    cleared = clear x ∷ p.cleared;
    after = p.after;
    swept = rw (p.swept, e);
    all = (e, p.all);
    marks = ap (λ l. clear x ∷ l) p.marks;
    continues = loop_on f c pre x ws h e ∙ p.continues;
    holds = rw append_assoc at p.holds;
    max_size = unfold marked in p.max_size;
  }

  extend-Stopped :
      (f : ℕ) (c : SieveCache K V) (pre : List (Cell K V)) (x : Cell K V) (ws : List (Cell K V))
      (h : Holds c (pre ++ (x ∷ ws)))
      → x.visited ≡ true
      → Stopped f (marked f c pre x ws h) (pre ++ (clear x ∷ [])) ws
      → Stopped f c pre (x ∷ ws)
  extend-Stopped f c pre x ws h e p = record {
    cleared = clear x ∷ p.cleared;
    cell = p.cell;
    behind = p.behind;
    swept = rw (p.swept, e);
    ended =
        Ended-from c (marked f c pre x ws h) p.cell _ (loop_on f c pre x ws h e)
          (unfold marked in refl) (rw append_assoc at p.ended);
  }

  pub scan :
      (f : ℕ) (c : SieveCache K V) (pre ws : List (Cell K V))
      → Holds c (pre ++ ws)
      → Passed f c pre ws ⊎ Stopped f c pre ws
  scan f c pre [] h = inl (record {
    cleared = [];
    after = c;
    swept = refl;
    all = tt;
    marks = refl;
    continues = refl;
    holds = h;
    max_size = refl;
  })
  scan f c pre (x ∷ ws) h = elim (Bool-cases x.visited) [
    | inl e ↦
        elim (scan f (marked f c pre x ws h) (pre ++ (clear x ∷ [])) ws
          (marked-Holds f c pre x ws h)) [
            | inl p ↦ inl (extend-Passed f c pre x ws h e p)
            | inr p ↦ inr (extend-Stopped f c pre x ws h e p)
          ]
    | inr e ↦ inr (record {
      cleared = [];
      cell = x;
      behind = ws;
      swept = rw e;
      ended =
          Ended-from c c x _ (loop_stops f c pre x ws h e) refl
            (rw append-nil (evict_node-Ended c pre x ws h));
    })
  ]
