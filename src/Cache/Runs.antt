-- ===== src/Cache/Runs.antt =====
-- Any sequence of calls of `get`, `put`, `remove` and `evict` of mosec/cache.py on a new cache.
use mathlib.Core.Option
use mosec.Prelude.{
  ℕ, ◌≤◌, ◌<◌, ◌≡◌, refl, ap, ◌∙◌, Option, none, some, List, [], ◌∷◌, arith, ◌⊎◌, inl, inr, subst,
  leb, ltb, length, Bool-cases,
}
use mosec.Prelude.Eq.{Eq}
use mosec.Cache.{SieveCache, new, get, put, remove, evict}
use mosec.Cache.Spec
use mosec.Cache.Spec.{Queue, entries, any, touch, take_out}
use mosec.Cache.Linked.{Cell}
use mosec.Cache.Locate.{has_key}
use mosec.Cache.Holds.{Represents, visited, clear}
use mosec.Cache.Evict.Refines.{evict-Represents}
use mosec.Cache.Access.{mark, get-Represents, remove-Represents, max_size-get, max_size-remove}
use mosec.Cache.Put.{put-Represents, put_spec, assign, cell_for, make_room}
use mosec.Cache.Lengths.{length-push, LengthEvicted, length-evict, length-touch, length-take_out}

-- A call by the users of the cache.
pub data Operation {ℓ} (K V : Type ℓ) : Type ℓ where
  get_of remove_of : K → Operation K V
  put_of : K → V → Operation K V
  evict_one : Operation K V

module _ {ℓ} {K V : Type ℓ} ⦃eq : Eq K⦄ where
  -- What is left of the cache, and nothing if a loop ran out of fuel.
  abbrev pub perform : Operation K V → SieveCache K V → Option (SieveCache K V)
  perform (get_of k) c = some (get k c).1
  perform (remove_of k) c = some (remove k c).1
  perform (put_of k v) c = Option.map (λ r. r.1) (put k v c)
  perform evict_one c = Option.map (λ r. r.1) (evict c)

  abbrev pub run : List (Operation K V) → SieveCache K V → Option (SieveCache K V)
  run [] c = some c
  run (o ∷ os) c = elim (perform o c) [ none ↦ none | some d ↦ run os d ]

  -- The cache stands for a queue of at most `n` entries, and `n` is its maximum.
  pub record IsSound (n : ℕ) (c : SieveCache K V) : Type ℓ where
    pub queue : Queue (Cell K V)
    pub stands : Represents c queue
    pub bound : length (entries queue) ≤ n
    pub positive : 0 < n
    pub max_size : c.max_size ≡ n

  pub record Yields (n : ℕ) (r : Option (SieveCache K V)) : Type ℓ where
    pub after : SieveCache K V
    pub result : r ≡ some after
    pub sound : IsSound n after

  length-make_room :
      (n : ℕ) (x : Cell K V) (q : Queue (Cell K V)) (r : Option (Cell K V × Queue (Cell K V)))
      → LengthEvicted visited clear (length (entries q)) r
      → length (entries q) ≤ n
      → length (entries q) < n ⊎ (r ≡ none → ⊥)
      → length (entries (make_room x q r).1) ≤ n
  length-make_room n x q none e h (inl l) = omega (arith, length-push q x)
  length-make_room n x q none e h (inr s) = absurd (s refl)
  length-make_room n x q (some (y, left)) e h s = omega (arith, length-push left x)

  module _ (n : ℕ) (c : SieveCache K V) (s : IsSound n c) where
    evict-some : 1 ≤ length (entries s.queue) → Spec.evict visited clear s.queue ≡ none → ⊥
    evict-some h e = elim (evict-Represents c s.queue s.stands) [
      | inl (z, _, _) ↦ omega (arith, h, ap length z)
      | inr r ↦ cc (r.chosen, e)
    ]

    length-put_spec :
        (p : ℕ) (k : K) (v : V) → length (entries (put_spec c.max_size p k v s.queue).1) ≤ n
    length-put_spec p k v = elim (Bool-cases (any (has_key k) (entries s.queue))) [
      | inl t ↦ rw t (let b = s.bound in omega (arith, length-touch (has_key k) (assign v) s.queue))
      | inr t ↦ elim (Bool-cases (leb c.max_size (length (entries s.queue)))) [
        | inl full ↦
            let b = s.bound in
            let m = s.max_size in
            let z = s.positive in
            let some_entry : 1 ≤ length (entries s.queue) = ground arith in
            rw (t, full)
              (length-make_room n (cell_for p k v) s.queue (Spec.evict visited clear s.queue)
                (length-evict visited clear s.queue) s.bound (inr (evict-some some_entry)))
        | inr room ↦
            let m = s.max_size in
            let l : length (entries s.queue) < n = ground arith in
            rw (t, room) (omega (arith, length-push s.queue (cell_for p k v)))
      ]
    ]

    put-Yields : (k : K) (v : V) → Yields n (perform (put_of k v) c)
    put-Yields k v =
        let p = put-Represents c s.queue k v s.stands (rw s.max_size s.positive) in
        record {
          after = p.after;
          result = rw p.result refl;
          sound = record {
            queue = (put_spec c.max_size p.ptr k v s.queue).1;
            stands = p.stands;
            bound = length-put_spec p.ptr k v;
            positive = s.positive;
            max_size = p.max_size ∙ s.max_size;
          };
        }

    evict-Yields : Yields n (perform evict_one c)
    evict-Yields = elim (evict-Represents c s.queue s.stands) [
      | inl (_, _, e) ↦ record { after = c; result = rw e refl; sound = s }
      | inr e ↦
          let h = rw e.chosen at (length-evict visited clear s.queue) in
          let b = s.bound in
          record {
            after = e.ended.after;
            result = rw e.ended.result refl;
            sound = record {
              queue = e.queue;
              stands = e.ended.stands;
              bound = omega arith;
              positive = s.positive;
              max_size = e.ended.max_size ∙ s.max_size;
            };
          }
    ]

    pub perform-Yields : (o : Operation K V) → Yields n (perform o c)
    perform-Yields (get_of k) = record {
      after = (get k c).1;
      result = refl;
      sound = record {
        queue = touch (has_key k) mark s.queue;
        stands = (get-Represents c s.queue k s.stands).1;
        bound = let b = s.bound in omega (arith, length-touch (has_key k) mark s.queue);
        positive = s.positive;
        max_size = max_size-get c k ∙ s.max_size;
      };
    }
    perform-Yields (remove_of k) = record {
      after = (remove k c).1;
      result = refl;
      sound = record {
        queue = take_out (has_key k) s.queue;
        stands = (remove-Represents c s.queue k s.stands).1;
        bound = let b = s.bound in omega (arith, length-take_out (has_key k) s.queue);
        positive = s.positive;
        max_size = max_size-remove c k ∙ s.max_size;
      };
    }
    perform-Yields (put_of k v) = put-Yields k v
    perform-Yields evict_one = evict-Yields

  run-Yields :
      (n : ℕ) (os : List (Operation K V)) (c : SieveCache K V) → IsSound n c → Yields n (run os c)
  run-Yields n [] c s = record { after = c; result = refl; sound = s }
  run-Yields n (o ∷ os) c s =
      let y = perform-Yields n c s o in
      let z = run-Yields n os y.after y.sound in
      record { after = z.after; result = rw (y.result, run) z.result; sound = z.sound }

  new-IsSound : (n : ℕ) (c : SieveCache K V) → new n ≡ some c → IsSound n c
  unfolding new
  new-IsSound n c e = elim (Bool-cases (ltb n 1)) [
    | inl small ↦ cc (rw small at e)
    | inr fits ↦ subst (IsSound n) (some_inj (rw fits at e)) (record {
      queue = record { swept = []; rest = [] };
      stands = record {
        holds = record {
          shape = record { linked = tt; head = refl; tail = refl; between = omega arith };
          map = refl;
          unique = tt;
        };
        hand = refl;
      };
      bound = omega arith;
      positive = ground arith;
      max_size = refl;
    })
  ]
    where
      some_inj : {A : Type ℓ} {a b : A} → some a ≡ some b → a ≡ b
      some_inj h = cc

  -- After any calls on a new cache of size `n` each loop has ended, and the objects, map and hand
  -- stand for a queue of at most `n` entries without a repeated key; `max_size` is still `n`.
  pub run-IsSound :
      (n : ℕ) (c : SieveCache K V) (os : List (Operation K V))
      → new n ≡ some c
      → Yields n (run os c)
  run-IsSound n c os e = run-Yields n os c (new-IsSound n c e)
