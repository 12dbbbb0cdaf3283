-- ===== src/Models/Ensure.antt =====
-- `MultiModelWorker._ensure_model` of mosec/worker.py: what it returns, and what it does to the cache.
use mosec.Prelude.{
  ℕ, ◌<◌, ◌≡◌, ◌≢◌, refl, sym, ap, subst, ◌∙◌, Bool, true, false, Option, none, some, arith, inl,
  inr, leb, length, length-map, Bool-cases, Option-cases, leb→le,
}
use mosec.Prelude.Eq.{Eq}
use mosec.Prelude.Dict.{has, lookup-has}
use mosec.Errors.{Result, ok, raised, diverged}
use mosec.Cache.{SieveCache, Evicted, get, put, add, evict}
use mosec.Cache.Spec.{entries}
use mosec.Cache.Holds.{visited, clear}
use mosec.Cache.Evict.Refines.{evict-Represents}
use mosec.Cache.Lacks.{Lacks, evict-Lacks}
use mosec.Cache.Lengths.{length-evict}
use mosec.Cache.Runs.{IsSound, get_of, put_of, perform-Yields}
use mosec.Models.{Methods, unload, free_room, store, load, on_miss, ensure_model}

leb-false : (a b : ℕ) → b < a → leb a b ≡ false
leb-false a b h = ground arith

module _ {K V : Type 0} ⦃eq : Eq K⦄ (n : ℕ) (c : SieveCache K V) (s : IsSound n c) where
  size : length c.map ≡ length (entries s.queue)
  size = ap length s.stands.holds.map ∙ length-map (entries s.queue) _

  put-room :
      (k : K) (v : V)
      → has k c.map ≡ false
      → leb c.max_size (length c.map) ≡ false
      → put k v c ≡ some (none, add k v c)
  unfolding put
  put-room k v h room = rw (lookup-has k c.map h, room, put) refl

  put-full :
      (k : K) (v : V) {e : Evicted K V} {d : SieveCache K V}
      → has k c.map ≡ false
      → leb c.max_size (length c.map) ≡ true
      → evict c ≡ some (e, d)
      → put k v c ≡ some (e, add k v d)
  unfolding put
  put-full k v h full evicted = rw (lookup-has k c.map h, full, evicted, put) refl

  -- An eviction from a full cache leaves room, and does not bring in a key.
  pub record MadeRoom (k : K) : Type 0 where
    pub key : K
    pub model : V
    pub after : SieveCache K V
    pub result : evict c ≡ some (some (key, model), after)
    pub sound : IsSound n after
    pub room : leb after.max_size (length after.map) ≡ false
    pub absent : has k after.map ≡ false

  evict-MadeRoom : (k : K) → has k c.map ≡ false → leb c.max_size (length c.map) ≡ true → MadeRoom k
  evict-MadeRoom k h full = elim (evict-Represents c s.queue s.stands) [
    | inl (z, _, _) ↦ absurd (
        let m = s.max_size in
        let p = s.positive in let f = leb→le _ _ full in omega (arith, size, ap length z))
    | inr e ↦
        let shorter = rw e.chosen at (length-evict visited clear s.queue) in
        let lacks : Lacks k (entries e.queue) =
          rw e.chosen at (evict-Lacks k s.queue (rw s.stands.holds.map at h)) in
        let m : e.ended.after.max_size ≡ n = e.ended.max_size ∙ s.max_size in
        let b = s.bound in
        let l : length e.ended.after.map ≡ length (entries e.queue) =
          ap length e.ended.stands.holds.map ∙ length-map (entries e.queue) _ in
        record {
          key = e.cell.key;
          model = e.cell.value;
          after = e.ended.after;
          result = e.ended.result;
          sound = record {
            queue = e.queue;
            stands = e.ended.stands;
            bound = omega arith;
            positive = s.positive;
            max_size = m;
          };
          room = leb-false _ _ (omega arith);
          absent = rw e.ended.stands.holds.map lacks;
        }
  ]

module _ {K V : Type 0} ⦃eq : Eq K⦄ (methods : Methods K V) (n : ℕ) where
  -- What a load leaves is what `put` leaves.
  pub record Loads (k : K) (v : V) (c : SieveCache K V) (r : Result (Option V) × SieveCache K V)
      : Type 0 where
    pub evicted : Evicted K V
    pub same_cache : put k v c ≡ some (evicted, r.1)
    pub result : r.0 ≡ ok (some v)
    pub sound : IsSound n r.1

  put-IsSound :
      (k : K) (v : V) (c : SieveCache K V) {e : Evicted K V} {d : SieveCache K V}
      → IsSound n c
      → put k v c ≡ some (e, d)
      → IsSound n d
  put-IsSound k v c s h =
      let y = perform-Yields n c s (put_of k v) in
      let same : y.after ≡ _ = some_inj (sym y.result ∙ rw h refl) in subst (IsSound n) same y.sound
    where
      some_inj : {A : Type 0} {a b : A} → some a ≡ some b → a ≡ b
      some_inj e = cc

  load-Loads :
      (k : K) (v : V) (c : SieveCache K V)
      → IsSound n c
      → has k c.map ≡ false
      → methods.load_model k ≡ ok v
      → ((j : K) (w : V) → methods.unload_model j w ≡ ok tt)
      → Loads k v c (load methods k (free_room methods c))
  unfolding load free_room unload store
  load-Loads k v c s h loads unloads = elim (Bool-cases (leb c.max_size (length c.map))) [
    | inr room ↦
        let e = put-room n c s k v h room in
        rw (room, loads, store, e)
          (record { evicted = none; same_cache = e; result = refl; sound = put-IsSound k v c s e })
    | inl full ↦
        let m = evict-MadeRoom n c s k h full in
        let e = put-full n c s k v h full m.result in
        let stored = put-room n m.after m.sound k v m.absent m.room in
        rw (full, m.result, unload, unloads m.key m.model, loads, store, stored)
          (record {
            evicted = some (m.key, m.model);
            same_cache = e;
            result = refl;
            sound = put-IsSound k v c s e;
          })
  ]

  -- From a sound cache, a miss of a model that is available and loads, where unloading succeeds: the
  -- model is returned, and the cache, for which `evict` and `put` are called one after the other, is
  -- the one that a single `put` would leave. It is sound with the same maximum.
  pub ensure_model-Loads :
      (k : K) (v : V) (c : SieveCache K V)
      → IsSound n c
      → has k c.map ≡ false
      → methods.has_model k ≡ ok true
      → methods.load_model k ≡ ok v
      → ((j : K) (w : V) → methods.unload_model j w ≡ ok tt)
      → Loads k v c (ensure_model methods k c)
  unfolding ensure_model on_miss
  ensure_model-Loads k v c s h available loads unloads =
      rw (h, available) (load-Loads k v c s h loads unloads)

  on_miss-refused :
      (k : K) (r : Result Bool) (c : SieveCache K V)
      → r ≢ ok true
      → ((on_miss methods k r c).1 ≡ c) × ((v : Option V) → (on_miss methods k r c).0 ≢ ok v)
  unfolding on_miss
  on_miss-refused k (ok true) c h = absurd (h refl)
  on_miss-refused k (ok false) c h = (refl, λ v e. cc)
  on_miss-refused k (raised e) c h = (refl, λ v f. cc)
  on_miss-refused k diverged c h = (refl, λ v e. cc)

  -- A request for a model that is not in the cache, and that `has_model` does not confirm, returns no
  -- model and leaves the cache as it was: it cannot displace a model.
  pub ensure_model-refused :
      (k : K) (c : SieveCache K V)
      → has k c.map ≡ false
      → methods.has_model k ≢ ok true
      → ((ensure_model methods k c).1 ≡ c) × ((v : Option V) → (ensure_model methods k c).0 ≢ ok v)
  unfolding ensure_model
  ensure_model-refused k c h refused = rw h (on_miss-refused k (methods.has_model k) c refused)

  get-IsSound : (k : K) (c : SieveCache K V) → IsSound n c → IsSound n (get k c).1
  get-IsSound k c s =
      let y = perform-Yields n c s (get_of k) in
      let same : y.after ≡ (get k c).1 = some_inj (sym y.result) in subst (IsSound n) same y.sound
    where
      some_inj : {A : Type 0} {a b : A} → some a ≡ some b → a ≡ b
      some_inj e = cc

  store-IsSound :
      (k : K) (r : Result V) (c : SieveCache K V) → IsSound n c → IsSound n (store methods k r c).1
  unfolding store
  store-IsSound k (ok v) c s = elim (Option-cases (put k v c)) [
    | inl e ↦ rw (e, store) s
    | inr ((x, d), e) ↦ rw (e, store) (put-IsSound k v c s e)
  ]
  store-IsSound k (raised e) c s = s
  store-IsSound k diverged c s = s

  load-IsSound :
      (k : K) (r : Result Unit) (c : SieveCache K V)
      → IsSound n c
      → IsSound n (load methods k (r, c)).1
  unfolding load
  load-IsSound k (ok _) c s = store-IsSound k (methods.load_model k) c s
  load-IsSound k (raised e) c s = s
  load-IsSound k diverged c s = s

  miss-IsSound :
      (k : K) (c : SieveCache K V)
      → IsSound n c
      → has k c.map ≡ false
      → IsSound n (load methods k (free_room methods c)).1
  unfolding free_room unload
  miss-IsSound k c s h = elim (Bool-cases (leb c.max_size (length c.map))) [
    | inr room ↦ rw room (load-IsSound k (ok tt) c s)
    | inl full ↦
        let m = evict-MadeRoom n c s k h full in
        rw (full, m.result, unload)
          (load-IsSound k (methods.unload_model m.key m.model) m.after m.sound)
  ]

  on_miss-IsSound :
      (k : K) (r : Result Bool) (c : SieveCache K V)
      → IsSound n c
      → has k c.map ≡ false
      → IsSound n (on_miss methods k r c).1
  unfolding on_miss
  on_miss-IsSound k (ok true) c s h = miss-IsSound k c s h
  on_miss-IsSound k (ok false) c s h = s
  on_miss-IsSound k (raised e) c s h = s
  on_miss-IsSound k diverged c s h = s

  -- From a sound cache: whatever the user's methods return or raise, and wherever they raise, the cache
  -- that is left stands for a queue of at most its maximum of models, without a repeated key.
  pub ensure_model-IsSound :
      (k : K) (c : SieveCache K V) → IsSound n c → IsSound n (ensure_model methods k c).1
  unfolding ensure_model
  ensure_model-IsSound k c s = elim (Bool-cases (has k c.map)) [
    | inl hit ↦ rw hit (get-IsSound k c s)
    | inr miss ↦ rw miss (on_miss-IsSound k (methods.has_model k) c s miss)
  ]
