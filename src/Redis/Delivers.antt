-- ===== src/Redis/Delivers.antt =====
-- Data that was stored through mosec/mixin/redis_worker.py is found under its id.
use mosec.Prelude.{
  ℕ, ◌≡◌, ◌≢◌, refl, ap, subst, sym, ◌∙◌, Option, none, some, List, [], ◌∷◌, arith, inl, inr,
}
use mosec.Errors.{Bytes, Result, ok, raised, failed, type_error}
use mosec.Redis.{
  Client, IsClient, Workers, assign, prepare_next_id, store, deserialize_ipc, Action, prepare, send,
  take, began, perform, perform_all,
}
use mosec.Redis.Ids.{Flow, assign-cases, renewed, IsSound, renew, spent, spent-IsSound}

module _ {R : Type 0} (c : Client R) (key : Bytes) (show : ℕ → Bytes) (count : R → ℕ)
    (laws : IsClient c key show count) where
  abbrev Sound : Flow R → Type 0
  Sound = IsSound c key show count laws

  -- An action, with what is stored and not taken behind it.
  track : Action → Flow R → Flow R
  track (prepare w) s = record {
    workers = perform c key show (prepare w) s.workers;
    stored = s.stored;
  }
  track (send w bytes) s = record {
    workers = perform c key show (send w bytes) s.workers;
    stored = elim (store c key show w bytes s.workers).0 [
      | none ↦ s.stored
      | some n ↦ assign n (some bytes) s.stored
    ];
  }
  track (take n) s = record {
    workers = perform c key show (take n) s.workers;
    stored = assign n none s.stored;
  }

  track_all : List Action → Flow R → Flow R
  track_all [] s = s
  track_all (a ∷ actions) s = track_all actions (track a s)

  prepare-IsSound :
      (w : ℕ) (s : Flow R)
      → Sound s
      → Sound (record { workers = prepare_next_id c key show w s.workers; stored = s.stored })
  unfolding prepare_next_id
  prepare-IsSound w s g = by_id (s.workers.next_id w)
    where
      by_id :
          (o : Option ℕ)
          → Sound (record {
            workers = elim o [
              | some n ↦ s.workers
              | none ↦
                  let (n, redis) = c.incr key s.workers.redis in
                  record { redis = redis; next_id = assign w (some n) s.workers.next_id }
            ];
            stored = s.stored;
          })
      by_id (some n) = g
      by_id none =
          let o = c.incr key s.workers.redis in
          renew c key show count laws s w o.0 o.1 (assign w (some o.0) s.workers.next_id) g
            (assign-cases w (some o.0) s.workers.next_id) (laws.incr-value s.workers.redis)
            (laws.count-incr s.workers.redis ∙ sym (laws.incr-value s.workers.redis))
            (λ n. laws.get-incr n s.workers.redis)

  send-IsSound : (w : ℕ) (bytes : Bytes) (s : Flow R) → Sound s → Sound (track (send w bytes) s)
  unfolding track perform store
  send-IsSound w bytes s g = by_id (s.workers.next_id w) refl
    where
      by_id :
          (o : Option ℕ)
          → s.workers.next_id w ≡ o
          → (let r : Option ℕ × Workers R = elim o [
            | none ↦ (none, s.workers)
            | some current_id ↦
                let (n, redis) = c.incr key (c.put (show current_id) bytes s.workers.redis) in
                (
                  some current_id,
                  record { redis = redis; next_id = assign w (some n) s.workers.next_id },
                )
          ] in
              Sound (record {
                workers = r.1;
                stored = elim r.0 [ none ↦ s.stored | some n ↦ assign n (some bytes) s.stored ];
              }))
      by_id none h = g
      by_id (some m) h =
          let t = spent c key show count laws w m bytes s in
          let o = c.incr key t.workers.redis in
          renew c key show count laws t w o.0 o.1 (assign w (some o.0) s.workers.next_id)
            (spent-IsSound c key show count laws w m bytes s h g)
            (renewed w (some o.0) none s.workers.next_id) (laws.incr-value t.workers.redis)
            (laws.count-incr t.workers.redis ∙ sym (laws.incr-value t.workers.redis))
            (λ n. laws.get-incr n t.workers.redis)

  take-IsSound : (n : ℕ) (s : Flow R) → Sound s → Sound (track (take n) s)
  unfolding track perform deserialize_ipc
  take-IsSound n s g = by_object (c.get (show n) s.workers.redis)
    where
      left : R
      left = c.delete (show n) s.workers.redis

      taken : Sound (record {
        workers = record { redis = left; next_id = s.workers.next_id };
        stored = assign n none s.stored;
      })
      taken = record {
        held = λ u k h. omega (arith, laws.count-delete n s.workers.redis, g.held u k h);
        used = λ k b h. elim (assign-cases n none s.stored k) [
          | inl (at, is) ↦ cc (h, is)
          | inr (at, is) ↦
              omega (arith, laws.count-delete n s.workers.redis, g.used k b (sym is ∙ h))
        ];
        apart = g.apart;
        free = λ u k h. elim (assign-cases n none s.stored k) [
          | inl (at, is) ↦ is
          | inr (at, is) ↦ is ∙ g.free u k h
        ];
        there = λ k b h. elim (assign-cases n none s.stored k) [
          | inl (at, is) ↦ cc (h, is)
          | inr (at, is) ↦
              laws.get-delete_other (show k) (show n) s.workers.redis
                (λ e. at (laws.show_inj k n e))
              ∙ g.there k b (sym is ∙ h)
        ];
      }

      by_object :
          (o : Option Bytes)
          → Sound (record {
            workers =
                (elim o as (λ x. Result Bytes × Workers R) [
                  | none ↦ (raised (failed type_error), record s.workers { redis = left })
                  | some bytes ↦ (ok bytes, record s.workers { redis = left })
                ]).1;
            stored = assign n none s.stored;
          })
      by_object none = taken
      by_object (some b) = taken

  track-IsSound : (a : Action) (s : Flow R) → Sound s → Sound (track a s)
  unfolding track perform
  track-IsSound (prepare w) s g = prepare-IsSound w s g
  track-IsSound (send w b) s g = send-IsSound w b s g
  track-IsSound (take n) s g = take-IsSound n s g

  track_all-IsSound : (actions : List Action) (s : Flow R) → Sound s → Sound (track_all actions s)
  unfolding track_all
  track_all-IsSound [] s g = g
  track_all-IsSound (a ∷ actions) s g = track_all-IsSound actions (track a s) (track-IsSound a s g)

  track-workers : (a : Action) (s : Flow R) → (track a s).workers ≡ perform c key show a s.workers
  unfolding track
  track-workers (prepare w) s = refl
  track-workers (send w b) s = refl
  track-workers (take n) s = refl

  track_all-workers :
      (actions : List Action) (s : Flow R)
      → (track_all actions s).workers ≡ perform_all c key show actions s.workers
  unfolding track_all perform_all
  track_all-workers [] s = refl
  track_all-workers (a ∷ actions) s =
      track_all-workers actions (track a s)
      ∙ ap (perform_all c key show actions) (track-workers a s)

  -- No action takes the object `n`.
  abbrev pub Untaken : ℕ → List Action → Type 0
  Untaken n [] = Unit
  Untaken n (prepare w ∷ actions) = Untaken n actions
  Untaken n (send w b ∷ actions) = Untaken n actions
  Untaken n (take m ∷ actions) = (n ≢ m) × Untaken n actions

  -- No other data is stored under an id before what is stored under it was taken.
  send-keeps :
      (w n : ℕ) (data_sent b : Bytes) (s : Flow R)
      → Sound s
      → s.stored n ≡ some b
      → (track (send w data_sent) s).stored n ≡ some b
  unfolding track store
  send-keeps w n data_sent b s g h = by_id (s.workers.next_id w) refl
    where
      by_id :
          (o : Option ℕ)
          → s.workers.next_id w ≡ o
          → (let r : Option ℕ × Workers R = elim o [
            | none ↦ (none, s.workers)
            | some current_id ↦
                let (n, redis) = c.incr key (c.put (show current_id) data_sent s.workers.redis) in
                (
                  some current_id,
                  record { redis = redis; next_id = assign w (some n) s.workers.next_id },
                )
          ] in
              (elim r.0 as (λ x. ℕ → Option Bytes) [
                | none ↦ s.stored
                | some k ↦ assign k (some data_sent) s.stored
              ])
                n
              ≡ some b)
      by_id none e = h
      by_id (some m) e = elim (assign-cases m (some data_sent) s.stored n) [
        | inl (at, is) ↦ cc (g.free w m e, h, at)
        | inr (at, is) ↦ is ∙ h
      ]

  track_all-keeps :
      (actions : List Action) (n : ℕ) (b : Bytes) (s : Flow R)
      → Sound s
      → Untaken n actions
      → s.stored n ≡ some b
      → (track_all actions s).stored n ≡ some b
  unfolding track_all track
  track_all-keeps [] n b s g u h = h
  track_all-keeps (prepare w ∷ actions) n b s g u h =
      track_all-keeps actions n b (track (prepare w) s) (track-IsSound (prepare w) s g) u h
  track_all-keeps (send w d ∷ actions) n b s g u h =
      track_all-keeps actions n b (track (send w d) s) (track-IsSound (send w d) s g) u
        (send-keeps w n d b s g h)
  track_all-keeps (take m ∷ actions) n b s g (other, u) h =
      track_all-keeps actions n b (track (take m) s) (track-IsSound (take m) s g) u
        (elim (assign-cases m none s.stored n) [
          | inl (at, is) ↦ absurd (other at)
          | inr (at, is) ↦ is ∙ h
        ])

  abbrev fresh : R → Flow R
  fresh redis = record { workers = began redis; stored = λ n. none }

  fresh-IsSound : (redis : R) → Sound (fresh redis)
  fresh-IsSound redis = record {
    held = λ w n h. cc;
    used = λ n b h. cc;
    apart = λ w v n h k. cc;
    free = λ w n h. refl;
    there = λ n b h. cc;
  }

  deserialize_ipc-get :
      (n : ℕ) (bytes : Bytes) (s : Workers R)
      → c.get (show n) s.redis ≡ some bytes
      → (deserialize_ipc c key show n s).0 ≡ ok bytes
  unfolding deserialize_ipc
  deserialize_ipc-get n bytes s h = by_object (c.get (show n) s.redis) h
    where
      by_object :
          (o : Option Bytes)
          → o ≡ some bytes
          → (elim o as (λ x. Result Bytes × Workers R) [
            | none ↦ (raised (failed type_error), record s { redis = c.delete (show n) s.redis })
            | some b ↦ (ok b, record s { redis = c.delete (show n) s.redis })
          ]).0
            ≡ ok bytes
      by_object o e = rw e refl

  send-stored :
      (w n : ℕ) (bytes : Bytes) (s : Flow R)
      → (store c key show w bytes s.workers).0 ≡ some n
      → (track (send w bytes) s).stored n ≡ some bytes
  unfolding track
  send-stored w n bytes s h = by_id (store c key show w bytes s.workers).0 h
    where
      by_id :
          (o : Option ℕ)
          → o ≡ some n
          → (elim o as (λ x. ℕ → Option Bytes) [
            | none ↦ s.stored
            | some k ↦ assign k (some bytes) s.stored
          ])
              n
            ≡ some bytes
      by_id o e = elim (assign-cases n (some bytes) s.stored n) [
        | inl (at, is) ↦ rw e is
        | inr (at, is) ↦ absurd (at refl)
      ]

  -- However the transactions of the workers come one after another, from workers without an id and
  -- with a client that does what is documented: when a worker stores data, under an id `n`, and
  -- whatever the workers store and take behind that, but for the object `n` itself, the next stage
  -- gets these data for `n`.
  pub perform_all-delivers :
      (redis : R) (before after : List Action) (w n : ℕ) (bytes : Bytes)
      → (store c key show w bytes (perform_all c key show before (began redis))).0 ≡ some n
      → Untaken n after
      → (deserialize_ipc c key show n (
          perform_all c key show
            (send w bytes ∷ after)
            (perform_all c key show before (began redis)))).0
        ≡ ok bytes
  unfolding track_all
  perform_all-delivers redis before after w n bytes h untaken =
      let s = track_all before (fresh redis) in
      let same = track_all-workers before (fresh redis) in
      let g = track_all-IsSound before (fresh redis) (fresh-IsSound redis) in
      let t = track (send w bytes) s in
      let gone = track-IsSound (send w bytes) s g in
      let there =
        track_all-keeps after n bytes t gone untaken (send-stored w n bytes s (rw same h)) in
      let last = (track_all-IsSound after t gone).there n bytes there in
      let all =
        track_all-workers (send w bytes ∷ after) s
        ∙ ap (perform_all c key show (send w bytes ∷ after)) same in
      subst (λ k. (deserialize_ipc c key show n k).0 ≡ ok bytes) all
        (deserialize_ipc-get n bytes (track_all after t).workers last)
