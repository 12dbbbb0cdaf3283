-- ===== src/Cache/Put.antt =====
-- `put` of mosec/cache.py against the queue.
use mosec.Prelude.{
  ℕ, ◌<◌, ◌≡◌, refl, ap, ◌∙◌, true, false, Option, none, some, [], inl, inr, if◌then◌else◌, leb,
  length, length-map, Bool-cases, tests,
}
use mosec.Prelude.Eq.{Eq}
use mosec.Cache.{Ptr, SieveCache, Evicted, modify, evict, add, put}
use mosec.Cache.Spec
use mosec.Cache.Spec.{Queue, entries, ready, sweep, wrap, stop_at, find, touch, push, any}
use mosec.Cache.Linked.{Cell}
use mosec.Cache.Locate.{has_key, Located, any-has, has-split}
use mosec.Cache.Locate.Cases.{Absent, locate}
use mosec.Cache.Holds.{Represents, visited, clear}
use mosec.Cache.Evict.Refines.{Evicts, evict-Represents}
use mosec.Cache.Access.{touched-Represents, lookup-Located, lookup-Absent}
use mosec.Cache.Lacks.{Lacks, evict-Lacks}
use mosec.Cache.Add.{add-Represents}

module _ {ℓ} {K V : Type ℓ} ⦃eq : Eq K⦄ where
  -- A hit by `put` sets the value and the mark.
  abbrev pub assign : V → Cell K V → Cell K V
  assign v x = record x { value = v; visited = true }

  abbrev pub cell_for : Ptr → K → V → Cell K V
  cell_for p k v = record { ptr = p; key = k; value = v; visited = false }

  abbrev pub make_room :
      Cell K V
      → Queue (Cell K V)
      → Option (Cell K V × Queue (Cell K V))
      → Evicted K V × Queue (Cell K V)
  make_room new q none = (none, push q new)
  make_room new q (some (x, left)) = (some (x.key, x.value), push left new)

  -- What `put` is to do: assign to a present key; else make room, if there is none, and push.
  abbrev pub put_spec : ℕ → Ptr → K → V → Queue (Cell K V) → Evicted K V × Queue (Cell K V)
  put_spec max_size p k v q =
      if any (has_key k) (entries q)
      then (none, touch (has_key k) (assign v) q)
      else if leb max_size (length (entries q))
      then make_room (cell_for p k v) q (Spec.evict visited clear q)
      else (none, push q (cell_for p k v))

  pub record Puts (k : K) (v : V) (c : SieveCache K V) (q : Queue (Cell K V)) : Type ℓ where
    pub after : SieveCache K V
    pub ptr : Ptr
    pub result : put k v c ≡ some ((put_spec c.max_size ptr k v q).0, after)
    pub stands : Represents after (put_spec c.max_size ptr k v q).1
    pub max_size : after.max_size ≡ c.max_size

  module _ (c : SieveCache K V) (q : Queue (Cell K V)) (k : K) (v : V) (r : Represents c q) where
    put-present : Located k q → Puts k v c q
    unfolding put
    put-present l = record {
      after = record c {
        nodes = modify l.cell.ptr (λ n. record n { value = v; visited = true }) c.nodes;
      };
      ptr = l.cell.ptr;
      result = rw (lookup-Located c q k l r, present l, put);
      stands = rw (present l) (
          touched-Represents c q k (λ n. record n { value = v; visited = true }) (assign v)
            (λ x. refl) (λ x. refl) (λ x p n. refl) l r);
      max_size = refl;
    }
      where
        present : Located k q → any (has_key k) (entries q) ≡ true
        present l = rw l.split (any-has k _ ∙ has-split k l.before l.cell l.behind l.key)

    missing : Absent k q → any (has_key k) (entries q) ≡ false
    missing a = any-has k (entries q) ∙ a.no_key

    size : length c.map ≡ length (entries q)
    size = ap length r.holds.map ∙ length-map (entries q) _

    put-room : Absent k q → leb c.max_size (length (entries q)) ≡ false → Puts k v c q
    unfolding put
    put-room a room = record {
      after = add k v c;
      ptr = c.fresh;
      result = rw (lookup-Absent c q k a r, size, missing a, room, put);
      stands = rw (missing a, room) (add-Represents c q k v r a.no_key);
      max_size = unfold add in refl;
    }

    put-full :
        Absent k q
        → leb c.max_size (length (entries q)) ≡ true
        → Evicts c (evict c) (Spec.evict visited clear q)
        → Puts k v c q
    unfolding put
    put-full a full e =
        let lacks : Lacks k (entries e.queue) = rw e.chosen at (evict-Lacks k q a.no_key) in
        record {
          after = add k v e.ended.after;
          ptr = e.ended.after.fresh;
          result =
              rw (lookup-Absent c q k a r, size, missing a, full, e.chosen, e.ended.result, put);
          stands =
              rw (missing a, full, e.chosen)
                (add-Represents e.ended.after e.queue k v e.ended.stands lacks);
          max_size = unfold add in e.ended.max_size;
        }

    -- An empty cache is never full.
    put-empty :
        0 < c.max_size
        → Absent k q
        → leb c.max_size (length (entries q)) ≡ true
        → entries q ≡ []
        → Puts k v c q
    put-empty pos a full e = absurd (omega (tests, ap length e))

    -- For a cache that stands for a queue and whose maximum is positive, `put` returns what the
    -- specification says, the entry that it evicts, if any, and leaves objects, map and hand that stand
    -- for the queue with the new or the changed entry.
    pub put-Represents : 0 < c.max_size → Puts k v c q
    put-Represents pos = elim (locate k q) [
      | inr l ↦ put-present l
      | inl a ↦ elim (Bool-cases (leb c.max_size (length (entries q)))) [
        | inr room ↦ put-room a room
        | inl full ↦ elim (evict-Represents c q r) [
          | inl (e, _, _) ↦ put-empty pos a full e
          | inr e ↦ put-full a full e
        ]
      ]
    ]
