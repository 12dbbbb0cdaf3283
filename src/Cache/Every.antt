-- ===== src/Cache/Every.antt =====
-- What holds of every entry of a cache is kept by `get` and `put`.
use mosec.Prelude.{
  ℕ, ◌<◌, ◌≡◌, refl, sym, ap, subst, ◌∙◌, Bool, true, Option, none, some, List, [], ◌∷◌, ◌++◌, inl,
  inr, leb, length, Bool-cases,
}
use mosec.Prelude.Eq.{Eq}
use mosec.Prelude.Dict.{has}
use mosec.Cache.{SieveCache, Evicted, Ptr, get, put}
use mosec.Cache.Spec
use mosec.Cache.Spec.{Queue, entries, sweep, wrap, stop_at, change, any, touch, push}
use mosec.Cache.Linked.{Cell}
use mosec.Cache.Locate.{has_key, Located}
use mosec.Cache.Locate.Cases.{locate}
use mosec.Cache.Holds.{Represents, visited, clear}
use mosec.Cache.Access.{mark, get-Represents}
use mosec.Cache.Put.{put-Represents, put_spec, assign, cell_for, make_room}

module _ {ℓ} {K V : Type ℓ} ⦃eq : Eq K⦄ (P : K → V → Type 0) where
  abbrev pub Every : List (Cell K V) → Type 0
  Every [] = Unit
  Every (x ∷ xs) = P x.key x.value × Every xs

  Every-append : (xs ys : List (Cell K V)) → Every xs → Every ys → Every (xs ++ ys)
  Every-append [] ys h g = g
  Every-append (x ∷ xs) ys (p, h) g = (p, Every-append xs ys h g)

  Every-parts : (xs ys : List (Cell K V)) → Every (xs ++ ys) → Every xs × Every ys
  Every-parts [] ys h = (tt, h)
  Every-parts (x ∷ xs) ys (p, h) = let (a, b) = Every-parts xs ys h in ((p, a), b)

  -- A change of the entries that pass a test.
  abbrev Keeps : (Cell K V → Bool) → (Cell K V → Cell K V) → Type ℓ
  Keeps test f = (x : Cell K V) → test x ≡ true → P x.key x.value → P (f x).key (f x).value

  change-Every :
      (test : Cell K V → Bool) (f : Cell K V → Cell K V) (xs : List (Cell K V))
      → Keeps test f
      → Every xs
      → Every (change test f xs)
  change-Every test f [] k h = tt
  change-Every test f (x ∷ xs) k (p, h) = elim (Bool-cases (test x)) [
    | inl e ↦ rw e (k x e p, h)
    | inr e ↦ rw e (p, change-Every test f xs k h)
  ]

  touch-Every :
      (test : Cell K V → Bool) (f : Cell K V → Cell K V) (q : Queue (Cell K V))
      → Keeps test f
      → Every (entries q)
      → Every (entries (touch test f q))
  touch-Every test f q k h =
      let (a, b) = Every-parts q.swept q.rest h in
      elim (Bool-cases (any test q.swept)) [
        | inl e ↦
            rw e (Every-append (change test f q.swept) q.rest (change-Every test f q.swept k a) b)
        | inr e ↦
            rw e (Every-append q.swept (change test f q.rest) a (change-Every test f q.rest k b))
      ]

  push-Every :
      (q : Queue (Cell K V)) (x : Cell K V)
      → P x.key x.value
      → Every (entries q)
      → Every (entries (push q x))
  push-Every q x p h = by_rest q.swept q.rest (Every-parts q.swept q.rest h)
    where
      by_rest :
          (ss rs : List (Cell K V))
          → Every ss × Every rs
          → Every (entries (push (record { swept = ss; rest = rs }) x))
      by_rest ss [] (a, b) =
          Every-append (ss ++ (x ∷ [])) [] (Every-append ss (x ∷ []) a (p, tt)) tt
      by_rest ss (r ∷ rs) (a, b) =
          Every-append ss ((r ∷ rs) ++ (x ∷ [])) a (Every-append (r ∷ rs) (x ∷ []) b (p, tt))

  abbrev StopEvery : Option (Cell K V × List (Cell K V)) → Type 0
  StopEvery none = Unit
  StopEvery (some (x, ys)) = Every ys

  abbrev SweepEvery : List (Cell K V) × Option (Cell K V × List (Cell K V)) → Type 0
  SweepEvery (cleared, stop) = Every cleared × StopEvery stop

  sweep-Every : (xs : List (Cell K V)) → Every xs → SweepEvery (sweep visited clear xs)
  sweep-Every [] h = (tt, tt)
  sweep-Every (x ∷ xs) (p, h) =
      let (cleared, stop) = sweep-Every xs h in
      elim (Bool-cases x.visited) [ inl e ↦ rw e ((p, cleared), stop) | inr e ↦ rw e (tt, h) ]

  abbrev LeftEvery : Option (Cell K V × Queue (Cell K V)) → Type 0
  LeftEvery none = Unit
  LeftEvery (some (x, q)) = Every (entries q)

  wrap-Every :
      (r : List (Cell K V) × Option (Cell K V × List (Cell K V)))
      → SweepEvery r
      → LeftEvery (wrap visited clear r)
  wrap-Every (cleared, none) (h, g) = tt
  wrap-Every (cleared, some (x, ys)) (h, g) = Every-append cleared ys h g

  stop_at-Every :
      (before : List (Cell K V)) (r : List (Cell K V) × Option (Cell K V × List (Cell K V)))
      → Every before
      → SweepEvery r
      → LeftEvery (stop_at visited clear before r)
  stop_at-Every before (cleared, none) p (h, g) =
      wrap-Every _ (sweep-Every (before ++ cleared) (Every-append before cleared p h))
  stop_at-Every before (cleared, some (x, ys)) p (h, g) =
      Every-append (before ++ cleared) ys (Every-append before cleared p h) g

  evict-Every : (q : Queue (Cell K V)) → Every (entries q) → LeftEvery (Spec.evict visited clear q)
  evict-Every q h = by_rest q.swept q.rest (Every-parts q.swept q.rest h)
    where
      by_rest :
          (ss rs : List (Cell K V))
          → Every ss × Every rs
          → LeftEvery (Spec.evict visited clear (record { swept = ss; rest = rs }))
      by_rest ss [] (g, _) = stop_at-Every [] (sweep visited clear ss) tt (sweep-Every ss g)
      by_rest ss (r ∷ rs) (g, f) =
          stop_at-Every ss (sweep visited clear (r ∷ rs)) g (sweep-Every (r ∷ rs) f)

  make_room-Every :
      (x : Cell K V) (q : Queue (Cell K V)) (r : Option (Cell K V × Queue (Cell K V)))
      → P x.key x.value
      → Every (entries q)
      → LeftEvery r
      → Every (entries (make_room x q r).1)
  make_room-Every x q none p h g = push-Every q x p h
  make_room-Every x q (some (y, left)) p h g = push-Every left x p g

  -- A cache stands for a queue of such entries.
  pub record Hosts (c : SieveCache K V) : Type ℓ where
    pub queue : Queue (Cell K V)
    pub stands : Represents c queue
    pub every : Every (entries queue)

  put_spec-Every :
      (n : ℕ) (p : Ptr) (k : K) (v : V) (q : Queue (Cell K V))
      → P k v
      → Every (entries q)
      → Every (entries (put_spec n p k v q).1)
  put_spec-Every n p k v q new h = elim (Bool-cases (any (has_key k) (entries q))) [
    | inl there ↦ rw there (
        touch-Every (has_key k) (assign v) q
          (λ x same _. subst (λ j. P j v) (sym ((eq.beq_iff x.key k).0 same)) new) h)
    | inr missing ↦ elim (Bool-cases (leb n (length (entries q)))) [
      | inl full ↦
          rw (missing, full)
            (make_room-Every (cell_for p k v) q (Spec.evict visited clear q) new h
              (evict-Every q h))
      | inr room ↦ rw (missing, room) (push-Every q (cell_for p k v) new h)
    ]
  ]

  pub put-Hosts :
      (c : SieveCache K V) (k : K) (v : V) {e : Evicted K V} {d : SieveCache K V}
      → Hosts c
      → 0 < c.max_size
      → P k v
      → put k v c ≡ some (e, d)
      → Hosts d
  put-Hosts c k v h positive new h2 =
      let s = put-Represents c h.queue k v h.stands positive in
      subst Hosts (some_inj (sym s.result ∙ h2)) (record {
        queue = (put_spec c.max_size s.ptr k v h.queue).1;
        stands = s.stands;
        every = put_spec-Every c.max_size s.ptr k v h.queue new h.every;
      })
    where
      Put : Type ℓ
      Put = Evicted K V × SieveCache K V

      some_inj :
          {a b : Evicted K V} {x y : SieveCache K V}
          → (let u : Option Put = some (a, x) in u ≡ some (b, y))
          → x ≡ y
      some_inj e = ap (λ p. p.1) (inner e)
        where
          inner : {A : Type ℓ} {a b : A} → some a ≡ some b → a ≡ b
          inner e = cc

  pub get-Hosts :
      (c : SieveCache K V) (k : K)
      → Hosts c
      → has k c.map ≡ true
      → (v : V) × ((get k c).0 ≡ some v) × P k v × Hosts (get k c).1
  get-Hosts c k h there =
      let (value, after) = get-Represents c h.queue k h.stands in
      let left : Hosts (get k c).1 = record {
        queue = touch (has_key k) mark h.queue;
        stands = after;
        every = touch-Every (has_key k) mark h.queue (λ x _ p. p) h.every;
      } in
      elim (locate k h.queue) [
        | inl a ↦ cc (rw h.stands.holds.map at there, a.no_key)
        | inr l ↦ (l.cell.value, value ∙ rw l.found refl, fits l h.every, left)
      ]
    where
      fits : (l : Located k h.queue) → Every (entries h.queue) → P k l.cell.value
      fits l every =
          let (_, (p, _)) = Every-parts l.before (l.cell ∷ l.behind) (subst Every l.split every) in
          subst (λ j. P j l.cell.value) l.key p
