-- ===== src/Redis/Ids.antt =====
-- The ids that the workers of mosec/mixin/redis_worker.py hold and use are apart.
use mosec.Prelude.{
  ℕ, suc, ◌≡◌, ◌≢◌, ◌≤◌, refl, sym, ap, ◌∙◌, subst, Option, none, some, ◌==◌, ==_iff, arith,
  Bool-cases, Option-cases, inl, inr, ◌⊎◌,
}
use mosec.Errors.{Bytes}
use mosec.Redis.{Client, IsClient, Workers, assign}

-- The workers, with what was stored under an id and not yet taken.
pub record Flow (R : Type 0) : Type 0 where
  pub workers : Workers R
  pub stored : ℕ → Option Bytes

-- A value of the updated function is the new one, or an old one elsewhere.
pub assign-cases :
    {A : Type 0} (w : ℕ) (v : A) (f : ℕ → A) (u : ℕ)
    → ((u ≡ w) × (assign w v f u ≡ v)) ⊎ ((u ≢ w) × (assign w v f u ≡ f u))
assign-cases w v f u = elim (Bool-cases (u == w)) [
  | inl same ↦ inl ((==_iff u w).0 same, rw same refl)
  | inr other ↦ inr ((λ e. cc ((==_iff u w).1 e, other)), rw other refl)
]

-- The second of two updates at the same place stands.
pub renewed :
    {A : Type 0} (w : ℕ) (v x : A) (f : ℕ → A) (u : ℕ)
    → ((u ≡ w) × (assign w v f u ≡ v)) ⊎ ((u ≢ w) × (assign w v f u ≡ assign w x f u))
renewed w v x f u = elim (assign-cases w v f u) [
  | inl h ↦ inl h
  | inr (at, is) ↦ elim (assign-cases w x f u) [
    | inl (e, k) ↦ absurd (at e)
    | inr (e, k) ↦ inr (at, is ∙ sym k)
  ]
]

module _ {R : Type 0} (c : Client R) (key : Bytes) (show : ℕ → Bytes) (count : R → ℕ)
    (laws : IsClient c key show count) where
  -- Ids are given out once: those that the workers hold are apart from each other and from those that
  -- are in use, and what is in use is at the server.
  pub record IsSound (s : Flow R) : Type 0 where
    pub held : (w n : ℕ) → s.workers.next_id w ≡ some n → n ≤ count s.workers.redis
    pub used : (n : ℕ) (b : Bytes) → s.stored n ≡ some b → n ≤ count s.workers.redis
    pub apart : (w v n : ℕ) → s.workers.next_id w ≡ some n → s.workers.next_id v ≡ some n → w ≡ v
    pub free : (w n : ℕ) → s.workers.next_id w ≡ some n → s.stored n ≡ none
    pub there : (n : ℕ) (b : Bytes) → s.stored n ≡ some b → c.get (show n) s.workers.redis ≡ some b

  -- A worker takes a new id: one more than the counter.
  pub renew :
      (s : Flow R) (w m : ℕ) (redis : R) (next_id : ℕ → Option ℕ)
      → IsSound s
      → ((u : ℕ) → ((u ≡ w) × (next_id u ≡ some m)) ⊎ ((u ≢ w) × (next_id u ≡ s.workers.next_id u)))
      → m ≡ suc (count s.workers.redis)
      → count redis ≡ m
      → ((n : ℕ) → c.get (show n) redis ≡ c.get (show n) s.workers.redis)
      → IsSound
          (record { workers = record { redis = redis; next_id = next_id }; stored = s.stored })
  renew s w m redis next_id g cases e count_is same = record {
    held = λ u n h. elim (cases u) [
      | inl (at, is) ↦ omega (arith, count_is, some_inj (sym is ∙ h))
      | inr (at, is) ↦ omega (arith, count_is, e, g.held u n (sym is ∙ h))
    ];
    used = λ n b h. omega (arith, count_is, e, g.used n b h);
    apart = λ u v n h k. elim (cases u) [
      | inl (at, is) ↦ elim (cases v) [
        | inl (at2, is2) ↦ at ∙ sym at2
        | inr (at2, is2) ↦
            absurd (omega (arith, e, some_inj (sym is ∙ h), g.held v n (sym is2 ∙ k)))
      ]
      | inr (at, is) ↦ elim (cases v) [
        | inl (at2, is2) ↦
            absurd (omega (arith, e, some_inj (sym is2 ∙ k), g.held u n (sym is ∙ h)))
        | inr (at2, is2) ↦ g.apart u v n (sym is ∙ h) (sym is2 ∙ k)
      ]
    ];
    free = λ u n h. elim (cases u) [
      | inl (at, is) ↦ elim (Option-cases (s.stored n)) [
        | inl gone ↦ gone
        | inr (b, k) ↦ absurd (omega (arith, e, some_inj (sym is ∙ h), g.used n b k))
      ]
      | inr (at, is) ↦ g.free u n (sym is ∙ h)
    ];
    there = λ n b h. same n ∙ g.there n b h;
  }
    where
      some_inj : {a b : ℕ} → some a ≡ some b → a ≡ b
      some_inj e = cc

  -- A worker gives the id that it holds to some data.
  abbrev pub spent : ℕ → ℕ → Bytes → Flow R → Flow R
  spent w m b s = record {
    workers = record {
      redis = c.put (show m) b s.workers.redis;
      next_id = assign w none s.workers.next_id;
    };
    stored = assign m (some b) s.stored;
  }

  pub spent-IsSound :
      (w m : ℕ) (b : Bytes) (s : Flow R)
      → s.workers.next_id w ≡ some m
      → IsSound s
      → IsSound (spent w m b s)
  spent-IsSound w m b s holds g = record {
    held = λ u n h. elim (assign-cases w none s.workers.next_id u) [
      | inl (at, is) ↦ cc (h, is)
      | inr (at, is) ↦ omega (arith, laws.count-put m b s.workers.redis, g.held u n (sym is ∙ h))
    ];
    used = λ n d h. elim (assign-cases m (some b) s.stored n) [
      | inl (at, is) ↦ omega (arith, laws.count-put m b s.workers.redis, at, g.held w m holds)
      | inr (at, is) ↦ omega (arith, laws.count-put m b s.workers.redis, g.used n d (sym is ∙ h))
    ];
    apart = λ u v n h k. elim (assign-cases w none s.workers.next_id u) [
      | inl (at, is) ↦ cc (h, is)
      | inr (at, is) ↦ elim (assign-cases w none s.workers.next_id v) [
        | inl (at2, is2) ↦ cc (k, is2)
        | inr (at2, is2) ↦ g.apart u v n (sym is ∙ h) (sym is2 ∙ k)
      ]
    ];
    free = λ u n h. elim (assign-cases w none s.workers.next_id u) [
      | inl (at, is) ↦ cc (h, is)
      | inr (at, is) ↦ elim (assign-cases m (some b) s.stored n) [
        | inl (at2, is2) ↦ absurd (at (g.apart u w n (sym is ∙ h) (holds ∙ ap some (sym at2))))
        | inr (at2, is2) ↦ is2 ∙ g.free u n (sym is ∙ h)
      ]
    ];
    there = λ n d h. elim (assign-cases m (some b) s.stored n) [
      | inl (at, is) ↦
          subst (λ k. c.get (show k) (c.put (show m) b s.workers.redis) ≡ some d) (sym at)
            (laws.get-put (show m) b s.workers.redis ∙ (sym is ∙ h))
      | inr (at, is) ↦
          laws.get-put_other (show n) (show m) b s.workers.redis (λ e. at (laws.show_inj n m e))
          ∙ g.there n d (sym is ∙ h)
    ];
  }
