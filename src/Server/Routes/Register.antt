-- ===== src/Server/Routes/Register.antt =====
-- `register_runtime` of mosec/server.py.
use mosec.Prelude.{
  ℕ, ◌≤◌, ◌≡◌, refl, subst, true, inl, inr, List, [], ◌∷◌, ◌++◌, map, arith, length, ◌==◌,
  Bool-cases, ==_iff,
}
use mosec.Prelude.Int.{ℤ}
use mosec.Errors.{Text, Result, ok, raised, diverged, Result-cases}
use mosec.Runtime.{Runtime}
use mosec.Runtime.Create.{align_timeout_wait}
use mosec.Server.{
  Server, Router, register_endpoint, register_runtimes, register_routes, register_runtime,
}
use mosec.Server.Routes.{
  IsOneOf, Proper, Backed, Below, Distinct, IsSound, IsOneOf-append, IsOneOf-last, Backed-mono,
  Below-snoc, register_endpoint-Backed,
}

module _ (n : ℕ) where
  -- What a registration leaves: proper routes, and, if it returned, routes to what it added.
  abbrev Registered : Result (List (Runtime Text)) × Router → Type 0
  Registered (ok added, router) = Proper router × Backed added router × Below n added
  Registered (raised e, router) = Proper router
  Registered (diverged, router) = Proper router

  by_outcome :
      (o : Result (List (Runtime Text)) × Router) {added : List (Runtime Text)}
      → o.0 ≡ ok added
      → Registered o
      → Proper o.1 × Backed added o.1 × Below n added
  by_outcome (ok xs, router) e g =
      subst (λ ys. Proper router × Backed ys router × Below n ys) (ok_inj e) g
    where
      ok_inj : {A : Type 0} {a b : A} → ok a ≡ ok b → a ≡ b
      ok_inj e = cc
  by_outcome (raised x, router) e g = cc
  by_outcome (diverged, router) e g = cc

  free_of : (o : Result (List (Runtime Text)) × Router) → Registered o → Proper o.1
  free_of (ok xs, router) g = g.0
  free_of (raised x, router) g = g
  free_of (diverged, router) g = g

  register_runtimes-Registered :
      (endpoint : Text) (rs : List (Runtime Text)) (router : Router) (added : List (Runtime Text))
      → Below n rs
      → Proper router × Backed added router × Below n added
      → Registered (register_runtimes endpoint rs router added)
  unfolding register_runtimes
  register_runtimes-Registered endpoint [] router added u h = h
  register_runtimes-Registered endpoint (r ∷ rs) router added (l, u) (f, b, v) =
      let wider =
        Backed-mono router added (added ++ (r ∷ [])) (λ y. IsOneOf-append y added (r ∷ [])) b in
      let after =
        register_endpoint-Backed r endpoint router (added ++ (r ∷ [])) (f, wider)
          (IsOneOf-last r added) in
      elim (Result-cases (register_endpoint r endpoint router).0) [
        | inl (_, e) ↦
            rw (e, register_runtimes)
              (register_runtimes-Registered endpoint rs (register_endpoint r endpoint router).1
                (added ++ (r ∷ [])) u (after.0, after.1, Below-snoc n r added v l))
        | inr (inl (_, e)) ↦ rw (e, register_runtimes) after.0
        | inr (inr e) ↦ rw (e, register_runtimes) after.0
      ]

  abbrev AllBelow : Router → Type 0
  AllBelow [] = Unit
  AllBelow ((endpoint, rs) ∷ routes) = Below n rs × AllBelow routes

  register_routes-Registered :
      (routes router : Router) (added : List (Runtime Text))
      → AllBelow routes
      → Proper router × Backed added router × Below n added
      → Registered (register_routes routes router added)
  unfolding register_routes
  register_routes-Registered [] router added u h = h
  register_routes-Registered ((endpoint, rs) ∷ routes) router added (l, u) h =
      let after = register_runtimes-Registered endpoint rs router added l h in
      elim (Result-cases (register_runtimes endpoint rs router added).0) [
        | inl (all, e) ↦
            rw (e, register_routes)
              (register_routes-Registered routes (register_runtimes endpoint rs router added).1 all
                u (by_outcome (register_runtimes endpoint rs router added) e after))
        | inr (inl (x, e)) ↦
            rw (e, register_routes) (free_of (register_runtimes endpoint rs router added) after)
        | inr (inr e) ↦
            rw (e, register_routes) (free_of (register_runtimes endpoint rs router added) after)
      ]

Below-elem :
    (n : ℕ) (x : Runtime Text) (rs : List (Runtime Text))
    → Below n rs
    → IsOneOf x rs
    → x.stage_id ≤ n
Below-elem n x [] b m = elim m [ ]
Below-elem n x (r ∷ rs) (l, b) (inl e) = omega (arith, l, e)
Below-elem n x (r ∷ rs) (l, b) (inr m) = Below-elem n x rs b m

Below-within :
    (n : ℕ) (qs rs : List (Runtime Text))
    → ((x : Runtime Text) → IsOneOf x qs → IsOneOf x rs)
    → Below n rs
    → Below n qs
Below-within n [] rs f b = tt
Below-within n (q ∷ qs) rs f b =
    (Below-elem n q rs b (f q (inl refl)), Below-within n qs rs (λ x m. f x (inr m)) b)

-- A Python set has the elements that were added to it, each once.
pub record IsSetOrder (set_order : List (Runtime Text) → List (Runtime Text)) : Type 0 where
  pub has_all :
      (rs : List (Runtime Text)) (x : Runtime Text) → IsOneOf x rs → IsOneOf x (set_order rs)
  pub has_only :
      (rs : List (Runtime Text)) (x : Runtime Text) → IsOneOf x (set_order rs) → IsOneOf x rs
  pub once : (rs : List (Runtime Text)) → Distinct (set_order rs)

-- `_align_timeout_wait` leaves the stage ids alone.
module _ (t u : ℤ) where
  IsOneOf-align :
      (x : Runtime Text) (rs : List (Runtime Text))
      → IsOneOf x rs
      → IsOneOf x (map (align_timeout_wait t u) rs)
  unfolding align_timeout_wait
  IsOneOf-align x (r ∷ rs) (inl e) = inl e
  IsOneOf-align x (r ∷ rs) (inr m) = inr (IsOneOf-align x rs m)
  IsOneOf-align x [] m = elim m [ ]

  align-IsOneOf :
      (x : Runtime Text) (rs : List (Runtime Text))
      → IsOneOf x (map (align_timeout_wait t u) rs)
      → IsOneOf x rs
  unfolding align_timeout_wait
  align-IsOneOf x (r ∷ rs) (inl e) = inl e
  align-IsOneOf x (r ∷ rs) (inr m) = inr (align-IsOneOf x rs m)
  align-IsOneOf x [] m = elim m [ ]

  Distinct-align :
      (rs : List (Runtime Text)) → Distinct rs → Distinct (map (align_timeout_wait t u) rs)
  unfolding align_timeout_wait
  Distinct-align [] d = tt
  Distinct-align (r ∷ rs) (a, d) =
      (λ m. a (align-IsOneOf r rs (same_id r rs m)), Distinct-align rs d)
    where
      same_id :
          (r : Runtime Text) (rs : List (Runtime Text))
          → IsOneOf (align_timeout_wait t u r) (map (align_timeout_wait t u) rs)
          → IsOneOf r (map (align_timeout_wait t u) rs)
      same_id r [] m = elim m [ ]
      same_id r (q ∷ rs) (inl e) = inl e
      same_id r (q ∷ rs) (inr m) = inr (same_id r rs m)

no_runtimes : (rs : List (Runtime Text)) → (length rs == 0) ≡ true → rs ≡ []
no_runtimes [] h = refl
no_runtimes (r ∷ rs) h = absurd (let e = (==_iff (length (r ∷ rs)) 0).0 h in omega (arith, e))

-- From a sound server, and runtimes that have been created before: a `register_runtime` that returns
-- leaves a sound server, which manages the runtimes of all its routes, each once, in whatever order
-- Python's set gives them. Whether it returns or raises, no reserved endpoint gets a
-- route, and no endpoint an empty pipeline.
pub register_runtime-IsSound :
    (set_order : List (Runtime Text) → List (Runtime Text)) (routes : Router) (s : Server)
    → IsSetOrder set_order
    → AllBelow s.stage_id routes
    → IsSound s
    → ((register_runtime set_order routes s).0 ≡ ok tt
        → IsSound (register_runtime set_order routes s).1)
      × Proper (register_runtime set_order routes s).1.router
unfolding register_runtime
register_runtime-IsSound set_order routes s order below sound =
    elim (Bool-cases (length s.runtimes == 0)) [
      | inr busy ↦ rw (busy, register_runtime) (λ h. cc, sound.proper)
      | inl idle ↦
          let none_yet = no_runtimes s.runtimes idle in
          let start : Proper s.router × Backed [] s.router × Below s.stage_id [] =
            (sound.proper, rw none_yet at sound.backed, tt) in
          let g = register_routes-Registered s.stage_id routes s.router [] below start in
          elim (Result-cases (register_routes routes s.router []).0) [
            | inl (added, e) ↦
                let (free, backed, small) =
                  by_outcome s.stage_id (register_routes routes s.router []) e g in
                rw (idle, register_runtime, e, none_yet)
                  (
                    λ h. record {
                      proper = free;
                      backed =
                          Backed-mono (register_routes routes s.router []).1 added _
                            (λ x m.
                              IsOneOf-align s.configs.timeout s.configs.wait x (set_order added)
                                (order.has_all added x m))
                            backed;
                      below =
                          Below-within s.stage_id _ added
                            (λ x m. order.has_only added x (
                              align-IsOneOf s.configs.timeout s.configs.wait x (set_order added) m))
                            small;
                      distinct =
                          Distinct-align s.configs.timeout s.configs.wait (set_order added)
                            (order.once added);
                    },
                    free,
                  )
            | inr (inl (x, e)) ↦
                rw (idle, register_runtime, e)
                  (λ h. cc, free_of s.stage_id (register_routes routes s.router []) g)
            | inr (inr e) ↦
                rw (idle, register_runtime, e)
                  (λ h. cc, free_of s.stage_id (register_routes routes s.router []) g)
          ]
    ]
