-- ===== src/Server/Routes/Append.antt =====
-- `append_worker` of mosec/server.py.
use mosec.Prelude.{suc, ◌≡◌, refl, inl, inr, List, [], ◌∷◌, ◌++◌, arith}
use mosec.Errors.{Text, ok, Result-cases}
use mosec.Runtime.{Runtime}
use mosec.Runtime.Create.{Arguments, create_runtime, IsValid, create_runtime-IsValid}
use mosec.Server.{Server, register_route, append_created, append_worker, worker_arguments}
use mosec.Server.Routes.{
  Proper, Backed, IsSound, IsOneOf-append, IsOneOf-last, Backed-mono, Below-mono, Below-snoc,
  above_Below, Distinct-snoc, register_route-Backed,
}

module _ (x : Runtime Text) (route : List Text) (s : Server) (sound : IsSound s) where
  -- The router behind the registration of a new runtime, against the runtimes with it.
  registered :
      Proper (register_route x route s.router).1
      × Backed (s.runtimes ++ (x ∷ [])) (register_route x route s.router).1
  registered =
      register_route-Backed x route s.router (s.runtimes ++ (x ∷ []))
        (
          sound.proper,
          Backed-mono s.router s.runtimes (s.runtimes ++ (x ∷ []))
              (λ y. IsOneOf-append y s.runtimes (x ∷ [])) sound.backed,
        )
        (IsOneOf-last x s.runtimes)

  append_created-IsSound :
      x.stage_id ≡ suc s.stage_id
      → let o = append_created (ok x) route (record s { stage_id = suc s.stage_id }) in
        (o.0 ≡ ok tt → IsSound o.1 × (o.1.runtimes ≡ s.runtimes ++ (x ∷ []))) × Proper o.1.router
  unfolding append_created
  append_created-IsSound e = elim (Result-cases (register_route x route s.router).0) [
    | inl (_, r) ↦
        rw (r, append_created)
          (
            λ h. (
              record {
                proper = registered.0;
                backed = registered.1;
                below =
                    Below-snoc (suc s.stage_id) x s.runtimes
                      (Below-mono s.stage_id (suc s.stage_id) s.runtimes (omega arith) sound.below)
                      (omega (arith, e));
                distinct =
                    Distinct-snoc x s.runtimes sound.distinct
                      (above_Below s.stage_id x s.runtimes sound.below (omega (arith, e)));
              },
              refl,
            ),
            registered.0,
          )
    | inr (inl (_, r)) ↦ rw (r, append_created) (λ h. cc, registered.0)
    | inr (inr r) ↦ rw (r, append_created) (λ h. cc, registered.0)
  ]

-- What `append_worker` adds.
pub record Appended (s t : Server) : Type 0 where
  pub runtime : Runtime Text
  pub valid : IsValid runtime
  pub appended : t.runtimes ≡ s.runtimes ++ (runtime ∷ [])
  pub sound : IsSound t

-- From a sound server: an `append_worker` that returns has added one runtime, a valid one, at the
-- end, and leaves a sound server. Whether it returns or raises, no reserved endpoint gets a
-- route, and no endpoint an empty pipeline.
pub append_worker-IsSound :
    (a : Arguments) (route : List Text) (s : Server)
    → IsSound s
    → ((append_worker a route s).0 ≡ ok tt → Appended s (append_worker a route s).1)
      × Proper (append_worker a route s).1.router
unfolding append_worker create_runtime append_created
append_worker-IsSound a route s sound =
    elim (Result-cases (create_runtime (worker_arguments s.configs a) s.stage_id).0) [
      | inl (r, e) ↦
          let (valid, id) = create_runtime-IsValid (worker_arguments s.configs a) s.stage_id r e in
          let (good, free) = append_created-IsSound r route s sound id in
          rw (e, append_worker)
            (
              λ h.
                  let (t, appended) = good h in
                  record { runtime = r; valid = valid; appended = appended; sound = t },
              free,
            )
      | inr (inl (x, e)) ↦ rw (e, append_worker) (λ h. cc, sound.proper)
      | inr (inr e) ↦ rw (e, append_worker) (λ h. cc, sound.proper)
    ]
