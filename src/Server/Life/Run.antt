-- ===== src/Server/Life/Run.antt =====
-- The outcomes of `run` of mosec/server.py.
use mosec.Prelude.{
  ◌≡◌, ◌≢◌, refl, ap, sym, subst, ◌∙◌, Bool, true, false, List, [], ◌∷◌, ◌++◌, inl, inr, Bool-cases,
  ℕ, map, if◌then◌else◌, Option, some, ◌⊎◌,
}
use mosec.Errors.{Text, text, Raised, Result, ok, raised, diverged, Result-cases, is_exception}
use mosec.Runtime.{Runtime}
use mosec.Server.{Server, Router}
use mosec.Server.Routes.{Proper, IsSound}
use mosec.Server.Life.{
  Life, World, Effect, Config, RouteConfig, last, runtime_config, runtime_name, route_config,
  route_configs, config_of, set_shutdown_notify, halt_controller, set_shutdown, remove_path,
  register_daemon, halt_effects, finally_halt, run, serve, validate_server, start_rs_runtime,
  manage_py_runtime, swallow, terminate,
}

-- What a served run comes to, and the process of the controller when it halts: the third place is
-- what `_start_rs_runtime` leaves or raises.
pub data Outcome (w : World) (l : Life) : Result Life → Result (Unit {0}) → Option ℕ → Type 0 where
  start_raised : {e : Raised} → Outcome w l (raised e) (raised e) l.process
  managed :
      {m n : Life} → manage_py_runtime true w.rounds m ≡ ok n → Outcome w l (ok m) (ok tt) m.process
  swallowed :
      {m : Life} {e : Raised}
      → manage_py_runtime true w.rounds m ≡ raised e
      → is_exception e ≡ true
      → Outcome w l (ok m) (ok tt) m.process
  escaped :
      {m : Life} {e : Raised}
      → manage_py_runtime true w.rounds m ≡ raised e
      → is_exception e ≡ false
      → Outcome w l (ok m) (raised e) m.process

-- What a signal before the start leaves.
abbrev pub begun : World → Life → Result Life
begun w l = start_rs_runtime w.show w.start (if w.signalled then terminate l else l)

-- How the controller is started: not at all after a signal, or with the handle that its start gives.
pub data Starts (w : World) (l : Life) : Result Life → Type 0 where
  unstarted :
      {m : Life}
      → (w.signalled ≡ true) ⊎ (l.server_shutdown ≡ true)
      → m.process ≡ l.process
      → Starts w l (ok m)
  started :
      {m : Life} (c : Config) (h : ℕ)
      → config_of w.show l.server ≡ ok c
      → w.start c ≡ ok h
      → m.process ≡ some h
      → Starts w l (ok m)
  unmade : {e : Raised} → config_of w.show l.server ≡ raised e → Starts w l (raised e)
  refused :
      {e : Raised} (c : Config)
      → config_of w.show l.server ≡ ok c
      → w.start c ≡ raised e
      → Starts w l (raised e)

module _ (w : World) (l : Life) where
  begun-Starts : begun w l ≢ diverged → Starts w l (begun w l)
  unfolding start_rs_runtime terminate register_daemon
  begun-Starts ends = elim (Bool-cases w.signalled) [
    | inl signal ↦
        let e : begun w l ≡ ok (terminate l) = rw signal refl in
        subst (Starts w l) (sym e) (unstarted (inl signal) refl)
    | inr quiet ↦ elim (Bool-cases l.server_shutdown) [
      | inl down ↦
          let e : begun w l ≡ ok l = rw (quiet, down) refl in
          subst (Starts w l) (sym e) (unstarted (inr down) refl)
      | inr up ↦ elim (Result-cases (config_of w.show l.server)) [
        | inr (inl (x, made)) ↦
            let e : begun w l ≡ raised x = rw (quiet, up, made) refl in
            subst (Starts w l) (sym e) (unmade made)
        | inr (inr never) ↦ absurd (ends (rw (quiet, up, never) refl))
        | inl (c, made) ↦ elim (Result-cases (w.start c)) [
          | inl (h, starts) ↦
              let e : begun w l
                  ≡ ok (register_daemon (text "rs_runtime") h (record l { process = some h })) =
                rw (quiet, up, made, starts) refl in
              subst (Starts w l) (sym e) (started c h made starts refl)
          | inr (inl (x, fails)) ↦
              let e : begun w l ≡ raised x = rw (quiet, up, made, fails) refl in
              subst (Starts w l) (sym e) (refused c made fails)
          | inr (inr never) ↦ absurd (ends (rw (quiet, up, made, never) refl))
        ]
      ]
    ]
  ]

  swallow-Outcome :
      (m : Life)
      → swallow (manage_py_runtime true w.rounds m) ≢ diverged
      → Outcome w l (ok m) (swallow (manage_py_runtime true w.rounds m)) m.process
  unfolding swallow
  swallow-Outcome m ends = elim (Result-cases (manage_py_runtime true w.rounds m)) [
    | inl (n, e) ↦ rw e (managed e)
    | inr (inl (x, e)) ↦ elim (Bool-cases (is_exception x)) [
      | inl caught ↦ rw (e, swallow, caught) (swallowed e caught)
      | inr passes ↦ rw (e, swallow, passes) (escaped e passes)
    ]
    | inr (inr e) ↦ absurd (ends (rw e refl))
  ]

  serve-Outcome : (serve w l).1 ≢ diverged → Outcome w l (begun w l) (serve w l).1 (serve w l).0
  unfolding serve
  serve-Outcome ends = elim (Result-cases (begun w l)) [
    | inl (m, e) ↦ rw (e, serve) (swallow-Outcome m (λ d. ends (rw (e, serve) d)))
    | inr (inl (x, e)) ↦ rw (e, serve) start_raised
    | inr (inr e) ↦ absurd (ends (rw (e, serve) refl))
  ]

  serve-begun : (serve w l).1 ≢ diverged → begun w l ≢ diverged
  unfolding serve
  serve-begun ends e = ends (rw (e, serve) refl)

  finally_halt-effects :
      (p : Option ℕ) (r : Result (Unit {0}))
      → r ≢ diverged
      → finally_halt p r
        ≡ (r, set_shutdown_notify ∷ halt_controller p ∷ set_shutdown ∷ remove_path ∷ [])
  unfolding finally_halt halt_effects
  finally_halt-effects p (ok tt) n = refl
  finally_halt-effects p (raised e) n = refl
  finally_halt-effects p diverged n = absurd (n refl)

  by_tests :
      (v : Result (Unit {0})) (d : Bool) (x y : Result (Unit {0}) × List Effect) {u : Unit {0}}
      → v ≡ ok u
      → d ≡ false
      → (elim v [
        | ok u ↦ if d then x else y
        | raised e ↦ (raised e, [])
        | diverged ↦ (diverged, [])
      ])
        ≡ y
  by_tests v d x y valid real = rw (valid, real) refl

  run-serve :
      (u : Unit {0})
      → validate_server w l.server ≡ ok u
      → l.server.configs.dry_run ≡ false
      → run w l ≡ finally_halt (serve w l).0 (serve w l).1
  unfolding run
  run-serve u valid real =
      by_tests (validate_server w l.server) l.server.configs.dry_run _ _ valid real

  -- A server that is validated and not dry run, once its run ends: the controller was started with the
  -- handle that its start gave, or not started after a signal, or its start raised. However the run
  -- ends, the controller is notified first, then the manager halts the process that was started, if
  -- there is one, then the stages are shut down, and the files removed last. An exception of the start
  -- is raised again, one of the management only if no `except Exception` catches it.
  pub run-halts :
      (u : Unit {0})
      → validate_server w l.server ≡ ok u
      → l.server.configs.dry_run ≡ false
      → (serve w l).1 ≢ diverged
      → (p : Option ℕ) × Starts w l (begun w l)
        × Outcome w l (begun w l) (run w l).0 p
        × ((run w l).1 ≡ set_shutdown_notify ∷ halt_controller p ∷ set_shutdown ∷ remove_path ∷ [])
  run-halts u valid real ends =
      let halts = run-serve u valid real ∙ finally_halt-effects (serve w l).0 (serve w l).1 ends in
      (
        (serve w l).0,
        begun-Starts (serve-begun ends),
        subst (λ r. Outcome w l (begun w l) r (serve w l).0) (sym (ap (λ p. p.0) halts))
            (serve-Outcome ends),
        ap (λ p. p.1) halts,
      )

module _ (show : ℕ → Text) where
  -- A route of a pipeline that ends in the stage `x`.
  abbrev pub route_to : Text → List (Runtime Text) → Runtime Text → RouteConfig
  route_to endpoint pipeline x = record {
    endpoint = endpoint;
    workers = map (runtime_name show) pipeline;
    is_sse = x.worker.is_sse;
    mime = x.worker.resp_mime_type;
  }

  -- What the configuration says of the routes: each with the names of its stages, the last of which
  -- says of what kind the answers are.
  pub data Routed : Router → List RouteConfig → Type 0 where
    done : Routed [] []
    routed :
        {endpoint : Text} {pipeline : List (Runtime Text)} {router : Router} {cs : List RouteConfig}
        → (before : List (Runtime Text)) (x : Runtime Text) → pipeline ≡ before ++ (x ∷ [])
        → Routed router cs
        → Routed ((endpoint, pipeline) ∷ router) (route_to endpoint pipeline x ∷ cs)

  last-snoc :
      (xs : List (Runtime Text))
      → xs ≢ []
      → (x : Runtime Text) × (before : List (Runtime Text)) × (xs ≡ before ++ (x ∷ []))
        × (last xs ≡ ok x)
  unfolding last
  last-snoc [] n = absurd (n refl)
  last-snoc (x ∷ []) n = (x, [], refl, refl)
  last-snoc (x ∷ y ∷ xs) n =
      let (z, before, e, h) = last-snoc (y ∷ xs) (λ e. cc) in (z, x ∷ before, ap (λ l. x ∷ l) e, h)

  route_configs-Routed :
      (router : Router)
      → Proper router
      → (cs : List RouteConfig) × (route_configs show router ≡ ok cs) × Routed router cs
  unfolding route_configs route_config
  route_configs-Routed [] p = ([], refl, done)
  route_configs-Routed ((endpoint, pipeline) ∷ router) (free, n, p) =
      let (x, before, e, h) = last-snoc pipeline n in
      let (cs, g, r) = route_configs-Routed router p in
      (route_to endpoint pipeline x ∷ cs, rw (h, g) refl, routed before x e r)

  abbrev with_routes : Server → List RouteConfig → Config
  with_routes s cs = record {
    timeout = s.configs.timeout;
    runtimes = map (runtime_config show) s.runtimes;
    routes = cs;
  }

  -- The configuration of a sound server can be made: no route is without a last stage. It lists every
  -- managed runtime, and every route with the names of its stages; whether a route streams, and its
  -- media type, are those of its last stage.
  pub config_of-Routed :
      (s : Server)
      → IsSound s
      → (c : Config) × (config_of show s ≡ ok c)
        × Routed s.router c.routes
        × (c.runtimes ≡ map (runtime_config show) s.runtimes)
  unfolding config_of
  config_of-Routed s sound =
      let (cs, e, r) = route_configs-Routed s.router sound.proper in
      (with_routes s cs, rw e refl, r, refl)
