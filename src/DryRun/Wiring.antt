-- ===== src/DryRun/Wiring.antt =====
-- How `Pool.start_worker` of mosec/dry_run.py connects the workers: each pipe leads from one stage to the
-- next.
use mosec.Prelude.{
  ℕ, zero, suc, ◌+◌, ◌≡◌, refl, sym, ap, ◌∙◌, subst, Bool, true, false, Option, none, some, List,
  [], ◌∷◌, ◌++◌, length, get_elem?, set, ◌==◌, arith, append_assoc, append-nil, length-append,
}
use mosec.DryRun.{
  Stage, Process, Pool, new_pipe, new_process, start_worker, start_workers, new_pool, ended,
}

module _ {D B : Type 0} (stages : List (Stage D B)) where
  -- The process of the stage `i` reads the pipe `i` and writes the next one; the first is the ingress.
  pub record IsWired (i : ℕ) (p : Process D B) : Type 0 where
    pub stage : get_elem? stages i ≡ some p.stage
    pub receiver : p.receiver ≡ i
    pub sender : p.sender ≡ suc i
    pub ingress : p.ingress ≡ (i == 0)

  abbrev pub AllWired : ℕ → List (Process D B) → Type 0
  AllWired i [] = Unit
  AllWired i (p ∷ ps) = IsWired i p × AllWired (suc i) ps

  AllWired-snoc :
      (i : ℕ) (ps : List (Process D B)) (p : Process D B)
      → AllWired i ps
      → IsWired (i + length ps) p
      → AllWired i (ps ++ (p ∷ []))
  AllWired-snoc i [] p w h = (subst (λ k. IsWired k p) (omega arith) h, tt)
  AllWired-snoc i (q ∷ ps) p (a, w) h =
      (a, AllWired-snoc (suc i) ps p w (subst (λ k. IsWired k p) (omega arith) h))

  pub AllWired-get_elem? :
      (i j : ℕ) (ps : List (Process D B)) (p : Process D B)
      → AllWired i ps
      → get_elem? ps j ≡ some p
      → IsWired (i + j) p
  AllWired-get_elem? i j [] p w h = cc
  AllWired-get_elem? i zero (q ∷ ps) p (a, w) h =
      subst (λ k. IsWired k p) (omega arith) (subst (IsWired i) (some_inj h) a)
    where
      some_inj : {a b : Process D B} → some a ≡ some b → a ≡ b
      some_inj e = cc
  AllWired-get_elem? i (suc j) (q ∷ ps) p (a, w) h =
      subst (λ k. IsWired k p) (omega arith) (AllWired-get_elem? (suc i) j ps p w h)

  ended-IsWired :
      (i : ℕ) (p : Process D B) (reported : Bool) (code : ℕ)
      → IsWired i p
      → IsWired i (ended p reported code)
  unfolding ended
  ended-IsWired i p reported code w = record {
    stage = w.stage;
    receiver = w.receiver;
    sender = w.sender;
    ingress = w.ingress;
  }

  -- A process that ends keeps its pipes.
  pub AllWired-set :
      (i j : ℕ) (ps : List (Process D B)) (p : Process D B) (reported : Bool) (code : ℕ)
      → AllWired i ps
      → get_elem? ps j ≡ some p
      → AllWired i (set ps j (ended p reported code))
  AllWired-set i j [] p reported code w h = tt
  AllWired-set i zero (q ∷ ps) p reported code (a, w) h =
      (ended-IsWired i p reported code (subst (IsWired i) (some_inj h) a), w)
    where
      some_inj : {a b : Process D B} → some a ≡ some b → a ≡ b
      some_inj e = cc
  AllWired-set i (suc j) (q ∷ ps) p reported code (a, w) h =
      (a, AllWired-set (suc i) j ps p reported code w h)

  -- Every stage has a process, and there is one pipe more; all pipes are empty.
  pub record IsFresh (pool : Pool D B) : Type 0 where
    pub wired : AllWired 0 pool.processes
    pub pipes : length pool.pipes ≡ suc (length pool.processes)
    pub empty : (k : ℕ) (b : B) → get_elem? pool.pipes k ≡ some (some b) → ⊥
    pub quiet : pool.shutdown_notify ≡ false

  empty-snoc :
      (pipes : List (Option B))
      → ((k : ℕ) (b : B) → get_elem? pipes k ≡ some (some b) → ⊥)
      → (k : ℕ) (b : B) → get_elem? (pipes ++ (none ∷ [])) k ≡ some (some b)
      → ⊥
  empty-snoc [] e zero b h = cc
  empty-snoc [] e (suc k) b h = cc
  empty-snoc (o ∷ pipes) e zero b h = e 0 b h
  empty-snoc (o ∷ pipes) e (suc k) b h = empty-snoc pipes (λ k b h. e (suc k) b h) k b h

  new_process-IsWired :
      (stage : Stage D B) (init : Bool) (pipes i : ℕ)
      → get_elem? stages i ≡ some stage
      → init ≡ (i == 0)
      → pipes ≡ suc (suc i)
      → IsWired i (new_process stage init pipes)
  unfolding new_process
  new_process-IsWired stage init pipes i at first wide = record {
    stage = at;
    receiver = omega (arith, wide);
    sender = omega (arith, wide);
    ingress = first;
  }

  start_worker-IsFresh :
      (stage : Stage D B) (init : Bool) (pool : Pool D B)
      → IsFresh pool
      → get_elem? stages (length pool.processes) ≡ some stage
      → init ≡ (length pool.processes == 0)
      → IsFresh (start_worker stage init pool)
        × (length (start_worker stage init pool).processes ≡ suc (length pool.processes))
  unfolding start_worker new_pipe new_process
  start_worker-IsFresh stage init pool f at first =
      let wide : length (pool.pipes ++ (none ∷ [])) ≡ suc (suc (length pool.processes)) =
        length-append pool.pipes (none ∷ []) ∙ omega (arith, f.pipes) in
      let more : length
            (pool.processes ++ (new_process stage init (length (pool.pipes ++ (none ∷ []))) ∷ []))
          ≡ suc (length pool.processes) =
        length-append pool.processes
          (new_process stage init (length (pool.pipes ++ (none ∷ []))) ∷ [])
        ∙ omega arith in
      (
        record {
          wired =
              AllWired-snoc 0 pool.processes
                (new_process stage init (length (pool.pipes ++ (none ∷ [])))) f.wired
                (subst
                  (λ k. IsWired k (new_process stage init (length (pool.pipes ++ (none ∷ [])))))
                  (omega arith)
                  (new_process-IsWired stage init (length (pool.pipes ++ (none ∷ [])))
                    (length pool.processes) at first wide));
          pipes = omega (arith, wide, more);
          empty = empty-snoc pool.pipes f.empty;
          quiet = f.quiet;
        },
        more,
      )

  get_elem?-length :
      (before after : List (Stage D B)) (stage : Stage D B)
      → get_elem? (before ++ (stage ∷ after)) (length before) ≡ some stage
  get_elem?-length [] after stage = refl
  get_elem?-length (x ∷ before) after stage = get_elem?-length before after stage

  suc-nonzero : (n : ℕ) → false ≡ (suc n == 0)
  suc-nonzero n = ground arith

  start_workers-IsFresh :
      (init : Bool) (before after : List (Stage D B)) (pool : Pool D B)
      → stages ≡ before ++ after
      → IsFresh pool
      → length pool.processes ≡ length before
      → init ≡ (length pool.processes == 0)
      → IsFresh (start_workers init after pool)
        × (length (start_workers init after pool).processes ≡ length stages)
  unfolding start_workers
  start_workers-IsFresh init before [] pool e f l first =
      (f, l ∙ ap length (sym (e ∙ append-nil before)))
  start_workers-IsFresh init before (stage ∷ after) pool e f l first =
      let at : get_elem? stages (length pool.processes) ≡ some stage =
        subst (λ k. get_elem? stages k ≡ some stage) (sym l)
          (subst (λ xs. get_elem? xs (length before) ≡ some stage) (sym e)
            (get_elem?-length before after stage)) in
      let (g, m) = start_worker-IsFresh stage init pool f at first in
      start_workers-IsFresh false (before ++ (stage ∷ [])) after (start_worker stage init pool)
        (e ∙ sym (append_assoc before (stage ∷ []) after)) g
        (m ∙ omega (arith, l, length-append before (stage ∷ [])))
        (subst (λ k. false ≡ (k == 0)) (sym m) (suc-nonzero (length pool.processes)))

  -- The pool of a dry run has a process for each stage, in order, connected by one pipe more than
  -- there are stages: each reads the pipe that the one before it writes, and only the first, which
  -- reads the pipe of the main process, is the ingress.
  pub new_pool-IsFresh :
      IsFresh (new_pool stages) × (length (new_pool stages).processes ≡ length stages)
  unfolding new_pool new_pipe
  new_pool-IsFresh =
      start_workers-IsFresh true [] stages
        (record { pipes = none ∷ []; processes = []; shutdown_notify = false }) refl
        (record { wired = tt; pipes = refl; empty = empty-snoc [] (λ k b h. cc); quiet = refl })
        refl refl
