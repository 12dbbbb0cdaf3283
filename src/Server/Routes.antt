-- ===== src/Server/Routes.antt =====
-- What the registrations of mosec/server.py keep true of the router and the list of runtimes.
pub mod Append
pub mod Register
use mosec.Prelude.{
  ℕ, suc, ◌≤◌, ◌<◌, ◌≡◌, ◌≢◌, refl, sym, ap, ◌∙◌, Bool, true, false, ◌⊎◌, inl, inr, List, [], ◌∷◌,
  ◌++◌, map, if◌then◌else◌, Bool-cases, arith, length, ◌==◌, subst, append-nil,
}
use mosec.Prelude.Eq.{Eq, ◌===◌, nat_eq, list_eq}
use mosec.Prelude.Dict.{Dict, append_at}
use mosec.Errors.{Result-cases, Text, Result, ok, raised, diverged}
use mosec.Runtime.{Runtime}
use mosec.Runtime.Create.{
  Arguments, create_runtime, align_timeout_wait, IsValid, create_runtime-IsValid,
}
use mosec.Server.{
  Server, Router, Configs, is_reserved, register_endpoint, register_route, worker_arguments,
  append_created, append_worker, register_runtimes, register_routes, register_runtime,
}

-- One of the runtimes is the object `x`.
abbrev pub IsOneOf : Runtime Text → List (Runtime Text) → Type 0
IsOneOf x [] = ⊥
IsOneOf x (r ∷ rs) = (r.stage_id ≡ x.stage_id) ⊎ IsOneOf x rs

abbrev pub AllIn : List (Runtime Text) → List (Runtime Text) → Type 0
AllIn [] rs = Unit
AllIn (x ∷ xs) rs = IsOneOf x rs × AllIn xs rs

-- No endpoint is reserved, and each has a pipeline of at least one stage.
abbrev pub Proper : Router → Type 0
Proper [] = Unit
Proper ((endpoint, xs) ∷ router) = (is_reserved endpoint ≡ false) × (xs ≢ []) × Proper router

-- The runtimes of each route are among those of the list.
abbrev pub Backed : List (Runtime Text) → Router → Type 0
Backed rs [] = Unit
Backed rs ((endpoint, xs) ∷ router) = AllIn xs rs × Backed rs router

-- Stage ids that a counter has given out, each to one runtime.
abbrev pub Below : ℕ → List (Runtime Text) → Type 0
Below n [] = Unit
Below n (r ∷ rs) = (r.stage_id ≤ n) × Below n rs

abbrev pub Distinct : List (Runtime Text) → Type 0
Distinct [] = Unit
Distinct (r ∷ rs) = (IsOneOf r rs → ⊥) × Distinct rs

-- The routes are proper, each runtime of a route is one whose processes are managed, and the stage
-- ids, from which the names of the sockets are made, are distinct.
pub record IsSound (s : Server) : Type 0 where
  pub proper : Proper s.router
  pub backed : Backed s.runtimes s.router
  pub below : Below s.stage_id s.runtimes
  pub distinct : Distinct s.runtimes

IsOneOf-append :
    (x : Runtime Text) (rs qs : List (Runtime Text)) → IsOneOf x rs → IsOneOf x (rs ++ qs)
IsOneOf-append x [] qs h = elim h [ ]
IsOneOf-append x (r ∷ rs) qs (inl e) = inl e
IsOneOf-append x (r ∷ rs) qs (inr h) = inr (IsOneOf-append x rs qs h)

IsOneOf-last : (x : Runtime Text) (rs : List (Runtime Text)) → IsOneOf x (rs ++ (x ∷ []))
IsOneOf-last x [] = inl refl
IsOneOf-last x (r ∷ rs) = inr (IsOneOf-last x rs)

IsOneOf-snoc :
    (x y : Runtime Text) (rs : List (Runtime Text))
    → IsOneOf x (rs ++ (y ∷ []))
    → IsOneOf x rs ⊎ (y.stage_id ≡ x.stage_id)
IsOneOf-snoc x y [] (inl e) = inr e
IsOneOf-snoc x y [] (inr h) = elim h [ ]
IsOneOf-snoc x y (r ∷ rs) (inl e) = inl (inl e)
IsOneOf-snoc x y (r ∷ rs) (inr h) = elim (IsOneOf-snoc x y rs h) [
  | inl m ↦ inl (inr m)
  | inr e ↦ inr e
]

pub Below-mono : (n m : ℕ) (rs : List (Runtime Text)) → n ≤ m → Below n rs → Below m rs
Below-mono n m [] h b = tt
Below-mono n m (r ∷ rs) h (l, b) = (omega (arith, h, l), Below-mono n m rs h b)

Below-snoc :
    (n : ℕ) (x : Runtime Text) (rs : List (Runtime Text))
    → Below n rs
    → x.stage_id ≤ n
    → Below n (rs ++ (x ∷ []))
Below-snoc n x [] b l = (l, tt)
Below-snoc n x (r ∷ rs) (m, b) l = (m, Below-snoc n x rs b l)

above_Below :
    (n : ℕ) (x : Runtime Text) (rs : List (Runtime Text))
    → Below n rs
    → n < x.stage_id
    → IsOneOf x rs
    → ⊥
above_Below n x [] b l m = m
above_Below n x (r ∷ rs) (h, b) l (inl e) = omega (arith, h, l, e)
above_Below n x (r ∷ rs) (h, b) l (inr m) = above_Below n x rs b l m

Distinct-snoc :
    (x : Runtime Text) (rs : List (Runtime Text))
    → Distinct rs
    → (IsOneOf x rs → ⊥)
    → Distinct (rs ++ (x ∷ []))
Distinct-snoc x [] d new = (λ m. m, tt)
Distinct-snoc x (r ∷ rs) (a, d) new = (
  λ m. elim (IsOneOf-snoc r x rs m) [ inl h ↦ a h | inr e ↦ new (inl (sym e)) ],
  Distinct-snoc x rs d (λ m. new (inr m)),
)

-- More runtimes, and the same ones in another order or changed, back what was backed.
AllIn-mono :
    (xs rs qs : List (Runtime Text))
    → ((x : Runtime Text) → IsOneOf x rs → IsOneOf x qs)
    → AllIn xs rs
    → AllIn xs qs
AllIn-mono [] rs qs f h = tt
AllIn-mono (x ∷ xs) rs qs f (m, h) = (f x m, AllIn-mono xs rs qs f h)

Backed-mono :
    (router : Router) (rs qs : List (Runtime Text))
    → ((x : Runtime Text) → IsOneOf x rs → IsOneOf x qs)
    → Backed rs router
    → Backed qs router
Backed-mono [] rs qs f h = tt
Backed-mono ((e, xs) ∷ router) rs qs f (a, h) =
    (AllIn-mono xs rs qs f a, Backed-mono router rs qs f h)

AllIn-snoc :
    (x : Runtime Text) (xs rs : List (Runtime Text))
    → AllIn xs rs
    → IsOneOf x rs
    → AllIn (xs ++ (x ∷ [])) rs
AllIn-snoc x [] rs h m = (m, tt)
AllIn-snoc x (y ∷ xs) rs (a, h) m = (a, AllIn-snoc x xs rs h m)

Backed-append_at :
    (endpoint : Text) (x : Runtime Text) (router : Router) (rs : List (Runtime Text))
    → Backed rs router
    → IsOneOf x rs
    → Backed rs (append_at endpoint x router)
unfolding append_at
Backed-append_at endpoint x [] rs h m = ((m, tt), tt)
Backed-append_at endpoint x ((e, xs) ∷ router) rs (a, h) m = elim (Bool-cases (e === endpoint)) [
  | inl same ↦ rw (same, append_at) (AllIn-snoc x xs rs a m, h)
  | inr other ↦ rw (other, append_at) (a, Backed-append_at endpoint x router rs h m)
]

Proper-append_at :
    (endpoint : Text) (x : Runtime Text) (router : Router)
    → Proper router
    → is_reserved endpoint ≡ false
    → Proper (append_at endpoint x router)
unfolding append_at
Proper-append_at endpoint x [] h free = (free, (λ e. cc), tt)
Proper-append_at endpoint x ((e, xs) ∷ router) (a, n, h) free = elim (Bool-cases (e === endpoint)) [
  | inl same ↦ rw (same, append_at) (a, snoc-nonempty xs, h)
  | inr other ↦ rw (other, append_at) (a, n, Proper-append_at endpoint x router h free)
]
  where
    snoc-nonempty : (xs : List (Runtime Text)) → (xs ++ (x ∷ [])) ≢ []
    snoc-nonempty [] e = cc
    snoc-nonempty (y ∷ xs) e = cc

-- Whether the registration is refused or not.
register_endpoint-Backed :
    (x : Runtime Text) (endpoint : Text) (router : Router) (rs : List (Runtime Text))
    → Proper router × Backed rs router
    → IsOneOf x rs
    → Proper (register_endpoint x endpoint router).1
      × Backed rs (register_endpoint x endpoint router).1
unfolding register_endpoint
register_endpoint-Backed x endpoint router rs (n, b) m = elim (Bool-cases (is_reserved endpoint)) [
  | inl refused ↦ rw (refused, register_endpoint) (n, b)
  | inr free ↦
      rw (free, register_endpoint)
        (Proper-append_at endpoint x router n free, Backed-append_at endpoint x router rs b m)
]

register_route-Backed :
    (x : Runtime Text) (route : List Text) (router : Router) (rs : List (Runtime Text))
    → Proper router × Backed rs router
    → IsOneOf x rs
    → Proper (register_route x route router).1 × Backed rs (register_route x route router).1
unfolding register_route
register_route-Backed x [] router rs h m = h
register_route-Backed x (endpoint ∷ route) router rs h m =
    let after = register_endpoint-Backed x endpoint router rs h m in
    elim (Result-cases (register_endpoint x endpoint router).0) [
      | inl (_, e) ↦
          rw (e, register_route)
            (register_route-Backed x route (register_endpoint x endpoint router).1 rs after m)
      | inr (inl (_, e)) ↦ rw (e, register_route) after
      | inr (inr e) ↦ rw (e, register_route) after
    ]
