-- ===== src/Models/Forward/Order.antt =====
-- `MultiModelWorker.forward` of mosec/worker.py returns the results in the order of the requests.
use mosec.Prelude.{
  ℕ, ◌<◌, ◌≡◌, refl, sym, ap, subst, ◌∙◌, true, not, Option, none, some, ◌⊎◌, inl, inr, List, [],
  ◌∷◌, ◌++◌, map, length, length-map, length-replicate, replicate, Bool-cases,
}
use mosec.Prelude.Eq.{Eq}
use mosec.Prelude.Dict.{has}
use mosec.Errors.{Result, ok}
use mosec.Cache.{SieveCache}
use mosec.Cache.Runs.{IsSound}
use mosec.Cache.Every.{Hosts, put-Hosts, get-Hosts}
use mosec.Models.{Methods, ensure_model}
use mosec.Models.Ensure.{ensure_model-Loads, ensure_model-IsSound}
use mosec.Models.Forward.{
  Groups, Inference, many, groups_where, run_group, run_groups, forward_items, forward,
}
use mosec.Models.Forward.Groups.{
  InGroups, InGroups-append, InGroups-groups_where, AreGroups, AreGroups-append,
  AreGroups-groups_where, group_items_complete,
}
use mosec.Models.Forward.Places.{list_ext, wanted, IsRight, Placed, place-Placed}

-- A user's worker that computes `result` for each request by the model that the request names: the
-- models are there and load, and `forward_model`, with the model that was loaded for the key, returns
-- one result for each item, in order.
pub record Serves {K V I R : Type 0} (methods : Methods K V) (inference : Inference K V I R)
    (name : I → K) (result : I → R) : Type 0 where
  pub named : (x : I) → inference.get_model_id x ≡ ok (name x)
  pub available : (k : K) → methods.has_model k ≡ ok true
  pub model : K → V
  pub loads : (k : K) → methods.load_model k ≡ ok (model k)
  pub unloads : (k : K) (v : V) → methods.unload_model k v ≡ ok tt
  pub infer : K → I → R
  pub infers : (x : I) → infer (name x) x ≡ result x
  pub forwards :
      (k : K) (xs : List I) → inference.forward_model k (some (model k)) xs ≡ ok (map (infer k) xs)

module _ {K V I R : Type 0} ⦃eq : Eq K⦄ (methods : Methods K V) (inference : Inference K V I R)
    (name : I → K) (result : I → R) (s : Serves methods inference name result) (n : ℕ) where
  -- Under each key, the cache has the model that is loaded for it.
  abbrev pub Fits : SieveCache K V → Type 0
  Fits c = Hosts (λ k v. v ≡ s.model k) c

  pub record Ensured (k : K) (c : SieveCache K V) : Type 0 where
    pub outcome : (ensure_model methods k c).0 ≡ ok (some (s.model k))
    pub sound : IsSound n (ensure_model methods k c).1
    pub fits : Fits (ensure_model methods k c).1

  ensure_model-Ensured : (k : K) (c : SieveCache K V) → IsSound n c → Fits c → Ensured k c
  unfolding ensure_model
  ensure_model-Ensured k c h f = elim (Bool-cases (has k c.map)) [
    | inl hit ↦
        let (v, value, is, left) = get-Hosts (λ k v. v ≡ s.model k) c k f hit in
        record {
          outcome = rw (hit, ensure_model) (ap ok (value ∙ ap some is));
          sound = ensure_model-IsSound methods n k c h;
          fits = rw (hit, ensure_model) left;
        }
    | inr miss ↦
        let l =
          ensure_model-Loads methods n k (s.model k) c h miss (s.available k) (s.loads k)
            s.unloads in
        record {
          outcome = l.result;
          sound = l.sound;
          fits =
              put-Hosts (λ k v. v ≡ s.model k) c k (s.model k) f
                (subst (λ m. 0 < m) (sym h.max_size) h.positive) refl l.same_cache;
        }
  ]

  agree : (k : K) (x : I) → inference.get_model_id x ≡ ok k → s.infer k x ≡ result x
  agree k x e = rw (← ok_inj (sym (s.named x) ∙ e)) (s.infers x)
    where
      ok_inj : {A : Type 0} {a b : A} → ok a ≡ ok b → a ≡ b
      ok_inj e = cc

  module _ (items : List I) where
    pub record Ran (g : Groups K I) (results : List (Option R))
        (r : Result (List (Option R)) × SieveCache K V) : Type 0 where
      pub filled : List (Option R)
      pub outcome : r.0 ≡ ok filled
      pub size : length filled ≡ length items
      pub right :
          (i : ℕ) → InGroups i g ⊎ IsRight items result results i → IsRight items result filled i
      pub sound : IsSound n r.1
      pub fits : Fits r.1

    run_groups-Ran :
        (g : Groups K I) (results : List (Option R)) (c : SieveCache K V)
        → AreGroups inference.get_model_id items g
        → length results ≡ length items
        → IsSound n c
        → Fits c
        → Ran g results (run_groups methods inference g results c)
    unfolding run_groups run_group
    run_groups-Ran [] results c v size h f = record {
      filled = results;
      outcome = refl;
      size = size;
      right = λ i m. elim m [ inl none_there ↦ elim none_there [ ] | inr r ↦ r ];
      sound = h;
      fits = f;
    }
    run_groups-Ran ((k, xs) ∷ g) results c (a, v) size h f =
        let e = ensure_model-Ensured k c h f in
        let p =
          place-Placed inference.get_model_id items s.infer result k xs results (agree k) a size in
        let r = run_groups-Ran g p.filled (ensure_model methods k c).1 v p.size e.sound e.fits in
        rw (run_groups, e.outcome, run_group, s.forwards k (map (λ x. x.1) xs), p.result)
          (record {
            filled = r.filled;
            outcome = r.outcome;
            size = r.size;
            right = λ i m. r.right i (by_place i m p);
            sound = r.sound;
            fits = r.fits;
          })
      where
        by_place :
            (i : ℕ) {o : Result (List (Option R))}
            → InGroups i ((k, xs) ∷ g) ⊎ IsRight items result results i
            → (p : Placed inference.get_model_id items s.infer result xs results o)
            → InGroups i g ⊎ IsRight items result p.filled i
        by_place i (inl (inl m)) p = inr (p.right i (inl m))
        by_place i (inl (inr m)) p = inl m
        by_place i (inr r) p = inr (p.right i (inr r))

    hits : Groups K I → SieveCache K V → Groups K I
    hits g c = groups_where (λ k. has k c.map) g

    misses : Groups K I → SieveCache K V → Groups K I
    misses g c = groups_where (λ k. not (has k c.map)) g

    -- For a worker that serves each request by the model that was loaded for it, from a sound cache
    -- that has under each key the model of that key: `forward` returns the results of the batch in the
    -- order of its requests, whatever models these name, in whatever order, and whichever of them are
    -- loaded or evicted on the way; and it leaves such a cache.
    pub forward-wanted :
        (c : SieveCache K V)
        → IsSound n c
        → Fits c
        → ((forward methods inference (many items) c).0 ≡ ok (many (wanted items result)))
          × IsSound n (forward methods inference (many items) c).1
          × Fits (forward methods inference (many items) c).1
    unfolding forward forward_items hits misses
    forward-wanted c h f =
        let g = group_items_complete inference.get_model_id items (λ x. (name x, s.named x)) in
        let v =
          AreGroups-append inference.get_model_id items (hits g.groups c) (misses g.groups c)
            (AreGroups-groups_where inference.get_model_id items (λ k. has k c.map) g.groups
              g.sound)
            (AreGroups-groups_where inference.get_model_id items (λ k. not (has k c.map)) g.groups
              g.sound) in
        let r =
          run_groups-Ran (hits g.groups c ++ misses g.groups c) (replicate (length items) none) c v
            (length-replicate (length items) none) h f in
        let same =
          list_ext r.filled (wanted items result) (r.size ∙ sym (length-map items _)) (λ i l.
            r.right i (
              inl (
                InGroups-append i (hits g.groups c) (misses g.groups c) (
                  InGroups-groups_where (λ k. has k c.map) i g.groups
                    (g.complete i (rw length-map at l)))))) in
        rw (forward, forward_items, g.result, r.outcome, same) (refl, r.sound, r.fits)
