-- ===== src/Cache.antt =====
-- mosec/cache.py: `SieveCache`, with its doubly linked list on an explicit heap. A reference to a
-- `_Node` is a number, and `nodes` gives the attributes of the object that it names.
pub mod Spec
pub mod Linked
pub mod Keys
pub mod Locate
pub mod Represents
pub mod Holds
pub mod Evict
pub mod Access
pub mod Add
pub mod Lacks
pub mod Every
pub mod Put
pub mod Items
pub mod Lengths
pub mod Runs
pub mod Tests
use mathlib.Core.Option
use mosec.Prelude.{
  ℕ, zero, suc, ◌+◌, ◌*◌, Bool, true, false, Option, none, some, List, [], ◌∷◌, ◌==◌, ltb, leb,
  if◌then◌else◌, length,
}
use mosec.Prelude.Eq.{Eq}
use mosec.Prelude.Dict.{Dict, lookup, has, insert, delete}

abbrev pub Ptr : Type 0
Ptr = ℕ

pub record Node {ℓ} (K V : Type ℓ) : Type ℓ where
  pub key : K
  pub value : V
  pub visited : Bool
  pub prev : Option Ptr
  pub next : Option Ptr

abbrev pub Heap {ℓ} : Type ℓ → Type ℓ → Type ℓ
Heap K V = Ptr → Option (Node K V)

-- `fresh` is the reference of the next object to be created.
pub record SieveCache {ℓ} (K V : Type ℓ) : Type ℓ where
  pub max_size : ℕ
  pub map : Dict K Ptr
  pub head : Option Ptr
  pub tail : Option Ptr
  pub hand : Option Ptr
  pub nodes : Heap K V
  pub fresh : Ptr

abbrev pub or_else : Option Ptr → Option Ptr → Option Ptr
or_else none q = q
or_else (some p) q = some p

abbrev pub is_at : Option Ptr → Ptr → Bool
is_at none p = false
is_at (some q) p = q == p

abbrev pub Evicted {ℓ} : Type ℓ → Type ℓ → Type ℓ
Evicted K V = Option (K × V)

module _ {ℓ} {K V : Type ℓ} where
  -- An assignment to attributes of the object `p`.
  abbrev pub modify : Ptr → (Node K V → Node K V) → Heap K V → Heap K V
  modify p f h q = if q == p then Option.map f (h q) else h q

  abbrev pub modify_opt : Option Ptr → (Node K V → Node K V) → Heap K V → Heap K V
  modify_opt none f h = h
  modify_opt (some p) f h = modify p f h

  -- `None` where the constructor raises `ValueError`.
  unfoldable pub new : ℕ → Option (SieveCache K V)
  new max_size =
      if ltb max_size 1
      then none
      else some (record {
        max_size = max_size;
        map = [];
        head = none;
        tail = none;
        hand = none;
        nodes = λ p. none;
        fresh = 0;
      })

  unfoldable pub push_head : Ptr → SieveCache K V → SieveCache K V
  push_head p c =
      let linked = modify p (λ n. record n { prev = none; next = c.head }) c.nodes in
      record c {
        nodes = modify_opt c.head (λ n. record n { prev = some p }) linked;
        head = some p;
        tail = or_else c.tail (some p);
      }

  -- The first conditional of `_remove`: the neighbour toward the head, or the head itself.
  unlink_prev : Node K V → SieveCache K V → SieveCache K V
  unlink_prev node c = elim node.prev [
    | some q ↦ record c { nodes = modify q (λ n. record n { next = node.next }) c.nodes }
    | none ↦ record c { head = node.next }
  ]

  unlink_next : Node K V → SieveCache K V → SieveCache K V
  unlink_next node c = elim node.next [
    | some q ↦ record c { nodes = modify q (λ n. record n { prev = node.prev }) c.nodes }
    | none ↦ record c { tail = node.prev }
  ]

  -- `_remove` of the object `p`, whose attributes are `node`.
  unfoldable pub remove_node : Ptr → Node K V → SieveCache K V → SieveCache K V
  unfolding unlink_prev unlink_next
  remove_node p node c =
      let d = unlink_next node (unlink_prev node c) in
      record d {
        hand = if is_at d.hand p then node.prev else d.hand;
        nodes = modify p (λ n. record n { prev = none; next = none }) d.nodes;
      }

module _ {ℓ} {K V : Type ℓ} ⦃e : Eq K⦄ where
  -- The end of the inner loop: the victim is unlinked and its key deleted.
  unfoldable pub evict_node : Ptr → Node K V → SieveCache K V → Evicted K V × SieveCache K V
  unfolding remove_node delete
  evict_node p node c =
      let d = remove_node p node (record c { hand = node.prev }) in
      (some (node.key, node.value), record d { map = delete node.key d.map })

  -- Both loops of `_evict`, on the variable `victim`: where it is `None` the outer loop starts over
  -- at the tail. `none` is a loop that has used up its fuel, or a reference to no object.
  unfoldable pub evict_loop :
      ℕ → Option Ptr → SieveCache K V → Option (Evicted K V × SieveCache K V)
  unfolding evict_node
  evict_loop zero victim c = none
  evict_loop (suc fuel) none c = evict_loop fuel c.tail (record c { hand = c.tail })
  evict_loop (suc fuel) (some p) c = elim (c.nodes p) [
    | none ↦ none
    | some node ↦
        let on =
          evict_loop fuel node.prev
            (record c { nodes = modify p (λ n. record n { visited = false }) c.nodes }) in
        if node.visited then on else some (evict_node p node c)
  ]

  -- Two rounds for each entry, one to wrap, and one to evict.
  abbrev pub enough_fuel : SieveCache K V → ℕ
  enough_fuel c = length c.map * 2 + 2

  unfoldable pub evict : SieveCache K V → Option (Evicted K V × SieveCache K V)
  unfolding evict_loop
  evict c =
      if length c.map == 0
      then some (none, c)
      else let d = record c { hand = or_else c.hand c.tail } in evict_loop (enough_fuel c) d.hand d

  unfoldable pub get : K → SieveCache K V → Option V × SieveCache K V
  unfolding lookup
  get key c = elim (lookup key c.map) [
    | none ↦ (none, c)
    | some p ↦
        let d = record c { nodes = modify p (λ n. record n { visited = true }) c.nodes } in
        (Option.map (λ n. n.value) (d.nodes p), d)
  ]

  -- The object is created, linked in front, and entered in the map.
  unfoldable pub add : K → V → SieveCache K V → SieveCache K V
  unfolding push_head insert
  add key value c =
      let node : Node K V = record {
        key = key;
        value = value;
        visited = false;
        prev = none;
        next = none;
      } in
      let nodes = λ (q : Ptr). if q == c.fresh then some node else c.nodes q in
      let d = push_head c.fresh (record c { nodes = nodes; fresh = c.fresh + 1 }) in
      record d { map = insert key c.fresh d.map }

  unfoldable pub put : K → V → SieveCache K V → Option (Evicted K V × SieveCache K V)
  unfolding lookup
  put key value c = elim (lookup key c.map) [
    | some p ↦ some (
      none,
      record c { nodes = modify p (λ n. record n { value = value; visited = true }) c.nodes },
    )
    | none ↦
        Option.map (λ r. (r.0, add key value r.1))
          (if leb c.max_size (length c.map) then evict c else some (none, c))
  ]

  unfoldable pub remove : K → SieveCache K V → Option V × SieveCache K V
  unfolding lookup delete remove_node
  remove key c = elim (lookup key c.map) [
    | none ↦ (none, c)
    | some p ↦ elim (c.nodes p) [
      | none ↦ (none, c)
      | some node ↦ (some node.value, remove_node p node (record c { map = delete key c.map }))
    ]
  ]

  -- The walk of `keys` and `items` from the head, on fuel.
  unfoldable pub items_from : ℕ → Option Ptr → Heap K V → Option (List (K × V))
  items_from fuel none h = some []
  items_from zero (some p) h = none
  items_from (suc fuel) (some p) h = elim (h p) [
    | none ↦ none
    | some n ↦ Option.map (λ rest. (n.key, n.value) ∷ rest) (items_from fuel n.next h)
  ]

  unfoldable pub items : SieveCache K V → Option (List (K × V))
  unfolding items_from
  items c = items_from (length c.map) c.head c.nodes
