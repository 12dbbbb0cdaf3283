-- ===== src/Cache/Tests.antt =====
-- The cache of mosec/cache.py at concrete inputs.
use mathlib.Core.Option
use mosec.Prelude.{
  List, ℕ, ◌≡◌, refl, true, false, none, some, [], ◌∷◌, arith, if◌then◌else◌, ◌==◌, ◌⊎◌,
}
use mosec.Prelude.Eq.{nat_eq}
use mosec.Prelude.Dict.{lookup, has, insert, delete}
use mosec.Cache.{SieveCache, Heap, new, evict, get, put, remove, add, items}
use mosec.Cache.Spec
use mosec.Cache.Spec.{Queue, entries, take_out, touch}
use mosec.Cache.Linked.{Cell}
use mosec.Cache.Locate.{has_key}
use mosec.Cache.Holds.{Represents, visited, clear}
use mosec.Cache.Evict.Refines.{Evicts, evict-Represents}
use mosec.Cache.Access.{mark, value_at, get-Represents, remove-Represents}
use mosec.Cache.Runs.{
  IsSound, Operation, get_of, remove_of, put_of, evict_one, run, Yields, run-IsSound,
}
use mosec.Cache.Items.{newest_first, items-Represents}
use mosec.Cache.Put.{Puts, put-Represents}

-- A marked entry, and a newer one at which the hand stands.
abbrev older : Cell ℕ ℕ
older = record { ptr = 0; key = 10; value = 100; visited = true }

abbrev newer : Cell ℕ ℕ
newer = record { ptr = 1; key = 20; value = 200; visited = true }

abbrev two_nodes : Heap ℕ ℕ
two_nodes p =
    if p == 0
    then some (record { key = 10; value = 100; visited = true; prev = some 1; next = none })
    else if p == 1
    then some (record { key = 20; value = 200; visited = true; prev = none; next = some 0 })
    else none

abbrev pub full : SieveCache ℕ ℕ
full = record {
  max_size = 2;
  map = (10, 0) ∷ (20, 1) ∷ [];
  head = some 1;
  tail = some 0;
  hand = some 1;
  nodes = two_nodes;
  fresh = 2;
}

abbrev pub two : Queue (Cell ℕ ℕ)
two = record { swept = older ∷ []; rest = newer ∷ [] }

pub full-Represents : Represents full two
unfolding has
full-Represents = record {
  holds = record {
    shape = record {
      linked = (refl, (refl, tt));
      head = refl;
      tail = refl;
      between = (omega arith, (omega arith, omega arith));
    };
    map = refl;
    unique = (refl, (refl, tt));
  };
  hand = refl;
}

-- The hand takes the mark off the newer entry and wraps to the older one, whose mark goes too; then it comes
-- back to the newer one.
evict_full :
    Spec.evict visited clear two
    ≡ some (
      record newer { visited = false },
      record { swept = record older { visited = false } ∷ []; rest = [] },
    )
evict_full = refl

evict-Represents_example :
    (entries two ≡ []) × (Spec.evict visited clear two ≡ none) × (evict full ≡ some (none, full))
    ⊎ Evicts full (evict full) (Spec.evict visited clear two)
evict-Represents_example = evict-Represents full two full-Represents

get-Represents_example :
    ((get 10 full).0 ≡ value_at 10 two) × Represents (get 10 full).1 (touch (has_key 10) mark two)
get-Represents_example = get-Represents full two 10 full-Represents

remove-Represents_example :
    ((remove 20 full).0 ≡ value_at 20 two)
    × Represents (remove 20 full).1 (take_out (has_key 20) two)
remove-Represents_example = remove-Represents full two 20 full-Represents

put-Represents_example : Puts 30 300 full two
put-Represents_example = put-Represents full two 30 300 full-Represents (omega arith)

-- The entry that `put` evicts is the one that the hand comes back to.
put-full : Option.map (λ r. r.0) (put 30 300 full) ≡ some (some (20, 200))
unfolding put evict add lookup insert delete
put-full = refl

new_zero : new {K = ℕ} {V = ℕ} 0 ≡ none
unfolding new
new_zero = refl

abbrev empty : SieveCache ℕ ℕ
empty = record {
  max_size = 2;
  map = [];
  head = none;
  tail = none;
  hand = none;
  nodes = λ p. none;
  fresh = 0;
}

empty_lem : new 2 ≡ some empty
unfolding new
empty_lem = refl

abbrev calls : List (Operation ℕ ℕ)
calls = put_of 1 10 ∷ put_of 2 20 ∷ get_of 1 ∷ put_of 3 30 ∷ remove_of 2 ∷ evict_one ∷ []

run-IsSound_example : Yields 2 (run calls empty)
run-IsSound_example = run-IsSound 2 empty calls empty_lem

pub full-IsSound : IsSound 2 full
full-IsSound = record {
  queue = two;
  stands = full-Represents;
  bound = omega arith;
  positive = omega arith;
  max_size = refl;
}

items-Represents_example : items full ≡ some (newest_first (entries two) [])
items-Represents_example = items-Represents full two full-Represents
