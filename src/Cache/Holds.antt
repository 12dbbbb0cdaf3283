-- ===== src/Cache/Holds.antt =====
-- When a `SieveCache` of mosec/cache.py stands for a queue of cells: list, map and hand.
use mosec.Prelude.{◌≡◌, refl, ◌∙◌, Bool, false, Option, none, some, List, [], ◌∷◌, ◌++◌, arith}
use mosec.Prelude.Eq.{Eq}
use mosec.Prelude.Dict.{delete}
use mosec.Cache.{Ptr, Node, SieveCache, modify, is_at, remove_node}
use mosec.Cache.Spec.{Queue, entries}
use mosec.Cache.Linked.{Cell, start, node_of, Between-split, Linked-split}
use mosec.Cache.Keys.{index, Unique, delete-index, index_change, Unique-change, Unique-remove}
use mosec.Cache.Represents.{Shape, victim, remove_node-Shape, Shape-change, map-remove_node}

module _ {ℓ} {K V : Type ℓ} ⦃eq : Eq K⦄ where
  -- The objects stand for the cells, and the map has their keys. The hand may be anywhere.
  pub record Holds (c : SieveCache K V) (xs : List (Cell K V)) : Type ℓ where
    pub shape : Shape c xs
    pub map : c.map ≡ index xs
    pub unique : Unique xs

  pub record Represents (c : SieveCache K V) (q : Queue (Cell K V)) : Type ℓ where
    pub holds : Holds c (entries q)
    pub hand : c.hand ≡ start q.rest none

  abbrev pub visited : Cell K V → Bool
  visited x = x.visited

  abbrev pub clear : Cell K V → Cell K V
  clear x = record x { visited = false }

  -- An assignment to the value and the mark of a cell.
  pub Holds-change :
      (c : SieveCache K V) (f : Node K V → Node K V) (xs : List (Cell K V)) (x y : Cell K V)
      (ys : List (Cell K V))
      → x.key ≡ y.key
      → x.ptr ≡ y.ptr
      → ((p n : Option Ptr) → f (node_of x p n) ≡ node_of y p n)
      → Holds c (xs ++ (x ∷ ys))
      → Holds (record c { nodes = modify x.ptr f c.nodes }) (xs ++ (y ∷ ys))
  Holds-change c f xs x y ys k p change h = record {
    shape = Shape-change c f xs x y ys p change h.shape;
    map = h.map ∙ index_change xs x y ys k p;
    unique = Unique-change xs x y ys k p h.unique;
  }

  -- `_remove` of a cell, and the deletion of its key.
  pub Holds-remove :
      (c : SieveCache K V) (xs : List (Cell K V)) (y : Cell K V) (ys : List (Cell K V))
      → Holds c (xs ++ (y ∷ ys))
      → let d = remove_node y.ptr (victim c xs y ys) c in
        Holds (record d { map = delete y.key d.map }) (xs ++ ys)
  Holds-remove c xs y ys h =
      let (absent, unique) = Unique-remove xs y ys h.unique in
      let s = remove_node-Shape c xs y ys h.shape in
      record {
        shape = record { linked = s.linked; head = s.head; tail = s.tail; between = s.between };
        map = rw (map-remove_node, h.map) (delete-index xs y ys absent);
        unique = unique;
      }

  -- What an object in the list holds.
  pub nodes-at :
      (c : SieveCache K V) (xs : List (Cell K V)) (y : Cell K V) (ys : List (Cell K V))
      → Shape c (xs ++ (y ∷ ys))
      → c.nodes y.ptr ≡ some (victim c xs y ys)
  nodes-at c xs y ys s = (Linked-split c.nodes none none xs (y ∷ ys) s.linked).1.0

  -- The newer neighbour is another object.
  pub start_ne :
      (c : SieveCache K V) (xs : List (Cell K V)) (y : Cell K V) (ys : List (Cell K V))
      → Shape c (xs ++ (y ∷ ys))
      → is_at (start ys none) y.ptr ≡ false
  start_ne c xs y [] s = refl
  start_ne c xs y (z ∷ zs) s =
      let (b1, b2) = Between-split 0 c.fresh xs y (z ∷ zs) s.between in ground arith

  -- The hand does not matter to the list and the map.
  pub Holds-hand :
      (c : SieveCache K V) (p : Option Ptr) (xs : List (Cell K V))
      → Holds c xs
      → Holds (record c { hand = p }) xs
  Holds-hand c p xs h = record {
    shape = record {
      linked = h.shape.linked;
      head = h.shape.head;
      tail = h.shape.tail;
      between = h.shape.between;
    };
    map = h.map;
    unique = h.unique;
  }
