-- ===== src/Memory/Values.antt =====
-- A loop changes the data of all nodes of a linked list in memory.
use owner_based_ball_game.Base.{
  List, Option, [], ap, arith, false, length, refl, some, suc, sym, zero, ℕ, ◌<◌, ◌==◌, ◌∙◌, ◌∷◌,
  ◌≡◌,
}
use owner_based_ball_game.Memory.{
  Cell, Memory, Ptr, cell, each_node, ends, null, put_cell, set_value, write,
}
use owner_based_ball_game.Memory.Chain.{
  Distinct, Linked, Linked-put_cell, first_ptr, has, last_ptr, not_null,
}
use owner_based_ball_game.Memory.LinkedList.{IsLinkedList, load-ends}

module _ {V : Type 0} where
  -- the nodes of a list with other data
  unfoldable pub map_nodes : (V → V) → List (Ptr × V) → List (Ptr × V)
  map_nodes f [] = []
  map_nodes f ((p, v) ∷ xs) = (p, f v) ∷ map_nodes f xs

  -- the cells behind the loop
  unfoldable pub with_values :
      (V → V) → (Ptr → Option (Cell V)) → List (Ptr × V) → Ptr → Option (Cell V)
  with_values f g [] = g
  with_values f g ((p, v) ∷ xs) =
      with_values f (put_cell g p (some (cell (f v) (first_ptr xs null)))) xs

  module _ (f : V → V) where
    pub first_ptr-map_nodes :
        (xs : List (Ptr × V)) (s : Ptr) → first_ptr (map_nodes f xs) s ≡ first_ptr xs s
    unfolding map_nodes
    first_ptr-map_nodes [] s = refl
    first_ptr-map_nodes ((p, v) ∷ xs) s = refl

    pub last_ptr-map_nodes :
        (xs : List (Ptr × V)) (s : Ptr) → last_ptr s (map_nodes f xs) ≡ last_ptr s xs
    unfolding map_nodes
    last_ptr-map_nodes [] s = refl
    last_ptr-map_nodes ((p, v) ∷ xs) s = last_ptr-map_nodes xs p

    pub length-map_nodes : (xs : List (Ptr × V)) → length (map_nodes f xs) ≡ length xs
    unfolding map_nodes
    length-map_nodes [] = refl
    length-map_nodes (x ∷ xs) = ap suc (length-map_nodes xs)

    has-map_nodes : (a : Ptr) (xs : List (Ptr × V)) → has a (map_nodes f xs) ≡ has a xs
    unfolding map_nodes
    has-map_nodes a [] = refl
    has-map_nodes a ((p, v) ∷ xs) = rw (has-map_nodes a xs)

    Distinct-map_nodes : (xs : List (Ptr × V)) → Distinct xs → Distinct (map_nodes f xs)
    unfolding map_nodes
    Distinct-map_nodes [] d = tt
    Distinct-map_nodes ((p, v) ∷ xs) (out, d) = (has-map_nodes p xs ∙ out, Distinct-map_nodes xs d)

    with_values-other :
        (xs : List (Ptr × V)) (g : Ptr → Option (Cell V)) (a : Ptr)
        → has a xs ≡ false
        → with_values f g xs a ≡ g a
    unfolding with_values put_cell
    with_values-other [] g a out = refl
    with_values-other ((p, v) ∷ xs) g a out = with_values-other xs _ a (ground arith) ∙ ground arith

    Linked-with_values :
        (xs : List (Ptr × V)) (g : Ptr → Option (Cell V))
        → Linked g xs null
        → Distinct xs
        → Linked (with_values f g xs) (map_nodes f xs) null
    unfolding with_values map_nodes put_cell
    Linked-with_values [] g l d = tt
    Linked-with_values ((p, v) ∷ xs) g (ne, at, l) (out, d) = (
      ne,
      with_values-other xs _ p out ∙ rw (first_ptr-map_nodes xs null) (ground arith),
      Linked-with_values xs _ (Linked-put_cell g xs null p _ out l) d,
    )

    each_node-ends :
        (k : ℕ) (xs : List (Ptr × V)) (m : Memory V)
        → Linked m.cells xs null
        → Distinct xs
        → length xs < k
        → each_node k f (first_ptr xs null) m
          ≡ ends tt (record m { cells = with_values f m.cells xs })
    unfolding each_node set_value with_values
    each_node-ends zero xs m l d enough = absurd (omega arith)
    each_node-ends (suc k) [] m l d enough = refl
    each_node-ends (suc k) ((p, v) ∷ xs) m (ne, e, l) (out, d) enough =
        let on : (p == null) ≡ false = not_null p ne in
        rw (on, load-ends p _ m ne e, load-ends p _ m ne e)
          (each_node-ends k xs (write p (some (cell (f v) (first_ptr xs null))) m)
            (Linked-put_cell m.cells xs null p _ out l) d (omega arith))

    -- With fuel for the nodes, the loop ends with the data changed at each of them.
    pub each_node-IsLinkedList :
        (k : ℕ) (head tail : Ptr) (xs : List (Ptr × V)) (m : Memory V)
        → IsLinkedList m head tail xs
        → length xs < k
        → (m' : Memory V) × (each_node k f head m ≡ ends tt m')
          × IsLinkedList m' head tail (map_nodes f xs)
          × (m'.stale_reads ≡ m.stale_reads)
          × ((a : Ptr) → has a xs ≡ false → m'.cells a ≡ m.cells a)
    each_node-IsLinkedList k head tail xs m is enough = (
      record m { cells = with_values f m.cells xs },
      rw is.head_lem (each_node-ends k xs m is.linked is.distinct enough),
      record {
        linked = Linked-with_values xs m.cells is.linked is.distinct;
        distinct = Distinct-map_nodes xs is.distinct;
        head_lem = is.head_lem ∙ sym (first_ptr-map_nodes xs null);
        tail_lem = is.tail_lem ∙ sym (last_ptr-map_nodes xs null);
        only_lem = λ b out.
            let other : has b xs ≡ false = sym (has-map_nodes b xs) ∙ out in
            with_values-other xs m.cells b other ∙ is.only_lem b other;
      },
      refl,
      λ a out. with_values-other xs m.cells a out,
    )
