-- ===== src/Results/Walk/Preorder.antt =====
-- The walk of `FindChildElement` against a plain recursion over the tree, in document order.
use owner_based_ball_game.Base.{
  Bool-cases, Option, Option-cases, arith, inl, inr, length, none, ok, refl, some, suc, type_error,
  ℕ, ◌+◌, ◌<◌, ◌∷◌, ◌≡◌, ◌≤◌,
}
use owner_based_ball_game.Dom.{
  Elem, Node, Nodes, Place, child_nodes, cons, first_child, get_element_by_id, next_sibling, nil,
  node, node_at,
}
use owner_based_ball_game.Dom.Laws.{drop_nodes, drop_nodes-suc}
use owner_based_ball_game.Results.Walk.{
  advance, find_child_element, find_from, fuel_at, is_div, visits, visits_all, walk,
}
use owner_based_ball_game.Results.Walk.Steps.{
  advance-last, beyond, first_among, first_child_cons, first_in, found_or, found_or-first_some,
  item_here, last_sibling, next_element-div, next_element-nil, next_element-other, next_here,
  walk-visit,
}
use owner_based_ball_game.Text.{Text}
use owner_based_ball_game.Text.Laws.{text_eq_longer, text_eq_refl}

module _ (root : Node) (parent : Place) where
  advance-next :
      (i : ℕ) (p : Place)
      → next_sibling root (i ∷ p) ≡ some (suc i ∷ p)
      → advance root parent (i ∷ p) ≡ some (suc i ∷ p)
  unfolding advance
  advance-next i p h = rw (advance, h)

  abbrev IsCons : Nodes → Type 0
  IsCons nil = ⊥
  IsCons (cons c cs) = Unit

  mutual
    unfolding visits first_in

    walk-node :
        (n : Node) (i : ℕ) (p : Place) (f : ℕ)
        → length parent ≤ length p
        → node_at root (i ∷ p) ≡ some n
        → walk (visits n + f) root parent (some (i ∷ p))
          ≡ found_or (first_in (i ∷ p) n) (walk f root parent (advance root parent (i ∷ p)))
    walk-node (node e nil) i p f h at = ground (
      arith,
      walk-visit root parent (node e nil) (i ∷ p) f _ (omega arith) at
          (next_element-nil root parent e (i ∷ p)),
    )
    walk-node (node e (cons c cs)) i p f h at = elim (Bool-cases (is_div e)) [
      | inl div ↦
          let shift : suc (visits c + visits_all cs) + f ≡ 1 + (visits_all (cons c cs) + f) =
            omega arith in
          let q = i ∷ p in
          let longer : length parent < length q = omega arith in
          rw (div, shift)
            (ground (
              arith,
              div,
              walk-visit root parent (node e (cons c cs)) q (visits_all (cons c cs) + f) _ longer at
                  (next_element-div root parent e c cs q div at),
              walk-nodes (cons c cs) 0 q (cons c cs) e f tt (omega arith) at refl,
              text_eq_longer q parent longer,
            ))
      | inr other ↦ rw other (
          rw other at (
            walk-visit root parent (node e (cons c cs)) (i ∷ p) f _ (omega arith) at
              (next_element-other root parent (node e (cons c cs)) (i ∷ p) other)))
    ]

    walk-nodes :
        (ns : Nodes) (i : ℕ) (p : Place) (all : Nodes) (e : Elem) (f : ℕ)
        → IsCons ns
        → length parent ≤ length p
        → node_at root p ≡ some (node e all)
        → drop_nodes i all ≡ ns
        → walk (visits_all ns + f) root parent (some (i ∷ p))
          ≡ found_or (first_among p i ns) (walk f root parent (beyond root parent p))
    walk-nodes nil i p all e f ne h at d = absurd ne
    walk-nodes (cons c nil) i p all e f ne h at d =
        let shift : visits c + 0 + f ≡ visits c + f = omega arith in
        rw (shift, ← found_or-first_some)
          (ground (
            arith,
            walk-node c i p f h (item_here root parent i p all e c nil at d),
            advance-last root parent i p (last_sibling root parent i p all e c at d),
          ))
    walk-nodes (cons c (cons c' cs)) i p all e f ne h at d =
        let more = visits_all (cons c' cs) in
        let shift : visits c + more + f ≡ visits c + (more + f) = omega arith in
        rw (shift, ← found_or-first_some)
          (ground (
            arith,
            walk-node c i p (more + f) h (item_here root parent i p all e c _ at d),
            advance-next i p (next_here root parent i p all e c c' cs at d),
            walk-nodes (cons c' cs) (suc i) p all e f tt h at (drop_nodes-suc i all d),
          ))

  -- Back at the element that it started from, the loop ends.
  walk-parent : walk 1 root parent (some parent) ≡ ok none
  unfolding walk
  walk-parent = rw text_eq_refl

  walk-all :
      (e : Elem) (c : Node) (cs : Nodes) (k : ℕ)
      → node_at root parent ≡ some (node e (cons c cs))
      → k ≡ visits_all (cons c cs) + 1
      → walk k root parent (some (0 ∷ parent)) ≡ ok (first_among parent 0 (cons c cs))
  walk-all e c cs k at enough = rw enough (
      ground (
        arith,
        walk-nodes (cons c cs) 0 parent (cons c cs) e 1 tt (omega arith) at refl,
        text_eq_refl parent,
        walk-parent,
      ))

  -- From the first child of the element, the walk ends with what the recursion finds below it.
  find_from_lem :
      (o : Option Node)
      → node_at root parent ≡ o
      → find_from root parent
        ≡ elim o [ none ↦ ok none | some n ↦ ok (first_among parent 0 (child_nodes n)) ]
  unfolding find_from
  find_from_lem none at = unfold first_child walk in rw (at, first_child)
  find_from_lem (some (node e nil)) at = unfold first_child walk first_among in rw (at, first_child)
  find_from_lem (some (node e (cons c cs))) at =
      rw (at, first_child_cons root parent parent e c cs at)
        (walk-all e c cs (fuel_at (some (node e (cons c cs)))) at (omega arith))

-- `FindChildElement` always returns: an error if no element has the id, or else the first element
-- below that one, in document order, that is a DIV of class SRChildren and stands in no element but
-- DIVs, and undefined if there is none.
pub find_child_element_lem :
    (root : Node) (id : Text)
    → find_child_element root id ≡ elim (get_element_by_id root id) [
      | none ↦ type_error
      | some p ↦ elim (node_at root p) [
        | none ↦ ok none
        | some n ↦ ok (first_among p 0 (child_nodes n))
      ]
    ]
unfolding find_child_element
find_child_element_lem root id = elim (Option-cases (get_element_by_id root id)) [
  | inl e ↦ rw (e, find_child_element)
  | inr (p, e) ↦ rw (e, find_child_element) (find_from_lem root p (node_at root p) refl)
]
