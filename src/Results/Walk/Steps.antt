-- ===== src/Results/Walk/Steps.antt =====
-- The single steps of the walk in `FindChildElement` of docs/html/search/search.js.
use owner_based_ball_game.Base.{
  Option, Result, arith, false, first_some, if◌then◌else◌, length, none, ok, refl, some, suc, true,
  ℕ, ◌+◌, ◌<◌, ◌∷◌, ◌≡◌,
}
use owner_based_ball_game.Dom.{
  Elem, Node, Nodes, Place, cons, elem_of, first_child, next_sibling, nil, node, node_at,
}
use owner_based_ball_game.Dom.Laws.{
  drop_nodes, drop_nodes-suc, item-drop_nodes, item-drop_nodes_nil,
}
use owner_based_ball_game.Results.Walk.{advance, climb, is_children, is_div, next_element, walk}
use owner_based_ball_game.Text.{text_eq}
use owner_based_ball_game.Text.Laws.{text_eq_longer}

-- The first DIV of class SRChildren among some elements and what the DIVs among them hold.
unfoldable mutual
  pub first_in : Place → Node → Option Place
  first_in p (node e cs) =
      if is_children e then some p else if is_div e then first_among p 0 cs else none

  pub first_among : Place → ℕ → Nodes → Option Place
  first_among p i nil = none
  first_among p i (cons n ns) = first_some (first_in (i ∷ p) n) (first_among p (suc i) ns)

-- What the walk returns: what was found, or what the rest of the walk gives.
abbrev pub found_or : Option Place → Result (Option Place) → Result (Option Place)
found_or none r = r
found_or (some q) r = ok (some q)

pub found_or-first_some :
    (a b : Option Place) (r : Result (Option Place))
    → found_or a (found_or b r) ≡ found_or (first_some a b) r
found_or-first_some none b r = refl
found_or-first_some (some q) b r = refl

module _ (root : Node) (parent : Place) where
  -- Where the walk goes on once the elements below `p` are done.
  abbrev pub beyond : Place → Option Place
  beyond p = if text_eq p parent then some p else advance root parent p

  -- From the last child of `p` it goes on beyond `p`.
  pub advance-last :
      (i : ℕ) (p : Place)
      → next_sibling root (i ∷ p) ≡ none
      → advance root parent (i ∷ p) ≡ beyond p
  unfolding advance
  advance-last i p h = rw (advance, h, climb) (ground arith)

  -- One round of the loop, at an element below the one that the walk started from.
  walk-suc :
      (n : Node) (q : Place) (f : ℕ)
      → length parent < length q
      → node_at root q ≡ some n
      → walk (suc f) root parent (some q) ≡ (
          if is_children (elem_of n)
          then ok (some q)
          else walk f root parent (next_element root parent q (some n)))
  unfolding walk
  walk-suc n q f h at = rw (text_eq_longer q parent h, at)

  pub first_child_cons :
      (q : Place) (e : Elem) (c : Node) (cs : Nodes)
      → node_at root q ≡ some (node e (cons c cs))
      → first_child root q ≡ some (0 ∷ q)
  unfolding first_child
  first_child_cons q e c cs at = rw at

  -- The same, as what is found at the element or what the rest of the walk gives.
  pub walk-visit :
      (n : Node) (q : Place) (f : ℕ) (r : Option Place)
      → length parent < length q
      → node_at root q ≡ some n
      → next_element root parent q (some n) ≡ r
      → walk (1 + f) root parent (some q)
        ≡ found_or (if is_children (elem_of n) then some q else none) (walk f root parent r)
  walk-visit n q f r h at e =
      let one : 1 + f ≡ suc f = omega arith in rw (one, walk-suc n q f h at, e) (ground arith)

  -- The walk does not go below an element that is no DIV.
  pub next_element-other :
      (n : Node) (q : Place)
      → is_div (elem_of n) ≡ false
      → next_element root parent q (some n) ≡ advance root parent q
  unfolding next_element
  next_element-other (node e nil) q h = refl
  next_element-other (node e (cons c cs)) q h = rw h

  pub next_element-div :
      (e : Elem) (c : Node) (cs : Nodes) (q : Place)
      → is_div e ≡ true
      → node_at root q ≡ some (node e (cons c cs))
      → next_element root parent q (some (node e (cons c cs))) ≡ some (0 ∷ q)
  unfolding next_element
  next_element-div e c cs q h at = rw h (first_child_cons q e c cs at)

  pub next_element-nil :
      (e : Elem) (q : Place)
      → next_element root parent q (some (node e nil)) ≡ advance root parent q
  unfolding next_element
  next_element-nil e q = refl

  -- The children of an element, by their places.
  module _ (i : ℕ) (p : Place) (all : Nodes) (e : Elem) (c : Node) where
    pub item_here :
        (cs : Nodes)
        → node_at root p ≡ some (node e all)
        → drop_nodes i all ≡ cons c cs
        → node_at root (i ∷ p) ≡ some c
    unfolding node_at
    item_here cs at d = rw at (item-drop_nodes i all d)

    pub next_here :
        (c' : Node) (cs : Nodes)
        → node_at root p ≡ some (node e all)
        → drop_nodes i all ≡ cons c (cons c' cs)
        → next_sibling root (i ∷ p) ≡ some (suc i ∷ p)
    unfolding next_sibling
    next_here c' cs at d = rw (at, item-drop_nodes (suc i) all (drop_nodes-suc i all d))

    pub last_sibling :
        node_at root p ≡ some (node e all)
        → drop_nodes i all ≡ cons c nil
        → next_sibling root (i ∷ p) ≡ none
    unfolding next_sibling
    last_sibling at d = rw (at, item-drop_nodes_nil (suc i) all (drop_nodes-suc i all d))
