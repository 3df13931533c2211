-- ===== src/Dom.antt =====
-- What docs/html/search/search.js uses of the document: a tree of elements whose shape the search
-- results page builds once, and the places in it.
pub mod Laws
use owner_based_ball_game.Base.{
  List, Option, [], first_some, if◌then◌else◌, none, some, suc, zero, ℕ, ◌∷◌,
}
use owner_based_ball_game.Text.{Text, text_eq}

-- The members of an element that the page reads or writes; attributes other than `id` and `class`
-- are a list of names and values, the latest first.
pub record Elem : Type 0 where
  pub node_name : Text
  pub id : Text
  pub class_name : Text
  pub display : Text
  pub inner_html : Text
  pub attributes : List (Text × Text)

mutual
  pub data Node : Type 0 where
    node : Elem → Nodes → Node

  pub data Nodes : Type 0 where
    nil : Nodes
    cons : Node → Nodes → Nodes

abbrev pub elem_of : Node → Elem
elem_of (node e cs) = e

abbrev pub child_nodes : Node → Nodes
child_nodes (node e cs) = cs

abbrev pub item : Nodes → ℕ → Option Node
item nil i = none
item (cons n ns) zero = some n
item (cons n ns) (suc i) = item ns i

-- A place in the tree: the indices from the element up to the root, so that `parentNode` is the
-- tail. The page never moves an element, so its place is its identity.
abbrev pub Place : Type 0
Place = List ℕ

abbrev pub child_of : Option Node → ℕ → Option Node
child_of none i = none
child_of (some n) i = item (child_nodes n) i

unfoldable pub node_at : Node → Place → Option Node
node_at root [] = some root
node_at root (i ∷ p) = child_of (node_at root p) i

abbrev exists_at : Option Node → Place → Option Place
exists_at none p = none
exists_at (some n) p = some p

-- `element.firstChild`
unfoldable pub first_child : Node → Place → Option Place
unfolding node_at
first_child root p = exists_at (node_at root (0 ∷ p)) (0 ∷ p)

-- `element.nextSibling`; what stands beside the root is outside the tree.
unfoldable pub next_sibling : Node → Place → Option Place
unfolding node_at
next_sibling root [] = none
next_sibling root (i ∷ p) = exists_at (node_at root (suc i ∷ p)) (suc i ∷ p)

-- `element.parentNode`
unfoldable pub parent_node : Place → Option Place
parent_node [] = none
parent_node (i ∷ p) = some p

-- `document.getElementById(id)`: the first in document order
unfoldable mutual
  pub id_in : Text → Place → Node → Option Place
  id_in s p (node e cs) = if text_eq e.id s then some p else id_among s p 0 cs

  pub id_among : Text → Place → ℕ → Nodes → Option Place
  id_among s p i nil = none
  id_among s p i (cons n ns) = first_some (id_in s (i ∷ p) n) (id_among s p (suc i) ns)

unfoldable pub get_element_by_id : Node → Text → Option Place
unfolding id_in
get_element_by_id root s = id_in s [] root

-- a write to the element at the place `q`
unfoldable mutual
  pub update_in : Place → (Elem → Elem) → Place → Node → Node
  update_in q f p (node e cs) = node (if text_eq p q then f e else e) (update_among q f p 0 cs)

  pub update_among : Place → (Elem → Elem) → Place → ℕ → Nodes → Nodes
  update_among q f p i nil = nil
  update_among q f p i (cons n ns) = cons (update_in q f (i ∷ p) n) (update_among q f p (suc i) ns)

unfoldable pub update : Place → (Elem → Elem) → Node → Node
unfolding update_in
update q f root = update_in q f [] root

-- `element.style.display = v`
abbrev pub set_display : Place → Text → Node → Node
set_display q v = update q (λ e. record e { display = v })
