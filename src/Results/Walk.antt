-- ===== src/Results/Walk.antt =====
-- `SearchResults.FindChildElement` of docs/html/search/search.js: a walk over the elements below a
-- given one, by firstChild, nextSibling and parentNode.
pub mod Steps
pub mod Preorder
use owner_based_ball_game.Base.{
  Bool, Option, Result, [], false, if◌then◌else◌, none, ok, out_of_fuel, some, suc, true,
  type_error, zero, ℕ, ◌&&◌, ◌+◌, ◌||◌, ◌∷◌,
}
use owner_based_ball_game.Dom.{
  Elem, Node, Nodes, Place, child_nodes, cons, elem_of, first_child, get_element_by_id,
  next_sibling, nil, node, node_at,
}
use owner_based_ball_game.Text.{Text, text_eq, txt}

-- element.nodeName == 'DIV'
abbrev pub is_div : Elem → Bool
is_div e = text_eq e.node_name (txt "DIV")

-- element.nodeName == 'DIV' && element.className == 'SRChildren'
abbrev pub is_children : Elem → Bool
is_children e = is_div e && text_eq e.class_name (txt "SRChildren")

abbrev is_some {ℓ} : {A : Type ℓ} → Option A → Bool
is_some none = false
is_some (some a) = true

-- do { element = element.parentNode } while (element && element != parent && !element.nextSibling)
unfoldable pub climb : Node → Place → Place → Option Place
climb root parent [] = none
climb root parent (i ∷ p) =
    if text_eq p parent || is_some (next_sibling root p) then some p else climb root parent p

-- if (element && element != parent) element = element.nextSibling
abbrev pub side_step : Node → Place → Option Place → Option Place
side_step root parent none = none
side_step root parent (some p) = if text_eq p parent then some p else next_sibling root p

-- The two last branches of the loop: to the next sibling, or up to an element that has one.
unfoldable pub advance : Node → Place → Place → Option Place
unfolding climb
advance root parent p = elim (next_sibling root p) [
  | some q ↦ some q
  | none ↦ side_step root parent (climb root parent p)
]

-- Where the loop goes from an element that is not the one sought.
unfoldable pub next_element : Node → Place → Place → Option Node → Option Place
unfolding advance
next_element root parent p none = none
next_element root parent p (some (node e nil)) = advance root parent p
next_element root parent p (some (node e (cons n ns))) =
    if is_div e then first_child root p else advance root parent p

abbrev pub holds {ℓ} : {A : Type ℓ} → (A → Bool) → Option A → Bool
holds test none = false
holds test (some a) = test a

-- The loop; `ok none` is the value undefined, which the function returns when the loop ends.
unfoldable pub walk : ℕ → Node → Place → Option Place → Result (Option Place)
unfolding next_element
walk zero root parent cur = out_of_fuel
walk (suc f) root parent none = ok none
walk (suc f) root parent (some p) =
    let rest = walk f root parent (next_element root parent p (node_at root p)) in
    if text_eq p parent
    then ok none
    else if holds (λ n. is_children (elem_of n)) (node_at root p)
    then ok (some p)
    else rest

-- The elements that the walk can visit below one: it enters no element but a DIV.
unfoldable mutual
  pub visits : Node → ℕ
  visits (node e cs) = if is_div e then suc (visits_all cs) else 1

  pub visits_all : Nodes → ℕ
  visits_all nil = 0
  visits_all (cons n ns) = visits n + visits_all ns

abbrev pub fuel_at : Option Node → ℕ
fuel_at none = 1
fuel_at (some n) = suc (visits_all (child_nodes n))

-- `FindChildElement`, from the place of the element that has the id
unfoldable pub find_from : Node → Place → Result (Option Place)
unfolding walk visits
find_from root parent = walk (fuel_at (node_at root parent)) root parent (first_child root parent)

-- With no element of that id, `parentElement.firstChild` is an error.
unfoldable pub find_child_element : Node → Text → Result (Option Place)
unfolding find_from
find_child_element root id = elim (get_element_by_id root id) [
  | none ↦ type_error
  | some parent ↦ find_from root parent
]
