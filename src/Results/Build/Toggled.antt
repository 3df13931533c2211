-- ===== src/Results/Build/Toggled.antt =====
-- What `SearchResults.Toggle` opens on the page that `createResults` has built.
use owner_based_ball_game.Base.{
  Bool, List, Option, [], ap, arith, false, get_elem?, none, ok, refl, some, suc, true, zero, ℕ,
  ◌+◌, ◌∙◌, ◌∷◌, ◌≡◌,
}
use owner_based_ball_game.Dom.{
  Elem, Node, Place, child_nodes, child_of, elem_of, get_element_by_id, id_in, item, node, node_at,
  set_display,
}
use owner_based_ball_game.Dom.Laws.{map_some}
use owner_based_ball_game.Results.Build.{
  Entry, Link, create_results, entry_nodes, multiple_nodes, result_link, result_row, result_rows,
  set_target, single_nodes,
}
use owner_based_ball_game.Results.Build.Numbered.{empty_results, first_some-none}
use owner_based_ball_game.Results.Build.RowIds.{ids_distinct, row_id-result_rows, row_id_of}
use owner_based_ball_game.Results.Page.{Page, is_displayed, toggle, toggle_found}
use owner_based_ball_game.Results.Walk.{find_child_element, is_div}
use owner_based_ball_game.Results.Walk.Preorder.{find_child_element_lem}
use owner_based_ball_game.Results.Walk.Steps.{first_among, first_in}
use owner_based_ball_game.Text.{text_eq, txt}

-- The row at a place of the built page.
item-result_rows :
    (k e n : ℕ) (table : List Entry) (entry : Entry)
    → n ≡ e + k
    → get_elem? table k ≡ some entry
    → item (result_rows e table) k ≡ some (result_row n entry)
unfolding result_rows
item-result_rows k e n [] entry sum at = cc
item-result_rows zero e n (first ∷ rest) entry sum at =
    let start : n ≡ e = omega arith in
    let same : first ≡ entry = ground arith in rw (start, same) refl
item-result_rows (suc k) e n (first ∷ rest) entry sum at =
    item-result_rows k (suc e) n rest entry (omega arith) at

-- Where the children of an entry stand, if it has any.
abbrev pub children_place : ℕ → List Link → Option Place
children_place e (l ∷ []) = none
children_place e ls = some (1 ∷ 0 ∷ e ∷ [])

is_div-set_target : (b : Bool) (e : Elem) → is_div (set_target b e) ≡ is_div e
unfolding text_eq
is_div-set_target true e = refl
is_div-set_target false e = refl

first_among-single_nodes :
    (p : Place) (e : ℕ) (entry : Entry) (l : Link) → first_among p 0 (single_nodes e entry l) ≡ none
unfolding first_in single_nodes result_link text_eq
first_among-single_nodes p e entry l = rw (is_div-set_target l.in_parent) refl

first_among-entry_nodes :
    (e : ℕ) (entry : Entry) (ls : List Link)
    → first_among (0 ∷ e ∷ []) 0 (entry_nodes e entry ls) ≡ children_place e ls
unfolding first_in entry_nodes multiple_nodes result_link text_eq
first_among-entry_nodes e entry [] = refl
first_among-entry_nodes e entry (l ∷ []) = first_among-single_nodes (0 ∷ e ∷ []) e entry l
first_among-entry_nodes e entry (l ∷ m ∷ ls) = refl

first_among-result_row :
    (e : ℕ) (entry : Entry)
    → first_among (e ∷ []) 0 (child_nodes (result_row e entry)) ≡ children_place e entry.links
unfolding first_in result_row text_eq
first_among-result_row e entry =
    rw (first_among-entry_nodes e entry entry.links) (first_some-none _)

-- In the row of an entry the element that holds its children has no display of its own.
children-hidden :
    (root : Node) (e : ℕ) (entry : Entry) (inner : Elem) (ls : List Link) (q : Place)
    → node_at root (0 ∷ e ∷ []) ≡ some (node inner (entry_nodes e entry ls))
    → children_place e ls ≡ some q
    → is_displayed root (txt "block") q ≡ false
unfolding is_displayed node_at entry_nodes multiple_nodes result_link text_eq
children-hidden root e entry inner [] q at h =
    let same : 1 ∷ 0 ∷ e ∷ [] ≡ q = cc in
    rw (← same) (
      ap
        (λ n. elim (map_some elem_of (child_of n 1)) [
          | none ↦ false
          | some x ↦ text_eq x.display (txt "block")
        ])
        at)
children-hidden root e entry inner (l ∷ []) q at h = cc
children-hidden root e entry inner (l ∷ m ∷ ls) q at h =
    let same : 1 ∷ 0 ∷ e ∷ [] ≡ q = cc in
    rw (← same) (
      ap
        (λ n. elim (map_some elem_of (child_of n 1)) [
          | none ↦ false
          | some x ↦ text_eq x.display (txt "block")
        ])
        at)

-- A page on which an element is displayed as a block, if there is one.
abbrev pub with_block : Page → Option Place → Page
with_block page none = page
with_block page (some q) = record page { rows = set_display q (txt "block") page.rows }

toggle_found-with_block :
    (page : Page) (o : Option Place)
    → ((q : Place) → o ≡ some q → is_displayed page.rows (txt "block") q ≡ false)
    → toggle_found page o ≡ with_block page o
unfolding toggle_found
toggle_found-with_block page none away = refl
toggle_found-with_block page (some q) away = rw (away q refl) refl

module _ (table : List Entry) (element : Elem) (e : ℕ) (entry : Entry) where
  abbrev built : Node
  built = create_results table (empty_results element)

  node_at-built :
      get_elem? table e ≡ some entry → node_at built (e ∷ []) ≡ some (result_row e entry)
  unfolding create_results node_at
  node_at-built at = item-result_rows e 0 e table entry (omega arith) at

  -- From the row of an entry, `FindChildElement` finds its children, and nothing if it has a single place.
  pub find_child_element-built :
      element.id ≡ txt "SRResults"
      → ids_distinct table ≡ true
      → get_elem? table e ≡ some entry
      → find_child_element built (row_id_of entry.id) ≡ ok (children_place e entry.links)
  find_child_element-built id distinct at =
      let found : get_element_by_id built (row_id_of entry.id) ≡ some (e ∷ []) =
        unfold get_element_by_id id_in create_results text_eq in
        rw id (row_id-result_rows e 0 e table entry (omega arith) distinct at) in
      find_child_element_lem built (row_id_of entry.id)
      ∙ rw (found, node_at-built at) (ap ok (first_among-result_row e entry))

  row_inner :
      get_elem? table e ≡ some entry
      → (inner : Elem) × (node_at built (0 ∷ e ∷ [])
          ≡ some (node inner (entry_nodes e entry entry.links)))
  unfolding node_at result_row
  row_inner at = (_, ap (λ n. child_of n 0) (node_at-built at))

  -- The page once `Toggle` has been called with the id of the entry's row.
  pub toggle-built :
      (page : Page)
      → page.rows ≡ built
      → element.id ≡ txt "SRResults"
      → ids_distinct table ≡ true
      → get_elem? table e ≡ some entry
      → toggle page (row_id_of entry.id) ≡ ok (with_block page (children_place e entry.links))
  unfolding toggle
  toggle-built page rows id distinct at =
      rw (rows, find_child_element-built id distinct at)
        (let (inner, row) = row_inner at in
          ap ok (
            toggle_found-with_block (record page { rows = built }) (children_place e entry.links)
              (λ q h. children-hidden built e entry inner entry.links q row h)))
