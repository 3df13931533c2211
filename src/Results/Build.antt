-- ===== src/Results/Build.antt =====
-- `createResults`, `setKeyActions` and `setClassAttr` of docs/html/search/search.js: the rows of the
-- search results page, built from the table `searchData` of a section.
pub mod Decimals
pub mod Rows
pub mod Numbered
pub mod RowIds
pub mod Toggled
pub mod Kept
use owner_based_ball_game.Base.{Bool, List, [], false, if◌then◌else◌, pos, suc, true, ℕ, ◌++◌, ◌∷◌}
use owner_based_ball_game.Dom.{Elem, Node, Nodes, cons, nil, node}
use owner_based_ball_game.Results.Page.{child_id, item_id}
use owner_based_ball_game.Text.{Text, decimal, text_eq, txt}

-- One place of a name, `searchData[e][1][c + 1]`: address, whether it opens in the parent, and scope.
pub record Link : Type 0 where
  pub href : Text
  pub in_parent : Bool
  pub scope : Text

-- `searchData[e]`
pub record Entry : Type 0 where
  pub id : Text
  pub name : Text
  pub links : List Link

-- `document.createElement`; the document is HTML, which spells the name in capitals.
abbrev create_element : Text → Elem
create_element name = record {
  node_name = name;
  id = [];
  class_name = [];
  display = [];
  inner_html = [];
  attributes = [];
}

-- `id` and `class` are also members of the element.
abbrev set_attribute : Text → Text → Elem → Elem
set_attribute name v e =
    if text_eq name (txt "id")
    then record e { id = v }
    else if text_eq name (txt "class")
    then record e { class_name = v }
    else record e { attributes = (name, v) ∷ e.attributes }

abbrev set_key_actions : Text → Elem → Elem
set_key_actions action e =
    set_attribute (txt "onkeyup") action
      (set_attribute (txt "onkeypress") action (set_attribute (txt "onkeydown") action e))

abbrev set_class_attr : Text → Elem → Elem
set_class_attr v e = set_attribute (txt "className") v (set_attribute (txt "class") v e)

abbrev set_target : Bool → Elem → Elem
set_target true e = set_attribute (txt "target") (txt "_parent") e
set_target false e = e

unfoldable pub result_link : ℕ → Entry → Elem
unfolding text_eq
result_link e entry =
    let named = set_attribute (txt "id") (item_id (pos e)) (create_element (txt "A")) in
    let action = txt "return searchResults.Nav(event," ++ (decimal (pos e) ++ txt ")") in
    let keyed = set_class_attr (txt "SRSymbol") (set_key_actions action named) in
    record keyed { inner_html = entry.name }

-- a single result, and its scope
unfoldable pub single_nodes : ℕ → Entry → Link → Nodes
unfolding text_eq result_link
single_nodes e entry l =
    let link = set_attribute (txt "href") l.href (result_link e entry) in
    let span = set_class_attr (txt "SRScope") (create_element (txt "SPAN")) in
    cons (node (set_target l.in_parent link) nil)
      (cons (node (record span { inner_html = l.scope }) nil) nil)

unfoldable pub child_link : ℕ → ℕ → Link → Elem
unfolding text_eq
child_link e c l =
    let named = set_attribute (txt "id") (child_id (pos e) c) (create_element (txt "A")) in
    let action =
      txt "return searchResults.NavChild(event,"
      ++ (decimal (pos e) ++ (txt "," ++ (decimal (pos c) ++ txt ")"))) in
    let keyed = set_class_attr (txt "SRScope") (set_key_actions action named) in
    record (set_target l.in_parent (set_attribute (txt "href") l.href keyed)) {
      inner_html = l.scope;
    }

-- The loop over the places, from the `c`-th on.
unfoldable pub child_links : ℕ → ℕ → List Link → Nodes
unfolding child_link
child_links e c [] = nil
child_links e c (l ∷ ls) = cons (node (child_link e c l) nil) (child_links e (suc c) ls)

-- multiple results
unfoldable pub multiple_nodes : ℕ → Entry → List Link → Nodes
unfolding text_eq result_link child_links
multiple_nodes e entry ls =
    let href = txt "javascript:searchResults.Toggle(\"SR_" ++ (entry.id ++ txt "\")") in
    let link = set_attribute (txt "href") href (result_link e entry) in
    let children = set_class_attr (txt "SRChildren") (create_element (txt "DIV")) in
    cons (node link nil) (cons (node children (child_links e 0 ls)) nil)

unfoldable pub entry_nodes : ℕ → Entry → List Link → Nodes
unfolding single_nodes multiple_nodes
entry_nodes e entry (l ∷ []) = single_nodes e entry l
entry_nodes e entry ls = multiple_nodes e entry ls

unfoldable pub result_row : ℕ → Entry → Node
unfolding text_eq entry_nodes
result_row e entry =
    let result = set_attribute (txt "id") (txt "SR_" ++ entry.id) (create_element (txt "DIV")) in
    let inner = set_class_attr (txt "SREntry") (create_element (txt "DIV")) in
    node (set_class_attr (txt "SRResult") result)
      (cons (node inner (entry_nodes e entry entry.links)) nil)

-- The loop over the table, from the `e`-th entry on.
unfoldable pub result_rows : ℕ → List Entry → Nodes
unfolding result_row
result_rows e [] = nil
result_rows e (entry ∷ rest) = cons (result_row e entry) (result_rows (suc e) rest)

abbrev append_nodes : Nodes → Nodes → Nodes
append_nodes nil ns = ns
append_nodes (cons c cs) ns = cons c (append_nodes cs ns)

-- `createResults`, on the element `SRResults`
unfoldable pub create_results : List Entry → Node → Node
unfolding result_rows
create_results search_data (node e cs) = node e (append_nodes cs (result_rows 0 search_data))
