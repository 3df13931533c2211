-- ===== src/Panel/Init.antt =====
-- `init_search` of docs/html/search/search.js, which fills the menu of sections and chooses the first.
pub mod First
use owner_based_ball_game.Base.{List, Result, [], some, suc, ℕ, ◌++◌, ◌∷◌}
use owner_based_ball_game.Host.{Host}
use owner_based_ball_game.Panel.Layout.{Layout}
use owner_based_ball_game.Panel.SearchData.{index_section_labels}
use owner_based_ball_game.Panel.Select.{blank, on_select_item}
use owner_based_ball_game.Panel.State.{Panel, SelectChild}
use owner_based_ball_game.Text.{Text, txt}

-- One round of the loop over the labels: a link of class SelectItem, whose first child is the mark, with the label and the
-- call of its key.
unfoldable pub menu_link : ℕ → Text → SelectChild
menu_link key label = record {
  class_name = txt "SelectItem";
  mark = blank;
  label = label;
  on_click = some key;
}

-- the loop over the labels, from a key on
unfoldable pub menu_links : ℕ → List Text → List SelectChild
unfolding menu_link
menu_links key [] = []
menu_links key (label ∷ labels) = menu_link key label ∷ menu_links (suc key) labels

unfoldable pub init_search : Host → Layout → Panel → Panel × Result (Unit {0})
unfolding menu_links on_select_item
init_search host layout p =
    let filled = p.select_children ++ menu_links 0 index_section_labels in
    on_select_item host layout 0 (record p { select_children = filled })
