-- ===== src/Tests/BuiltPage.antt =====
-- The search results page as it is built from a table, and what is done to it.
use owner_based_ball_game.Base.{List, [], arith, false, map, ok, refl, some, true, ◌∷◌, ◌≡◌}
use owner_based_ball_game.ConvertId.{convert_char, convert_to_id}
use owner_based_ball_game.Dom.{
  Elem, first_child, get_element_by_id, next_sibling, node_at, set_display, update,
}
use owner_based_ball_game.Results.Build.{Entry, create_results}
use owner_based_ball_game.Results.Build.Kept.{
  PageReach, PageReach-IsNumbered, built, search_step, step, style_step,
}
use owner_based_ball_game.Results.Build.Numbered.{empty_results}
use owner_based_ball_game.Results.Nav.{children_beside, focus, nav_up, slot}
use owner_based_ball_game.Results.Nav.Moves.{nav_up-hidden_child}
use owner_based_ball_game.Results.Nav.Slots.{IsNumbered, last_shown}
use owner_based_ball_game.Results.Page.{Page, child_id, is_displayed, item_id, new_results, row_of}
use owner_based_ball_game.Results.Search.{
  is_match, mark, search_page, skip_number, strip_row_prefix,
}
use owner_based_ball_game.Results.Search.Matching.{is_shown, rows_in}
use owner_based_ball_game.Tests.Sample.{ascii_host, elem, first_children, first_link}
use owner_based_ball_game.Text.{
  Text, decimal, starts_with, strip_leading, strip_trailing, text_eq, txt,
}

-- One name with two places, and one with a single place.
abbrev table : List Entry
table =
    record {
      id = txt "add_5fball_0";
      name = txt "add_ball";
      links =
          record { href = txt "../a.html"; in_parent = true; scope = txt "a.c" }
          ∷ record { href = txt "../b.html"; in_parent = true; scope = txt "b.c" }
          ∷ [];
    }
    ∷ record {
      id = txt "color_1";
      name = txt "color";
      links = record { href = txt "../c.html"; in_parent = false; scope = txt "c.h" } ∷ [];
    }
    ∷ []

abbrev results_elem : Elem
results_elem = elem (txt "DIV") (txt "SRResults") [] []

abbrev built_page : Page
built_page = record {
  rows = create_results table (empty_results results_elem);
  searching = [];
  no_matches = txt "none";
}

built_rows :
    map (λ (e : Elem). e.id) (rows_in built_page.rows)
    ≡ txt "SR_add_5fball_0" ∷ txt "SR_color_1" ∷ []
unfolding create_results text_eq rows_in
built_rows = refl

abbrev searched_page : Page
searched_page = (search_page ascii_host [] (txt "col") (new_results, built_page)).1

searched_rows : map is_shown (rows_in searched_page.rows) ≡ false ∷ true ∷ []
unfolding search_page create_results text_eq rows_in skip_number starts_with convert_to_id mark
    is_match strip_trailing strip_leading convert_char strip_row_prefix
searched_rows = refl

searched-PageReach : PageReach ascii_host table results_elem searched_page
searched-PageReach = step (built refl) (search_step new_results [] (txt "col"))

PageReach-IsNumbered_example : IsNumbered searched_page 2
PageReach-IsNumbered_example =
    PageReach-IsNumbered ascii_host table results_elem searched_page refl searched-PageReach

abbrev pair_of : Text → Text → Entry
pair_of id name = record {
  id = id;
  name = name;
  links =
      record { href = txt "../a.html"; in_parent = true; scope = txt "a.c" }
      ∷ record { href = txt "../b.html"; in_parent = true; scope = txt "b.c" }
      ∷ [];
}

-- Two names with two places each.
abbrev pairs : List Entry
pairs = pair_of (txt "add_0") (txt "add") ∷ pair_of (txt "cut_1") (txt "cut") ∷ []

abbrev pairs_page : Page
pairs_page = record {
  rows = create_results pairs (empty_results results_elem);
  searching = [];
  no_matches = txt "none";
}

-- The places of the first name are shown, and then a search hides the row of the second.
abbrev opened_page : Page
opened_page = record pairs_page { rows = set_display first_children (txt "block") pairs_page.rows }

abbrev hiding_page : Page
hiding_page = (search_page ascii_host [] (txt "ad") (new_results, opened_page)).1

hiding-IsNumbered : IsNumbered hiding_page 2
hiding-IsNumbered = PageReach-IsNumbered ascii_host pairs results_elem hiding_page refl (
    step (step (built refl) (style_step first_children (txt "block")))
      (search_step new_results [] (txt "ad")))

nav_up-hidden_child_example : nav_up 3 hiding_page 2 ≡ ok (focus (1 ∷ 1 ∷ 0 ∷ 1 ∷ []) ∷ [])
unfolding search_page create_results text_eq rows_in skip_number starts_with convert_to_id mark
    is_match strip_trailing strip_leading convert_char strip_row_prefix last_shown slot
    get_element_by_id item_id child_id decimal children_beside row_of node_at first_child
    next_sibling is_displayed update
nav_up-hidden_child_example =
    nav_up-hidden_child hiding_page 2 1 1 first_link (0 ∷ 1 ∷ 0 ∷ 1 ∷ [])
      ((1 ∷ 1 ∷ 0 ∷ 1 ∷ []) ∷ []) (some first_children) hiding-IsNumbered (omega arith)
      (omega arith) (omega arith) refl refl refl refl (refl, (refl, refl))
