-- ===== src/Results/NavChild.antt =====
-- `SearchResults.NavChild` of docs/html/search/search.js: the keyboard on a child link.
pub mod Moves
use owner_based_ball_game.Base.{
  Bool, List, Result, [], false, if◌then◌else◌, ltb, ok, pos, true, ℕ, ◌+◌, ◌-◌, ◌==◌, ◌>>=◌, ◌∷◌,
}
use owner_based_ball_game.Dom.{get_element_by_id}
use owner_based_ball_game.Results.Keys.{KeyEvent, process_keys}
use owner_based_ball_game.Results.Nav.{
  Action, close_results_window, element_named, focus, focus_if, focus_search_field, or_next,
}
use owner_based_ball_game.Results.Page.{Page, SearchResults, child_id, item_id}

-- Up: to the child in front, or to the link that they stand under
unfoldable pub child_up : Page → ℕ → ℕ → Result (List Action)
child_up page item_index child_index = do
  q ←
      if ltb 0 child_index
      then element_named page (child_id (pos item_index) (child_index - 1))
      else element_named page (item_id (pos item_index))
  ok (focus q ∷ [])

-- Down: to the next child, or to the next shown row
unfoldable pub child_down : ℕ → Page → ℕ → ℕ → Result (List Action)
child_down fuel page item_index child_index = do
  elem ←
      or_next fuel page (item_index + 1)
        (get_element_by_id page.rows (child_id (pos item_index) (child_index + 1)))
  ok (focus_if elem)

unfoldable pub nav_child_action : ℕ → Page → ℕ → ℕ → ℕ → Result (List Action × Bool)
unfolding child_up child_down
nav_child_action fuel page item_index child_index key =
    if key == 38
    then (child_up page item_index child_index >>= λ a. ok (a, false))
    else if key == 40
    then (child_down fuel page item_index child_index >>= λ a. ok (a, false))
    else if key == 27
    then ok (close_results_window ∷ focus_search_field ∷ [], false)
    else ok ([], key == 13)

unfoldable pub nav_child :
    ℕ → Page → SearchResults → KeyEvent → ℕ → ℕ → SearchResults × Result (List Action × Bool)
unfolding nav_child_action process_keys
nav_child fuel page self e item_index child_index =
    if e.key_code == 13
    then (self, ok ([], true))
    else let (self', act) = process_keys self e in
      (
        self',
        (if act
            then nav_child_action fuel page item_index child_index self'.last_key
            else ok ([], false)),
      )
