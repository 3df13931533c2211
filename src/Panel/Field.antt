-- ===== src/Panel/Field.antt =====
-- `SearchBox.OnSearchFieldChange` of docs/html/search/search.js, the handler of the keys in the field.
use owner_based_ball_game.Base.{
  Bool, List, Option, Result, [], false, if◌then◌else◌, none, not, ok, out_of_fuel, some, suc, true,
  type_error, ℕ, ◌==◌, ◌||◌, ◌∷◌,
}
use owner_based_ball_game.Dom.{Place}
use owner_based_ball_game.Panel.Layout.{Layout, on_search_select_show}
use owner_based_ball_game.Panel.Query.{activate, hide_results}
use owner_based_ball_game.Panel.Select.{is_select_item}
use owner_based_ball_game.Panel.State.{
  Focus, Panel, SelectChild, blur_field, clear_timeout, focus_result, focus_select_child,
  key_timeout_length, run_search, set_timeout,
}
use owner_based_ball_game.Results.Keys.{KeyEvent}
use owner_based_ball_game.Results.Nav.{nav_next}
use owner_based_ball_game.Results.Page.{Page}
use owner_based_ball_game.Text.{remove_spaces, text_eq}

-- The first child of class SelectItem, from the `i`-th child on.
unfoldable pub first_select_item : ℕ → List SelectChild → Option ℕ
first_select_item i [] = none
first_select_item i (c ∷ cs) = if is_select_item c then some i else first_select_item (suc i) cs

abbrev pub call_focus : Focus → Panel → Panel
call_focus f p = record p { focus_calls = f ∷ p.focus_calls }

abbrev pub focus_first : Panel → Option ℕ → Panel
focus_first p none = p
focus_first p (some i) = call_focus (focus_select_child i) p

abbrev pub focus_found : Panel → Option Place → Panel
focus_found p none = p
focus_found p (some q) = call_focus (focus_result q) p

-- `window.frames.MSearchResults.searchResults.NavNext(0)`, if the frame has the object
abbrev pub nav_frame : ℕ → Option Page → Result (Option Place)
nav_frame fuel none = ok none
nav_frame fuel (some page) = nav_next fuel page 0

-- The end of the handler: a changed value starts a timer, an empty one closes the results.
unfoldable pub compare_value : Panel → Panel
unfolding set_timeout remove_spaces
compare_value p =
    let value = remove_spaces p.field_value in
    if not (text_eq value p.last_search_value)
    then (if not (text_eq value [])
        then record (set_timeout run_search key_timeout_length p) { key_timeout = p.next_timer }
        else record (hide_results p) { last_search_value = [] })
    else p

-- a running timer is killed
unfoldable pub kill_key_timer : Panel → Panel
unfolding clear_timeout
kill_key_timer p =
    if p.key_timeout == 0 then p else record (clear_timeout p.key_timeout p) { key_timeout = 0 }

-- Escape out of the search field
unfoldable pub escape_field : Panel → Panel
unfolding activate
escape_field p =
    activate false (record (hide_results (call_focus blur_field p)) { last_search_value = [] })

unfoldable pub down_key : ℕ → Layout → Bool → Panel → Panel × Result (Unit {0})
unfolding first_select_item on_search_select_show compare_value nav_next
down_key fuel layout true p =
    let p' = on_search_select_show layout p in
    (focus_first p' (first_select_item 0 p'.select_children), ok tt)
down_key fuel layout false p = elim (nav_frame fuel p.frame_page) [
  | ok found ↦ (compare_value (focus_found p found), ok tt)
  | type_error ↦ (p, type_error)
  | out_of_fuel ↦ (p, out_of_fuel)
]

-- The branches on the key, and the comparison behind them.
unfoldable pub react_to_key : ℕ → Layout → KeyEvent → Panel → Panel × Result (Unit {0})
unfolding down_key escape_field compare_value
react_to_key fuel layout e p =
    if e.key_code == 40 || e.key_code == 13
    then down_key fuel layout e.shift_key p
    else if e.key_code == 27
    then (escape_field p, ok tt)
    else (compare_value p, ok tt)

unfoldable pub on_search_field_change : ℕ → Layout → KeyEvent → Panel → Panel × Result (Unit {0})
unfolding kill_key_timer react_to_key
on_search_field_change fuel layout e p = react_to_key fuel layout e (kill_key_timer p)
