-- ===== src/Tests/ResultsPage.antt =====
-- The search results page.
use owner_based_ball_game.Base.{
  [], arith, false, first_some, if◌then◌else◌, map, none, ok, pos, refl, some, suc, true, zero, ℕ,
  ◌<◌, ◌==◌, ◌∷◌, ◌≡◌, ◌≢◌,
}
use owner_based_ball_game.ConvertId.{convert_char, convert_to_id}
use owner_based_ball_game.Dom.{first_child, get_element_by_id, next_sibling, node_at, set_display}
use owner_based_ball_game.Results.Keys.{keydown, keyup}
use owner_based_ball_game.Results.Keys.Repeat.{answers, answers-held, event, presses, repeated}
use owner_based_ball_game.Results.Nav.{broken, focus, focus_if, missing, nav_next, slot}
use owner_based_ball_game.Results.Nav.Slots.{IsNumbered, first_shown, nav_next_lem}
use owner_based_ball_game.Results.NavChild.{child_down, child_up}
use owner_based_ball_game.Results.NavChild.Moves.{child_down-child_up}
use owner_based_ball_game.Results.Page.{
  child_id, is_displayed, item_id, new_results, row_of, toggle,
}
use owner_based_ball_game.Results.Search.{hit, is_match, search_page, search_word, strip_row_prefix}
use owner_based_ball_game.Results.Search.Matching.{
  displayed, is_match-name, rows_in, search_page_lem, shown_count,
}
use owner_based_ball_game.Results.Walk.{find_child_element}
use owner_based_ball_game.Results.Walk.Preorder.{find_child_element_lem}
use owner_based_ball_game.Results.Walk.Steps.{first_in}
use owner_based_ball_game.Tests.Sample.{ascii_host, elem, first_children, page_of, plain_rows}
use owner_based_ball_game.Text.{decimal, starts_with, strip_leading, strip_trailing, text_eq, txt}

find_child_element_example :
    find_child_element plain_rows (txt "SR_add_5fball_0") ≡ ok (some first_children)
unfolding get_element_by_id node_at first_in text_eq
find_child_element_example = find_child_element_lem plain_rows (txt "SR_add_5fball_0")

find_none : find_child_element plain_rows (txt "SR_color_1") ≡ ok none
unfolding find_child_element get_element_by_id node_at first_child next_sibling text_eq
find_none = refl

toggle_open :
    toggle (page_of plain_rows) (txt "SR_add_5fball_0")
    ≡ ok (page_of (set_display first_children (txt "block") plain_rows))
unfolding toggle find_child_element get_element_by_id node_at first_child next_sibling text_eq
toggle_open = refl

search_page_lem_example :
    let (self', page', answer) =
      search_page ascii_host [] (txt " Col") (new_results, page_of plain_rows) in
    let word = search_word ascii_host [] (txt " Col") in
    (rows_in page'.rows ≡ map (displayed ascii_host word) (rows_in plain_rows))
    × (self'.last_match_count ≡ shown_count (rows_in page'.rows))
    × (page'.no_matches
        ≡ (if shown_count (rows_in page'.rows) == 0 then txt "block" else txt "none"))
    × (page'.searching ≡ txt "none")
    × (answer ≡ true)
search_page_lem_example =
    search_page_lem ascii_host [] (txt " Col") new_results (page_of plain_rows)

search_counts :
    (search_page ascii_host [] (txt " Col") (new_results, page_of plain_rows)).0.last_match_count
    ≡ 1
unfolding search_page convert_to_id convert_char strip_leading strip_trailing text_eq is_match
    strip_row_prefix hit
search_counts = refl

is_match-name_example :
    is_match ascii_host
      (convert_to_id (txt "add_"))
      (elem (txt "DIV") (txt "SR_add_5fball_0") [] [])
    ≡ true
unfolding convert_to_id convert_char starts_with
is_match-name_example =
    is_match-name ascii_host (elem (txt "DIV") (txt "SR_add_5fball_0") [] []) (txt "add_")
      (txt "add_ball") (txt "_0") (omega arith) (omega arith) refl (omega arith)

answers-held_example :
    answers new_results (event keydown 40 ∷ presses 40 2 (event keyup 40 ∷ []))
    ≡ true ∷ false ∷ true ∷ false ∷ []
unfolding repeated
answers-held_example = answers-held new_results 40 1 (omega arith)

plain-IsNumbered : IsNumbered (page_of plain_rows) 2
unfolding slot get_element_by_id item_id is_displayed row_of text_eq node_at decimal
plain-IsNumbered = record { present = present; past_end = refl; before_start = refl }
  where
    present :
        (i : ℕ)
        → i < 2
        → (slot (page_of plain_rows) (pos i) ≢ missing)
          × (slot (page_of plain_rows) (pos i) ≢ broken)
    present zero h = ((λ e. cc), (λ e. cc))
    present (suc zero) h = ((λ e. cc), (λ e. cc))
    present (suc (suc i)) h = absurd (omega arith)

nav_next_lem_example : nav_next 3 (page_of plain_rows) 0 ≡ ok (first_shown (page_of plain_rows) 0 2)
nav_next_lem_example = nav_next_lem (page_of plain_rows) 2 2 0 3 plain-IsNumbered refl (omega arith)

child_down-child_up_example :
    (child_down 3 (page_of plain_rows) 0 0
      ≡ ok (
          focus_if (
            first_some
              (get_element_by_id plain_rows (child_id (pos 0) 1))
              (first_shown (page_of plain_rows) 1 1))))
    × (child_up (page_of plain_rows) 0 1 ≡ ok (focus (0 ∷ 1 ∷ 0 ∷ 0 ∷ []) ∷ []))
unfolding get_element_by_id item_id child_id decimal text_eq
child_down-child_up_example =
    child_down-child_up (page_of plain_rows) 2 0 0 1 3 (0 ∷ 1 ∷ 0 ∷ 0 ∷ []) plain-IsNumbered refl
      (omega arith) refl
