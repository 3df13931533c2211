-- ===== src/Tests/SearchPanel.antt =====
-- The search panel.
use owner_based_ball_game.Base.{
  All, [], arith, false, get_elem?, inl, length, negsuc, none, ok, pos, refl, some, true, ℕ, ◌++◌,
  ◌+ℤ◌, ◌∷◌, ◌≡◌, ◌≢◌, ◌≤◌, ◌⊎◌,
}
use owner_based_ball_game.Panel.Field.{on_search_field_change}
use owner_based_ball_game.Panel.Init.{init_search}
use owner_based_ball_game.Panel.Init.First.{init_search-Chosen, item_calls, numbered}
use owner_based_ball_game.Panel.Layout.{Layout, OffsetBox, body, get_x_pos, get_y_pos, inside}
use owner_based_ball_game.Panel.Layout.Sums.{get_pos_lem, sum_left, sum_top}
use owner_based_ball_game.Panel.Query.{index_char, search_panel, search_target, section_content}
use owner_based_ball_game.Panel.Query.Address.{search_target_lem, target}
use owner_based_ball_game.Panel.Query.Closing.{on_search_field_change-search_panel}
use owner_based_ball_game.Panel.SearchData.{index_section_labels, index_section_names}
use owner_based_ball_game.Panel.Select.{
  blank, bullet, on_search_select_key, select_item_count, select_item_set,
}
use owner_based_ball_game.Panel.Select.Menu.{
  Chosen, chosen_index, item_marks, item_marks-select_item_set, marks_from,
  on_search_select_key-Chosen, on_search_select_key-past_last,
}
use owner_based_ball_game.Panel.State.{
  Panel, SelectChild, key_timeout_length, new_panel, run_search, set_timeout,
}
use owner_based_ball_game.Panel.Timers.{IsTracked, Step, field_change, here, next, search_ids}
use owner_based_ball_game.Panel.Timers.Pending.{pending_search}
use owner_based_ball_game.Results.Keys.{KeyEvent, keyup}
use owner_based_ball_game.Tests.Sample.{ascii_host}
use owner_based_ball_game.Text.{remove_spaces, strip_leading, text_eq, to_string, txt}

abbrev select_item : SelectChild
select_item = record { class_name = txt "SelectItem"; mark = []; label = []; on_click = none }

abbrev other_child : SelectChild
other_child = record { class_name = []; mark = []; label = []; on_click = none }

abbrev start : Panel
start = new_panel (txt "search") false (txt "Search") (select_item ∷ other_child ∷ select_item ∷ [])

abbrev at_left : OffsetBox
at_left = record {
  offset_width = 20;
  offset_height = 10;
  offset_left = pos 7;
  offset_top = negsuc 1;
  offset_parent = inside (pos 100) (pos 50) body;
}

abbrev layout : Layout
layout = record {
  select_box = at_left;
  search_box = at_left;
  select_window_width = 60;
  results_width = 300;
  client_width = 900;
}

abbrev key_a : KeyEvent
key_a = record { event_type = keyup; key_code = 65; shift_key = false }

abbrev typed_a : Panel
typed_a = record start { field_value = txt "a"; search_active = true }

-- The panel behind a typed `a`: its search is pending as the timer 1.
abbrev pending : Panel
pending = (on_search_field_change 2 layout key_a typed_a).0

abbrev entered : Panel
entered = record start { field_value = txt "a" }

abbrev entered_pending : Panel
entered_pending = (on_search_field_change 2 layout key_a entered).0

pending_search_example :
    (search_ids entered_pending.timers ≡ 1 ∷ []) × (length (search_ids entered_pending.timers) ≤ 1)
unfolding on_search_field_change new_panel text_eq remove_spaces
pending_search_example =
    pending_search ascii_host layout 2 (txt "search") false (txt "Search")
      (select_item ∷ other_child ∷ select_item ∷ [])
      (next (next here (Step.typed (txt "a") start)) (field_change key_a entered))

pending-IsTracked : IsTracked pending
unfolding on_search_field_change new_panel text_eq remove_spaces search_ids
pending-IsTracked = record {
  tracked = refl;
  key_old = omega arith;
  hide_old = omega arith;
  apart = λ ne. omega arith;
}

on_search_select_key-Chosen_example :
    Chosen (chosen_index 40 start) start (on_search_select_key ascii_host layout 40 start).0
unfolding new_panel select_item_count text_eq
on_search_select_key-Chosen_example =
    on_search_select_key-Chosen ascii_host layout 40 start (inl (refl, omega arith))

abbrev at_last : Panel
at_last = record start { search_index = 1 }

on_search_select_key-past_last_example :
    let q = (on_search_select_key ascii_host layout 40 at_last).0 in
    (q.search_index ≡ select_item_count q.select_children)
    × All (λ m. m ≡ blank) (item_marks q.select_children)
unfolding new_panel select_item_count text_eq
on_search_select_key-past_last_example =
    on_search_select_key-past_last ascii_host layout at_last refl

item_marks-select_item_set_example :
    item_marks (select_item_set 1 start).select_children ≡ blank ∷ bullet ∷ []
unfolding new_panel select_item_count text_eq marks_from
item_marks-select_item_set_example = item_marks-select_item_set 1 start

search_target_lem_example :
    ((i : ℕ) × (get_elem? (txt "abcdefghiklmnopqrstuvwxy") i ≡ some b'c')
      × (search_target ascii_host start (txt "Ca")
          ≡ ok (
              target ascii_host
                (txt "search"
                  ++ (txt "/" ++ (txt "all" ++ (txt "_" ++ (to_string 16 i ++ txt ".html")))))
                (txt "Ca"))))
    ⊎ (All (λ d. d ≢ b'c') (txt "abcdefghiklmnopqrstuvwxy")
        × (search_target ascii_host start (txt "Ca")
            ≡ ok (record {
              page = txt "search" ++ txt "/nomatches.html";
              with_search = txt "search" ++ txt "/nomatches.html";
            })))
unfolding new_panel section_content index_char
search_target_lem_example =
    search_target_lem ascii_host start (txt "Ca") (txt "abcdefghiklmnopqrstuvwxy") (txt "all") b'c'
      refl refl refl

search_for_ca :
    search_target ascii_host start (txt "Ca")
    ≡ ok (target ascii_host (txt "search/all_2.html") (txt "Ca"))
unfolding new_panel search_target to_string
search_for_ca = refl

abbrev two_words : Panel
two_words = record start { field_value = txt "a b"; search_active = true }

on_search_field_change-search_panel_example :
    let q = (search_panel ascii_host layout two_words).0 in
    on_search_field_change 1 layout key_a q
    ≡ (record (set_timeout run_search key_timeout_length q) { key_timeout = q.next_timer }, ok tt)
unfolding new_panel search_panel remove_spaces strip_leading text_eq
on_search_field_change-search_panel_example =
    on_search_field_change-search_panel ascii_host layout 1 key_a two_words refl (λ e. cc) refl

position_left : (get_x_pos at_left ≡ pos 107) × (get_y_pos at_left ≡ pos 48)
unfolding sum_left sum_top ◌+ℤ◌
position_left = get_pos_lem at_left

init_search-Chosen_example :
    let q = (init_search ascii_host layout (new_panel (txt "search") false (txt "Search") [])).0 in
    (item_marks q.select_children ≡ marks_from 0 0 (length index_section_names))
    × (item_calls q.select_children ≡ numbered 0 index_section_labels)
    × (q.search_index ≡ 0)
    × (section_content q.search_index ≢ none)
unfolding select_item_count new_panel
init_search-Chosen_example =
    init_search-Chosen ascii_host layout (new_panel (txt "search") false (txt "Search") []) refl
