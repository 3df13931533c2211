-- ===== src/Tests/SearchData.antt =====
-- A search in the tables of the documentation.
use owner_based_ball_game.Base.{
  [], arith, false, get_elem?, negsuc, ok, pos, refl, some, true, ◌∷◌, ◌≡◌,
}
use owner_based_ball_game.ConvertId.{convert_char, convert_to_id}
use owner_based_ball_game.Dom.{Elem}
use owner_based_ball_game.Panel.Layout.{Layout, body}
use owner_based_ball_game.Panel.Query.{search_panel}
use owner_based_ball_game.Panel.State.{Panel, new_panel}
use owner_based_ball_game.Results.Build.{Entry, create_results}
use owner_based_ball_game.Results.Build.Toggled.{with_block}
use owner_based_ball_game.Results.Page.{new_results, toggle}
use owner_based_ball_game.Results.Search.{hit, is_match, search_page, strip_row_prefix}
use owner_based_ball_game.Results.Search.Matching.{is_shown, rows_in}
use owner_based_ball_game.SearchTables.{all_tables, files_tables}
use owner_based_ball_game.SearchTables.All2To2.{all_2}
use owner_based_ball_game.SearchTables.All3To4.{all_3}
use owner_based_ball_game.SearchTables.Classes0ToFiles6.{files_3}
use owner_based_ball_game.SearchTables.Entries.{entry_of, place_of}
use owner_based_ball_game.SearchTables.Found.{built_page, search_panel-search_page}
use owner_based_ball_game.SearchTables.Toggling.{toggle-with_block}
use owner_based_ball_game.Tests.Sample.{ascii_host, ascii_host-AsciiHost, elem}
use owner_based_ball_game.Text.{starts_with, strip_leading, strip_trailing, text_eq, to_string, txt}

abbrev typed : Panel
typed = record (new_panel (txt "search") false (txt "Search") []) {
  field_value = txt " Dev_FB ";
  search_active = true;
}

abbrev layout : Layout
layout = record {
  select_box = record {
    offset_width = 20;
    offset_height = 10;
    offset_left = pos 7;
    offset_top = negsuc 1;
    offset_parent = body;
  };
  search_box = record {
    offset_width = 20;
    offset_height = 10;
    offset_left = pos 7;
    offset_top = negsuc 1;
    offset_parent = body;
  };
  select_window_width = 60;
  results_width = 300;
  client_width = 900;
}

abbrev found_entry : Entry
found_entry = entry_of "dev_5ffb_5ft_59" "dev_fb_t" (place_of "../structdev__fb__t.html" "" ∷ [])

abbrev results_element : Elem
results_element = elem (txt "DIV") (txt "SRResults") [] []

search_panel-search_page_example :
    let page =
      (search_page ascii_host
        (txt "?Dev_FB ")
        []
        (new_results, built_page all_3 results_element)).1 in
    ((search_panel ascii_host layout typed).0.frame_location ≡ txt "search/all_3.html?Dev_FB ")
    × (row : Elem) × (get_elem? (rows_in page.rows) 7 ≡ some row)
    × (row.id ≡ txt "SR_dev_5ffb_5ft_59")
    × (is_shown row ≡ true)
unfolding new_panel strip_leading strip_trailing starts_with to_string text_eq
search_panel-search_page_example =
    search_panel-search_page ascii_host layout typed (txt "all") 3 7 all_tables all_3 found_entry
      results_element ascii_host-AsciiHost (omega arith) (λ e. cc) refl refl refl refl refl refl

-- The term `cond@`, as an id cond_40, is found in the row of `cond`, whose id ends in the number 40.
number_found :
    (search_page ascii_host
      (txt "?cond@")
      []
      (new_results, built_page all_2 results_element)).0.last_match_count
    ≡ 1
unfolding search_page create_results text_eq is_match hit convert_to_id strip_trailing strip_leading
    convert_char strip_row_prefix
number_found = refl

number_found_name : starts_with (txt "cond@") (txt "cond") ≡ false
unfolding starts_with
number_found_name = refl

-- The file main.c is in two places: its row has an element with two children.
abbrev two_places : Entry
two_places = entry_of "main_2ec_243" "main.c" (
    place_of "../client_2main_8c.html" "(Global Namespace)"
    ∷ place_of "../server_2main_8c.html" "(Global Namespace)"
    ∷ [])

toggle-with_block_example :
    toggle (built_page files_3 results_element) (txt "SR_main_2ec_243")
    ≡ ok (with_block (built_page files_3 results_element) (some (1 ∷ 0 ∷ 0 ∷ [])))
toggle-with_block_example =
    toggle-with_block 2 3 0 files_tables files_3 two_places results_element refl refl refl refl
