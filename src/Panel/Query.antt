-- ===== src/Panel/Query.antt =====
-- `SearchBox.Search` and `SearchBox.Activate` of docs/html/search/search.js.
pub mod Address
pub mod Closing
use owner_based_ball_game.Base.{
  Bool, Option, Result, [], false, get_elem?, if◌then◌else◌, leb, none, ok, out_of_fuel, pos, some,
  take, true, type_error, ℕ, ◌&&◌, ◌++◌, ◌+ℤ◌, ◌-ℤ◌, ◌||◌, ◌∷◌,
}
use owner_based_ball_game.Host.{Host}
use owner_based_ball_game.Panel.Layout.{Layout, get_x_pos, get_y_pos}
use owner_based_ball_game.Panel.SearchData.{index_section_names, index_sections_with_content}
use owner_based_ball_game.Panel.State.{Panel}
use owner_based_ball_game.Text.{Text, index_of, strip_leading, text_eq, to_string, txt}

-- the section of the search index that is selected; none is an index past the table
unfoldable pub section_content : ℕ → Option Text
section_content i = get_elem? index_sections_with_content i

abbrev name_at : ℕ → Text
name_at i = elim (get_elem? index_section_names i) [ none ↦ txt "undefined" | some s ↦ s ]

-- 0xD800 <= code && code <= 0xDBFF, where an empty text has no code
unfoldable pub surrogate_head : Text → Bool
surrogate_head [] = false
surrogate_head (c ∷ s) = leb 0xD800 c && leb c 0xDBFF

-- idxChar, with the case of a surrogate pair
unfoldable pub index_char : Host → Text → Text
unfolding surrogate_head
index_char host value =
    if surrogate_head (host.to_lower_case value) && host.exceeds_one value
    then take 2 value
    else host.to_lower_case (take 1 value)

-- The address of the page of results, and the same with the search term.
pub record Target : Type 0 where
  pub page : Text
  pub with_search : Text

target_at : Host → Panel → Text → Option ℕ → Target
unfolding to_string
target_at host p value none =
    let page = p.results_path ++ txt "/nomatches.html" in record { page = page; with_search = page }
target_at host p value (some idx) =
    let page =
      p.results_path
      ++ (txt "/" ++ (name_at p.search_index ++ (txt "_" ++ (to_string 16 idx ++ txt ".html")))) in
    record { page = page; with_search = page ++ (txt "?" ++ host.escape value) }

-- With an index past the table, `indexSectionsWithContent[…].indexOf` is an error.
unfoldable pub search_target : Host → Panel → Text → Result Target
unfolding target_at section_content index_char index_of
search_target host p value = elim (section_content p.search_index) [
  | none ↦ type_error
  | some content ↦ ok (target_at host p value (index_of (index_char host value) content))
]

-- The window of results is placed when it is not shown yet.
unfoldable pub show_results : Layout → Panel → Panel
unfolding get_x_pos get_y_pos
show_results layout p =
    if text_eq p.results_window.display (txt "block")
    then p
    else let width = pos layout.client_width -ℤ pos 8 in
      if p.inside_frame
      then record p {
        close_display = txt "inline";
        results_window = record p.results_window {
          position = txt "relative";
          display = txt "block";
          width = width;
        };
        results_width = width;
      }
      else record p {
        close_display = txt "inline";
        results_window = record p.results_window {
          display = txt "block";
          top = get_y_pos layout.search_box +ℤ pos 20;
          left = get_x_pos layout.search_box +ℤ pos 150 -ℤ pos layout.results_width;
        };
      }

-- What page the frame holds once its address is set is for the browser to change.
unfoldable pub search_with : Layout → Panel → Text → Result Target → Panel × Result (Unit {0})
unfolding show_results
search_with layout p value (ok t) =
    let p' = show_results layout (record p { frame_location = t.with_search }) in
    (record p' { last_search_value = value; last_results_page = t.page }, ok tt)
search_with layout p value type_error = (p, type_error)
search_with layout p value out_of_fuel = (p, out_of_fuel)

-- `Search`: the panel behind it, and whether it returned
unfoldable pub search_panel : Host → Layout → Panel → Panel × Result (Unit {0})
unfolding search_with search_target strip_leading
search_panel host layout p =
    let p' = record p { key_timeout = 0 } in
    let value = strip_leading p.field_value in
    search_with layout p' value (search_target host p' value)

-- `Activate`, which is also `OnSearchFieldFocus`
unfoldable pub activate : Bool → Panel → Panel
activate is_active p =
    if is_active || text_eq p.results_window.display (txt "block")
    then (let p' = record p { box_class = txt "MSearchBoxActive" } in
        if text_eq p.field_value p.search_label
        then record p' { field_value = []; search_active = true }
        else p')
    else record p {
      box_class = txt "MSearchBoxInactive";
      field_value = p.search_label;
      search_active = false;
      last_search_value = [];
      last_results_page = [];
    }

abbrev pub hide_results : Panel → Panel
hide_results p = record p {
  results_window = record p.results_window { display = txt "none" };
  close_display = txt "none";
}

-- `CloseResultsWindow`
unfoldable pub close_results : Panel → Panel
unfolding activate
close_results p = activate false (hide_results p)
