-- ===== src/SearchTables/Found.antt =====
-- From the text field to the rows: `SearchBox.Search` goes to the page whose table has what was typed, and
-- `SearchResults.Search` shows it there.
use owner_based_ball_game.Base.{
  All, Bool-cases, List, Result, [], ap, false, get_elem?, get_elem?-map, inl, inr, map, ok, refl,
  some, true, ℕ, ◌++◌, ◌∙◌, ◌≡◌, ◌≢◌,
}
use owner_based_ball_game.ConvertId.{convert_to_id}
use owner_based_ball_game.Dom.{Elem}
use owner_based_ball_game.Host.{AsciiHost, Host, IsAscii, lower_char}
use owner_based_ball_game.Panel.Layout.{Layout}
use owner_based_ball_game.Panel.Query.{
  Target, search_panel, search_target, search_with, section_content, show_results,
}
use owner_based_ball_game.Panel.SearchData.{index_section_names, index_sections_with_content}
use owner_based_ball_game.Panel.State.{Panel}
use owner_based_ball_game.Results.Build.{Entry, create_results}
use owner_based_ball_game.Results.Build.Numbered.{empty_results}
use owner_based_ball_game.Results.Build.Rows.{id-row_elem, row_elem, rows_in-create_results}
use owner_based_ball_game.Results.Page.{Page, new_results}
use owner_based_ball_game.Results.Search.{is_match, is_row, search_page, search_word}
use owner_based_ball_game.Results.Search.Matching.{displayed, is_shown, rows_in, search_page_lem}
use owner_based_ball_game.SearchTables.{search_tables}
use owner_based_ball_game.SearchTables.Checks.{Indexed, search_tables-Indexed}
use owner_based_ball_game.SearchTables.Terms.{index_of-value, is_match-entry, search_word-ascii}
use owner_based_ball_game.Text.{
  Text, starts_with, strip_leading, strip_trailing, text_eq, to_string, txt,
}
use owner_based_ball_game.Text.Spaces.{
  All-starts_with, All-strip_leading, starts_with-strip_trailing, strip_leading-strip_leading,
}

-- The page as its scripts leave it in front of the search: `createResults` has run, `NoMatches` is hidden.
abbrev pub built_page : List Entry → Elem → Page
built_page table e = record {
  rows = create_results table (empty_results e);
  searching = [];
  no_matches = txt "none";
}

-- The page of results of the name of a section and of the index of a character.
abbrev pub page_address : Panel → Text → ℕ → Text
page_address p name i =
    p.results_path ++ (txt "/" ++ (name ++ (txt "_" ++ (to_string 16 i ++ txt ".html"))))

module _ (host : Host) (laws : AsciiHost host) where
  search_target-entry :
      (p : Panel) (content name : Text) (i : ℕ) (entry : Entry) (value : Text)
      → Indexed content i entry
      → get_elem? index_sections_with_content p.search_index ≡ some content
      → get_elem? index_section_names p.search_index ≡ some name
      → All IsAscii value
      → strip_trailing value ≢ []
      → starts_with (map lower_char (strip_trailing value)) (map lower_char entry.name) ≡ true
      → search_target host p value
        ≡ ok (record {
          page = page_address p name i;
          with_search = page_address p name i ++ (txt "?" ++ host.escape value);
        })
  unfolding search_target section_content
  search_target-entry p content name i entry value indexed section named ascii ne begins =
      rw (section, index_of-value host laws content i entry value indexed ascii ne begins, named)
        refl

is_shown-displayed :
    (host : Host) (word : Text) (row : Elem)
    → is_match host word row ≡ true
    → is_shown (displayed host word row) ≡ true
unfolding displayed text_eq
is_shown-displayed host word row h = rw h refl

frame_location-show_results :
    (layout : Layout) (p : Panel) → (show_results layout p).frame_location ≡ p.frame_location
unfolding show_results
frame_location-show_results layout p =
    elim (Bool-cases (text_eq p.results_window.display (txt "block"))) [
      | inl there ↦ rw there refl
      | inr away ↦ elim (Bool-cases p.inside_frame) [
        | inl framed ↦ rw (away, framed) refl
        | inr page ↦ rw (away, page) refl
      ]
    ]

frame_location-search_with :
    (layout : Layout) (p : Panel) (value : Text) (t : Target) (r : Result Target)
    → r ≡ ok t
    → (search_with layout p value r).0.frame_location ≡ t.with_search
unfolding search_with
frame_location-search_with layout p value t r e =
    rw e (frame_location-show_results layout (record p { frame_location = t.with_search }))

-- In a browser whose `toLowerCase` and `unescape` do on ASCII what the language says: what is typed is
-- ASCII, not only spaces, and without the spaces around it, in lower case, the beginning of the name of some
-- entry of the selected section in lower case. Then `SearchBox.Search` sets the frame to the page of the table
-- of the entry, with the term behind a question mark; and on that page, as `createResults` has built it,
-- `SearchResults.Search`, which takes the term from that address, leaves the row of the entry shown.
pub search_panel-search_page :
    (host : Host) (layout : Layout) (p : Panel) (name : Text) (i e : ℕ) (tables : List (List Entry))
    (table : List Entry) (entry : Entry) (element : Elem)
    → AsciiHost host
    → All IsAscii p.field_value
    → strip_trailing (strip_leading p.field_value) ≢ []
    → starts_with
        (map lower_char (strip_trailing (strip_leading p.field_value)))
        (map lower_char entry.name)
      ≡ true
    → get_elem? index_section_names p.search_index ≡ some name
    → get_elem? search_tables p.search_index ≡ some tables
    → get_elem? tables i ≡ some table
    → get_elem? table e ≡ some entry
    → is_row element ≡ false
    → let query = txt "?" ++ host.escape (strip_leading p.field_value) in
      let page = (search_page host query [] (new_results, built_page table element)).1 in
      ((search_panel host layout p).0.frame_location ≡ page_address p name i ++ query)
      × (row : Elem) × (get_elem? (rows_in page.rows) e ≡ some row)
      × (row.id ≡ txt "SR_" ++ entry.id)
      × (is_shown row ≡ true)
unfolding search_panel displayed
search_panel-search_page host layout p name i e tables table entry element laws ascii ne begins
      named in_section in_tables in_table other =
    let p' = record p { key_timeout = 0 } in
    let value = strip_leading p.field_value in
    let query = txt "?" ++ host.escape value in
    let (content, section, indexed) =
      search_tables-Indexed p.search_index i e tables table entry in_section in_tables in_table in
    let ascii' = All-strip_leading IsAscii p.field_value ascii in
    let found =
      search_target-entry host laws p' content name i entry value indexed section named ascii' ne
        begins in
    let whole = strip_leading-strip_leading p.field_value in
    let term = All-starts_with IsAscii _ _ (starts_with-strip_trailing value) ascii' in
    let word =
      search_word-ascii host laws value ascii'
      ∙ ap (λ s. convert_to_id (map lower_char (strip_trailing s))) whole in
    let finds =
      ap (λ w. is_match host w (row_elem entry)) word
      ∙ is_match-entry host laws content i entry (strip_trailing value) indexed term begins in
    let rows_built = rows_in-create_results table element other in
    let (rows, r, n, s, a) = search_page_lem host query [] new_results (built_page table element) in
    (
      frame_location-search_with layout p' value
          (record { page = page_address p name i; with_search = page_address p name i ++ query }) _
          found,
      displayed host (search_word host query []) (row_elem entry),
      rw (rows, rows_built)
          (get_elem?-map (map row_elem table) _ e _
            (get_elem?-map table row_elem e entry in_table)),
      id-row_elem entry,
      is_shown-displayed host _ (row_elem entry) finds,
    )
