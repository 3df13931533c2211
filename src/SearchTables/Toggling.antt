-- ===== src/SearchTables/Toggling.antt =====
-- `SearchResults.Toggle` on the pages that are built from the tables of docs/html/search.
use owner_based_ball_game.Base.{
  Bool, List, [], arith, get_elem?, ok, refl, some, suc, true, zero, ℕ, ◌&&◌, ◌++◌, ◌∷◌, ◌≡◌,
}
use owner_based_ball_game.Dom.{Elem}
use owner_based_ball_game.Results.Build.{Entry}
use owner_based_ball_game.Results.Build.RowIds.{ids_distinct}
use owner_based_ball_game.Results.Build.Toggled.{children_place, toggle-built, with_block}
use owner_based_ball_game.Results.Page.{toggle}
use owner_based_ball_game.SearchTables.{search_tables}
use owner_based_ball_game.SearchTables.Found.{built_page}
use owner_based_ball_game.Text.{text_eq, txt}

tables_distinct : List (List Entry) → Bool
tables_distinct [] = true
tables_distinct (table ∷ tables) = ids_distinct table && tables_distinct tables

sections_distinct : List (List (List Entry)) → Bool
unfolding tables_distinct
sections_distinct [] = true
sections_distinct (tables ∷ sections) = tables_distinct tables && sections_distinct sections

search_tables-sections_distinct : sections_distinct search_tables ≡ true
unfolding sections_distinct tables_distinct ids_distinct text_eq
search_tables-sections_distinct = refl

tables_distinct-at :
    (i : ℕ) (tables : List (List Entry)) (table : List Entry)
    → tables_distinct tables ≡ true
    → get_elem? tables i ≡ some table
    → ids_distinct table ≡ true
unfolding tables_distinct
tables_distinct-at i [] table h at = cc
tables_distinct-at zero (first ∷ rest) table h at =
    let same : first ≡ table = ground arith in rw (← same) (ground arith)
tables_distinct-at (suc i) (first ∷ rest) table h at =
    tables_distinct-at i rest table (ground arith) at

sections_distinct-at :
    (k : ℕ) (sections : List (List (List Entry))) (tables : List (List Entry))
    → sections_distinct sections ≡ true
    → get_elem? sections k ≡ some tables
    → tables_distinct tables ≡ true
unfolding sections_distinct
sections_distinct-at k [] tables h at = cc
sections_distinct-at zero (first ∷ rest) tables h at =
    let same : first ≡ tables = ground arith in rw (← same) (ground arith)
sections_distinct-at (suc k) (first ∷ rest) tables h at =
    sections_distinct-at k rest tables (ground arith) at

-- On the page of each of the tables, as `createResults` builds it in the element SRResults, `Toggle` with the id of the row of an entry
-- displays the element that holds the places of that entry, and changes nothing else; if the entry has a
-- single place, it changes nothing.
pub toggle-with_block :
    (k i e : ℕ) (tables : List (List Entry)) (table : List Entry) (entry : Entry) (element : Elem)
    → get_elem? search_tables k ≡ some tables
    → get_elem? tables i ≡ some table
    → get_elem? table e ≡ some entry
    → element.id ≡ txt "SRResults"
    → toggle (built_page table element) (txt "SR_" ++ entry.id)
      ≡ ok (with_block (built_page table element) (children_place e entry.links))
toggle-with_block k i e tables table entry element in_section in_tables in_table id =
    let distinct =
      tables_distinct-at i tables table
        (sections_distinct-at k search_tables tables search_tables-sections_distinct in_section)
        in_tables in
    toggle-built table element e entry (built_page table element) refl id distinct in_table
