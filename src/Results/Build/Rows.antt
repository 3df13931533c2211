-- ===== src/Results/Build/Rows.antt =====
-- The rows of the page that `createResults` builds: one for each entry of the table, in its order.
use owner_based_ball_game.Base.{Bool, List, [], ap₂, false, map, refl, suc, true, ℕ, ◌++◌, ◌∷◌, ◌≡◌}
use owner_based_ball_game.Dom.{Elem}
use owner_based_ball_game.Results.Build.{
  Entry, Link, child_link, child_links, create_element, create_results, entry_nodes, multiple_nodes,
  result_link, result_row, result_rows, set_attribute, set_class_attr, set_target, single_nodes,
}
use owner_based_ball_game.Results.Build.Numbered.{empty_results}
use owner_based_ball_game.Results.Search.{is_row}
use owner_based_ball_game.Results.Search.Matching.{rows_among, rows_in}
use owner_based_ball_game.Text.{text_eq, txt}

-- The element of the row of an entry.
unfoldable pub row_elem : Entry → Elem
row_elem entry =
    set_class_attr (txt "SRResult")
      (set_attribute (txt "id") (txt "SR_" ++ entry.id) (create_element (txt "DIV")))

pub id-row_elem : (entry : Entry) → (row_elem entry).id ≡ txt "SR_" ++ entry.id
unfolding row_elem text_eq
id-row_elem entry = refl

is_row-set_target : (b : Bool) (e : Elem) → is_row (set_target b e) ≡ is_row e
unfolding text_eq
is_row-set_target true e = refl
is_row-set_target false e = refl

is_row-child_link : (e c : ℕ) (l : Link) → is_row (child_link e c l) ≡ false
unfolding child_link text_eq
is_row-child_link e c l = is_row-set_target l.in_parent _

rows_among-child_links : (e c : ℕ) (ls : List Link) → rows_among (child_links e c ls) ≡ []
unfolding child_links rows_in
rows_among-child_links e c [] = refl
rows_among-child_links e c (l ∷ ls) =
    rw (is_row-child_link e c l, rows_among-child_links e (suc c) ls)

rows_among-single_nodes :
    (e : ℕ) (entry : Entry) (l : Link) → rows_among (single_nodes e entry l) ≡ []
unfolding single_nodes result_link rows_in text_eq
rows_among-single_nodes e entry l = rw (is_row-set_target l.in_parent) refl

rows_among-multiple_nodes :
    (e : ℕ) (entry : Entry) (ls : List Link) → rows_among (multiple_nodes e entry ls) ≡ []
unfolding multiple_nodes result_link rows_in text_eq
rows_among-multiple_nodes e entry ls = rw (rows_among-child_links e 0 ls)

rows_among-entry_nodes :
    (e : ℕ) (entry : Entry) (ls : List Link) → rows_among (entry_nodes e entry ls) ≡ []
unfolding entry_nodes
rows_among-entry_nodes e entry [] = rows_among-multiple_nodes e entry []
rows_among-entry_nodes e entry (l ∷ []) = rows_among-single_nodes e entry l
rows_among-entry_nodes e entry (l ∷ m ∷ ls) = rows_among-multiple_nodes e entry (l ∷ m ∷ ls)

rows_in-result_row : (e : ℕ) (entry : Entry) → rows_in (result_row e entry) ≡ row_elem entry ∷ []
unfolding result_row rows_in text_eq row_elem
rows_in-result_row e entry = rw (rows_among-entry_nodes e entry entry.links)

rows_among-result_rows :
    (e : ℕ) (table : List Entry) → rows_among (result_rows e table) ≡ map row_elem table
unfolding result_rows rows_in
rows_among-result_rows e [] = refl
rows_among-result_rows e (entry ∷ rest) =
    ap₂ (λ xs ys. xs ++ ys) (rows_in-result_row e entry) (rows_among-result_rows (suc e) rest)

pub rows_in-create_results :
    (table : List Entry) (e : Elem)
    → is_row e ≡ false
    → rows_in (create_results table (empty_results e)) ≡ map row_elem table
unfolding create_results rows_in
rows_in-create_results table e other = rw (other, rows_among-result_rows 0 table)
