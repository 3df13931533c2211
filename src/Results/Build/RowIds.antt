-- ===== src/Results/Build/RowIds.antt =====
-- The ids of the rows that `createResults` builds: where the ids of the entries differ, each leads to its row.
use owner_based_ball_game.Base.{
  Bool, List, [], arith, false, get_elem?, none, not, refl, some, suc, true, zero, ℕ, ◌&&◌, ◌++◌,
  ◌+◌, ◌||◌, ◌∷◌, ◌≡◌,
}
use owner_based_ball_game.Dom.{Place, id_among, id_in}
use owner_based_ball_game.Results.Build.{
  Entry, Link, child_links, entry_nodes, multiple_nodes, result_link, result_rows, single_nodes,
}
use owner_based_ball_game.Results.Build.Numbered.{id-child_link, id-set_target}
use owner_based_ball_game.Results.Page.{child_id, item_id}
use owner_based_ball_game.Text.{Text, text_eq, txt}
use owner_based_ball_game.Text.Laws.{text_eq_refl}

abbrev pub has_id : Text → List Entry → Bool
has_id id [] = false
has_id id (entry ∷ rest) = text_eq id entry.id || has_id id rest

-- no two entries have the same id
unfoldable pub ids_distinct : List Entry → Bool
unfolding text_eq
ids_distinct [] = true
ids_distinct (entry ∷ rest) = not (has_id entry.id rest) && ids_distinct rest

-- the id of the row of an entry
abbrev pub row_id_of : Text → Text
row_id_of id = txt "SR_" ++ id

row_id-child_links :
    (id : Text) (e c : ℕ) (p : Place) (k : ℕ) (ls : List Link)
    → id_among (row_id_of id) p k (child_links e c ls) ≡ none
unfolding id_in child_links text_eq child_id item_id
row_id-child_links id e c p k [] = refl
row_id-child_links id e c p k (l ∷ ls) =
    rw (id-child_link e c l) (row_id-child_links id e (suc c) p (suc k) ls)

row_id-single_nodes :
    (id : Text) (e : ℕ) (entry : Entry) (p : Place) (l : Link)
    → id_among (row_id_of id) p 0 (single_nodes e entry l) ≡ none
unfolding id_in single_nodes result_link text_eq item_id
row_id-single_nodes id e entry p l = rw id-set_target refl

row_id-multiple_nodes :
    (id : Text) (e : ℕ) (entry : Entry) (p : Place) (ls : List Link)
    → id_among (row_id_of id) p 0 (multiple_nodes e entry ls) ≡ none
unfolding id_in multiple_nodes result_link text_eq item_id
row_id-multiple_nodes id e entry p ls = rw row_id-child_links refl

row_id-entry_nodes :
    (id : Text) (e : ℕ) (entry : Entry) (p : Place) (ls : List Link)
    → id_among (row_id_of id) p 0 (entry_nodes e entry ls) ≡ none
unfolding entry_nodes
row_id-entry_nodes id e entry p [] = row_id-multiple_nodes id e entry p []
row_id-entry_nodes id e entry p (l ∷ []) = row_id-single_nodes id e entry p l
row_id-entry_nodes id e entry p (l ∷ m ∷ ls) = row_id-multiple_nodes id e entry p (l ∷ m ∷ ls)

has_id-at :
    (k : ℕ) (id : Text) (table : List Entry) (entry : Entry)
    → has_id id table ≡ false
    → get_elem? table k ≡ some entry
    → text_eq id entry.id ≡ false
has_id-at k id [] entry h at = cc
has_id-at zero id (first ∷ rest) entry h at =
    let same : first ≡ entry = ground arith in rw (← same) (ground arith)
has_id-at (suc k) id (first ∷ rest) entry h at = has_id-at k id rest entry (ground arith) at

-- The rows of the table from the `e`-th on: the row of the entry `k` further is the one with its id.
pub row_id-result_rows :
    (k e n : ℕ) (table : List Entry) (entry : Entry)
    → n ≡ e + k
    → ids_distinct table ≡ true
    → get_elem? table k ≡ some entry
    → id_among (row_id_of entry.id) [] e (result_rows e table) ≡ some (n ∷ [])
unfolding id_in result_rows ids_distinct
row_id-result_rows k e n [] entry sum distinct at = cc
row_id-result_rows zero e n (first ∷ rest) entry sum distinct at =
    let same : first ≡ entry = ground arith in
    let start : n ≡ e = omega arith in rw (← same, text_eq_refl first.id, start) refl
row_id-result_rows (suc k) e n (first ∷ rest) entry sum distinct at =
    rw
      (
        has_id-at k first.id rest entry (ground arith) at,
        row_id-entry_nodes entry.id e first (0 ∷ e ∷ []) first.links,
      )
      (row_id-result_rows k (suc e) n rest entry (omega arith) (ground arith) at)
