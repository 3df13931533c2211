-- ===== src/SearchTables/Checks.antt =====
-- What the tables of docs/html/search keep to, checked on all of them.
use mathlib.Core.Path.{subst}
use owner_based_ball_game.Base.{
  All, Bool, List, Option, [], ap, append_assoc, arith, false, get_elem?, length, ltb, map, none,
  refl, some, suc, take, true, zero, ℕ, ◌&&◌, ◌++◌, ◌+◌, ◌==◌, ◌∙◌, ◌∷◌, ◌≡◌,
}
use owner_based_ball_game.ConvertId.{convert_char, convert_to_id}
use owner_based_ball_game.Host.{IsAscii, lower_char}
use owner_based_ball_game.Panel.SearchData.{index_sections_with_content}
use owner_based_ball_game.Results.Build.{Entry}
use owner_based_ball_game.SearchTables.{search_tables}
use owner_based_ball_game.Text.{Text, index_of, starts_with, to_string, txt}
use owner_based_ball_game.Text.Laws.{starts_with-rest}

all_ascii : Text → Bool
all_ascii [] = true
all_ascii (c ∷ s) = ltb c 128 && all_ascii s

is_some_at : ℕ → Option ℕ → Bool
is_some_at i none = false
is_some_at i (some j) = i == j

-- The name and the id are ASCII; the first character of the name is the i-th of the section's; the id begins
-- with what `convertToId` makes of the name, and an underscore.
unfoldable pub entry_ok : Text → ℕ → Entry → Bool
unfolding is_some_at index_of starts_with convert_to_id all_ascii
entry_ok content i entry =
    let name = map lower_char entry.name in
    let id = map lower_char (txt "SR_" ++ entry.id) in
    all_ascii entry.name
    && (all_ascii entry.id
        && (is_some_at i (index_of (take 1 name) content)
            && starts_with (txt "sr_" ++ (convert_to_id name ++ txt "_")) id))

unfoldable pub table_ok : Text → ℕ → List Entry → Bool
unfolding entry_ok
table_ok content i [] = true
table_ok content i (entry ∷ rest) = entry_ok content i entry && table_ok content i rest

-- The tables from the i-th on.
unfoldable pub tables_ok : Text → ℕ → List (List Entry) → Bool
unfolding table_ok
tables_ok content i [] = true
tables_ok content i (table ∷ rest) = table_ok content i table && tables_ok content (suc i) rest

-- Each section has its characters, and as many tables.
unfoldable pub sections_ok : List Text → List (List (List Entry)) → Bool
unfolding tables_ok
sections_ok [] [] = true
sections_ok (content ∷ contents) (tables ∷ rest) =
    (length content == length tables && tables_ok content 0 tables) && sections_ok contents rest
sections_ok _ _ = false

search_tables-sections_ok : sections_ok index_sections_with_content search_tables ≡ true
unfolding sections_ok index_of starts_with convert_char convert_to_id all_ascii to_string
search_tables-sections_ok = refl

-- What the check says of one entry.
pub record Indexed (content : Text) (i : ℕ) (entry : Entry) : Type 0 where
  pub name_lem : All IsAscii entry.name
  pub id_lem : All IsAscii (txt "SR_" ++ entry.id)
  pub index_lem : index_of (take 1 (map lower_char entry.name)) content ≡ some i
  pub row_lem :
      (suffix : Text) × (map lower_char (txt "SR_" ++ entry.id)
        ≡ txt "sr_" ++ (convert_to_id (map lower_char entry.name) ++ suffix))

all_ascii-All : (s : Text) → all_ascii s ≡ true → All IsAscii s
unfolding all_ascii
all_ascii-All [] h = tt
all_ascii-All (c ∷ s) h = (ground arith, all_ascii-All s (ground arith))

is_some_at-some : (i : ℕ) (o : Option ℕ) → is_some_at i o ≡ true → o ≡ some i
unfolding is_some_at
is_some_at-some i none h = cc
is_some_at-some i (some j) h = ground arith

row_suffix :
    (name id : Text)
    → starts_with (txt "sr_" ++ (name ++ txt "_")) id ≡ true
    → (suffix : Text) × (id ≡ txt "sr_" ++ (name ++ suffix))
row_suffix name id h =
    let (r, e) = starts_with-rest (txt "sr_" ++ (name ++ txt "_")) id h in
    (txt "_" ++ r, e ∙ ap (λ t. txt "sr_" ++ t) (append_assoc name (txt "_") r))

entry_ok-Indexed :
    (content : Text) (i : ℕ) (entry : Entry)
    → entry_ok content i entry ≡ true
    → Indexed content i entry
unfolding entry_ok
entry_ok-Indexed content i entry h = record {
  name_lem = all_ascii-All entry.name (ground arith);
  id_lem = (omega arith, (omega arith, (omega arith, all_ascii-All entry.id (ground arith))));
  index_lem = is_some_at-some i _ (ground arith);
  row_lem = row_suffix _ _ (ground arith);
}

table_ok-Indexed :
    (content : Text) (i e : ℕ) (table : List Entry) (entry : Entry)
    → table_ok content i table ≡ true
    → get_elem? table e ≡ some entry
    → Indexed content i entry
unfolding table_ok
table_ok-Indexed content i e [] entry h at = cc
table_ok-Indexed content i zero (first ∷ rest) entry h at =
    subst (Indexed content i) (ground arith) (entry_ok-Indexed content i first (ground arith))
table_ok-Indexed content i (suc e) (first ∷ rest) entry h at =
    table_ok-Indexed content i e rest entry (ground arith) at

tables_ok-table_ok :
    (i j n : ℕ) (content : Text) (tables : List (List Entry)) (table : List Entry)
    → n ≡ j + i
    → tables_ok content j tables ≡ true
    → get_elem? tables i ≡ some table
    → table_ok content n table ≡ true
unfolding tables_ok
tables_ok-table_ok i j n content [] table e h at = cc
tables_ok-table_ok zero j n content (first ∷ rest) table e h at =
    let same : j ≡ n = omega arith in
    let found : first ≡ table = ground arith in rw (← same, ← found) (ground arith)
tables_ok-table_ok (suc i) j n content (first ∷ rest) table e h at =
    tables_ok-table_ok i (suc j) n content rest table (omega arith) (ground arith) at

sections_ok-tables_ok :
    (k : ℕ) (contents : List Text) (sections : List (List (List Entry)))
    (tables : List (List Entry))
    → sections_ok contents sections ≡ true
    → get_elem? sections k ≡ some tables
    → (content : Text) × (get_elem? contents k ≡ some content) × (tables_ok content 0 tables ≡ true)
unfolding sections_ok
sections_ok-tables_ok k [] [] tables h at = cc
sections_ok-tables_ok k [] (t ∷ ts) tables h at = cc
sections_ok-tables_ok k (c ∷ cs) [] tables h at = cc
sections_ok-tables_ok zero (c ∷ cs) (t ∷ ts) tables h at =
    (let found : t ≡ tables = ground arith in (c, refl, rw (← found) (ground arith)))
sections_ok-tables_ok (suc k) (c ∷ cs) (t ∷ ts) tables h at =
    sections_ok-tables_ok k cs ts tables (ground arith) at

-- Every entry of a section's table is one that the section's characters lead to.
pub search_tables-Indexed :
    (k i e : ℕ) (tables : List (List Entry)) (table : List Entry) (entry : Entry)
    → get_elem? search_tables k ≡ some tables
    → get_elem? tables i ≡ some table
    → get_elem? table e ≡ some entry
    → (content : Text) × (get_elem? index_sections_with_content k ≡ some content)
      × Indexed content i entry
search_tables-Indexed k i e tables table entry in_section in_tables in_table =
    let (content, at, ok_tables) =
      sections_ok-tables_ok k index_sections_with_content search_tables tables
        search_tables-sections_ok in_section in
    (
      content,
      at,
      table_ok-Indexed content i e table entry
          (tables_ok-table_ok i 0 i content tables table (omega arith) ok_tables in_tables)
          in_table,
    )
