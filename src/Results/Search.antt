-- ===== src/Results/Search.antt =====
-- `SearchResults.Search`: which rows of the page are shown for a search term.
pub mod Matching
use owner_based_ball_game.Base.{
  Bool, Option, [], drop, false, if◌then◌else◌, leb, length, none, some, take, true, ℕ, ◌&&◌, ◌+◌,
  ◌==◌, ◌∷◌,
}
use owner_based_ball_game.ConvertId.{convert_to_id}
use owner_based_ball_game.Dom.{Elem, Node, Nodes, cons, nil, node}
use owner_based_ball_game.Host.{Host}
use owner_based_ball_game.Results.Page.{Page, SearchResults}
use owner_based_ball_game.Text.{Text, starts_with, strip_leading, strip_trailing, text_eq, txt}

-- search.replace(/^ +/, "").replace(/ +$/, "").toLowerCase(), and `convertToId`. With no term, or an
-- empty one, it is taken from the query of the page's address.
unfoldable pub search_word : Host → Text → Text → Text
search_word host query search =
    let given = if text_eq search [] then host.unescape (drop 1 query) else search in
    convert_to_id (host.to_lower_case (strip_trailing (strip_leading given)))

-- the rest of the name behind /\d*_/
unfoldable pub skip_number : Text → Option Text
skip_number [] = none
skip_number (c ∷ s) = elim (c == b'_') [
  | true ↦ some s
  | false ↦ if leb b'0' c && leb c b'9' then skip_number s else none
]

-- name.replace(/^sr\d*_/, '')
unfoldable pub strip_row_prefix : Text → Text
unfolding skip_number starts_with
strip_row_prefix name =
    if starts_with (txt "sr") name
    then elim (skip_number (drop 2 name)) [ none ↦ name | some s ↦ s ]
    else name

unfoldable pub row_match_name : Host → Elem → Text
row_match_name host row = strip_row_prefix (host.to_lower_case row.id)

-- search.length <= name.length && name.substr(0, search.length) == search
unfoldable pub is_match : Host → Text → Elem → Bool
unfolding row_match_name
is_match host word row =
    let name = row_match_name host row in
    leb (length word) (length name) && text_eq (take (length word) name) word

-- a `div` of class SRResult
abbrev pub is_row : Elem → Bool
is_row e = text_eq e.node_name (txt "DIV") && text_eq e.class_name (txt "SRResult")

module _ (host : Host) (word : Text) where
  -- one round of the loop, on the element and on the number of matches
  unfoldable pub mark : Elem → Elem
  mark e =
      if is_row e
      then record e { display = if is_match host word e then txt "block" else txt "none" }
      else e

  unfoldable pub hit : Elem → ℕ
  hit e = if is_row e && is_match host word e then 1 else 0

  -- The loop over `document.getElementsByTagName("div")`, in document order.
  unfoldable mutual
    pub mark_in : Node → Node
    mark_in (node e cs) = node (mark e) (mark_among cs)

    pub mark_among : Nodes → Nodes
    mark_among nil = nil
    mark_among (cons n ns) = cons (mark_in n) (mark_among ns)

  unfoldable mutual
    pub matches_in : Node → ℕ
    matches_in (node e cs) = hit e + matches_among cs

    pub matches_among : Nodes → ℕ
    matches_among nil = 0
    matches_among (cons n ns) = matches_in n + matches_among ns

-- `SearchResults.Search`, on `window.location.search` and the argument; it returns true.
unfoldable pub search_page : Host → Text → Text → SearchResults × Page → SearchResults × Page × Bool
unfolding search_word mark_in matches_in
search_page host query search (self, page) =
    let word = search_word host query search in
    let matches = matches_in host word page.rows in
    (
      record self { last_match_count = matches },
      record {
        rows = mark_in host word page.rows;
        searching = txt "none";
        no_matches = if matches == 0 then txt "block" else txt "none";
      },
      true,
    )
