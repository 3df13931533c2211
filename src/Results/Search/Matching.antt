-- ===== src/Results/Search/Matching.antt =====
-- What the loop of `SearchResults.Search` does to the rows, and which names a term finds.
use mathlib.Core.List.{map-append}
use owner_based_ball_game.Base.{
  All, Bool, Bool-cases, List, [], arith, false, if◌then◌else◌, inl, inr, leb, length, map, refl,
  take, true, ℕ, ◌&&◌, ◌++◌, ◌+◌, ◌==◌, ◌∷◌, ◌≡◌, ◌≤◌,
}
use owner_based_ball_game.ConvertId.{convert_to_id}
use owner_based_ball_game.ConvertId.Decode.{IsUnit16, starts_with-convert_to_id}
use owner_based_ball_game.Dom.{Elem, Node, Nodes, cons, nil, node}
use owner_based_ball_game.Host.{Host}
use owner_based_ball_game.Results.Page.{Page, SearchResults}
use owner_based_ball_game.Results.Search.{
  hit, is_match, is_row, mark, mark_among, mark_in, matches_among, matches_in, search_page,
  search_word, strip_row_prefix,
}
use owner_based_ball_game.Text.{Text, starts_with, text_eq, txt}

-- The rows of the page, in document order.
unfoldable mutual
  pub rows_in : Node → List Elem
  rows_in (node e cs) = if is_row e then e ∷ rows_among cs else rows_among cs

  pub rows_among : Nodes → List Elem
  rows_among nil = []
  rows_among (cons n ns) = rows_in n ++ rows_among ns

abbrev pub is_shown : Elem → Bool
is_shown e = text_eq e.display (txt "block")

unfoldable pub shown_count : List Elem → ℕ
shown_count [] = 0
shown_count (e ∷ es) = (if is_shown e then 1 else 0) + shown_count es

shown_count-append : (xs ys : List Elem) → shown_count (xs ++ ys) ≡ shown_count xs + shown_count ys
unfolding shown_count
shown_count-append [] ys = omega arith
shown_count-append (x ∷ xs) ys = omega (arith, shown_count-append xs ys)

module _ (host : Host) (word : Text) where
  -- A row as the loop leaves it.
  unfoldable pub displayed : Elem → Elem
  displayed e = record e { display = if is_match host word e then txt "block" else txt "none" }

  mutual
    unfolding rows_in mark_in mark displayed

    rows_in-mark_in : (n : Node) → rows_in (mark_in host word n) ≡ map displayed (rows_in n)
    rows_in-mark_in (node e cs) = elim (Bool-cases (is_row e)) [
      | inl row ↦ rw (row, row, rows_among-mark_among cs)
      | inr other ↦ rw (other, other, rows_among-mark_among cs)
    ]

    rows_among-mark_among :
        (ns : Nodes) → rows_among (mark_among host word ns) ≡ map displayed (rows_among ns)
    rows_among-mark_among nil = refl
    rows_among-mark_among (cons n ns) = rw (rows_in-mark_in n, rows_among-mark_among ns, map-append)

  hit-displayed :
      (e : Elem) → is_row e ≡ true → hit host word e ≡ (if is_shown (displayed e) then 1 else 0)
  unfolding hit displayed text_eq
  hit-displayed e row = rw row (ground arith)

  hit-other : (e : Elem) → is_row e ≡ false → hit host word e ≡ 0
  unfolding hit
  hit-other e other = rw other

  mutual
    unfolding rows_in matches_in shown_count

    matches_in-shown_count :
        (n : Node) → matches_in host word n ≡ shown_count (map displayed (rows_in n))
    matches_in-shown_count (node e cs) = elim (Bool-cases (is_row e)) [
      | inl row ↦ rw (row, hit-displayed e row, matches_among-shown_count cs)
      | inr other ↦ rw (other, hit-other e other, matches_among-shown_count cs) (omega arith)
    ]

    matches_among-shown_count :
        (ns : Nodes) → matches_among host word ns ≡ shown_count (map displayed (rows_among ns))
    matches_among-shown_count nil = refl
    matches_among-shown_count (cons n ns) =
        rw (map-append, shown_count-append, matches_in-shown_count n, matches_among-shown_count ns)

-- What `Search` leaves: every row of the page is shown if it matches the word and hidden if it does
-- not; the number kept is that of the rows now shown; `NoMatches` is shown exactly if there is none,
-- and `Searching` is hidden. It returns true.
pub search_page_lem :
    (host : Host) (query search : Text) (self : SearchResults) (page : Page)
    → let (self', page', answer) = search_page host query search (self, page) in
      let word = search_word host query search in
      (rows_in page'.rows ≡ map (displayed host word) (rows_in page.rows))
      × (self'.last_match_count ≡ shown_count (rows_in page'.rows))
      × (page'.no_matches
          ≡ (if shown_count (rows_in page'.rows) == 0 then txt "block" else txt "none"))
      × (page'.searching ≡ txt "none")
      × (answer ≡ true)
unfolding search_page
search_page_lem host query search self page =
    let word = search_word host query search in
    let marked = rows_in-mark_in host word page.rows in
    let counted = matches_in-shown_count host word page.rows in
    (marked, rw marked counted, rw (marked, counted), refl, refl)

take-starts_with :
    (s t : Text) → (leb (length s) (length t) && text_eq (take (length s) t) s) ≡ starts_with s t
unfolding starts_with text_eq
take-starts_with [] t = ground arith
take-starts_with (a ∷ s) [] = ground arith
take-starts_with (a ∷ s) (b ∷ t) = ground (arith, take-starts_with s t)

starts_with-longer : (s t r : Text) → length s ≤ length t → starts_with s (t ++ r) ≡ starts_with s t
unfolding starts_with
starts_with-longer [] t r h = refl
starts_with-longer (a ∷ s) [] r h = absurd (omega arith)
starts_with-longer (a ∷ s) (b ∷ t) r h = rw (starts_with-longer s t r (omega arith))

-- A row whose id, in lower case, is `sr_`, the converted name and some suffix, is found by the
-- words that are a prefix of the name and by no other, among those whose conversion is not longer
-- than that of the name.
pub is_match-name :
    (host : Host) (row : Elem) (word name suffix : Text)
    → All IsUnit16 word
    → All IsUnit16 name
    → host.to_lower_case row.id ≡ txt "sr_" ++ (convert_to_id name ++ suffix)
    → length (convert_to_id word) ≤ length (convert_to_id name)
    → is_match host (convert_to_id word) row ≡ starts_with word name
unfolding is_match strip_row_prefix
is_match-name host row word name suffix u v id short = rw (
  id,
  take-starts_with,
  starts_with-longer _ _ suffix short,
  starts_with-convert_to_id word name u v,
)
