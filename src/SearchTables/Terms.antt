-- ===== src/SearchTables/Terms.antt =====
-- What `SearchBox.Search` and `SearchResults.Search` make of a term in ASCII.
use owner_based_ball_game.Base.{
  All, [], ap, arith, false, map, refl, some, take, true, ℕ, ◌++◌, ◌∙◌, ◌∷◌, ◌≡◌, ◌≢◌,
}
use owner_based_ball_game.ConvertId.{convert_to_id}
use owner_based_ball_game.ConvertId.Decode.{IsUnit16, starts_with-convert_to_id}
use owner_based_ball_game.Host.{AsciiHost, Host, IsAscii, lower_char}
use owner_based_ball_game.Panel.Query.{index_char, surrogate_head}
use owner_based_ball_game.Results.Build.{Entry}
use owner_based_ball_game.Results.Build.Rows.{id-row_elem, row_elem}
use owner_based_ball_game.Results.Search.{is_match, search_word}
use owner_based_ball_game.Results.Search.Matching.{is_match-name}
use owner_based_ball_game.SearchTables.Checks.{Indexed}
use owner_based_ball_game.Text.{
  Text, index_of, starts_with, strip_leading, strip_trailing, text_eq, txt,
}
use owner_based_ball_game.Text.Spaces.{
  All-starts_with, All-strip_leading, first-starts_with, length-starts_with,
  starts_with-strip_trailing,
}

All-lower_char : (s : Text) → All IsAscii s → All IsUnit16 (map lower_char s)
All-lower_char [] h = tt
All-lower_char (c ∷ s) (h, hs) = (ground arith, All-lower_char s hs)

surrogate_head-lower_char : (s : Text) → All IsAscii s → surrogate_head (map lower_char s) ≡ false
unfolding surrogate_head
surrogate_head-lower_char [] h = refl
surrogate_head-lower_char (c ∷ s) (h, hs) = ground arith

first_lower : (s : Text) → map lower_char (take 1 s) ≡ take 1 (map lower_char s)
first_lower [] = refl
first_lower (c ∷ s) = refl

All-take : (s : Text) → All IsAscii s → All IsAscii (take 1 s)
All-take [] h = tt
All-take (c ∷ s) (h, hs) = (h, tt)

lower-nil : (s : Text) → s ≢ [] → map lower_char s ≢ []
lower-nil [] ne = absurd (ne refl)
lower-nil (c ∷ s) ne = λ e. cc

starts_with-lower :
    (s t : Text) → starts_with s t ≡ true → starts_with (map lower_char s) (map lower_char t) ≡ true
unfolding starts_with
starts_with-lower [] t h = refl
starts_with-lower (a ∷ s) [] h = cc
starts_with-lower (a ∷ s) (b ∷ t) h =
    let same : a ≡ b = ground arith in rw same (ground (arith, starts_with-lower s t))

module _ (host : Host) (laws : AsciiHost host) where
  pub index_char-ascii :
      (value : Text) → All IsAscii value → index_char host value ≡ take 1 (map lower_char value)
  unfolding index_char
  index_char-ascii value h =
      rw (laws.lower_lem value h, surrogate_head-lower_char value h)
        (laws.lower_lem (take 1 value) (All-take value h) ∙ first_lower value)

  -- The word that the page searches for, when the panel put the value into its address.
  pub search_word-ascii :
      (value : Text)
      → All IsAscii value
      → search_word host (txt "?" ++ host.escape value) []
        ≡ convert_to_id (map lower_char (strip_trailing (strip_leading value)))
  unfolding search_word text_eq
  search_word-ascii value h = rw (laws.unescape_lem value h) (
      ap convert_to_id (
        laws.lower_lem _ (
          All-starts_with IsAscii _ _ (starts_with-strip_trailing (strip_leading value))
            (All-strip_leading IsAscii value h))))

  -- A row is shown for every beginning of its name.
  pub is_match-entry :
      (content : Text) (i : ℕ) (entry : Entry) (term : Text)
      → Indexed content i entry
      → All IsAscii term
      → starts_with (map lower_char term) (map lower_char entry.name) ≡ true
      → is_match host (convert_to_id (map lower_char term)) (row_elem entry) ≡ true
  is_match-entry content i entry term indexed ascii begins =
      let name = map lower_char entry.name in
      let word = map lower_char term in
      let u : All IsUnit16 word = All-lower_char term ascii in
      let v : All IsUnit16 name = All-lower_char entry.name indexed.name_lem in
      let (suffix, id) = indexed.row_lem in
      is_match-name host (row_elem entry) word name suffix u v
        (ap host.to_lower_case (id-row_elem entry) ∙ (laws.lower_lem _ indexed.id_lem ∙ id))
        (length-starts_with _ _ (starts_with-convert_to_id word name u v ∙ begins))
      ∙ begins

  -- The first character of a term leads to the page of the entries that begin with it.
  pub index_of-value :
      (content : Text) (i : ℕ) (entry : Entry) (value : Text)
      → Indexed content i entry
      → All IsAscii value
      → strip_trailing value ≢ []
      → starts_with (map lower_char (strip_trailing value)) (map lower_char entry.name) ≡ true
      → index_of (index_char host value) content ≡ some i
  index_of-value content i entry value indexed ascii ne begins =
      let term = strip_trailing value in
      let whole = starts_with-lower term value (starts_with-strip_trailing value) in
      let nonempty = lower-nil term ne in
      let first =
        first-starts_with (map lower_char term) (map lower_char entry.name) nonempty begins in
      let same = first-starts_with (map lower_char term) (map lower_char value) nonempty whole in
      rw (index_char-ascii value ascii, ← same, first) indexed.index_lem
