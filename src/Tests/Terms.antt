-- ===== src/Tests/Terms.antt =====
-- Search terms and their ids.
use owner_based_ball_game.Base.{[], arith, refl, true, ◌∷◌, ◌≡◌}
use owner_based_ball_game.ConvertId.{convert_char, convert_to_id}
use owner_based_ball_game.ConvertId.Decode.{
  decode, decode-convert_to_id, plain, starts_with-convert_to_id,
}
use owner_based_ball_game.Results.Search.{strip_row_prefix}
use owner_based_ball_game.Text.{starts_with, strip_leading, strip_trailing, txt}

convert_ball : convert_to_id (txt "add_ball Z") ≡ txt "add_5fball_20_5a"
unfolding convert_to_id convert_char
convert_ball = refl

convert_tab : convert_to_id (9 ∷ []) ≡ txt "_09"
unfolding convert_to_id convert_char
convert_tab = refl

strip_both : strip_trailing (strip_leading (txt "  a b  ")) ≡ txt "a b"
unfolding strip_trailing strip_leading
strip_both = refl

name_of_row : strip_row_prefix (txt "sr12_add_5fball_0") ≡ txt "add_5fball_0"
unfolding strip_row_prefix
name_of_row = refl

decode-convert_to_id_example : decode plain (convert_to_id (txt "a_B")) ≡ txt "a_B"
decode-convert_to_id_example = decode-convert_to_id (txt "a_B") (omega arith)

ids_start_alike : starts_with (convert_to_id (txt "a_")) (convert_to_id (txt "a_B")) ≡ true
unfolding starts_with
ids_start_alike = starts_with-convert_to_id (txt "a_") (txt "a_B") (omega arith) (omega arith)
