-- ===== src/ConvertId.antt =====
-- `convertToId` of docs/html/search/search.js: a search term as it is spelled in an element's id.
pub mod Decode
use owner_based_ball_game.Base.{Bool, [], if◌then◌else◌, leb, ltb, ℕ, ◌&&◌, ◌++◌, ◌||◌, ◌∷◌}
use owner_based_ball_game.Text.{Text, to_string, txt}

-- the class /[a-z0-9\u0080-\uFFFF]/
unfoldable pub is_id_char : ℕ → Bool
is_id_char c = leb b'a' c && leb c b'z' || (leb b'0' c && leb c b'9' || leb 0x80 c && leb c 0xffff)

-- one round of the loop
unfoldable pub convert_char : ℕ → Text
unfolding is_id_char to_string
convert_char c =
    if is_id_char c
    then c ∷ []
    else if ltb c 16
    then txt "_0" ++ to_string 16 c
    else txt "_" ++ to_string 16 c

unfoldable pub convert_to_id : Text → Text
convert_to_id [] = []
convert_to_id (c ∷ s) = convert_char c ++ convert_to_id s
