-- ===== src/Menu/Tags.antt =====
-- The tags and the texts of a piece of HTML, for the menu of docs/html/menu.js. A text stands outside
-- of tags, and is not empty.
use owner_based_ball_game.Base.{
  Bool, List, [], ap, append-nil, append_assoc, arith, false, if◌then◌else◌, refl, true, ℕ, ◌++◌,
  ◌==◌, ◌||◌, ◌∙◌, ◌∷◌, ◌≡◌,
}
use owner_based_ball_game.Menu.{open_item}
use owner_based_ball_game.Text.{Text, txt}
use owner_based_ball_game.Text.Laws.{has_code}

pub data Token : Type 0 where
  tag_token text_token : Text → Token

abbrev pub flush : Text → List Token
flush [] = []
flush (c ∷ s) = text_token (c ∷ s) ∷ []

-- One more unit, inside of a tag or outside: whether the next one is inside, what is being read, and
-- what has been.
abbrev unit_read : Bool → Text → ℕ → Bool × Text × List Token
unit_read true acc c =
    if c == 62 then (false, [], tag_token acc ∷ []) else (true, acc ++ (c ∷ []), [])
unit_read false acc c = if c == 60 then (true, [], flush acc) else (false, acc ++ (c ∷ []), [])

unfoldable pub scan : Bool → Text → Text → List Token
scan within acc [] = flush acc
scan within acc (c ∷ s) =
    let (within', acc', found) = unit_read within acc c in found ++ scan within' acc' s

pub scan-words :
    (acc w s : Text)
    → has_code 60 w ≡ false
    → scan false acc (w ++ (60 ∷ s)) ≡ flush (acc ++ w) ++ scan true [] s
unfolding scan
scan-words acc [] s out = rw (append-nil acc) refl
scan-words acc (c ∷ w) s out =
    let ordinary : (c == 60) ≡ false = ground arith in
    rw ordinary
      (scan-words (acc ++ (c ∷ [])) w s (ground arith) ∙ rw (append_assoc acc (c ∷ []) w) refl)

pub scan-tag :
    (acc w s : Text)
    → has_code 62 w ≡ false
    → scan true acc (w ++ (62 ∷ s)) ≡ tag_token (acc ++ w) ∷ scan false [] s
unfolding scan
scan-tag acc [] s out = rw (append-nil acc) refl
scan-tag acc (c ∷ w) s out =
    let ordinary : (c == 62) ≡ false = ground arith in
    rw ordinary
      (scan-tag (acc ++ (c ∷ [])) w s (ground arith) ∙ rw (append_assoc acc (c ∷ []) w) refl)

has_code-append : (k : ℕ) (s t : Text) → has_code k (s ++ t) ≡ (has_code k s || has_code k t)
has_code-append k [] t = refl
has_code-append k (c ∷ s) t = rw (has_code-append k s t) (ground arith)

-- the tag of a link
abbrev pub link_tag : Text → Text → Text
link_tag rel_path url = txt "a href=\"" ++ (rel_path ++ (url ++ txt "\""))

glue :
    (rel_path url text closing s : Text) (a b : ℕ)
    → (rel_path ++ (url ++ (a ∷ b ∷ (text ++ closing)))) ++ s
      ≡ (rel_path ++ (url ++ (a ∷ []))) ++ (b ∷ (text ++ (closing ++ s)))
glue rel_path url text closing s a b = rw (
  append_assoc rel_path (url ++ (a ∷ b ∷ (text ++ closing))) s,
  append_assoc url (a ∷ b ∷ (text ++ closing)) s,
  append_assoc text closing s,
  append_assoc rel_path (url ++ (a ∷ [])) (b ∷ (text ++ (closing ++ s))),
  append_assoc url (a ∷ []) (b ∷ (text ++ (closing ++ s))),
)

open_item-units :
    (rel_path text url s : Text)
    → open_item rel_path text url ++ s
      ≡ txt "<li><" ++ (link_tag rel_path url ++ (62 ∷ (text ++ (60 ∷ (txt "/a>" ++ s)))))
unfolding open_item
open_item-units rel_path text url s =
    ap (λ t. txt "<li><a href=\"" ++ t) (glue rel_path url text (txt "</a>") s 34 62)

-- An item begins with its tags and its text.
pub scan-open_item :
    (rel_path text url s : Text)
    → has_code 62 rel_path ≡ false
    → has_code 62 url ≡ false
    → has_code 60 text ≡ false
    → scan false [] (open_item rel_path text url ++ s)
      ≡ tag_token (txt "li")
        ∷ tag_token (link_tag rel_path url)
        ∷ (flush text ++ (tag_token (txt "/a") ∷ scan false [] s))
unfolding scan
scan-open_item rel_path text url s rel_lem url_lem text_lem =
    let tag_lem : has_code 62 (link_tag rel_path url) ≡ false =
      ground
        (arith, has_code-append 62 rel_path (url ++ txt "\""), has_code-append 62 url (txt "\"")) in
    rw (
      open_item-units rel_path text url s,
      scan-tag [] (link_tag rel_path url) (text ++ (60 ∷ (txt "/a>" ++ s))) tag_lem,
      scan-words [] text (txt "/a>" ++ s) text_lem,
    )
