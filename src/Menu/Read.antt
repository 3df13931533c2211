-- ===== src/Menu/Read.antt =====
-- Reading the list of a menu back from the HTML that docs/html/menu.js makes of it.
use owner_based_ball_game.Base.{
  Bool, List, Option, [], ap, arith, drop, false, if◌then◌else◌, length, none, not, refl, some,
  true, ℕ, ◌&&◌, ◌++◌, ◌∙◌, ◌∷◌, ◌≡◌,
}
use owner_based_ball_game.Menu.{Item, Items, branch, leaf, more_items, no_items, open_item}
use owner_based_ball_game.Menu.Tags.{Token, link_tag, scan, scan-open_item, tag_token, text_token}
use owner_based_ball_game.Text.{Text, starts_with, text_eq, txt}
use owner_based_ball_game.Text.Laws.{has_code}

abbrev pub join : Items → Items → Items
join no_items js = js
join (more_items i is) js = more_items i (join is js)

-- A list that is being read: the items before the one at hand, and what is known of that one.
pub record Frame : Type 0 where
  pub before : Items
  pub text : Text
  pub url : Text
  pub children : Option Items

abbrev pub start : Items → Frame
start items = record { before = items; text = []; url = []; children = none }

abbrev pub finished : Option Items → Text → Text → Item
finished none text url = leaf text url
finished (some items) text url = branch text url items

abbrev drop_last : Text → Text
drop_last [] = []
drop_last (c ∷ []) = []
drop_last (c ∷ d ∷ s) = c ∷ drop_last (d ∷ s)

-- the url in the tag of a link
abbrev pub url_in : Text → Text → Text
url_in rel_path w = drop_last (drop (length rel_path) (drop 8 w))

-- the end of a list
abbrev pub leave : Items → List Frame → List Frame
leave items [] = []
leave items (g ∷ fs) = record g { children = some items } ∷ fs

unfoldable pub take_tag : Text → Text → Frame → List Frame → List Frame
take_tag rel_path w f fs =
    if text_eq w (txt "ul")
    then start no_items ∷ f ∷ fs
    else if text_eq w (txt "/ul")
    then leave f.before fs
    else if text_eq w (txt "/li")
    then start (join f.before (more_items (finished f.children f.text f.url) no_items)) ∷ fs
    else if starts_with (txt "a ") w
    then record f { url = url_in rel_path w } ∷ fs
    else f ∷ fs

abbrev pub take_token : Text → Token → List Frame → List Frame
take_token rel_path t [] = []
take_token rel_path (text_token w) (f ∷ fs) = record f { text = w } ∷ fs
take_token rel_path (tag_token w) (f ∷ fs) = take_tag rel_path w f fs

unfoldable pub take_tokens : Text → List Token → List Frame → List Frame
take_tokens rel_path [] fs = fs
take_tokens rel_path (t ∷ ts) fs = take_tokens rel_path ts (take_token rel_path t fs)

abbrev pub list_of : List Frame → Option Items
list_of [] = none
list_of (f ∷ fs) = f.children

-- The list that a piece of HTML shows.
unfoldable pub read_menu : Text → Text → Option Items
read_menu rel_path html = list_of (take_tokens rel_path (scan false [] html) (start no_items ∷ []))

-- The texts of a menu are not empty and have no `<`, the addresses have no `>`.
abbrev pub is_plain : Text → Text → Bool
is_plain [] url = false
is_plain (c ∷ text) url = not (has_code 60 (c ∷ text)) && not (has_code 62 url)

unfoldable mutual
  pub are_plain : Items → Bool
  are_plain no_items = true
  are_plain (more_items i is) = is_plain_item i && are_plain is

  pub is_plain_item : Item → Bool
  is_plain_item (leaf text url) = is_plain text url
  is_plain_item (branch text url items) = is_plain text url && are_plain items

drop_last-snoc : (s : Text) (c : ℕ) → drop_last (s ++ (c ∷ [])) ≡ s
drop_last-snoc [] c = refl
drop_last-snoc (a ∷ []) c = refl
drop_last-snoc (a ∷ b ∷ s) c = ap (λ t. a ∷ t) (drop_last-snoc (b ∷ s) c)

drop-append : (s t : Text) → drop (length s) (s ++ t) ≡ t
drop-append [] t = refl
drop-append (c ∷ s) t = drop-append s t

url_in-link_tag : (rel_path url : Text) → url_in rel_path (link_tag rel_path url) ≡ url
url_in-link_tag rel_path url =
    ap drop_last (drop-append rel_path (url ++ txt "\"")) ∙ drop_last-snoc url 34

-- the item at hand, with its text and its url
abbrev pub opened : Items → Text → Text → Frame
opened items text url = record { before = items; text = text; url = url; children = none }

plain-lem :
    (c : ℕ) (text url : Text)
    → is_plain (c ∷ text) url ≡ true
    → (has_code 60 (c ∷ text) ≡ false) × (has_code 62 url ≡ false)
plain-lem c text url is_p = (ground arith, ground arith)

pub take_open_item :
    (rel_path text url s : Text) (items : Items) (fs : List Frame)
    → has_code 62 rel_path ≡ false
    → is_plain text url ≡ true
    → take_tokens rel_path (scan false [] (open_item rel_path text url ++ s)) (start items ∷ fs)
      ≡ take_tokens rel_path (scan false [] s) (opened items text url ∷ fs)
unfolding take_tokens take_tag text_eq starts_with
take_open_item rel_path [] url s items fs rel_lem is_p = absurd (ground arith)
take_open_item rel_path (c ∷ text) url s items fs rel_lem is_p =
    let (text_lem, url_lem) = plain-lem c text url is_p in
    ap (λ ts. take_tokens rel_path ts (start items ∷ fs))
      (scan-open_item rel_path (c ∷ text) url s rel_lem url_lem text_lem)
    ∙ ap (λ u. take_tokens rel_path (scan false [] s) (opened items (c ∷ text) u ∷ fs))
        (url_in-link_tag rel_path url)
