-- ===== src/Directory.antt =====
-- The directory tree of the documentation pages: `updateStripes`, `toggleLevel` and `toggleFolder` of
-- docs/html/dynsections.js. jQuery is a parameter: the pages, and what its functions do to them.
pub mod Query
pub mod Shown
use owner_based_ball_game.Base.{
  Bool, List, [], drop, false, if◌then◌else◌, leb, length, ltb, map, suc, true, ℕ, ◌&&◌, ◌++◌, ◌+◌,
  ◌==◌, ◌∷◌,
}
use owner_based_ball_game.Results.Page.{Page}
use owner_based_ball_game.Text.{Text, starts_with, text_eq, txt}

-- An element by its number; a set of them as jQuery keeps it, in document order.
abbrev pub Element : Type 0
Element = ℕ

-- The functions of jQuery that the tree calls.
pub record JQuery (Page : Type 0) : Type 0 where
  pub directory_rows : Page → List Element
  pub by_id : Text → Page → List Element
  pub next_rows : List Element → Page → List Element
  pub find_spans : List Element → Page → List Element
  pub id_of : Element → Page → Text
  pub has_class : Text → Page → Element → Bool
  pub is_visible : Page → Element → Bool
  pub add_class : Text → List Element → Page → Page
  pub remove_class : Text → List Element → Page → Page
  pub html : Text → List Element → Page → Page
  pub show : List Element → Page → Page
  pub hide : List Element → Page → Page

abbrev pub keep_if : (Element → Bool) → List Element → List Element
keep_if f [] = []
keep_if f (e ∷ es) = let rest = keep_if f es in if f e then e ∷ rest else rest

-- `:even`, which counts from 0
unfoldable pub even_ones : List Element → List Element
even_ones [] = []
even_ones (d ∷ []) = d ∷ []
even_ones (d ∷ e ∷ es) = d ∷ even_ones es

-- `id.split('_').length-1`
unfoldable pub depth : Text → ℕ
depth [] = 0
depth (c ∷ s) = let k = depth s in if c == 95 then suc k else k

-- `\d+_$`, or `\d*_$` if a digit has been read
unfoldable pub digits_then_bar : Bool → Text → Bool
digits_then_bar seen [] = false
digits_then_bar seen (c ∷ s) =
    let more = digits_then_bar true s in
    if c == 95 then seen && text_eq s [] else if leb 48 c && leb c 57 then more else false

-- `'row_'+id`
abbrev pub row_id : Text → Text
row_id id = txt "row_" ++ id

-- `id.match(re)`. An `id` of the tree is made of digits and bars, which stand for themselves; `fold`
-- is what the language takes letters to when a match ignores their case.
unfoldable pub is_child_id : (ℕ → ℕ) → Text → Text → Bool
unfolding digits_then_bar
is_child_id fold id s =
    starts_with (map fold (row_id id)) (map fold s)
    && digits_then_bar false (drop (length (row_id id)) s)

module _ {Page : Type 0} (j : JQuery Page) where
  -- `updateStripes`
  unfoldable pub update_stripes : Page → Page
  unfolding even_ones
  update_stripes p =
      let p' = j.remove_class (txt "even") (j.directory_rows p) p in
      j.add_class (txt "even") (even_ones (keep_if (j.is_visible p') (j.directory_rows p))) p'

  -- the icon and the arrow of a row
  unfoldable pub set_icon : Text → Text → Text → List Element → List Element → Page → Page
  set_icon old new arrow i a p = j.html arrow a (j.add_class new i (j.remove_class old i p))

  -- the function that `toggleLevel` calls at each row
  unfoldable pub toggle_row : ℕ → Element → Page → Page
  unfolding depth set_icon
  toggle_row level r p =
      let l = depth (j.id_of r p) in
      let i = j.by_id (txt "img" ++ drop 3 (j.id_of r p)) p in
      let a = j.by_id (txt "arr" ++ drop 3 (j.id_of r p)) p in
      if ltb l (level + 1)
      then j.show (r ∷ [])
          (set_icon (txt "iconfopen iconfclosed") (txt "iconfopen") (txt "&#9660;") i a p)
      else if l == level + 1
      then j.show (r ∷ [])
          (set_icon (txt "iconfclosed iconfopen") (txt "iconfclosed") (txt "&#9658;") i a p)
      else j.hide (r ∷ []) p

  -- `each`
  unfoldable pub toggle_rows : ℕ → List Element → Page → Page
  unfolding toggle_row
  toggle_rows level [] p = p
  toggle_rows level (r ∷ rs) p = toggle_rows level rs (toggle_row level r p)

  unfoldable pub toggle_level : ℕ → Page → Page
  unfolding toggle_rows update_stripes
  toggle_level level p = update_stripes (toggle_rows level (j.directory_rows p) p)

  -- One class of the icons among some spans becomes another, and their arrows turn.
  unfoldable pub turn : Text → Text → Text → List Element → Page → Page
  turn old new arrow spans p =
      let icons = keep_if (j.has_class old p) spans in
      let p' = j.add_class new icons (j.remove_class old icons p) in
      j.html arrow (keep_if (j.has_class (txt "arrow") p') spans) p'

  -- `childRows.filter(':first').is(':visible')`
  abbrev pub first_visible : List Element → Page → Bool
  first_visible [] p = false
  first_visible (e ∷ es) p = j.is_visible p e

  -- `currentRow.nextAll("tr")`
  abbrev pub rows_behind : Text → Page → List Element
  rows_behind id p = j.next_rows (j.by_id (row_id id) p) p

  -- `childRows`
  abbrev pub child_rows : (ℕ → ℕ) → Text → Page → List Element
  child_rows fold id p = keep_if (λ r. is_child_id fold id (j.id_of r p)) (rows_behind id p)

  -- `rows.filter("[id^=row_"+id+"]")`
  abbrev pub rows_below : Text → List Element → Page → List Element
  rows_below id rows p = keep_if (λ r. starts_with (row_id id) (j.id_of r p)) rows

  unfoldable pub toggle_folder : (ℕ → ℕ) → Text → Page → Page
  unfolding turn update_stripes
  toggle_folder fold id p =
      let spans = j.find_spans (j.by_id (row_id id) p) p in
      if first_visible (child_rows fold id p) p
      then (let p' = turn (txt "iconfopen") (txt "iconfclosed") (txt "&#9658;") spans p in
          update_stripes (j.hide (rows_below id (rows_behind id p) p') p'))
      else let p' = turn (txt "iconfclosed") (txt "iconfopen") (txt "&#9660;") spans p in
        update_stripes (
          j.show (child_rows fold id p) (
            turn (txt "iconfopen") (txt "iconfclosed") (txt "&#9658;")
              (j.find_spans (child_rows fold id p) p') p'))
