-- ===== src/Results/Page.antt =====
-- The state of the search results page: the object `SearchResults` and the document.
use owner_based_ball_game.Base.{
  Bool, Option, Result, [], false, if◌then◌else◌, none, ok, pos, some, type_error, ℕ, ℤ, ◌++◌,
  ◌>>=◌, ◌∷◌,
}
use owner_based_ball_game.Dom.{Node, Place, set_display}
use owner_based_ball_game.Dom.Laws.{elem_at}
use owner_based_ball_game.Results.Walk.{find_child_element}
use owner_based_ball_game.Text.{Text, decimal, text_eq, txt}

-- The rows stand in the element `SRResults`; of the elements `Searching` and `NoMatches` beside it
-- only `style.display` is used.
pub record Page : Type 0 where
  pub rows : Node
  pub searching : Text
  pub no_matches : Text

pub record SearchResults : Type 0 where
  pub last_match_count : ℕ
  pub last_key : ℕ
  pub repeat_on : Bool

-- `new SearchResults(name)`
abbrev pub new_results : SearchResults
new_results = record { last_match_count = 0; last_key = 0; repeat_on = false }

-- `"Item" + index` and `"Item" + index + "_c" + n`
unfoldable pub item_id : ℤ → Text
item_id i = txt "Item" ++ decimal i

unfoldable pub child_id : ℤ → ℕ → Text
unfolding item_id
child_id i n = item_id i ++ (txt "_c" ++ decimal (pos n))

-- `element.style.display == v`, for an element of the tree
unfoldable pub is_displayed : Node → Text → Place → Bool
is_displayed root v q = elim (elem_at root q) [ none ↦ false | some e ↦ text_eq e.display v ]

-- `element.parentNode.parentNode`
unfoldable pub row_of : Place → Result Place
row_of (i ∷ j ∷ p) = ok p
row_of _ = type_error

-- `element.id`
abbrev pub id_at : Node → Place → Text
id_at root q = elim (elem_at root q) [ none ↦ [] | some e ↦ e.id ]

-- What `Toggle` does to the element that it finds.
unfoldable pub toggle_found : Page → Option Place → Page
unfolding is_displayed
toggle_found page none = page
toggle_found page (some q) =
    let v = if is_displayed page.rows (txt "block") q then txt "none" else txt "block" in
    record page { rows = set_display q v page.rows }

-- `SearchResults.Toggle`
unfoldable pub toggle : Page → Text → Result Page
unfolding toggle_found
toggle page id = do found ← find_child_element page.rows id; ok (toggle_found page found)
