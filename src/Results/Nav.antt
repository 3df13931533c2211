-- ===== src/Results/Nav.antt =====
-- Moving between the links of the search results page by the keyboard: `NavNext`, `NavPrev`, `Nav`
-- and `NavChild` of docs/html/search/search.js.
pub mod Slots
pub mod Moves
use owner_based_ball_game.Base.{
  Bool, List, Option, Result, [], false, if◌then◌else◌, negsuc, none, ok, out_of_fuel, pos, some,
  suc, true, type_error, zero, ℕ, ℤ, ◌+◌, ◌==◌, ◌>>=◌, ◌∷◌,
}
use owner_based_ball_game.Dom.{Place, get_element_by_id}
use owner_based_ball_game.Results.Keys.{KeyEvent, process_keys}
use owner_based_ball_game.Results.Page.{
  Page, SearchResults, child_id, id_at, is_displayed, item_id, row_of,
}
use owner_based_ball_game.Results.Walk.{find_child_element}
use owner_based_ball_game.Text.{Text, txt}

-- What stands at a number: no element of that id, one in a shown row, or one in a hidden row.
-- `broken` is an element with no row above it, at which `parentNode.parentNode.style` is an error.
pub data Slot : Type 0 where
  missing hidden broken : Slot
  shown : Place → Slot

slot_in_row : Page → Place → Result Place → Slot
slot_in_row page q (ok r) = if is_displayed page.rows (txt "block") r then shown q else hidden
slot_in_row page q type_error = broken
slot_in_row page q out_of_fuel = broken

slot_of : Page → Option Place → Slot
unfolding slot_in_row
slot_of page none = missing
slot_of page (some q) = slot_in_row page q (row_of q)

-- The tests of one round of `NavNext` and `NavPrev`.
unfoldable pub slot : Page → ℤ → Slot
unfolding slot_of
slot page i = slot_of page (get_element_by_id page.rows (item_id i))

unfoldable pub nav_next : ℕ → Page → ℕ → Result (Option Place)
nav_next zero page i = out_of_fuel
nav_next (suc f) page i = elim (slot page (pos i)) [
  | missing ↦ ok none
  | shown q ↦ ok (some q)
  | hidden ↦ nav_next f page (suc i)
  | broken ↦ type_error
]

abbrev pub pred_ℤ : ℤ → ℤ
pred_ℤ (pos zero) = negsuc 0
pred_ℤ (pos (suc n)) = pos n
pred_ℤ (negsuc n) = negsuc (suc n)

unfoldable pub nav_prev : ℕ → Page → ℤ → Result (Option Place)
nav_prev zero page i = out_of_fuel
nav_prev (suc f) page i = elim (slot page i) [
  | missing ↦ ok none
  | shown q ↦ ok (some q)
  | hidden ↦ nav_prev f page (pred_ℤ i)
  | broken ↦ type_error
]

-- The loop that searches for the last child, from the `n`-th and with the last one found.
unfoldable pub last_child : ℕ → Page → ℤ → ℕ → Place → Result Place
last_child zero page i n found = out_of_fuel
last_child (suc f) page i n found = elim (get_element_by_id page.rows (child_id i n)) [
  | none ↦ ok found
  | some q ↦ last_child f page i (suc n) q
]

-- What a handler does to the page and to the focus.
pub data Action : Type 0 where
  focus : Place → Action
  focus_search_field : Action
  set_style : Place → Text → Action
  close_results_window : Action

-- `this.FindChildElement(element.parentNode.parentNode.id)`
unfoldable pub children_beside : Page → Place → Result (Option Place)
unfolding find_child_element
children_beside page q = do r ← row_of q; find_child_element page.rows (id_at page.rows r)

-- `document.getElementById(id)`, of which a member is then read
unfoldable pub element_named : Page → Text → Result Place
element_named page id = elim (get_element_by_id page.rows id) [ none ↦ type_error | some q ↦ ok q ]

abbrev pub block_at : Page → Option Place → Bool
block_at page none = false
block_at page (some q) = is_displayed page.rows (txt "block") q

-- Up: to the previous shown row, or to the last child in front of `newIndex`
unfoldable pub nav_up_from : ℕ → Page → ℤ → Option Place → Result (List Action)
nav_up_from fuel page new_index none = ok (focus_search_field ∷ [])
nav_up_from fuel page new_index (some q) = do
  child ← children_beside page q
  target ← if block_at page child then last_child fuel page new_index 0 q else ok q
  ok (focus target ∷ [])

unfoldable pub nav_up : ℕ → Page → ℕ → Result (List Action)
nav_up fuel page item_index = do
  let new_index = pred_ℤ (pos item_index)
  focus_item ← nav_prev fuel page new_index
  nav_up_from fuel page new_index focus_item

abbrev pub focus_if : Option Place → List Action
focus_if none = []
focus_if (some q) = focus q ∷ []

abbrev pub or_next : ℕ → Page → ℕ → Option Place → Result (Option Place)
or_next fuel page new_index none = nav_next fuel page new_index
or_next fuel page new_index (some q) = ok (some q)

unfoldable pub nav_down : ℕ → Page → ℕ → Result (List Action)
nav_down fuel page item_index = do
  i ← element_named page (item_id (pos item_index))
  elem ← children_beside page i
  let first =
      if block_at page elem then get_element_by_id page.rows (child_id (pos item_index) 0) else none
  focus_item ← or_next fuel page (item_index + 1) first
  ok (focus_if focus_item)

abbrev pub style_if : Text → Option Place → List Action
style_if v none = []
style_if v (some q) = set_style q v ∷ []

-- Right and Left: to show and to hide the children
unfoldable pub nav_style : Text → Page → ℕ → Result (List Action)
nav_style v page item_index = do
  i ← element_named page (item_id (pos item_index))
  elem ← children_beside page i
  ok (style_if v elem)

-- The branches of `Nav` by `this.lastKey`, each with what the handler returns.
unfoldable pub nav_action : ℕ → Page → ℕ → ℕ → Result (List Action × Bool)
unfolding nav_up nav_up_from nav_down nav_style nav_next nav_prev last_child children_beside
    element_named
nav_action fuel page item_index key =
    if key == 38
    then (nav_up fuel page item_index >>= λ a. ok (a, false))
    else if key == 40
    then (nav_down fuel page item_index >>= λ a. ok (a, false))
    else if key == 39
    then (nav_style (txt "block") page item_index >>= λ a. ok (a, false))
    else if key == 37
    then (nav_style (txt "none") page item_index >>= λ a. ok (a, false))
    else if key == 27
    then ok (close_results_window ∷ focus_search_field ∷ [], false)
    else ok ([], key == 13)

-- `Nav`: the object behind it, what it does, and what it returns.
unfoldable pub nav :
    ℕ → Page → SearchResults → KeyEvent → ℕ → SearchResults × Result (List Action × Bool)
unfolding nav_action process_keys
nav fuel page self e item_index =
    if e.key_code == 13
    then (self, ok ([], true))
    else let (self', act) = process_keys self e in
      (self', (if act then nav_action fuel page item_index self'.last_key else ok ([], false)))
