-- ===== src/Panel/Layout.antt =====
-- Where the panel's windows go: `getXPos`, `getYPos` and `OnSearchSelectShow` of
-- docs/html/search/search.js, over what the browser's layout gives.
pub mod Sums
pub mod Hiding
use owner_based_ball_game.Base.{Bool, if◌then◌else◌, pos, ℕ, ℤ, ◌+ℤ◌, ◌-ℤ◌, ◌==◌}
use owner_based_ball_game.Panel.State.{
  Panel, Style, clear_timeout, close_selection_timeout, close_selection_window, set_timeout,
}
use owner_based_ball_game.Text.{txt}

-- The chain of `offsetParent`: it ends in nothing, or in `document.body`.
pub data Ancestry : Type 0 where
  top_level body : Ancestry
  inside : ℤ → ℤ → Ancestry → Ancestry

-- An element's `offsetWidth`, `offsetHeight`, `offsetLeft`, `offsetTop` and `offsetParent`
pub record OffsetBox : Type 0 where
  pub offset_width : ℕ
  pub offset_height : ℕ
  pub offset_left : ℤ
  pub offset_top : ℤ
  pub offset_parent : Ancestry

-- The loops of `getXPos` and `getYPos`, from the sum so far.
add_left : ℤ → Ancestry → ℤ
add_left x top_level = x
add_left x body = x
add_left x (inside l t up) = add_left (x +ℤ l) up

add_top : ℤ → Ancestry → ℤ
add_top y top_level = y
add_top y body = y
add_top y (inside l t up) = add_top (y +ℤ t) up

unfoldable pub get_x_pos : OffsetBox → ℤ
unfolding add_left
get_x_pos item =
    if item.offset_width == 0
    then pos 0
    else add_left (pos 0) (inside item.offset_left item.offset_top item.offset_parent)

unfoldable pub get_y_pos : OffsetBox → ℤ
unfolding add_top
get_y_pos item =
    if item.offset_width == 0
    then pos 0
    else add_top (pos 0) (inside item.offset_left item.offset_top item.offset_parent)

-- What the layout gives for the elements that the panel places: `MSearchSelect`, `MSearchBox`, and
-- the widths of `MSearchSelectWindow` and `MSearchResults` when they are shown and of the body.
pub record Layout : Type 0 where
  pub select_box : OffsetBox
  pub search_box : OffsetBox
  pub select_window_width : ℕ
  pub results_width : ℕ
  pub client_width : ℕ

-- `OnSearchSelectShow`: the place of the menu, and the end of the timer that would close it
place_select : Layout → Bool → Style → Style
unfolding get_x_pos get_y_pos
place_select layout in_frame s =
    let field = layout.select_box in
    if in_frame
    then record s {
      display = txt "block";
      left = get_x_pos field +ℤ (pos field.offset_width +ℤ pos 6) -ℤ pos layout.select_window_width;
      top = get_y_pos field +ℤ pos field.offset_height;
    }
    else record s {
      display = txt "block";
      left = get_x_pos field;
      top = get_y_pos field +ℤ pos field.offset_height;
    }

unfoldable pub on_search_select_show : Layout → Panel → Panel
unfolding place_select clear_timeout
on_search_select_show layout p =
    let shown = record p { select_window = place_select layout p.inside_frame p.select_window } in
    if p.hide_timeout == 0
    then shown
    else record (clear_timeout p.hide_timeout shown) { hide_timeout = 0 }

-- `OnSearchSelectHide`
unfoldable pub on_search_select_hide : Panel → Panel
unfolding set_timeout
on_search_select_hide p = record (set_timeout close_selection_window close_selection_timeout p) {
  hide_timeout = p.next_timer;
}

-- `CloseSelectionWindow`
unfoldable pub close_selection : Panel → Panel
close_selection p = record p { select_window = record p.select_window { display = txt "none" } }
