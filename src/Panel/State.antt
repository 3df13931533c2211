-- ===== src/Panel/State.antt =====
-- The state of the search panel of docs/html/search/search.js: the object `SearchBox`, and of the
-- document and the browser what its methods read and write.
use owner_based_ball_game.Base.{
  Bool, List, Option, [], false, if◌then◌else◌, none, pos, suc, ℕ, ℤ, ◌==◌, ◌∷◌,
}
use owner_based_ball_game.Dom.{Place}
use owner_based_ball_game.Results.Page.{Page}
use owner_based_ball_game.Text.{Text, txt}

pub data Callback : Type 0 where
  run_search close_selection_window : Callback

pub record Timer : Type 0 where
  pub id : ℕ
  pub callback : Callback
  pub delay : ℕ

-- `element.style`; a length `n + 'px'` is its number.
pub record Style : Type 0 where
  pub display : Text
  pub position : Text
  pub left : ℤ
  pub top : ℤ
  pub width : ℤ

-- A child of `MSearchSelectWindow`: its class, the text of its first child and the text behind that,
-- and the `n` of its `searchBox.OnSelectItem(n)`, if it has that as its onclick
pub record SelectChild : Type 0 where
  pub class_name : Text
  pub mark : Text
  pub label : Text
  pub on_click : Option ℕ

-- A call of `focus()` or `blur()`
pub data Focus : Type 0 where
  focus_field blur_field : Focus
  focus_select_child : ℕ → Focus
  focus_result : Place → Focus

pub record Panel : Type 0 where
  -- the members of `SearchBox`; a timeout of 0 is no timeout
  pub results_path : Text
  pub key_timeout : ℕ
  pub last_search_value : Text
  pub last_results_page : Text
  pub hide_timeout : ℕ
  pub search_index : ℕ
  pub search_active : Bool
  pub inside_frame : Bool
  pub search_label : Text
  -- `MSearchField.value`, `MSearchBox.className`, `MSearchClose.style.display`
  pub field_value : Text
  pub box_class : Text
  pub close_display : Text
  -- `MSearchSelectWindow`, `MSearchResultsWindow` and the width of `MSearchResults`
  pub select_window : Style
  pub select_children : List SelectChild
  pub results_window : Style
  pub results_width : ℤ
  -- the frame `MSearchResults`: its address, and the page in it if that has its `searchResults`
  pub frame_location : Text
  pub frame_page : Option Page
  -- the pending timers of the browser, the next number of one, and the calls made, newest first
  pub timers : List Timer
  pub next_timer : ℕ
  pub focus_calls : List Focus

abbrev pub key_timeout_length : ℕ
key_timeout_length = 500

abbrev pub close_selection_timeout : ℕ
close_selection_timeout = 300

abbrev pub hidden_style : Style
hidden_style = record { display = []; position = []; left = pos 0; top = pos 0; width = pos 0 }

-- `new SearchBox(name, resultsPath, inFrame, label)`, on a page whose field shows the label
unfoldable pub new_panel : Text → Bool → Text → List SelectChild → Panel
new_panel results_path in_frame label children = record {
  results_path = results_path;
  key_timeout = 0;
  last_search_value = [];
  last_results_page = [];
  hide_timeout = 0;
  search_index = 0;
  search_active = false;
  inside_frame = in_frame;
  search_label = label;
  field_value = label;
  box_class = txt "MSearchBoxInactive";
  close_display = [];
  select_window = hidden_style;
  select_children = children;
  results_window = hidden_style;
  results_width = pos 0;
  frame_location = [];
  frame_page = none;
  timers = [];
  next_timer = 1;
  focus_calls = [];
}

-- The timers but the one of that number.
unfoldable pub without : ℕ → List Timer → List Timer
without n [] = []
without n (t ∷ ts) = let rest = without n ts in if t.id == n then rest else t ∷ rest

-- `clearTimeout(n)`
unfoldable pub clear_timeout : ℕ → Panel → Panel
unfolding without
clear_timeout n p = record p { timers = without n p.timers }

-- `setTimeout(callback, delay)`, which gives the number `next_timer`
unfoldable pub set_timeout : Callback → ℕ → Panel → Panel
set_timeout callback delay p = record p {
  timers = record { id = p.next_timer; callback = callback; delay = delay } ∷ p.timers;
  next_timer = suc p.next_timer;
}
