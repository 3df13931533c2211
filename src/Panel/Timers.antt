-- ===== src/Panel/Timers.antt =====
-- The timers of the search panel: the events that set, kill and run them.
pub mod Events
pub mod Searches
pub mod Pending
use owner_based_ball_game.Base.{
  Bool, List, Option, [], if◌then◌else◌, ℕ, ◌++◌, ◌<◌, ◌==◌, ◌∷◌, ◌≡◌, ◌≢◌,
}
use owner_based_ball_game.Host.{Host}
use owner_based_ball_game.Memory.Chain.{apart}
use owner_based_ball_game.Panel.Field.{on_search_field_change}
use owner_based_ball_game.Panel.Layout.{
  Layout, close_selection, on_search_select_hide, on_search_select_show,
}
use owner_based_ball_game.Panel.Query.{activate, close_results, search_panel}
use owner_based_ball_game.Panel.State.{Callback, Panel, Timer, close_selection_window, run_search}
use owner_based_ball_game.Results.Keys.{KeyEvent}
use owner_based_ball_game.Results.Page.{Page}
use owner_based_ball_game.Text.{Text}

abbrev pub ids_of : Callback → ℕ → List ℕ → List ℕ
ids_of run_search n ns = n ∷ ns
ids_of close_selection_window n ns = ns

-- The numbers of the pending timers that will run `Search`.
unfoldable pub search_ids : List Timer → List ℕ
search_ids [] = []
search_ids (t ∷ ts) = ids_of t.callback t.id (search_ids ts)

-- The member `keyTimeout` as a list: a timeout of 0 is no timeout.
abbrev pub scheduled : ℕ → List ℕ
scheduled k = if k == 0 then [] else k ∷ []

-- The pending searches are the one that `keyTimeout` names, and the browser's next number is new.
pub record IsTracked (p : Panel) : Type 0 where
  pub tracked : search_ids p.timers ≡ scheduled p.key_timeout
  pub key_old : p.key_timeout < p.next_timer
  pub hide_old : p.hide_timeout < p.next_timer
  pub apart : p.key_timeout ≢ 0 → p.hide_timeout ≢ p.key_timeout

-- What the browser does when a timer runs out.
unfoldable pub run_callback : Host → Layout → Callback → Panel → Panel
unfolding search_panel close_selection
run_callback host layout run_search p = (search_panel host layout p).0
run_callback host layout close_selection_window p = close_selection p

-- One event of the panel, other than a choice in the menu; the browser may load any page into the frame.
pub data Step (host : Host) (layout : Layout) (fuel : ℕ) : Panel → Panel → Type 0 where
  field_change :
      (e : KeyEvent) (p : Panel)
      → Step host layout fuel p (on_search_field_change fuel layout e p).0
  field_focus : (b : Bool) (p : Panel) → Step host layout fuel p (activate b p)
  select_show : (p : Panel) → Step host layout fuel p (on_search_select_show layout p)
  select_hide : (p : Panel) → Step host layout fuel p (on_search_select_hide p)
  close : (p : Panel) → Step host layout fuel p (close_results p)
  loads :
      (page : Option Page) (p : Panel) → Step host layout fuel p (record p { frame_page = page })
  typed : (v : Text) (p : Panel) → Step host layout fuel p (record p { field_value = v })
  timer :
      (p : Panel) (xs ys : List Timer) (t : Timer)
      → p.timers ≡ xs ++ (t ∷ ys)
      → Step host layout fuel p
          (run_callback host layout t.callback (record p { timers = xs ++ ys }))

pub data Reach (host : Host) (layout : Layout) (fuel : ℕ) (p : Panel) : Panel → Type 0 where
  here : Reach host layout fuel p p
  next :
      {q r : Panel}
      → Reach host layout fuel p q
      → Step host layout fuel q r
      → Reach host layout fuel p r
