-- ===== src/Panel/Timers/Pending.antt =====
-- The search that a key press schedules is the only one pending, as long as no section is chosen in
-- the menu meanwhile.
use owner_based_ball_game.Base.{
  Bool, List, Option, [], arith, length, refl, true, ℕ, ◌∙◌, ◌∷◌, ◌≡◌, ◌≢◌, ◌≤◌,
}
use owner_based_ball_game.Host.{Host}
use owner_based_ball_game.Panel.Layout.{Layout}
use owner_based_ball_game.Panel.Query.{search_panel}
use owner_based_ball_game.Panel.Select.{on_select_item, select_item_set}
use owner_based_ball_game.Panel.State.{Panel, SelectChild, new_panel}
use owner_based_ball_game.Panel.Timers.{
  IsTracked, Reach, Step, close, field_change, field_focus, here, loads, next, scheduled,
  search_ids, select_hide, select_show, timer, typed,
}
use owner_based_ball_game.Panel.Timers.Events.{
  activate-IsTracked, close-IsTracked, field_change-IsTracked, select_hide-IsTracked,
  select_show-IsTracked,
}
use owner_based_ball_game.Panel.Timers.Searches.{search_panel-KeepsTimers, timer-IsTracked}
use owner_based_ball_game.Results.Page.{Page}
use owner_based_ball_game.Text.{Text, remove_spaces}
use owner_based_ball_game.Text.Laws.{text_eq_nil}

pub typed-IsTracked :
    (v : Text) {p : Panel} → IsTracked p → IsTracked (record p { field_value = v })
typed-IsTracked v t = ground arith

pub loads-IsTracked :
    (page : Option Page) {p : Panel} → IsTracked p → IsTracked (record p { frame_page = page })
loads-IsTracked page v = ground arith

pub Step-IsTracked :
    {host : Host} {layout : Layout} {fuel : ℕ} {p q : Panel}
    → Step host layout fuel p q
    → IsTracked p
    → IsTracked q
Step-IsTracked {layout} {fuel} (field_change e p) v = field_change-IsTracked fuel layout e v
Step-IsTracked (field_focus b p) v = activate-IsTracked b v
Step-IsTracked {layout} (select_show p) v = select_show-IsTracked layout v
Step-IsTracked (select_hide p) v = select_hide-IsTracked v
Step-IsTracked (close p) v = close-IsTracked v
Step-IsTracked (loads page p) v = loads-IsTracked page v
Step-IsTracked (typed t p) v = typed-IsTracked t v
Step-IsTracked {host} {layout} (timer p xs ys t e) v = timer-IsTracked host layout p xs ys t v e

pub Reach-IsTracked :
    {host : Host} {layout : Layout} {fuel : ℕ} {p q : Panel}
    → IsTracked p
    → Reach host layout fuel p q
    → IsTracked q
Reach-IsTracked v here = v
Reach-IsTracked v (next r s) = Step-IsTracked s (Reach-IsTracked v r)

pub new_panel-IsTracked :
    (path : Text) (in_frame : Bool) (label : Text) (children : List SelectChild)
    → IsTracked (new_panel path in_frame label children)
unfolding new_panel search_ids
new_panel-IsTracked path in_frame label children = record {
  tracked = refl;
  key_old = omega arith;
  hide_old = omega arith;
  apart = λ ne. absurd (ne refl);
}

-- After any events on a new panel, other than a choice in the menu, at most one search is pending,
-- and it is the one that `keyTimeout` names: the next change of the field can still kill it.
pub pending_search :
    (host : Host) (layout : Layout) (fuel : ℕ) (path : Text) (in_frame : Bool) (label : Text)
    (children : List SelectChild) {p : Panel}
    → Reach host layout fuel (new_panel path in_frame label children) p
    → (search_ids p.timers ≡ scheduled p.key_timeout) × (length (search_ids p.timers) ≤ 1)
pending_search host layout fuel path in_frame label children r =
    let v = Reach-IsTracked (new_panel-IsTracked path in_frame label children) r in
    (v.tracked, ground (arith, v.tracked))

scheduled_ne : {k : ℕ} → k ≢ 0 → scheduled k ≡ k ∷ []
scheduled_ne ne = ground arith

-- With a term in an active field, a choice in the menu searches.
pub on_select_item_lem :
    (host : Host) (layout : Layout) (id : ℕ) (p : Panel)
    → p.search_active ≡ true
    → remove_spaces p.field_value ≢ []
    → on_select_item host layout id p
      ≡ search_panel host layout (select_item_set id (record p { search_index = id }))
unfolding on_select_item
on_select_item_lem host layout id p active ne =
    let some_text = text_eq_nil (remove_spaces p.field_value) ne in
    rw some_text (ground (arith, active))

-- A menu choice that searches forgets a search that is pending: its timer runs on, but `keyTimeout`
-- is 0, so no later change of the field kills it.
pub select_forgets :
    (host : Host) (layout : Layout) (id : ℕ) (p : Panel)
    → IsTracked p
    → p.key_timeout ≢ 0
    → p.search_active ≡ true
    → remove_spaces p.field_value ≢ []
    → let p' = (on_select_item host layout id p).0 in
      (p'.key_timeout ≡ 0) × (search_ids p'.timers ≡ p.key_timeout ∷ [])
unfolding select_item_set
select_forgets host layout id p v pending active ne =
    let chosen = select_item_set id (record p { search_index = id }) in
    let k = search_panel-KeepsTimers host layout chosen in
    rw (on_select_item_lem host layout id p active ne)
      (k.key_same, rw k.timers_same (v.tracked ∙ scheduled_ne pending))
