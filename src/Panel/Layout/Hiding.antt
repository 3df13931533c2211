-- ===== src/Panel/Layout/Hiding.antt =====
-- The timers that close the menu of sections.
use owner_based_ball_game.Base.{List, [], arith, false, suc, true, ℕ, ◌<◌, ◌==◌, ◌∷◌, ◌≡◌}
use owner_based_ball_game.Panel.Layout.{Layout, on_search_select_hide, on_search_select_show}
use owner_based_ball_game.Panel.State.{
  Panel, Timer, clear_timeout, close_selection_window, run_search, set_timeout, without,
}

-- the numbers of the timers that will close the menu
unfoldable pub closing_ids : List Timer → List ℕ
closing_ids [] = []
closing_ids (t ∷ ts) =
    let rest = closing_ids ts in
    elim t.callback [ run_search ↦ rest | close_selection_window ↦ t.id ∷ rest ]

-- With no timer pending, leaving the menu and coming back cancels the closing; but leaving it
-- twice before coming back leaves the first of the two timers, which then closes the open menu, and
-- `hideTimeout` no longer names it.
pub on_search_select_hide-twice :
    (layout : Layout) (p : Panel)
    → p.timers ≡ []
    → 0 < p.next_timer
    → let once = on_search_select_show layout (on_search_select_hide p) in
      let twice = on_search_select_show layout (on_search_select_hide (on_search_select_hide p)) in
      (closing_ids once.timers ≡ [])
      × (closing_ids twice.timers ≡ p.next_timer ∷ [])
      × (twice.hide_timeout ≡ 0)
unfolding on_search_select_show on_search_select_hide set_timeout clear_timeout without closing_ids
on_search_select_hide-twice layout p empty old =
    let running : (p.next_timer == 0) ≡ false = ground arith in
    let running' : (suc p.next_timer == 0) ≡ false = ground arith in
    let self : (p.next_timer == p.next_timer) ≡ true = ground arith in
    let self' : (suc p.next_timer == suc p.next_timer) ≡ true = ground arith in
    let other : (p.next_timer == suc p.next_timer) ≡ false = ground arith in
    (rw (running, self, empty), rw (running', self', other, empty), rw (running'))
