-- ===== src/Panel/Timers/Searches.antt =====
-- `Search`, and what a timer that runs out leaves pending.
use owner_based_ball_game.Base.{
  List, Result, [], arith, ok, out_of_fuel, refl, type_error, ℕ, ◌++◌, ◌<◌, ◌∷◌, ◌≡◌,
}
use owner_based_ball_game.Host.{Host}
use owner_based_ball_game.Panel.Layout.{Layout}
use owner_based_ball_game.Panel.Query.{Target, search_panel, search_with, show_results}
use owner_based_ball_game.Panel.State.{Callback, Panel, Timer, close_selection_window, run_search}
use owner_based_ball_game.Panel.Timers.{IsTracked, ids_of, run_callback, scheduled, search_ids}
use owner_based_ball_game.Panel.Timers.Events.{search_ids-append}
use owner_based_ball_game.Text.{Text}

-- The members that the timers go by are the same in both panels.
pub record KeepsTimers (p q : Panel) : Type 0 where
  pub key_same : q.key_timeout ≡ p.key_timeout
  pub timers_same : q.timers ≡ p.timers
  pub next_same : q.next_timer ≡ p.next_timer
  pub hide_same : q.hide_timeout ≡ p.hide_timeout

show_results-KeepsTimers : (layout : Layout) (p : Panel) → KeepsTimers p (show_results layout p)
unfolding show_results
show_results-KeepsTimers layout p = ground arith

search_with-KeepsTimers :
    (layout : Layout) (p : Panel) (value : Text) (r : Result Target)
    → KeepsTimers p (search_with layout p value r).0
search_with-KeepsTimers layout p value (ok t) =
    let k = show_results-KeepsTimers layout (record p { frame_location = t.with_search }) in
    unfold search_with in
    record {
      key_same = k.key_same;
      timers_same = k.timers_same;
      next_same = k.next_same;
      hide_same = k.hide_same;
    }
search_with-KeepsTimers layout p value type_error = unfold search_with in ground arith
search_with-KeepsTimers layout p value out_of_fuel = unfold search_with in ground arith

-- `Search` sets `keyTimeout` to 0, and starts and kills no timer.
pub search_panel-KeepsTimers :
    (host : Host) (layout : Layout) (p : Panel)
    → KeepsTimers (record p { key_timeout = 0 }) (search_panel host layout p).0
search_panel-KeepsTimers host layout p =
    unfold search_panel in search_with-KeepsTimers layout (record p { key_timeout = 0 }) _ _

only_one :
    (before behind : List ℕ) (n k : ℕ)
    → before ++ (n ∷ behind) ≡ scheduled k
    → before ++ behind ≡ []
only_one [] [] n k h = refl
only_one [] (b ∷ bs) n k h = ground arith
only_one (a ∷ []) bs n k h = ground arith
only_one (a ∷ b ∷ cs) bs n k h = ground arith

-- With no other search pending, running one leaves none.
pub search-IsTracked :
    (host : Host) (layout : Layout) (p : Panel)
    → search_ids p.timers ≡ []
    → 0 < p.next_timer
    → p.hide_timeout < p.next_timer
    → IsTracked (search_panel host layout p).0
search-IsTracked host layout p none_left positive old =
    let k = search_panel-KeepsTimers host layout p in
    record {
      tracked = rw (k.timers_same, k.key_same) none_left;
      key_old = rw (k.key_same, k.next_same) positive;
      hide_old = rw (k.hide_same, k.next_same) old;
      apart = λ ne. absurd (ne k.key_same);
    }

pub timer-IsTracked :
    (host : Host) (layout : Layout) (p : Panel) (xs ys : List Timer) (t : Timer)
    → IsTracked p
    → p.timers ≡ xs ++ (t ∷ ys)
    → IsTracked (run_callback host layout t.callback (record p { timers = xs ++ ys }))
timer-IsTracked host layout p xs ys t v e = by_callback t.callback refl
  where
    split : search_ids xs ++ ids_of t.callback t.id (search_ids ys) ≡ scheduled p.key_timeout
    split = unfold search_ids in rw (e, search_ids-append) at v.tracked

    by_callback :
        (c : Callback)
        → t.callback ≡ c
        → IsTracked (run_callback host layout c (record p { timers = xs ++ ys }))
    by_callback run_search c =
        unfold run_callback in
        search-IsTracked host layout (record p { timers = xs ++ ys })
          (rw search_ids-append (only_one _ _ _ _ (rw c at split))) (omega (arith, v.key_old))
          v.hide_old
    by_callback close_selection_window c =
        unfold run_callback in
        record {
          tracked = rw search_ids-append (rw c at split);
          key_old = v.key_old;
          hide_old = v.hide_old;
          apart = v.apart;
        }
