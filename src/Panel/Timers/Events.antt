-- ===== src/Panel/Timers/Events.antt =====
-- Each handler of the panel keeps track of the one pending search.
use owner_based_ball_game.Base.{
  Bool, Bool-cases, List, Option, Result, [], arith, false, if◌then◌else◌, inl, inr, none, ok,
  out_of_fuel, refl, some, true, type_error, ℕ, ◌++◌, ◌==◌, ◌||◌, ◌∷◌, ◌≡◌,
}
use owner_based_ball_game.Dom.{Place}
use owner_based_ball_game.Panel.Field.{
  compare_value, down_key, escape_field, focus_first, focus_found, kill_key_timer, nav_frame,
  on_search_field_change, react_to_key,
}
use owner_based_ball_game.Panel.Layout.{Layout, on_search_select_hide, on_search_select_show}
use owner_based_ball_game.Panel.Query.{activate, close_results}
use owner_based_ball_game.Panel.State.{Panel, Timer, without}
use owner_based_ball_game.Panel.Timers.{IsTracked, search_ids}
use owner_based_ball_game.Results.Keys.{KeyEvent}

abbrev without_id : ℕ → List ℕ → List ℕ
without_id n [] = []
without_id n (m ∷ ms) = let rest = without_id n ms in if m == n then rest else m ∷ rest

search_ids-without :
    (n : ℕ) (ts : List Timer) → search_ids (without n ts) ≡ without_id n (search_ids ts)
unfolding search_ids without
search_ids-without n [] = refl
search_ids-without n (t ∷ ts) = ground (arith, search_ids-without n ts)

pub search_ids-append :
    (xs ys : List Timer) → search_ids (xs ++ ys) ≡ search_ids xs ++ search_ids ys
unfolding search_ids
search_ids-append [] ys = refl
search_ids-append (t ∷ xs) ys = ground (arith, search_ids-append xs ys)

pub activate-IsTracked : (b : Bool) {p : Panel} → IsTracked p → IsTracked (activate b p)
unfolding activate
activate-IsTracked b v = ground arith

pub select_show-IsTracked :
    (layout : Layout) {p : Panel} → IsTracked p → IsTracked (on_search_select_show layout p)
unfolding on_search_select_show
select_show-IsTracked layout {p} v = ground (arith, search_ids-without p.hide_timeout p.timers)

pub select_hide-IsTracked : {p : Panel} → IsTracked p → IsTracked (on_search_select_hide p)
unfolding on_search_select_hide search_ids
select_hide-IsTracked v = ground arith

pub kill-IsTracked :
    {p : Panel} → IsTracked p → IsTracked (kill_key_timer p) × ((kill_key_timer p).key_timeout ≡ 0)
unfolding kill_key_timer
kill-IsTracked {p} v = ground (arith, search_ids-without p.key_timeout p.timers)

pub compare-IsTracked : {p : Panel} → IsTracked p → p.key_timeout ≡ 0 → IsTracked (compare_value p)
unfolding compare_value search_ids
compare-IsTracked v h = ground arith

pub escape-IsTracked : {p : Panel} → IsTracked p → IsTracked (escape_field p)
unfolding escape_field
escape-IsTracked v = ground arith

pub focus_first-IsTracked : (o : Option ℕ) {p : Panel} → IsTracked p → IsTracked (focus_first p o)
focus_first-IsTracked none v = v
focus_first-IsTracked (some i) v = ground arith

pub focus_found-IsTracked :
    (o : Option Place) {p : Panel}
    → IsTracked p
    → p.key_timeout ≡ 0
    → IsTracked (focus_found p o) × ((focus_found p o).key_timeout ≡ 0)
focus_found-IsTracked none v h = (v, h)
focus_found-IsTracked (some q) v h = ground arith

pub down_key-IsTracked :
    (fuel : ℕ) (layout : Layout) (shift : Bool) {p : Panel}
    → IsTracked p
    → p.key_timeout ≡ 0
    → IsTracked (down_key fuel layout shift p).0
down_key-IsTracked fuel layout true {p} v h =
    unfold down_key in focus_first-IsTracked _ (select_show-IsTracked layout v)
down_key-IsTracked fuel layout false {p} v h = from_frame (nav_frame fuel p.frame_page) refl
  where
    from_frame :
        (r : Result (Option Place))
        → nav_frame fuel p.frame_page ≡ r
        → IsTracked (down_key fuel layout false p).0
    from_frame (ok o) e =
        let (w, k) = focus_found-IsTracked o v h in
        unfold down_key in rw (e, down_key) (compare-IsTracked w k)
    from_frame type_error e = unfold down_key in rw (e, down_key) v
    from_frame out_of_fuel e = unfold down_key in rw (e, down_key) v

pub react-IsTracked :
    (fuel : ℕ) (layout : Layout) (e : KeyEvent) {p : Panel}
    → IsTracked p
    → p.key_timeout ≡ 0
    → IsTracked (react_to_key fuel layout e p).0
react-IsTracked fuel layout e v h = elim (Bool-cases (e.key_code == 40 || e.key_code == 13)) [
  | inl down ↦ unfold react_to_key in rw down (down_key-IsTracked fuel layout e.shift_key v h)
  | inr other ↦ elim (Bool-cases (e.key_code == 27)) [
    | inl esc ↦ unfold react_to_key in rw (other, esc) (escape-IsTracked v)
    | inr rest ↦ unfold react_to_key in rw (other, rest) (compare-IsTracked v h)
  ]
]

pub field_change-IsTracked :
    (fuel : ℕ) (layout : Layout) (e : KeyEvent) {p : Panel}
    → IsTracked p
    → IsTracked (on_search_field_change fuel layout e p).0
field_change-IsTracked fuel layout e {p} v =
    let (w, k) = kill-IsTracked v in
    unfold on_search_field_change in react-IsTracked fuel layout e w k

pub close-IsTracked : {p : Panel} → IsTracked p → IsTracked (close_results p)
unfolding close_results
close-IsTracked v = ground arith
