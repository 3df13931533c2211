-- ===== src/Panel/Query/Closing.antt =====
-- Opening, closing and repeating a search.
use owner_based_ball_game.Base.{
  Bool-cases, Result, [], ap, arith, false, if◌then◌else◌, inl, inr, ok, out_of_fuel, refl, true,
  type_error, ℕ, ◌==◌, ◌||◌, ◌∙◌, ◌≡◌, ◌≢◌,
}
use owner_based_ball_game.Host.{Host}
use owner_based_ball_game.Panel.Field.{
  compare_value, kill_key_timer, on_search_field_change, react_to_key,
}
use owner_based_ball_game.Panel.Layout.{Layout}
use owner_based_ball_game.Panel.Query.{
  Target, activate, close_results, search_panel, search_with, show_results,
}
use owner_based_ball_game.Panel.State.{Panel, key_timeout_length, run_search, set_timeout}
use owner_based_ball_game.Results.Keys.{KeyEvent}
use owner_based_ball_game.Text.{Text, remove_spaces, strip_leading, text_eq, txt}
use owner_based_ball_game.Text.Laws.{eq_of_text_eq, text_eq_nil, text_eq_refl}

pub record IsClosed (p : Panel) : Type 0 where
  pub results_hidden : p.results_window.display ≡ txt "none"
  pub close_hidden : p.close_display ≡ txt "none"
  pub inactive : (p.search_active ≡ false) × (p.box_class ≡ txt "MSearchBoxInactive")
  pub label_back : p.field_value ≡ p.search_label
  pub forgotten : (p.last_search_value ≡ []) × (p.last_results_page ≡ [])

-- `CloseResultsWindow` closes the panel from any state.
pub close_results-IsClosed : (p : Panel) → IsClosed (close_results p)
unfolding close_results text_eq
close_results-IsClosed p = ground arith

none-ne-block : (t : Text) → t ≡ txt "none" → text_eq t (txt "block") ≡ false
unfolding text_eq
none-ne-block t h = rw h

-- On a closed panel, entering the field clears the label and activates the panel; leaving it with
-- nothing typed closes the panel again.
pub activate-IsClosed :
    (p : Panel)
    → IsClosed p
    → let q = activate true p in
      (q.field_value ≡ [])
      × (q.search_active ≡ true)
      × (q.box_class ≡ txt "MSearchBoxActive")
      × IsClosed (activate false q)
unfolding activate
activate-IsClosed p v =
    let label : text_eq p.field_value p.search_label ≡ true = rw v.label_back (text_eq_refl _) in
    let closed = none-ne-block p.results_window.display v.results_hidden in
    ground (arith, label, closed)

-- What a search that returned leaves.
record IsSearched (p q : Panel) (value : Text) : Type 0 where
  shown : q.results_window.display ≡ txt "block"
  kept : q.last_search_value ≡ value
  typed : q.field_value ≡ p.field_value
  no_timer : q.key_timeout ≡ p.key_timeout

show_results-shown :
    (layout : Layout) (p : Panel)
    → let q = show_results layout p in
      (q.results_window.display ≡ txt "block")
      × (q.field_value ≡ p.field_value)
      × (q.key_timeout ≡ p.key_timeout)
unfolding show_results
show_results-shown layout p = ground (arith, eq_of_text_eq p.results_window.display (txt "block"))

search_with-IsSearched :
    (layout : Layout) (p : Panel) (value : Text) (r : Result Target)
    → (search_with layout p value r).1 ≡ ok tt
    → IsSearched p (search_with layout p value r).0 value
search_with-IsSearched layout p value (ok t) h =
    let s = show_results-shown layout (record p { frame_location = t.with_search }) in
    unfold search_with in record { shown = s.0; kept = refl; typed = s.1; no_timer = s.2 }
search_with-IsSearched layout p value type_error h = unfold search_with in cc
search_with-IsSearched layout p value out_of_fuel h = unfold search_with in cc

search_panel-IsSearched :
    (host : Host) (layout : Layout) (p : Panel)
    → (search_panel host layout p).1 ≡ ok tt
    → IsSearched
        (record p { key_timeout = 0 })
        (search_panel host layout p).0
        (strip_leading p.field_value)
search_panel-IsSearched host layout p h =
    unfold search_panel in
    search_with-IsSearched layout (record p { key_timeout = 0 }) (strip_leading p.field_value) _ h

-- Behind a search that returned, the results are shown, the searched term is kept without the
-- spaces in front of it, the field is as it was, and no timeout is left in `keyTimeout`.
pub search_panel-shown :
    (host : Host) (layout : Layout) (p : Panel)
    → (search_panel host layout p).1 ≡ ok tt
    → let q = (search_panel host layout p).0 in
      (q.results_window.display ≡ txt "block")
      × (q.last_search_value ≡ strip_leading p.field_value)
      × (q.field_value ≡ p.field_value)
      × (q.key_timeout ≡ 0)
search_panel-shown host layout p h =
    let s = search_panel-IsSearched host layout p h in (s.shown, s.kept, s.typed, s.no_timer)

-- the panel with a new timer for a search
abbrev searching_again : Panel → Panel
searching_again q = record (set_timeout run_search key_timeout_length q) {
  key_timeout = q.next_timer;
}

compare_value-timer :
    (q : Panel)
    → remove_spaces q.field_value ≢ []
    → compare_value q
      ≡ (if text_eq (remove_spaces q.field_value) q.last_search_value then q else searching_again q)
unfolding compare_value
compare_value-timer q ne =
    rw (text_eq_nil (remove_spaces q.field_value) ne)
      (elim (Bool-cases (text_eq (remove_spaces q.field_value) q.last_search_value)) [
        | inl same ↦ rw same refl
        | inr changed ↦ rw changed refl
      ])

other_key-compare_value :
    (fuel : ℕ) (layout : Layout) (e : KeyEvent) (q : Panel)
    → (e.key_code == 40 || e.key_code == 13 || e.key_code == 27) ≡ false
    → q.key_timeout ≡ 0
    → on_search_field_change fuel layout e q ≡ (compare_value q, ok tt)
unfolding on_search_field_change kill_key_timer react_to_key
other_key-compare_value fuel layout e q other none_left =
    let down : (e.key_code == 40 || e.key_code == 13) ≡ false = ground arith in
    let escape : (e.key_code == 27) ≡ false = ground arith in rw (none_left, down, escape) refl

-- Behind a search that returned, a key in the field other than Down, Enter and Escape sets a timer for
-- another search if the field has spaces other than in front of its text, although the text has not
-- changed; otherwise it changes nothing.
pub on_search_field_change-search_panel :
    (host : Host) (layout : Layout) (fuel : ℕ) (e : KeyEvent) (p : Panel)
    → (search_panel host layout p).1 ≡ ok tt
    → remove_spaces p.field_value ≢ []
    → (e.key_code == 40 || e.key_code == 13 || e.key_code == 27) ≡ false
    → let q = (search_panel host layout p).0 in
      on_search_field_change fuel layout e q ≡ (
        if text_eq (remove_spaces p.field_value) (strip_leading p.field_value)
            then q
            else record (set_timeout run_search key_timeout_length q) {
              key_timeout = q.next_timer;
            },
        ok tt,
      )
on_search_field_change-search_panel host layout fuel e p h ne other =
    let q = (search_panel host layout p).0 in
    let s = search_panel-IsSearched host layout p h in
    let compared = compare_value-timer q (rw s.typed ne) in
    other_key-compare_value fuel layout e q other s.no_timer
    ∙ ap (λ (r : Panel). (r, ok tt)) (rw (s.typed, s.kept) at compared)
