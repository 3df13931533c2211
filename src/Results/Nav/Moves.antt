-- ===== src/Results/Nav/Moves.antt =====
-- What the arrow keys do on a page whose links are numbered from 0 on.
use owner_based_ball_game.Base.{
  List, Option, Result, [], ap, arith, false, length, none, ok, pos, refl, some, suc, true, zero, ℕ,
  ℤ, ◌+◌, ◌<◌, ◌>>=◌, ◌∷◌, ◌≡◌, ◌≤◌,
}
use owner_based_ball_game.Dom.{Place, get_element_by_id}
use owner_based_ball_game.Memory.Chain.{has}
use owner_based_ball_game.Results.Nav.{
  block_at, children_beside, element_named, focus, focus_if, focus_search_field, hidden, last_child,
  nav_down, nav_up, nav_up_from, pred_ℤ, slot,
}
use owner_based_ball_game.Results.Nav.Slots.{
  IsNumbered, first_shown, last_shown, last_shown-suc, nav_next_lem, nav_prev_lem,
}
use owner_based_ball_game.Results.Page.{Page, child_id, item_id}
use owner_based_ball_game.Text.{Text}

element_named_here :
    (page : Page) (id : Text) (q : Place)
    → get_element_by_id page.rows id ≡ some q
    → element_named page id ≡ ok q
unfolding element_named
element_named_here page id q h = rw (h, element_named)

-- Down from a link whose children are not shown goes to the first link behind it in a shown row, and
-- nowhere if there is none.
pub nav_down-closed :
    (page : Page) (count i k fuel : ℕ) (q : Place) (found : Option Place)
    → IsNumbered page count
    → i + 1 + k ≡ count
    → k < fuel
    → get_element_by_id page.rows (item_id (pos i)) ≡ some q
    → children_beside page q ≡ ok found
    → block_at page found ≡ false
    → nav_down fuel page i ≡ ok (focus_if (first_shown page (i + 1) k))
unfolding nav_down
nav_down-closed page count i k fuel q found num e enough here beside closed =
    rw (element_named_here page (item_id (pos i)) q here, beside, closed)
      (ap (λ (r : Result (Option Place)). r >>= λ o. ok (focus_if o))
        (nav_next_lem page count k (i + 1) fuel num e enough))

-- Up goes to the last link in front of this one in a shown row if the children beside that link are
-- not shown, and back to the search field if there is no such link.
pub nav_up-closed :
    (page : Page) (count i fuel : ℕ)
    → IsNumbered page count
    → i ≤ count
    → i < fuel
    → ((q : Place)
        → last_shown page i ≡ some q
        → (found : Option Place) × (children_beside page q ≡ ok found)
          × (block_at page found ≡ false))
    → nav_up fuel page i
      ≡ ok (elim (last_shown page i) [ none ↦ focus_search_field ∷ [] | some q ↦ focus q ∷ [] ])
unfolding nav_up
nav_up-closed page count i fuel num le enough closed =
    rw (nav_prev_lem page count i fuel num le enough) (up_from (last_shown page i) refl)
  where
    up_from :
        (o : Option Place)
        → last_shown page i ≡ o
        → nav_up_from fuel page (pred_ℤ (pos i)) o
          ≡ ok (elim o [ none ↦ focus_search_field ∷ [] | some q ↦ focus q ∷ [] ])
    up_from none e = unfold nav_up_from in refl
    up_from (some q) e =
        let (found, beside, shut) = closed q e in unfold nav_up_from in rw (beside, shut)

-- The links of the children of row `i`, from number `n` on: these and no more.
abbrev pub HasChildLinks : Page → ℤ → ℕ → List Place → Type 0
HasChildLinks page i n [] = get_element_by_id page.rows (child_id i n) ≡ none
HasChildLinks page i n (c ∷ cs) =
    (get_element_by_id page.rows (child_id i n) ≡ some c) × HasChildLinks page i (suc n) cs

abbrev pub last_place : Place → List Place → Place
last_place q [] = q
last_place q (c ∷ cs) = last_place c cs

last_child-last_place :
    (f : ℕ) (page : Page) (i : ℤ) (n : ℕ) (q : Place) (cs : List Place)
    → HasChildLinks page i n cs
    → length cs ≤ f
    → last_child (suc f) page i n q ≡ ok (last_place q cs)
unfolding last_child
last_child-last_place f page i n q [] none_left enough = rw (none_left, last_child) refl
last_child-last_place zero page i n q (c ∷ cs) h enough = absurd (omega arith)
last_child-last_place (suc f) page i n q (c ∷ cs) (e, h) enough =
    rw (e, last_child) (last_child-last_place f page i (suc n) c cs h (omega arith))

-- Up from a link behind a hidden row that has children, where the children of the shown link that it
-- finds are shown: the focus does not go to a child of that link, but to the last child of the hidden row.
pub nav_up-hidden_child :
    (page : Page) (count i f : ℕ) (q c : Place) (cs : List Place) (found : Option Place)
    → IsNumbered page count
    → suc i ≤ count
    → i ≤ f
    → length cs ≤ f
    → slot page (pos i) ≡ hidden
    → last_shown page i ≡ some q
    → children_beside page q ≡ ok found
    → block_at page found ≡ true
    → HasChildLinks page (pos i) 0 (c ∷ cs)
    → nav_up (suc (suc f)) page (suc i) ≡ ok (focus (last_place c cs) ∷ [])
unfolding nav_up
nav_up-hidden_child page count i f q c cs found num le enough few hid last beside shown_below has =
    rw
      (
        nav_prev_lem page count (suc i) (suc (suc f)) num le (omega arith),
        last_shown-suc page i hid,
        last,
      )
      (unfold nav_up_from in
        rw
          (
            beside,
            shown_below,
            last_child-last_place (suc f) page (pos i) 0 q (c ∷ cs) has (omega arith),
          )
          refl)
