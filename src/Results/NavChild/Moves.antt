-- ===== src/Results/NavChild/Moves.antt =====
-- What Up and Down do on a child link of a page whose links are numbered from 0 on.
use owner_based_ball_game.Base.{
  Option-cases, [], arith, first_some, inl, inr, ltb, ok, pos, some, true, ℕ, ◌+◌, ◌-◌, ◌<◌, ◌∷◌,
  ◌≡◌,
}
use owner_based_ball_game.Dom.{Place, get_element_by_id}
use owner_based_ball_game.Results.Nav.{element_named, focus, focus_if}
use owner_based_ball_game.Results.Nav.Slots.{IsNumbered, first_shown, nav_next_lem}
use owner_based_ball_game.Results.NavChild.{child_down, child_up}
use owner_based_ball_game.Results.Page.{Page, child_id}

-- From a child, Down goes to the next child of the same link; from the last one it goes to the first
-- link behind that link in a shown row, and nowhere if there is none. Up from the child behind it
-- comes back to it.
pub child_down-child_up :
    (page : Page) (count i c k fuel : ℕ) (q : Place)
    → IsNumbered page count
    → i + 1 + k ≡ count
    → k < fuel
    → get_element_by_id page.rows (child_id (pos i) c) ≡ some q
    → (child_down fuel page i c
        ≡ ok (
            focus_if (
              first_some
                (get_element_by_id page.rows (child_id (pos i) (c + 1)))
                (first_shown page (i + 1) k))))
      × (child_up page i (c + 1) ≡ ok (focus q ∷ []))
unfolding child_down child_up element_named
child_down-child_up page count i c k fuel q num e enough found =
    let back : c + 1 - 1 ≡ c = omega arith in
    let behind : ltb 0 (c + 1) ≡ true = ground arith in
    (
      elim (Option-cases (get_element_by_id page.rows (child_id (pos i) (c + 1)))) [
        | inl last ↦ rw (last, nav_next_lem page count k (i + 1) fuel num e enough)
        | inr (r, more) ↦ rw more
      ],
      rw (behind, back, element_named, found),
    )
