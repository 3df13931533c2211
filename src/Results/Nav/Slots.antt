-- ===== src/Results/Nav/Slots.antt =====
-- Where `NavNext` and `NavPrev` end, on a page whose links are numbered from 0 on.
use owner_based_ball_game.Base.{
  Bool-cases, Option, arith, inl, inr, negsuc, none, ok, pos, refl, some, suc, type_error, zero, ℕ,
  ℤ, ◌+◌, ◌<◌, ◌∙◌, ◌≡◌, ◌≢◌, ◌≤◌, ◌⊎◌,
}
use owner_based_ball_game.Dom.{Place, get_element_by_id}
use owner_based_ball_game.Results.Nav.{
  Slot, broken, hidden, missing, nav_next, nav_prev, pred_ℤ, shown, slot, slot_in_row, slot_of,
}
use owner_based_ball_game.Results.Page.{Page, is_displayed, item_id, row_of}
use owner_based_ball_game.Text.{txt}

pub slot-missing :
    (page : Page) (i : ℤ) → get_element_by_id page.rows (item_id i) ≡ none → slot page i ≡ missing
unfolding slot slot_of
slot-missing page i e = rw e

-- An element in a row is shown or hidden.
pub slot-in_row :
    (page : Page) (i : ℤ) (q r : Place)
    → get_element_by_id page.rows (item_id i) ≡ some q
    → row_of q ≡ ok r
    → (slot page i ≢ missing) × (slot page i ≢ broken)
unfolding slot slot_of slot_in_row
slot-in_row page i q r e stands =
    rw (e, stands)
      (elim (Bool-cases (is_displayed page.rows (txt "block") r)) [
        | inl on ↦ rw (slot_in_row, on) (λ h. cc, λ h. cc)
        | inr off ↦ rw (slot_in_row, off) (λ h. cc, λ h. cc)
      ])

-- The links have the numbers below `count`, and each stands in a row.
pub record IsNumbered (page : Page) (count : ℕ) : Type 0 where
  pub present : (i : ℕ) → i < count → (slot page (pos i) ≢ missing) × (slot page (pos i) ≢ broken)
  pub past_end : slot page (pos count) ≡ missing
  pub before_start : slot page (negsuc 0) ≡ missing

-- The first link in a shown row among the `k` from `i` on.
unfoldable pub first_shown : Page → ℕ → ℕ → Option Place
first_shown page i zero = none
first_shown page i (suc k) = elim (slot page (pos i)) [
  | shown q ↦ some q
  | _ ↦ first_shown page (suc i) k
]

-- The last link in a shown row among those below `k`.
unfoldable pub last_shown : Page → ℕ → Option Place
last_shown page zero = none
last_shown page (suc k) = elim (slot page (pos k)) [ shown q ↦ some q | _ ↦ last_shown page k ]

in_row : (s : Slot) → (s ≢ missing) × (s ≢ broken) → (s ≡ hidden) ⊎ ((q : Place) × (s ≡ shown q))
in_row missing (h, _) = absurd (h refl)
in_row hidden h = inl refl
in_row broken (_, h) = absurd (h refl)
in_row (shown q) h = inr (q, refl)

nav_prev-suc :
    (f : ℕ) (page : Page) (i : ℤ) (s : Slot)
    → slot page i ≡ s
    → nav_prev (suc f) page i ≡ elim s [
      | missing ↦ ok none
      | shown q ↦ ok (some q)
      | hidden ↦ nav_prev f page (pred_ℤ i)
      | broken ↦ type_error
    ]
unfolding nav_prev
nav_prev-suc f page i s e = rw (e, nav_prev)

nav_next-suc :
    (f : ℕ) (page : Page) (i : ℕ) (s : Slot)
    → slot page (pos i) ≡ s
    → nav_next (suc f) page i ≡ elim s [
      | missing ↦ ok none
      | shown q ↦ ok (some q)
      | hidden ↦ nav_next f page (suc i)
      | broken ↦ type_error
    ]
unfolding nav_next
nav_next-suc f page i s e = rw (e, nav_next)

-- With fuel for the links that are left, `NavNext` ends, at the first link from the given number on
-- that stands in a shown row, and returns null if there is none.
pub nav_next_lem :
    (page : Page) (count k i fuel : ℕ)
    → IsNumbered page count
    → i + k ≡ count
    → k < fuel
    → nav_next fuel page i ≡ ok (first_shown page i k)
unfolding first_shown
nav_next_lem page count k i zero num e enough = absurd (omega arith)
nav_next_lem page count zero i (suc f) num e enough =
    let last : i ≡ count = omega arith in nav_next-suc f page i missing (rw last num.past_end)
nav_next_lem page count (suc k) i (suc f) num e enough =
    elim (in_row (slot page (pos i)) (num.present i (omega arith))) [
      | inl h ↦
          nav_next-suc f page i hidden h
          ∙ rw (h, first_shown)
              (nav_next_lem page count k (suc i) f num (omega arith) (omega arith))
      | inr (q, h) ↦ nav_next-suc f page i (shown q) h ∙ rw (h, first_shown)
    ]

-- `NavPrev` ends, at the last link below the given number that stands in a shown row, and returns
-- null if there is none.
pub nav_prev_lem :
    (page : Page) (count k fuel : ℕ)
    → IsNumbered page count
    → k ≤ count
    → k < fuel
    → nav_prev fuel page (pred_ℤ (pos k)) ≡ ok (last_shown page k)
unfolding last_shown
nav_prev_lem page count k zero num e enough = absurd (omega arith)
nav_prev_lem page count zero (suc f) num e enough =
    nav_prev-suc f page (negsuc 0) missing num.before_start
nav_prev_lem page count (suc k) (suc f) num e enough =
    elim (in_row (slot page (pos k)) (num.present k (omega arith))) [
      | inl h ↦
          nav_prev-suc f page (pos k) hidden h
          ∙ rw (h, last_shown) (nav_prev_lem page count k f num (omega arith) (omega arith))
      | inr (q, h) ↦ nav_prev-suc f page (pos k) (shown q) h ∙ rw (h, last_shown)
    ]

pub last_shown-suc :
    (page : Page) (k : ℕ) → slot page (pos k) ≡ hidden → last_shown page (suc k) ≡ last_shown page k
unfolding last_shown
last_shown-suc page k h = rw (last_shown, h)
