-- ===== src/Tests/DirectoryTree.antt =====
-- The directory tree of the documentation with four rows; a page is what it shows of them.
use owner_based_ball_game.Base.{
  All, Bool, List, [], false, if◌then◌else◌, leb, not, refl, true, ℕ, ◌&&◌, ◌+◌, ◌==◌, ◌||◌, ◌∷◌,
  ◌≡◌,
}
use owner_based_ball_game.Directory.{
  Element, JQuery, child_rows, depth, digits_then_bar, first_visible, is_child_id, keep_if,
  rows_behind, rows_below, toggle_folder, toggle_level, turn, update_stripes,
}
use owner_based_ball_game.Directory.Query.{Laws, is_in}
use owner_based_ball_game.Directory.Shown.{toggle_folder-visible, toggle_level-visible}
use owner_based_ball_game.Text.{Text, starts_with, text_eq, txt}

abbrev id_at : ℕ → Text
id_at e =
    if e == 1
    then txt "row_0_"
    else if e == 2
    then txt "row_0_0_"
    else if e == 3
    then txt "row_0_0_0_"
    else txt "row_1_"

abbrev four_rows : JQuery (Element → Bool)
four_rows = record {
  directory_rows = λ p. 1 ∷ 2 ∷ 3 ∷ 4 ∷ [];
  by_id = λ s p. keep_if (λ e. text_eq (id_at e) s) (1 ∷ 2 ∷ 3 ∷ 4 ∷ []);
  next_rows = λ es p. keep_if (λ e. not (is_in e es)) (2 ∷ 3 ∷ 4 ∷ []);
  find_spans = λ es p. [];
  id_of = λ e p. id_at e;
  has_class = λ c p e. false;
  is_visible = λ p e. p e;
  add_class = λ c es p. p;
  remove_class = λ c es p. p;
  html = λ c es p. p;
  show = λ es p e. is_in e es || p e;
  hide = λ es p e. not (is_in e es) && p e;
}

All-rows : (es : List Element) → All (λ e. true ≡ true) es
All-rows [] = tt
All-rows (e ∷ es) = (refl, All-rows es)

abbrev four_Laws : Laws four_rows
four_Laws = record {
  is_row = λ e. true;
  rows-directory = λ p. (refl, (refl, (refl, (refl, tt))));
  rows-next = λ es p. All-rows (four_rows.next_rows es p);
  id-add = λ c es p e. refl;
  id-remove = λ c es p e. refl;
  id-html = λ c es p e. refl;
  id-show = λ es p e. refl;
  id-hide = λ es p e. refl;
  visible-add = λ c es p e row. refl;
  visible-remove = λ c es p e row. refl;
  visible-html = λ c es p e row. refl;
  visible-show = λ es p e row rows. refl;
  visible-hide = λ es p e row rows. refl;
}

-- Only the two outer rows are shown.
abbrev outer : Element → Bool
outer e = e == 1 || e == 4

toggle_level-visible_example :
    toggle_level four_rows 2 outer 2
    ≡ (if is_in 2 (1 ∷ 2 ∷ 3 ∷ 4 ∷ []) then leb (depth (id_at 2)) (2 + 1) else outer 2)
toggle_level-visible_example = toggle_level-visible four_rows four_Laws 2 outer 2 refl

toggle_folder-visible_example : toggle_folder four_rows (λ c. c) (txt "0_") outer 2 ≡ (
    if first_visible four_rows (child_rows four_rows (λ c. c) (txt "0_") outer) outer
    then not
        (is_in 2 (rows_below four_rows (txt "0_") (rows_behind four_rows (txt "0_") outer) outer))
      && outer 2
    else is_in 2 (child_rows four_rows (λ c. c) (txt "0_") outer) || outer 2)
toggle_folder-visible_example =
    toggle_folder-visible four_rows four_Laws (λ c. c) (txt "0_") outer 2 refl

-- The first click shows the row below and not the one below that; the second hides it.
clicks :
    (toggle_folder four_rows (λ c. c) (txt "0_") outer 2 ≡ true)
    × (toggle_folder four_rows (λ c. c) (txt "0_") outer 3 ≡ false)
    × (toggle_folder four_rows
          (λ c. c)
          (txt "0_")
          (toggle_folder four_rows (λ c. c) (txt "0_") outer)
          2
        ≡ false)
unfolding toggle_folder turn update_stripes is_child_id digits_then_bar starts_with text_eq
clicks = (refl, refl, refl)
