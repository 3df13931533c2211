-- ===== src/Directory/Shown.antt =====
-- Which rows the functions of docs/html/dynsections.js leave visible.
use owner_based_ball_game.Base.{
  All, Bool-cases, List, [], ap, ap₂, arith, false, if◌then◌else◌, inl, inr, leb, ltb, not, refl,
  true, ℕ, ◌&&◌, ◌+◌, ◌==◌, ◌||◌, ◌∙◌, ◌∷◌, ◌≡◌,
}
use owner_based_ball_game.Directory.{
  Element, JQuery, child_rows, depth, first_visible, row_id, rows_behind, rows_below, toggle_folder,
  toggle_level, toggle_row, toggle_rows, turn,
}
use owner_based_ball_game.Directory.Query.{
  All-keep_if, Laws, is_in, set_icon-id, set_icon-visible, turn-id, turn-visible,
  update_stripes-visible,
}
use owner_based_ball_game.Text.{Text, txt}

module _ {Page : Type 0} (j : JQuery Page) (laws : Laws j) where
  toggle_row-id :
      (level : ℕ) (r : Element) (p : Page) (e : Element)
      → j.id_of e (toggle_row j level r p) ≡ j.id_of e p
  unfolding toggle_row
  toggle_row-id level r p e = elim (Bool-cases (ltb (depth (j.id_of r p)) (level + 1))) [
    | inl above ↦ rw above (laws.id-show _ _ e ∙ set_icon-id j laws _ _ _ _ _ p e)
    | inr below ↦ elim (Bool-cases (depth (j.id_of r p) == level + 1)) [
      | inl at_level ↦ rw (below, at_level) (laws.id-show _ _ e ∙ set_icon-id j laws _ _ _ _ _ p e)
      | inr deeper ↦ rw (below, deeper) (laws.id-hide _ p e)
    ]
  ]

  show_one :
      (level : ℕ) (r : Element) (p : Page) (e : Element)
      → leb (depth (j.id_of r p)) (level + 1) ≡ true
      → (is_in e (r ∷ []) || j.is_visible p e)
        ≡ (if e == r then leb (depth (j.id_of e p)) (level + 1) else j.is_visible p e)
  show_one level r p e high = elim (Bool-cases (e == r)) [
    | inl eq_lem ↦
        let same : e ≡ r = ground arith in
        rw same (let self_lem : (r == r) ≡ true = ground arith in rw (self_lem, high))
    | inr ne ↦ rw ne
  ]

  hide_one :
      (level : ℕ) (r : Element) (p : Page) (e : Element)
      → leb (depth (j.id_of r p)) (level + 1) ≡ false
      → (not (is_in e (r ∷ [])) && j.is_visible p e)
        ≡ (if e == r then leb (depth (j.id_of e p)) (level + 1) else j.is_visible p e)
  hide_one level r p e deep = elim (Bool-cases (e == r)) [
    | inl eq_lem ↦
        let same : e ≡ r = ground arith in
        rw same (let self_lem : (r == r) ≡ true = ground arith in rw (self_lem, deep))
    | inr ne ↦ rw ne
  ]

  toggle_row-visible :
      (level : ℕ) (r : Element) (p : Page) (e : Element)
      → laws.is_row e ≡ true
      → laws.is_row r ≡ true
      → j.is_visible (toggle_row j level r p) e
        ≡ (if e == r then leb (depth (j.id_of e p)) (level + 1) else j.is_visible p e)
  unfolding toggle_row
  toggle_row-visible level r p e row row' =
      elim (Bool-cases (ltb (depth (j.id_of r p)) (level + 1))) [
        | inl above ↦
            rw
              (
                above,
                laws.visible-show (r ∷ []) _ e row (row', tt),
                set_icon-visible j laws _ _ _ _ _ p e row,
              )
              (show_one level r p e (ground arith))
        | inr below ↦ elim (Bool-cases (depth (j.id_of r p) == level + 1)) [
          | inl at_level ↦
              rw
                (
                  below,
                  at_level,
                  laws.visible-show (r ∷ []) _ e row (row', tt),
                  set_icon-visible j laws _ _ _ _ _ p e row,
                )
                (show_one level r p e (ground arith))
          | inr deeper ↦
              rw (below, deeper, laws.visible-hide (r ∷ []) p e row (row', tt))
                (hide_one level r p e (ground arith))
        ]
      ]

  toggle_rows-visible :
      (rs : List Element) (level : ℕ) (p : Page) (e : Element)
      → laws.is_row e ≡ true
      → All (λ d. laws.is_row d ≡ true) rs
      → j.is_visible (toggle_rows j level rs p) e
        ≡ (if is_in e rs then leb (depth (j.id_of e p)) (level + 1) else j.is_visible p e)
  unfolding toggle_rows
  toggle_rows-visible [] level p e row all = refl
  toggle_rows-visible (r ∷ rs) level p e row (row', all) =
      rw
        (
          toggle_rows-visible rs level (toggle_row j level r p) e row all,
          toggle_row-id level r p e,
          toggle_row-visible level r p e row row',
        )
        (ground arith)

  -- `toggleLevel` shows the rows of the tree whose ids have no more bars than the level and one more,
  -- and hides its other rows; the rows that are not in the tree stay as they are.
  pub toggle_level-visible :
      (level : ℕ) (p : Page) (e : Element)
      → laws.is_row e ≡ true
      → j.is_visible (toggle_level j level p) e ≡ (
          if is_in e (j.directory_rows p)
          then leb (depth (j.id_of e p)) (level + 1)
          else j.is_visible p e)
  unfolding toggle_level
  toggle_level-visible level p e row =
      update_stripes-visible j laws _ e row
      ∙ toggle_rows-visible (j.directory_rows p) level p e row (laws.rows-directory p)

  rows_below-turned :
      (id : Text) (rows : List Element) (p p' : Page)
      → ((e : Element) → j.id_of e p' ≡ j.id_of e p)
      → rows_below j id rows p' ≡ rows_below j id rows p
  rows_below-turned id [] p p' same = refl
  rows_below-turned id (r ∷ rs) p p' same = rw (same r, rows_below-turned id rs p p' same)

  -- `toggleFolder`: if the first row one level below the clicked one is visible, all rows behind it
  -- whose ids begin with its own are hidden; if not, those one level below it are shown. No other row
  -- changes.
  pub toggle_folder-visible :
      (fold : ℕ → ℕ) (id : Text) (p : Page) (e : Element)
      → laws.is_row e ≡ true
      → j.is_visible (toggle_folder j fold id p) e ≡ (
          if first_visible j (child_rows j fold id p) p
          then not (is_in e (rows_below j id (rows_behind j id p) p)) && j.is_visible p e
          else is_in e (child_rows j fold id p) || j.is_visible p e)
  unfolding toggle_folder
  toggle_folder-visible fold id p e row =
      let rows = rows_behind j id p in
      let all_rows = laws.rows-next (j.by_id (row_id id) p) p in
      let spans = j.find_spans (j.by_id (row_id id) p) p in
      let closed_page = turn j (txt "iconfopen") (txt "iconfclosed") (txt "&#9658;") spans p in
      let open_page = turn j (txt "iconfclosed") (txt "iconfopen") (txt "&#9660;") spans p in
      let childs = child_rows j fold id p in
      let same_ids : (r : Element) → j.id_of r closed_page ≡ j.id_of r p =
        λ r. turn-id j laws (txt "iconfopen") (txt "iconfclosed") (txt "&#9658;") spans p r in
      elim (Bool-cases (first_visible j childs p)) [
        | inl visible ↦ rw visible (
            update_stripes-visible j laws _ e row
            ∙ laws.visible-hide (rows_below j id rows closed_page) closed_page e row
                (All-keep_if (λ d. laws.is_row d ≡ true) _ rows all_rows)
            ∙ ap₂ (λ b v. not b && v)
                (ap (is_in e) (rows_below-turned id rows p closed_page same_ids))
                (turn-visible j laws _ _ _ spans p e row))
        | inr gone ↦ rw gone (
            update_stripes-visible j laws _ e row
            ∙ laws.visible-show childs _ e row
                (All-keep_if (λ d. laws.is_row d ≡ true) _ rows all_rows)
            ∙ ap (λ v. is_in e childs || v)
                (turn-visible j laws _ _ _ (j.find_spans childs open_page) open_page e row
                  ∙ turn-visible j laws _ _ _ spans p e row))
      ]
