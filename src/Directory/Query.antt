-- ===== src/Directory/Query.antt =====
-- What jQuery's documentation says of the calls in docs/html/dynsections.js, and what the single calls there do.
use owner_based_ball_game.Base.{
  All, Bool, Bool-cases, List, [], false, inl, inr, not, true, ◌&&◌, ◌==◌, ◌||◌, ◌∙◌, ◌∷◌, ◌≡◌,
}
use owner_based_ball_game.Directory.{Element, JQuery, keep_if, set_icon, turn, update_stripes}
use owner_based_ball_game.Text.{Text}

abbrev pub is_in : Element → List Element → Bool
is_in e [] = false
is_in e (d ∷ ds) = e == d || is_in e ds

-- What is relied on of jQuery, and of the pages: classes and texts of icons decide neither about ids nor
-- about the visibility of rows; the table is displayed and its rows do not contain one another, so that
-- `show` and `hide` on rows make these rows visible and hidden, and no other row.
pub record Laws {Page : Type 0} (j : JQuery Page) : Type 0 where
  pub is_row : Element → Bool
  pub rows-directory : (p : Page) → All (λ e. is_row e ≡ true) (j.directory_rows p)
  pub rows-next : (es : List Element) (p : Page) → All (λ e. is_row e ≡ true) (j.next_rows es p)
  pub id-add :
      (c : Text) (es : List Element) (p : Page) (e : Element)
      → j.id_of e (j.add_class c es p) ≡ j.id_of e p
  pub id-remove :
      (c : Text) (es : List Element) (p : Page) (e : Element)
      → j.id_of e (j.remove_class c es p) ≡ j.id_of e p
  pub id-html :
      (c : Text) (es : List Element) (p : Page) (e : Element)
      → j.id_of e (j.html c es p) ≡ j.id_of e p
  pub id-show : (es : List Element) (p : Page) (e : Element) → j.id_of e (j.show es p) ≡ j.id_of e p
  pub id-hide : (es : List Element) (p : Page) (e : Element) → j.id_of e (j.hide es p) ≡ j.id_of e p
  pub visible-add :
      (c : Text) (es : List Element) (p : Page) (e : Element)
      → is_row e ≡ true
      → j.is_visible (j.add_class c es p) e ≡ j.is_visible p e
  pub visible-remove :
      (c : Text) (es : List Element) (p : Page) (e : Element)
      → is_row e ≡ true
      → j.is_visible (j.remove_class c es p) e ≡ j.is_visible p e
  pub visible-html :
      (c : Text) (es : List Element) (p : Page) (e : Element)
      → is_row e ≡ true
      → j.is_visible (j.html c es p) e ≡ j.is_visible p e
  pub visible-show :
      (es : List Element) (p : Page) (e : Element)
      → is_row e ≡ true
      → All (λ d. is_row d ≡ true) es
      → j.is_visible (j.show es p) e ≡ (is_in e es || j.is_visible p e)
  pub visible-hide :
      (es : List Element) (p : Page) (e : Element)
      → is_row e ≡ true
      → All (λ d. is_row d ≡ true) es
      → j.is_visible (j.hide es p) e ≡ (not (is_in e es) && j.is_visible p e)

pub All-keep_if :
    (P : Element → Type 0) (f : Element → Bool) (es : List Element)
    → All P es
    → All P (keep_if f es)
All-keep_if P f [] h = tt
All-keep_if P f (e ∷ es) (here_lem, h) = elim (Bool-cases (f e)) [
  | inl yes_lem ↦ rw yes_lem (here_lem, All-keep_if P f es h)
  | inr no_lem ↦ rw no_lem (All-keep_if P f es h)
]

module _ {Page : Type 0} (j : JQuery Page) (laws : Laws j) where
  pub update_stripes-visible :
      (p : Page) (e : Element)
      → laws.is_row e ≡ true
      → j.is_visible (update_stripes j p) e ≡ j.is_visible p e
  unfolding update_stripes
  update_stripes-visible p e row = laws.visible-add _ _ _ e row ∙ laws.visible-remove _ _ p e row

  pub turn-visible :
      (old new arrow : Text) (spans : List Element) (p : Page) (e : Element)
      → laws.is_row e ≡ true
      → j.is_visible (turn j old new arrow spans p) e ≡ j.is_visible p e
  unfolding turn
  turn-visible old new arrow spans p e row =
      laws.visible-html _ _ _ e row ∙ laws.visible-add _ _ _ e row ∙ laws.visible-remove _ _ p e row

  pub turn-id :
      (old new arrow : Text) (spans : List Element) (p : Page) (e : Element)
      → j.id_of e (turn j old new arrow spans p) ≡ j.id_of e p
  unfolding turn
  turn-id old new arrow spans p e =
      laws.id-html _ _ _ e ∙ laws.id-add _ _ _ e ∙ laws.id-remove _ _ p e

  pub set_icon-visible :
      (old new arrow : Text) (i a : List Element) (p : Page) (e : Element)
      → laws.is_row e ≡ true
      → j.is_visible (set_icon j old new arrow i a p) e ≡ j.is_visible p e
  unfolding set_icon
  set_icon-visible old new arrow i a p e row =
      laws.visible-html _ _ _ e row ∙ laws.visible-add _ _ _ e row ∙ laws.visible-remove _ _ p e row

  pub set_icon-id :
      (old new arrow : Text) (i a : List Element) (p : Page) (e : Element)
      → j.id_of e (set_icon j old new arrow i a p) ≡ j.id_of e p
  unfolding set_icon
  set_icon-id old new arrow i a p e =
      laws.id-html _ _ _ e ∙ laws.id-add _ _ _ e ∙ laws.id-remove _ _ p e
