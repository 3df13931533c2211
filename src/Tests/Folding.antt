-- ===== src/Tests/Folding.antt =====
-- A page with a section: element 1 is its content, 2 its summary, 3 its image. The page is what it
-- shows, and the source of the image; the rows of the inherited members are element 1 as well.
use owner_based_ball_game.Base.{
  Bool, List, [], false, if◌then◌else◌, not, ok, refl, some, true, ℕ, ◌&&◌, ◌==◌, ◌||◌, ◌∷◌, ◌≡◌,
}
use owner_based_ball_game.Directory.Query.{is_in}
use owner_based_ball_game.Sections.{FoldQuery, toggle_inherit, toggle_visibility}
use owner_based_ball_game.Sections.Both.{IsSection, SectionLaws, toggle_visibility-IsSection}
use owner_based_ball_game.Sections.Twice.{InheritLaws, IsFolded, toggle_inherit-IsFolded}
use owner_based_ball_game.Text.{Text, text_eq, txt}

abbrev FoldPage : Type 0
FoldPage = (ℕ → Bool) × Text

abbrev element_of : Text → List ℕ
element_of s =
    if text_eq s (txt "#d-content") || text_eq s (txt "tr.inherit.d")
    then 1 ∷ []
    else if text_eq s (txt "#d-summary")
    then 2 ∷ []
    else 3 ∷ []

abbrev first_shown : List ℕ → FoldPage → Bool
first_shown [] p = false
first_shown (e ∷ es) p = p.0 e

abbrev show_all : List ℕ → FoldPage → FoldPage
show_all es p = (λ e. is_in e es || p.0 e, p.1)

abbrev hide_all : List ℕ → FoldPage → FoldPage
hide_all es p = (λ e. not (is_in e es) && p.0 e, p.1)

abbrev one_section : FoldQuery FoldPage
one_section = record {
  id_of = λ e p. txt "d";
  find = λ s p. element_of s;
  is_visible = first_shown;
  first_one = λ es. es;
  show = show_all;
  hide = hide_all;
  set_display = λ d es p.
      (λ e. if text_eq d (txt "none") then not (is_in e es) && p.0 e else is_in e es || p.0 e, p.1);
  add_class = λ c e p. p;
  remove_class = λ c e p. p;
  src_of = λ es p. some p.1;
  set_src = λ s es p. (p.0, s);
}

same_shown : (es : List ℕ) (p : FoldPage) (s : Text) → first_shown es (p.0, s) ≡ first_shown es p
same_shown [] p s = refl
same_shown (e ∷ es) p s = refl

section_laws : SectionLaws one_section 7
unfolding text_eq
section_laws = record {
  summary = 2 ∷ [];
  content = 1 ∷ [];
  trigger = 3 ∷ [];
  find-summary = λ p. refl;
  find-content = λ p. refl;
  find-trigger = λ p. refl;
  content-show = λ p. refl;
  content-hide = λ p. refl;
  summary-show = λ p. refl;
  summary-hide = λ p. refl;
  content-show_summary = λ p. refl;
  content-hide_summary = λ p. refl;
  visible-add_class = λ es c p. refl;
  visible-remove_class = λ es c p. refl;
  visible-set_src = λ es s p. same_shown es p s;
  src-show = λ es p. refl;
  src-hide = λ es p. refl;
  src-add_class = λ c p. refl;
  src-remove_class = λ c p. refl;
  src-set_src = λ s t p e. refl;
}

inherit_laws : InheritLaws one_section (txt "d")
unfolding text_eq
inherit_laws = record {
  rows = 1 ∷ [];
  img = 3 ∷ [];
  find-rows = λ p. refl;
  find-img = λ p. refl;
  visible-none = λ p. refl;
  visible-row = λ p. refl;
  visible-set_src = λ s p. refl;
  src-set_display = λ d p. refl;
  src-set_src = λ s t p e. refl;
}

abbrev unfolded_page : FoldPage
unfolded_page = (λ e. e == 1, txt "img/open.png")

unfolded-IsSection : IsSection one_section 7 section_laws true (txt "img/") unfolded_page
unfolding section_laws
unfolded-IsSection = record { content_lem = refl; summary_lem = refl; image_lem = refl }

toggle_visibility-IsSection_example :
    (p : FoldPage) × (toggle_visibility one_section 7 unfolded_page ≡ ok p)
    × IsSection one_section 7 section_laws false (txt "img/") p
toggle_visibility-IsSection_example =
    toggle_visibility-IsSection one_section 7 section_laws true (txt "img/") unfolded_page
      unfolded-IsSection

unfolded-IsFolded : IsFolded one_section (txt "d") inherit_laws true (txt "img/") unfolded_page
unfolding inherit_laws
unfolded-IsFolded = record { rows_lem = refl; image_lem = refl }

inherited-IsFolded :
    (p : FoldPage) × (toggle_inherit one_section (txt "d") unfolded_page ≡ ok p)
    × IsFolded one_section (txt "d") inherit_laws false (txt "img/") p
inherited-IsFolded =
    toggle_inherit-IsFolded one_section (txt "d") inherit_laws true (txt "img/") unfolded_page
      unfolded-IsFolded
