-- ===== src/Sections.antt =====
-- The parts of the documentation pages that fold away: `toggleVisibility` and `toggleInherit` of
-- docs/html/dynsections.js. jQuery is a parameter: the pages, and what its functions do to them.
pub mod Twice
pub mod Both
use owner_based_ball_game.Base.{
  Bool, List, Option, Result, if◌then◌else◌, length, none, ok, some, take, type_error, ℕ, ◌++◌, ◌-◌,
}
use owner_based_ball_game.Dom.{set_display}
use owner_based_ball_game.Results.Page.{Page}
use owner_based_ball_game.Text.{Text, txt}

-- The functions of jQuery that are called; a set of elements is what a selector finds.
pub record FoldQuery (Page : Type 0) : Type 0 where
  pub id_of : ℕ → Page → Text
  pub find : Text → Page → List ℕ
  pub is_visible : List ℕ → Page → Bool
  pub first_one : List ℕ → List ℕ
  pub show : List ℕ → Page → Page
  pub hide : List ℕ → Page → Page
  pub set_display : Text → List ℕ → Page → Page
  pub add_class : Text → ℕ → Page → Page
  pub remove_class : Text → ℕ → Page → Page
  pub src_of : List ℕ → Page → Option Text
  pub set_src : Text → List ℕ → Page → Page

-- `src.substring(0,src.length-k)+name`; a negative end counts as 0.
unfoldable pub other_image : ℕ → Text → Text → Text
other_image k name src = take (length src - k) src ++ name

abbrev pub closed_image : Text → Text
closed_image src = other_image 8 (txt "closed.png") src

abbrev pub open_image : Text → Text
open_image src = other_image 10 (txt "open.png") src

module _ {Page : Type 0} (j : FoldQuery Page) where
  -- An image gets another source; without the image `src` is undefined, and has no `substring`.
  abbrev pub flip : (Text → Text) → List ℕ → Option Text → Page → Result Page
  flip f image none p = type_error
  flip f image (some src) p = ok (j.set_src (f src) image p)

  -- `toggleVisibility`
  unfoldable pub toggle_visibility : ℕ → Page → Result Page
  toggle_visibility link p =
      let base = txt "#" ++ j.id_of link p in
      let summary = j.find (base ++ txt "-summary") p in
      let content = j.find (base ++ txt "-content") p in
      let trigger = j.find (base ++ txt "-trigger") p in
      if j.is_visible content p
      then flip closed_image trigger (j.src_of trigger p) (
          j.remove_class (txt "opened") link
            (j.add_class (txt "closed") link (j.show summary (j.hide content p))))
      else flip open_image trigger (j.src_of trigger p) (
          j.add_class (txt "opened") link
            (j.remove_class (txt "closed") link (j.hide summary (j.show content p))))

  -- `toggleInherit`
  unfoldable pub toggle_inherit : Text → Page → Result Page
  toggle_inherit id p =
      let rows = j.find (txt "tr.inherit." ++ id) p in
      let img = j.find (txt "tr.inherit_header." ++ (id ++ txt " img")) p in
      if j.is_visible (j.first_one rows) p
      then flip closed_image img (j.src_of img p) (j.set_display (txt "none") rows p)
      else flip open_image img (j.src_of img p) (j.set_display (txt "table-row") rows p)
