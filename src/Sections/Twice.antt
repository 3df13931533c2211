-- ===== src/Sections/Twice.antt =====
-- `toggleInherit` of docs/html/dynsections.js: folding rows away, and unfolding them.
use owner_based_ball_game.Base.{
  Bool, List, [], ap, arith, false, if◌then◌else◌, length, length-append, not, ok, refl, some, take,
  true, ℕ, ◌++◌, ◌-◌, ◌∙◌, ◌∷◌, ◌≡◌,
}
use owner_based_ball_game.Sections.{
  FoldQuery, closed_image, open_image, other_image, toggle_inherit,
}
use owner_based_ball_game.Text.{Text, txt}

take-append : (s t : Text) → take (length s) (s ++ t) ≡ s
take-append [] t = refl
take-append (c ∷ s) t = ap (λ r. c ∷ r) (take-append s t)

pub closed_image-open : (s : Text) → closed_image (s ++ txt "open.png") ≡ s ++ txt "closed.png"
unfolding other_image
closed_image-open s =
    let len : length (s ++ txt "open.png") - 8 ≡ length s =
      omega (arith, length-append s (txt "open.png")) in
    rw (len, take-append s (txt "open.png")) refl

pub open_image-closed : (s : Text) → open_image (s ++ txt "closed.png") ≡ s ++ txt "open.png"
unfolding other_image
open_image-closed s =
    let len : length (s ++ txt "closed.png") - 10 ≡ length s =
      omega (arith, length-append s (txt "closed.png")) in
    rw (len, take-append s (txt "closed.png")) refl

-- What is relied on of jQuery for the rows of one `id`: the selectors find the same elements, which are
-- displayed exactly if their own style says so, whatever the source of the image is, and an image that
-- has a source keeps the one that is set.
pub record InheritLaws {Page : Type 0} (j : FoldQuery Page) (id : Text) : Type 0 where
  pub rows : List ℕ
  pub img : List ℕ
  pub find-rows : (p : Page) → j.find (txt "tr.inherit." ++ id) p ≡ rows
  pub find-img : (p : Page) → j.find (txt "tr.inherit_header." ++ (id ++ txt " img")) p ≡ img
  pub visible-none :
      (p : Page) → j.is_visible (j.first_one rows) (j.set_display (txt "none") rows p) ≡ false
  pub visible-row :
      (p : Page) → j.is_visible (j.first_one rows) (j.set_display (txt "table-row") rows p) ≡ true
  pub visible-set_src :
      (s : Text) (p : Page)
      → j.is_visible (j.first_one rows) (j.set_src s img p) ≡ j.is_visible (j.first_one rows) p
  pub src-set_display :
      (d : Text) (p : Page) → j.src_of img (j.set_display d rows p) ≡ j.src_of img p
  pub src-set_src :
      (s t : Text) (p : Page) → j.src_of img p ≡ some t → j.src_of img (j.set_src s img p) ≡ some s

module _ {Page : Type 0} (j : FoldQuery Page) (id : Text) (laws : InheritLaws j id) where
  -- The rows are shown or not, and the image is the one for it.
  pub record IsFolded (shown : Bool) (s : Text) (p : Page) : Type 0 where
    pub rows_lem : j.is_visible (j.first_one laws.rows) p ≡ shown
    pub image_lem :
        j.src_of laws.img p ≡ some (s ++ (if shown then txt "open.png" else txt "closed.png"))

  -- Where rows and image agree, `toggleInherit` succeeds and turns both over, so that a second call
  -- brings both back.
  pub toggle_inherit-IsFolded :
      (shown : Bool) (s : Text) (p : Page)
      → IsFolded shown s p
      → (p' : Page) × (toggle_inherit j id p ≡ ok p') × IsFolded (not shown) s p'
  unfolding toggle_inherit
  toggle_inherit-IsFolded true s p h = (
    j.set_src (s ++ txt "closed.png") laws.img (j.set_display (txt "none") laws.rows p),
    rw (laws.find-rows p, laws.find-img p, h.rows_lem, h.image_lem, closed_image-open s) refl,
    record {
      rows_lem = laws.visible-set_src _ _ ∙ laws.visible-none p;
      image_lem = laws.src-set_src _ _ _ (laws.src-set_display _ p ∙ h.image_lem);
    },
  )
  toggle_inherit-IsFolded false s p h = (
    j.set_src (s ++ txt "open.png") laws.img (j.set_display (txt "table-row") laws.rows p),
    rw (laws.find-rows p, laws.find-img p, h.rows_lem, h.image_lem, open_image-closed s) refl,
    record {
      rows_lem = laws.visible-set_src _ _ ∙ laws.visible-row p;
      image_lem = laws.src-set_src _ _ _ (laws.src-set_display _ p ∙ h.image_lem);
    },
  )
