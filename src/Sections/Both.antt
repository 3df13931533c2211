-- ===== src/Sections/Both.antt =====
-- A section of a page of docs/html/dynsections.js shows its content or its summary.
use owner_based_ball_game.Base.{
  Bool, List, false, if◌then◌else◌, not, ok, refl, some, true, ℕ, ◌++◌, ◌∙◌, ◌≡◌,
}
use owner_based_ball_game.Sections.{FoldQuery, toggle_visibility}
use owner_based_ball_game.Sections.Twice.{closed_image-open, open_image-closed}
use owner_based_ball_game.Text.{Text, txt}

-- What is relied on of jQuery for the section of one link: the selectors find the same elements, which
-- are displayed exactly if they were shown last, whatever is done to the others, to classes and to the
-- source of the image; and an image that has a source keeps the one that is set.
pub record SectionLaws {Page : Type 0} (j : FoldQuery Page) (link : ℕ) : Type 0 where
  pub summary : List ℕ
  pub content : List ℕ
  pub trigger : List ℕ
  pub find-summary : (p : Page) → j.find ((txt "#" ++ j.id_of link p) ++ txt "-summary") p ≡ summary
  pub find-content : (p : Page) → j.find ((txt "#" ++ j.id_of link p) ++ txt "-content") p ≡ content
  pub find-trigger : (p : Page) → j.find ((txt "#" ++ j.id_of link p) ++ txt "-trigger") p ≡ trigger
  pub content-show : (p : Page) → j.is_visible content (j.show content p) ≡ true
  pub content-hide : (p : Page) → j.is_visible content (j.hide content p) ≡ false
  pub summary-show : (p : Page) → j.is_visible summary (j.show summary p) ≡ true
  pub summary-hide : (p : Page) → j.is_visible summary (j.hide summary p) ≡ false
  pub content-show_summary :
      (p : Page) → j.is_visible content (j.show summary p) ≡ j.is_visible content p
  pub content-hide_summary :
      (p : Page) → j.is_visible content (j.hide summary p) ≡ j.is_visible content p
  pub visible-add_class :
      (es : List ℕ) (c : Text) (p : Page)
      → j.is_visible es (j.add_class c link p) ≡ j.is_visible es p
  pub visible-remove_class :
      (es : List ℕ) (c : Text) (p : Page)
      → j.is_visible es (j.remove_class c link p) ≡ j.is_visible es p
  pub visible-set_src :
      (es : List ℕ) (s : Text) (p : Page)
      → j.is_visible es (j.set_src s trigger p) ≡ j.is_visible es p
  pub src-show : (es : List ℕ) (p : Page) → j.src_of trigger (j.show es p) ≡ j.src_of trigger p
  pub src-hide : (es : List ℕ) (p : Page) → j.src_of trigger (j.hide es p) ≡ j.src_of trigger p
  pub src-add_class :
      (c : Text) (p : Page) → j.src_of trigger (j.add_class c link p) ≡ j.src_of trigger p
  pub src-remove_class :
      (c : Text) (p : Page) → j.src_of trigger (j.remove_class c link p) ≡ j.src_of trigger p
  pub src-set_src :
      (s t : Text) (p : Page)
      → j.src_of trigger p ≡ some t
      → j.src_of trigger (j.set_src s trigger p) ≡ some s

module _ {Page : Type 0} (j : FoldQuery Page) (link : ℕ) (laws : SectionLaws j link) where
  -- The content is shown and the summary hidden or the other way round, and the image is the one for it.
  pub record IsSection (shown : Bool) (s : Text) (p : Page) : Type 0 where
    pub content_lem : j.is_visible laws.content p ≡ shown
    pub summary_lem : j.is_visible laws.summary p ≡ not shown
    pub image_lem :
        j.src_of laws.trigger p ≡ some (s ++ (if shown then txt "open.png" else txt "closed.png"))

  abbrev folded : Page → Page
  folded p =
      j.remove_class (txt "opened") link
        (j.add_class (txt "closed") link (j.show laws.summary (j.hide laws.content p)))

  abbrev unfolded : Page → Page
  unfolded p =
      j.add_class (txt "opened") link
        (j.remove_class (txt "closed") link (j.hide laws.summary (j.show laws.content p)))

  folded-visible :
      (es : List ℕ) (p : Page)
      → j.is_visible es (folded p) ≡ j.is_visible es (j.show laws.summary (j.hide laws.content p))
  folded-visible es p = laws.visible-remove_class es _ _ ∙ laws.visible-add_class es _ _

  unfolded-visible :
      (es : List ℕ) (p : Page)
      → j.is_visible es (unfolded p) ≡ j.is_visible es (j.hide laws.summary (j.show laws.content p))
  unfolded-visible es p = laws.visible-add_class es _ _ ∙ laws.visible-remove_class es _ _

  folded-src : (p : Page) → j.src_of laws.trigger (folded p) ≡ j.src_of laws.trigger p
  folded-src p =
      laws.src-remove_class _ _ ∙ laws.src-add_class _ _ ∙ laws.src-show _ _ ∙ laws.src-hide _ p

  unfolded-src : (p : Page) → j.src_of laws.trigger (unfolded p) ≡ j.src_of laws.trigger p
  unfolded-src p =
      laws.src-add_class _ _ ∙ laws.src-remove_class _ _ ∙ laws.src-hide _ _ ∙ laws.src-show _ p

  -- Where content, summary and image agree, `toggleVisibility` succeeds and turns all of them over, so
  -- that a second call brings them back.
  pub toggle_visibility-IsSection :
      (shown : Bool) (s : Text) (p : Page)
      → IsSection shown s p
      → (p' : Page) × (toggle_visibility j link p ≡ ok p') × IsSection (not shown) s p'
  unfolding toggle_visibility
  toggle_visibility-IsSection true s p h = (
    j.set_src (s ++ txt "closed.png") laws.trigger (folded p),
    rw
        (
          laws.find-summary p,
          laws.find-content p,
          laws.find-trigger p,
          h.content_lem,
          h.image_lem,
          closed_image-open s,
        )
        refl,
    record {
      content_lem =
          laws.visible-set_src _ _ _
          ∙ folded-visible laws.content p
          ∙ laws.content-show_summary _
          ∙ laws.content-hide p;
      summary_lem =
          laws.visible-set_src _ _ _ ∙ folded-visible laws.summary p ∙ laws.summary-show _;
      image_lem = laws.src-set_src _ _ _ (folded-src p ∙ h.image_lem);
    },
  )
  toggle_visibility-IsSection false s p h = (
    j.set_src (s ++ txt "open.png") laws.trigger (unfolded p),
    rw
        (
          laws.find-summary p,
          laws.find-content p,
          laws.find-trigger p,
          h.content_lem,
          h.image_lem,
          open_image-closed s,
        )
        refl,
    record {
      content_lem =
          laws.visible-set_src _ _ _
          ∙ unfolded-visible laws.content p
          ∙ laws.content-hide_summary _
          ∙ laws.content-show p;
      summary_lem =
          laws.visible-set_src _ _ _ ∙ unfolded-visible laws.summary p ∙ laws.summary-hide _;
      image_lem = laws.src-set_src _ _ _ (unfolded-src p ∙ h.image_lem);
    },
  )
