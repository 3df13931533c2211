-- ===== src/Menu/Shown.antt =====
-- The HTML of docs/html/menu.js shows the menu that it is made of.
use owner_based_ball_game.Base.{
  Bool, List, [], ap, append_assoc, arith, false, refl, some, true, ◌&&◌, ◌++◌, ◌∙◌, ◌∷◌, ◌≡◌,
}
use owner_based_ball_game.Menu.{
  Item, Items, branch, leaf, make_item, make_items, make_tree, more_items, no_items, open_item,
}
use owner_based_ball_game.Menu.Read.{
  Frame, are_plain, is_plain, is_plain_item, join, list_of, opened, read_menu, start,
  take_open_item, take_tag, take_tokens,
}
use owner_based_ball_game.Menu.Tags.{scan}
use owner_based_ball_game.Text.{Text, text_eq, txt}
use owner_based_ball_game.Text.Laws.{has_code}

join-one :
    (is : Items) (i : Item) (js : Items)
    → join (join is (more_items i no_items)) js ≡ join is (more_items i js)
join-one no_items i js = refl
join-one (more_items j is) i js = ap (more_items j) (join-one is i js)

join-none : (is : Items) → join is no_items ≡ is
join-none no_items = refl
join-none (more_items i is) = ap (more_items i) (join-none is)

both : (a b : Bool) → (a && b) ≡ true → (a ≡ true) × (b ≡ true)
both a b e = (ground arith, ground arith)

module _ (rel_path : Text) (rel_lem : has_code 62 rel_path ≡ false) where
  mutual
    unfolding make_items are_plain take_tokens take_tag text_eq scan

    take_item :
        (i : Item) (before : Items) (fs : List Frame) (s : Text)
        → is_plain_item i ≡ true
        → take_tokens rel_path (scan false [] (make_item rel_path i ++ s)) (start before ∷ fs)
          ≡ take_tokens rel_path
              (scan false [] s)
              (start (join before (more_items i no_items)) ∷ fs)
    take_item (leaf text url) before fs s fit =
        rw (append_assoc (open_item rel_path text url) (txt "</li>") s)
          (take_open_item rel_path text url (txt "</li>" ++ s) before fs rel_lem fit)
    take_item (branch text url items) before fs s fit =
        let (plain_lem, fit_is) = both (is_plain text url) (are_plain items) fit in
        let closing = txt "</ul>" ++ txt "</li>" in
        let rest = txt "<ul>" ++ (make_items rel_path items ++ closing) in
        let deeper = opened before text url ∷ fs in
        rw (append_assoc (open_item rel_path text url) rest s) (
          take_open_item rel_path text url (rest ++ s) before fs rel_lem plain_lem
          ∙ ap (λ t. take_tokens rel_path (scan false [] t) (start no_items ∷ deeper))
              (append_assoc (make_items rel_path items) closing s)
          ∙ take_items items no_items deeper (closing ++ s) fit_is)

    take_items :
        (is : Items) (before : Items) (fs : List Frame) (s : Text)
        → are_plain is ≡ true
        → take_tokens rel_path (scan false [] (make_items rel_path is ++ s)) (start before ∷ fs)
          ≡ take_tokens rel_path (scan false [] s) (start (join before is) ∷ fs)
    take_items no_items before fs s fit = rw (join-none before) refl
    take_items (more_items i is) before fs s fit =
        let (fit_i, fit_is) = both (is_plain_item i) (are_plain is) fit in
        rw (append_assoc (make_item rel_path i) (make_items rel_path is) s) (
          take_item i before fs (make_items rel_path is ++ s) fit_i
          ∙ take_items is (join before (more_items i no_items)) fs s fit_is
          ∙ rw (join-one before i is) refl)

  -- What `makeTree` makes of a list is read back as the list: the HTML shows each entry with its text
  -- and its address behind `relPath`, with the entries below it, in their order. The texts are not
  -- empty and have no `<`; the addresses and `relPath` have no `>`.
  pub read_menu-make_tree :
      (items : Items)
      → are_plain items ≡ true
      → read_menu rel_path (make_tree rel_path items) ≡ some items
  unfolding read_menu make_tree take_tokens take_tag text_eq scan
  read_menu-make_tree items fit =
      ap list_of (take_items items no_items (start no_items ∷ []) (txt "</ul>") fit)
