-- ===== src/Menu.antt =====
-- The menu of the documentation pages: `makeTree` of docs/html/menu.js, and its data in
-- docs/html/menudata.js.
pub mod Data
pub mod Init
pub mod Tags
pub mod Read
pub mod Shown
use owner_based_ball_game.Base.{List, [], ◌++◌, ◌∷◌}
use owner_based_ball_game.Text.{Text, txt}

-- An entry of the menu, without and with a member `children`; the texts are `text` and `url`.
mutual
  pub data Item : Type 0 where
    leaf : Text → Text → Item
    branch : Text → Text → Items → Item

  pub data Items : Type 0 where
    no_items : Items
    more_items : Item → Items → Items

-- `'<li><a href="' + relPath + url + '">' + text + '</a>'`
unfoldable pub open_item : Text → Text → Text → Text
open_item rel_path text url =
    txt "<li><a href=\"" ++ (rel_path ++ (url ++ (txt "\">" ++ (text ++ txt "</a>"))))

-- a list of entries
abbrev pub items_of : List Item → Items
items_of [] = no_items
items_of (i ∷ is) = more_items i (items_of is)

-- What the loop of `makeTree` makes of the entries of a list.
unfoldable mutual
  pub make_items : Text → Items → Text
  make_items rel_path no_items = []
  make_items rel_path (more_items i is) = make_item rel_path i ++ make_items rel_path is

  pub make_item : Text → Item → Text
  make_item rel_path (leaf text url) = open_item rel_path text url ++ txt "</li>"
  make_item rel_path (branch text url items) =
      open_item rel_path text url
      ++ (txt "<ul>" ++ (make_items rel_path items ++ (txt "</ul>" ++ txt "</li>")))

-- `makeTree` of an object whose member `children` is the list
unfoldable pub make_tree : Text → Items → Text
unfolding make_items
make_tree rel_path items = txt "<ul>" ++ (make_items rel_path items ++ txt "</ul>")
