-- ===== src/Tests/DocsMenu.antt =====
-- The menu of the documentation, read back.
use owner_based_ball_game.Base.{List, [], false, refl, some, true, ◌∷◌, ◌≡◌}
use owner_based_ball_game.Menu.{items_of, leaf, make_items, make_tree, open_item}
use owner_based_ball_game.Menu.Data.{menudata}
use owner_based_ball_game.Menu.Init.{MenuQuery, init_menu, panel_search_box, server_search_box}
use owner_based_ball_game.Menu.Read.{are_plain, read_menu}
use owner_based_ball_game.Menu.Shown.{read_menu-make_tree}
use owner_based_ball_game.Text.{Text, txt}

read_menu-make_tree_example : read_menu (txt "../") (make_tree (txt "../") menudata) ≡ some menudata
unfolding are_plain
read_menu-make_tree_example = read_menu-make_tree (txt "../") refl menudata refl

one_entry_tree :
    make_tree (txt "") (items_of (leaf (txt "Files") (txt "files.html") ∷ []))
    ≡ txt "<ul><li><a href=\"files.html\">Files</a></li></ul>"
unfolding make_tree make_items open_item
one_entry_tree = refl

-- The calls that `initMenu` makes, latest first, of a page that notes them.
abbrev noting : MenuQuery (List Text)
noting = record {
  append = λ id html page. html ∷ page;
  mark_first_child = λ id c name page. name ∷ page;
  smartmenus = λ id page. id ∷ page;
}

calls_without_search :
    init_menu noting (items_of []) (txt "../") false true (txt "search.php") [] []
    ≡ txt "#main-menu" ∷ txt "main-menu" ∷ txt "<ul></ul>" ∷ []
unfolding init_menu make_tree make_items
calls_without_search = refl

calls_with_search :
    (init_menu noting (items_of []) (txt "../") true false (txt "search.php") (txt "Search") []
      ≡ txt "#main-menu"
        ∷ panel_search_box (txt "../") (txt "Search")
        ∷ txt "main-menu"
        ∷ txt "<ul></ul>"
        ∷ [])
    × (init_menu noting (items_of []) (txt "../") true true (txt "search.php") (txt "ball") []
        ≡ txt "#main-menu"
          ∷ server_search_box (txt "../") (txt "search.php") (txt "ball")
          ∷ txt "main-menu"
          ∷ txt "<ul></ul>"
          ∷ [])
unfolding init_menu make_tree make_items
calls_with_search = (refl, refl)
