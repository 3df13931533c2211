-- ===== src/Menu/Init.antt =====
-- `initMenu` of docs/html/menu.js. jQuery is a parameter: the pages, and what its functions do to them.
use owner_based_ball_game.Base.{Bool, List, [], if◌then◌else◌, ◌++◌, ◌∷◌}
use owner_based_ball_game.Menu.{Items, make_tree}
use owner_based_ball_game.Text.{Text, txt}

-- The functions of jQuery that `initMenu` calls, by the id that is selected.
pub record MenuQuery (Page : Type 0) : Type 0 where
  -- `$(id).append(html)`
  pub append : Text → Text → Page → Page
  -- `$(id).children(':first').addClass(c).attr('id', name)`
  pub mark_first_child : Text → Text → Text → Page → Page
  -- `$(id).smartmenus()`
  pub smartmenus : Text → Page → Page

abbrev joined : List Text → Text
joined [] = []
joined (s ∷ ss) = s ++ joined ss

-- the form that sends a search to the server
unfoldable pub server_search_box : Text → Text → Text → Text
server_search_box rel_path search_page_name search = joined (
    txt "<li style=\"float:right\"><div id=\"MSearchBox\" "
    ∷ txt "class=\"MSearchBoxInactive\"><div class=\"left\"><form id=\"FSearchBox\" "
    ∷ txt "action=\""
    ∷ rel_path
    ∷ search_page_name
    ∷ txt "\" method=\"get\"><img id=\"MSearchSelect\" src=\""
    ∷ rel_path
    ∷ txt "search/mag.png\" alt=\"\"/><input type=\"text\" id=\"MSearchField\" "
    ∷ txt "name=\"query\" value=\""
    ∷ search
    ∷ txt "\" size=\"20\" accesskey=\"S\" "
    ∷ txt "onfocus=\"searchBox.OnSearchFieldFocus(true)\" "
    ∷ txt "onblur=\"searchBox.OnSearchFieldFocus(false)\"></form></div><div "
    ∷ txt "class=\"right\"></div></div></li>"
    ∷ [])

-- the field of the search panel, with the handlers that it calls
unfoldable pub panel_search_box : Text → Text → Text
panel_search_box rel_path search = joined (
    txt "<li style=\"float:right\"><div id=\"MSearchBox\" "
    ∷ txt "class=\"MSearchBoxInactive\"><span class=\"left\"><img id=\"MSearchSelect\" "
    ∷ txt "src=\""
    ∷ rel_path
    ∷ txt "search/mag_sel.png\" onmouseover=\"return "
    ∷ txt "searchBox.OnSearchSelectShow()\" onmouseout=\"return "
    ∷ txt "searchBox.OnSearchSelectHide()\" alt=\"\"/><input type=\"text\" "
    ∷ txt "id=\"MSearchField\" value=\""
    ∷ search
    ∷ txt "\" accesskey=\"S\" onfocus=\"searchBox.OnSearchFieldFocus(true)\" "
    ∷ txt "onblur=\"searchBox.OnSearchFieldFocus(false)\" "
    ∷ txt "onkeyup=\"searchBox.OnSearchFieldChange(event)\"/></span><span "
    ∷ txt "class=\"right\"><a id=\"MSearchClose\" "
    ∷ txt "href=\"javascript:searchBox.CloseResultsWindow()\"><img "
    ∷ txt "id=\"MSearchCloseImg\" border=\"0\" src=\""
    ∷ rel_path
    ∷ txt "search/close.png\" alt=\"\"/></a></span></div></li>"
    ∷ [])

-- `initMenu`, on a table of the menu
unfoldable pub init_menu :
    {Page : Type 0} → MenuQuery Page → Items → Text → Bool → Bool → Text → Text → Page → Page
unfolding make_tree server_search_box panel_search_box
init_menu j data_of_menu rel_path search_enabled server_side search_page_name search page =
    let tree = j.append (txt "#main-nav") (make_tree rel_path data_of_menu) page in
    let menu = j.mark_first_child (txt "#main-nav") (txt "sm sm-dox") (txt "main-menu") tree in
    let box =
      if server_side
      then server_search_box rel_path search_page_name search
      else panel_search_box rel_path search in
    j.smartmenus (txt "#main-menu")
      (if search_enabled then j.append (txt "#main-menu") box menu else menu)
