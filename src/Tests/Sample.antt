-- ===== src/Tests/Sample.antt =====
-- A page of two results, as the source builds it, and a host for ASCII.
use owner_based_ball_game.Base.{[], false, map, refl, ◌∷◌}
use owner_based_ball_game.Dom.{Elem, Node, Place, cons, nil, node}
use owner_based_ball_game.Host.{AsciiHost, Host, lower_char}
use owner_based_ball_game.Results.Page.{Page}
use owner_based_ball_game.Text.{Text, txt}

abbrev pub ascii_host : Host
ascii_host = record {
  to_lower_case = map lower_char;
  escape = λ s. s;
  unescape = λ s. s;
  exceeds_one = λ s. false;
}

pub ascii_host-AsciiHost : AsciiHost ascii_host
ascii_host-AsciiHost = record { lower_lem = λ s h. refl; unescape_lem = λ s h. refl }

abbrev pub elem : Text → Text → Text → Text → Elem
elem name id class_name display = record {
  node_name = name;
  id = id;
  class_name = class_name;
  display = display;
  inner_html = [];
  attributes = [];
}

abbrev pub link : Text → Node
link id = node (elem (txt "A") id (txt "SRSymbol") []) nil

-- A result with one child, shown or not, and a result with none.
abbrev pub row_with_child : Text → Text → Text → Text → Text → Node
row_with_child id item child shown children_shown =
    node (elem (txt "DIV") id (txt "SRResult") shown) (
      cons
        (node (elem (txt "DIV") [] (txt "SREntry") []) (
          cons (link item) (
            cons
              (node (elem (txt "DIV") [] (txt "SRChildren") children_shown) (cons (link child) nil))
              nil)))
        nil)

abbrev pub row : Text → Text → Text → Node
row id item shown = node (elem (txt "DIV") id (txt "SRResult") shown) (
    cons
      (node (elem (txt "DIV") [] (txt "SREntry") [])
        (cons (link item) (cons (node (elem (txt "SPAN") [] (txt "SRScope") []) nil) nil)))
      nil)

abbrev pub results : Node → Node → Node
results first second =
    node (elem (txt "DIV") (txt "SRResults") [] []) (cons first (cons second nil))

abbrev pub page_of : Node → Page
page_of rows = record { rows = rows; searching = []; no_matches = txt "none" }

-- Both rows shown, the children of the first one hidden.
abbrev pub plain_rows : Node
plain_rows =
    results (row_with_child (txt "SR_add_5fball_0") (txt "Item0") (txt "Item0_c0") (txt "block") [])
      (row (txt "SR_color_1") (txt "Item1") (txt "block"))

abbrev pub first_link : Place
first_link = 0 ∷ 0 ∷ 0 ∷ []

abbrev pub first_children : Place
first_children = 1 ∷ 0 ∷ 0 ∷ []
