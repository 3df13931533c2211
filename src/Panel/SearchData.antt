-- ===== src/Panel/SearchData.antt =====
-- The tables of docs/html/search/searchdata.js: the sections of the index, by the number of their
-- entry in the menu of the panel.
use owner_based_ball_game.Base.{List, [], ◌∷◌}
use owner_based_ball_game.Text.{Text, txt}

-- The first characters of the section's entries; the n-th has a page of results of its own.
abbrev pub index_sections_with_content : List Text
index_sections_with_content =
    txt "abcdefghiklmnopqrstuvwxy"
    ∷ txt "bcdlprst"
    ∷ txt "cflmrst"
    ∷ txt "abcdfghlmprstuw"
    ∷ txt "bcdefghiklmnoqrstvxy"
    ∷ txt "bcdpu"
    ∷ txt "l"
    ∷ txt "l"
    ∷ txt "cfmnrst"
    ∷ txt "b"
    ∷ []

-- The names of the sections in the addresses of their pages.
abbrev pub index_section_names : List Text
index_section_names =
    txt "all"
    ∷ txt "classes"
    ∷ txt "files"
    ∷ txt "functions"
    ∷ txt "variables"
    ∷ txt "typedefs"
    ∷ txt "enums"
    ∷ txt "enumvalues"
    ∷ txt "defines"
    ∷ txt "pages"
    ∷ []

-- The labels of the sections in the menu.
abbrev pub index_section_labels : List Text
index_section_labels =
    txt "All"
    ∷ txt "Classes"
    ∷ txt "Files"
    ∷ txt "Functions"
    ∷ txt "Variables"
    ∷ txt "Typedefs"
    ∷ txt "Enumerations"
    ∷ txt "Enumerator"
    ∷ txt "Macros"
    ∷ txt "Pages"
    ∷ []
