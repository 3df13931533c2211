-- ===== src/Menu/Data.antt =====
-- The table of docs/html/menudata.js; the entries below one entry are a list of their own.
use owner_based_ball_game.Base.{[], ◌∷◌}
use owner_based_ball_game.Menu.{Items, branch, items_of, leaf}
use owner_based_ball_game.Text.{txt}

abbrev functions_all : Items
functions_all = items_of (
    leaf (txt "b") (txt "functions.html#index_b")
    ∷ leaf (txt "c") (txt "functions.html#index_c")
    ∷ leaf (txt "d") (txt "functions.html#index_d")
    ∷ leaf (txt "e") (txt "functions.html#index_e")
    ∷ leaf (txt "f") (txt "functions.html#index_f")
    ∷ leaf (txt "g") (txt "functions.html#index_g")
    ∷ leaf (txt "h") (txt "functions.html#index_h")
    ∷ leaf (txt "i") (txt "functions.html#index_i")
    ∷ leaf (txt "l") (txt "functions.html#index_l")
    ∷ leaf (txt "m") (txt "functions.html#index_m")
    ∷ leaf (txt "n") (txt "functions.html#index_n")
    ∷ leaf (txt "o") (txt "functions.html#index_o")
    ∷ leaf (txt "q") (txt "functions.html#index_q")
    ∷ leaf (txt "r") (txt "functions.html#index_r")
    ∷ leaf (txt "s") (txt "functions.html#index_s")
    ∷ leaf (txt "t") (txt "functions.html#index_t")
    ∷ leaf (txt "v") (txt "functions.html#index_v")
    ∷ leaf (txt "x") (txt "functions.html#index_x")
    ∷ leaf (txt "y") (txt "functions.html#index_y")
    ∷ [])

abbrev functions_vars_variables : Items
functions_vars_variables = items_of (
    leaf (txt "b") (txt "functions_vars.html#index_b")
    ∷ leaf (txt "c") (txt "functions_vars.html#index_c")
    ∷ leaf (txt "d") (txt "functions_vars.html#index_d")
    ∷ leaf (txt "e") (txt "functions_vars.html#index_e")
    ∷ leaf (txt "f") (txt "functions_vars.html#index_f")
    ∷ leaf (txt "g") (txt "functions_vars.html#index_g")
    ∷ leaf (txt "h") (txt "functions_vars.html#index_h")
    ∷ leaf (txt "i") (txt "functions_vars.html#index_i")
    ∷ leaf (txt "l") (txt "functions_vars.html#index_l")
    ∷ leaf (txt "m") (txt "functions_vars.html#index_m")
    ∷ leaf (txt "n") (txt "functions_vars.html#index_n")
    ∷ leaf (txt "o") (txt "functions_vars.html#index_o")
    ∷ leaf (txt "q") (txt "functions_vars.html#index_q")
    ∷ leaf (txt "r") (txt "functions_vars.html#index_r")
    ∷ leaf (txt "s") (txt "functions_vars.html#index_s")
    ∷ leaf (txt "t") (txt "functions_vars.html#index_t")
    ∷ leaf (txt "v") (txt "functions_vars.html#index_v")
    ∷ leaf (txt "x") (txt "functions_vars.html#index_x")
    ∷ leaf (txt "y") (txt "functions_vars.html#index_y")
    ∷ [])

abbrev functions_class_members : Items
functions_class_members = items_of (
    branch (txt "All") (txt "functions.html") functions_all
    ∷ branch (txt "Variables") (txt "functions_vars.html") functions_vars_variables
    ∷ [])

abbrev annotated_classes : Items
annotated_classes = items_of (
    leaf (txt "Class List") (txt "annotated.html")
    ∷ leaf (txt "Class Index") (txt "classes.html")
    ∷ branch (txt "Class Members") (txt "functions.html") functions_class_members
    ∷ [])

abbrev globals_all : Items
globals_all = items_of (
    leaf (txt "a") (txt "globals.html#index_a")
    ∷ leaf (txt "b") (txt "globals_b.html#index_b")
    ∷ leaf (txt "c") (txt "globals_c.html#index_c")
    ∷ leaf (txt "d") (txt "globals_d.html#index_d")
    ∷ leaf (txt "f") (txt "globals_f.html#index_f")
    ∷ leaf (txt "g") (txt "globals_g.html#index_g")
    ∷ leaf (txt "h") (txt "globals_h.html#index_h")
    ∷ leaf (txt "k") (txt "globals_k.html#index_k")
    ∷ leaf (txt "l") (txt "globals_l.html#index_l")
    ∷ leaf (txt "m") (txt "globals_m.html#index_m")
    ∷ leaf (txt "n") (txt "globals_n.html#index_n")
    ∷ leaf (txt "p") (txt "globals_p.html#index_p")
    ∷ leaf (txt "r") (txt "globals_r.html#index_r")
    ∷ leaf (txt "s") (txt "globals_s.html#index_s")
    ∷ leaf (txt "t") (txt "globals_t.html#index_t")
    ∷ leaf (txt "u") (txt "globals_u.html#index_u")
    ∷ leaf (txt "w") (txt "globals_w.html#index_w")
    ∷ [])

abbrev globals_func_functions : Items
globals_func_functions = items_of (
    leaf (txt "a") (txt "globals_func.html#index_a")
    ∷ leaf (txt "b") (txt "globals_func_b.html#index_b")
    ∷ leaf (txt "c") (txt "globals_func_c.html#index_c")
    ∷ leaf (txt "d") (txt "globals_func_d.html#index_d")
    ∷ leaf (txt "f") (txt "globals_func_f.html#index_f")
    ∷ leaf (txt "g") (txt "globals_func_g.html#index_g")
    ∷ leaf (txt "h") (txt "globals_func_h.html#index_h")
    ∷ leaf (txt "l") (txt "globals_func_l.html#index_l")
    ∷ leaf (txt "m") (txt "globals_func_m.html#index_m")
    ∷ leaf (txt "p") (txt "globals_func_p.html#index_p")
    ∷ leaf (txt "r") (txt "globals_func_r.html#index_r")
    ∷ leaf (txt "s") (txt "globals_func_s.html#index_s")
    ∷ leaf (txt "t") (txt "globals_func_t.html#index_t")
    ∷ leaf (txt "u") (txt "globals_func_u.html#index_u")
    ∷ leaf (txt "w") (txt "globals_func_w.html#index_w")
    ∷ [])

abbrev globals_defs_macros : Items
globals_defs_macros = items_of (
    leaf (txt "c") (txt "globals_defs.html#index_c")
    ∷ leaf (txt "f") (txt "globals_defs.html#index_f")
    ∷ leaf (txt "m") (txt "globals_defs.html#index_m")
    ∷ leaf (txt "n") (txt "globals_defs.html#index_n")
    ∷ leaf (txt "r") (txt "globals_defs.html#index_r")
    ∷ leaf (txt "s") (txt "globals_defs.html#index_s")
    ∷ leaf (txt "t") (txt "globals_defs.html#index_t")
    ∷ [])

abbrev globals_file_members : Items
globals_file_members = items_of (
    branch (txt "All") (txt "globals.html") globals_all
    ∷ branch (txt "Functions") (txt "globals_func.html") globals_func_functions
    ∷ leaf (txt "Variables") (txt "globals_vars.html")
    ∷ leaf (txt "Typedefs") (txt "globals_type.html")
    ∷ leaf (txt "Enumerations") (txt "globals_enum.html")
    ∷ leaf (txt "Enumerator") (txt "globals_eval.html")
    ∷ branch (txt "Macros") (txt "globals_defs.html") globals_defs_macros
    ∷ [])

abbrev files_files : Items
files_files = items_of (
    leaf (txt "File List") (txt "files.html")
    ∷ branch (txt "File Members") (txt "globals.html") globals_file_members
    ∷ [])

abbrev pub menudata : Items
menudata = items_of (
    leaf (txt "Main Page") (txt "index.html")
    ∷ leaf (txt "Related Pages") (txt "pages.html")
    ∷ branch (txt "Classes") (txt "annotated.html") annotated_classes
    ∷ branch (txt "Files") (txt "files.html") files_files
    ∷ [])
