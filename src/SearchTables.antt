-- ===== src/SearchTables.antt =====
-- The search data of the documentation: docs/html/search/<section>_<index>.js, each of which sets
-- `searchData` for the page of results of the same name.
pub mod All0To1
pub mod All2To2
pub mod All3To4
pub mod All5To6
pub mod All7ToA
pub mod AllBTo10
pub mod All11To14
pub mod All15To17
pub mod Classes0ToFiles6
pub mod Functions0To2
pub mod Functions3To3
pub mod Functions4To6
pub mod Functions7ToA
pub mod FunctionsBToE
pub mod Variables0ToB
pub mod VariablesCToEnumValues0
pub mod Defines0ToPages0
pub mod Entries
pub mod Checks
pub mod Terms
pub mod Found
pub mod Toggling
use owner_based_ball_game.Base.{List, [], ◌∷◌}
use owner_based_ball_game.Results.Build.{Entry}
use owner_based_ball_game.SearchTables.All0To1.{all_0, all_1}
use owner_based_ball_game.SearchTables.All11To14.{all_11, all_12, all_13, all_14}
use owner_based_ball_game.SearchTables.All15To17.{all_15, all_16, all_17}
use owner_based_ball_game.SearchTables.All2To2.{all_2}
use owner_based_ball_game.SearchTables.All3To4.{all_3, all_4}
use owner_based_ball_game.SearchTables.All5To6.{all_5, all_6}
use owner_based_ball_game.SearchTables.All7ToA.{all_7, all_8, all_9, all_a}
use owner_based_ball_game.SearchTables.AllBTo10.{all_10, all_b, all_c, all_d, all_e, all_f}
use owner_based_ball_game.SearchTables.Classes0ToFiles6.{
  classes_0, classes_1, classes_2, classes_3, classes_4, classes_5, classes_6, classes_7, files_0,
  files_1, files_2, files_3, files_4, files_5, files_6,
}
use owner_based_ball_game.SearchTables.Defines0ToPages0.{
  defines_0, defines_1, defines_2, defines_3, defines_4, defines_5, defines_6, pages_0,
}
use owner_based_ball_game.SearchTables.Functions0To2.{functions_0, functions_1, functions_2}
use owner_based_ball_game.SearchTables.Functions3To3.{functions_3}
use owner_based_ball_game.SearchTables.Functions4To6.{functions_4, functions_5, functions_6}
use owner_based_ball_game.SearchTables.Functions7ToA.{
  functions_7, functions_8, functions_9, functions_a,
}
use owner_based_ball_game.SearchTables.FunctionsBToE.{
  functions_b, functions_c, functions_d, functions_e,
}
use owner_based_ball_game.SearchTables.Variables0ToB.{
  variables_0, variables_1, variables_2, variables_3, variables_4, variables_5, variables_6,
  variables_7, variables_8, variables_9, variables_a, variables_b,
}
use owner_based_ball_game.SearchTables.VariablesCToEnumValues0.{
  enums_0, enumvalues_0, typedefs_0, typedefs_1, typedefs_2, typedefs_3, typedefs_4, variables_10,
  variables_11, variables_12, variables_13, variables_c, variables_d, variables_e, variables_f,
}

abbrev pub all_tables : List (List Entry)
all_tables =
    all_0 ∷ all_1 ∷ all_2 ∷ all_3 ∷ all_4 ∷ all_5 ∷ all_6 ∷ all_7 ∷ all_8 ∷ all_9 ∷ all_a ∷ all_b
    ∷ all_c ∷ all_d ∷ all_e ∷ all_f ∷ all_10 ∷ all_11 ∷ all_12 ∷ all_13 ∷ all_14 ∷ all_15 ∷ all_16
    ∷ all_17 ∷ []

abbrev pub classes_tables : List (List Entry)
classes_tables =
    classes_0 ∷ classes_1 ∷ classes_2 ∷ classes_3 ∷ classes_4 ∷ classes_5 ∷ classes_6 ∷ classes_7
    ∷ []

abbrev pub files_tables : List (List Entry)
files_tables = files_0 ∷ files_1 ∷ files_2 ∷ files_3 ∷ files_4 ∷ files_5 ∷ files_6 ∷ []

abbrev pub functions_tables : List (List Entry)
functions_tables =
    functions_0 ∷ functions_1 ∷ functions_2 ∷ functions_3 ∷ functions_4 ∷ functions_5 ∷ functions_6
    ∷ functions_7 ∷ functions_8 ∷ functions_9 ∷ functions_a ∷ functions_b ∷ functions_c
    ∷ functions_d ∷ functions_e ∷ []

abbrev pub variables_tables : List (List Entry)
variables_tables =
    variables_0 ∷ variables_1 ∷ variables_2 ∷ variables_3 ∷ variables_4 ∷ variables_5 ∷ variables_6
    ∷ variables_7 ∷ variables_8 ∷ variables_9 ∷ variables_a ∷ variables_b ∷ variables_c
    ∷ variables_d ∷ variables_e ∷ variables_f ∷ variables_10 ∷ variables_11 ∷ variables_12
    ∷ variables_13 ∷ []

abbrev pub typedefs_tables : List (List Entry)
typedefs_tables = typedefs_0 ∷ typedefs_1 ∷ typedefs_2 ∷ typedefs_3 ∷ typedefs_4 ∷ []

abbrev pub enums_tables : List (List Entry)
enums_tables = enums_0 ∷ []

abbrev pub enumvalues_tables : List (List Entry)
enumvalues_tables = enumvalues_0 ∷ []

abbrev pub defines_tables : List (List Entry)
defines_tables =
    defines_0 ∷ defines_1 ∷ defines_2 ∷ defines_3 ∷ defines_4 ∷ defines_5 ∷ defines_6 ∷ []

abbrev pub pages_tables : List (List Entry)
pages_tables = pages_0 ∷ []

-- The tables by section, in the order of the menu, and by the index in the name of their file.
abbrev pub search_tables : List (List (List Entry))
search_tables =
    all_tables ∷ classes_tables ∷ files_tables ∷ functions_tables ∷ variables_tables
    ∷ typedefs_tables ∷ enums_tables ∷ enumvalues_tables ∷ defines_tables ∷ pages_tables ∷ []
