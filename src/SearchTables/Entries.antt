-- ===== src/SearchTables/Entries.antt =====
-- How the files of docs/html/search spell an entry of `searchData`: a list of its id, its name and its
-- places. Each place has an address, the number 1 for opening in the parent, and a scope.
use Prim.Native.String.{String}
use owner_based_ball_game.Base.{List, true}
use owner_based_ball_game.Results.Build.{Entry, Link}
use owner_based_ball_game.Text.{txt}

abbrev pub place_of : String → String → Link
place_of href scope = record { href = txt href; in_parent = true; scope = txt scope }

abbrev pub entry_of : String → String → List Link → Entry
entry_of id name links = record { id = txt id; name = txt name; links = links }
