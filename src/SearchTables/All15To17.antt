-- ===== src/SearchTables/All15To17.antt =====
-- The tables `searchData` of docs/html/search/all_15.js to all_17.js.
use owner_based_ball_game.Base.{List, [], ◌∷◌}
use owner_based_ball_game.Results.Build.{Entry}
use owner_based_ball_game.SearchTables.Entries.{entry_of, place_of}

abbrev pub all_15 : List Entry
all_15 =
    entry_of "worker_5fthread_211" "worker_thread" (
      place_of "../server_8h.html#a39b4d7ca2619ae96920c437df5ab9ece"
        "worker_thread(void *arg):&#160;server.c"
      ∷ place_of "../server_8c.html#a39b4d7ca2619ae96920c437df5ab9ece"
          "worker_thread(void *arg):&#160;server.c"
      ∷ [])
    ∷ []

abbrev pub all_16 : List Entry
all_16 =
    entry_of "x_212" "x" (
      place_of "../structScreenBall.html#a7b25385aed227acb52deea14ef7f119d" "ScreenBall::x()"
      ∷ place_of "../structLogicalBall.html#a0124c3c3a73988845cab40054965b70f" "LogicalBall::x()"
      ∷ place_of "../structpixel__t.html#ab96756fdec59282d76623d0af523be19" "pixel_t::x()"
      ∷ [])
    ∷ []

abbrev pub all_17 : List Entry
all_17 =
    entry_of "y_213" "y" (
      place_of "../structScreenBall.html#a75b9a9079b15a367ff395eb1bb5cd402" "ScreenBall::y()"
      ∷ place_of "../structLogicalBall.html#a3cc9b445ab44ba112a693911d0522769" "LogicalBall::y()"
      ∷ place_of "../structpixel__t.html#a95e4eacba7ef834295e2e9a7aaffe721" "pixel_t::y()"
      ∷ [])
    ∷ []
