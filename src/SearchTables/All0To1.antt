-- ===== src/SearchTables/All0To1.antt =====
-- The tables `searchData` of docs/html/search/all_0.js to all_1.js.
use owner_based_ball_game.Base.{List, [], ◌∷◌}
use owner_based_ball_game.Results.Build.{Entry}
use owner_based_ball_game.SearchTables.Entries.{entry_of, place_of}

abbrev pub all_0 : List Entry
all_0 =
    entry_of "add_5fball_0" "add_ball" (
      place_of "../screenballmanager_8h.html#acf75e3143c2142d93e39ec72a651cc72"
        "add_ball(BallListManager *manager, int count, int width, int height, int radius):&#160;screenballmanager.c"
      ∷ place_of "../localballmanager_8h.html#a429a903017991a2f2e72cbb8f17400ce"
          "add_ball(BallListManager *manager, int count, int radius, int owner_id):&#160;localballmanager.c"
      ∷ place_of "../test__screenballmanager_8h.html#acf75e3143c2142d93e39ec72a651cc72"
          "add_ball(BallListManager *manager, int count, int width, int height, int radius):&#160;screenballmanager.c"
      ∷ place_of "../screenballmanager_8c.html#acf75e3143c2142d93e39ec72a651cc72"
          "add_ball(BallListManager *manager, int count, int width, int height, int radius):&#160;screenballmanager.c"
      ∷ place_of "../localballmanager_8c.html#a429a903017991a2f2e72cbb8f17400ce"
          "add_ball(BallListManager *manager, int count, int radius, int owner_id):&#160;localballmanager.c"
      ∷ place_of "../test__screenballmanager_8c.html#acf75e3143c2142d93e39ec72a651cc72"
          "add_ball(BallListManager *manager, int count, int width, int height, int radius):&#160;test_screenballmanager.c"
      ∷ [])
    ∷ entry_of "add_5fclient_1" "add_client" (
        place_of "../client__list__manager_8h.html#a127b792db5fa7a5a8f01ca3287c2840e"
          "add_client(ClientListManager *manager, int csock, struct sockaddr_in cliaddr):&#160;client_list_manager.c"
        ∷ place_of "../client__list__manager_8c.html#a127b792db5fa7a5a8f01ca3287c2840e"
            "add_client(ClientListManager *manager, int csock, struct sockaddr_in cliaddr):&#160;client_list_manager.c"
        ∷ [])
    ∷ entry_of "append_5fclient_2" "append_client" (
        place_of "../client__list__manager_8h.html#ab69a7b0baed3a72bbb0a7d813258e6c9"
          "append_client(ClientNode *head, ClientNode **tail, SocketContext ctx):&#160;client_list_manager.c"
        ∷ place_of "../client__list__manager_8c.html#ab69a7b0baed3a72bbb0a7d813258e6c9"
            "append_client(ClientNode *head, ClientNode **tail, SocketContext ctx):&#160;client_list_manager.c"
        ∷ [])
    ∷ entry_of "appendball_3" "appendBall" (
        place_of "../screenball__list_8h.html#a87443dda91a9f7a4c6ed45619ec845ef"
          "appendBall(BallListNode *head, BallListNode **tail, ScreenBall ball):&#160;screenball_list.c"
        ∷ place_of "../localball__list_8h.html#a1b9c348e20415bcb72488d0ce82df52c"
            "appendBall(BallListNode *head, BallListNode **tail, LogicalBall ball):&#160;localball_list.c"
        ∷ place_of "../test__screenball__list_8h.html#a87443dda91a9f7a4c6ed45619ec845ef"
            "appendBall(BallListNode *head, BallListNode **tail, ScreenBall ball):&#160;screenball_list.c"
        ∷ place_of "../screenball__list_8c.html#a87443dda91a9f7a4c6ed45619ec845ef"
            "appendBall(BallListNode *head, BallListNode **tail, ScreenBall ball):&#160;screenball_list.c"
        ∷ place_of "../localball__list_8c.html#a1b9c348e20415bcb72488d0ce82df52c"
            "appendBall(BallListNode *head, BallListNode **tail, LogicalBall ball):&#160;localball_list.c"
        ∷ place_of "../test__screenball__list_8c.html#a87443dda91a9f7a4c6ed45619ec845ef"
            "appendBall(BallListNode *head, BallListNode **tail, ScreenBall ball):&#160;test_screenball_list.c"
        ∷ [])
    ∷ []

abbrev pub all_1 : List Entry
all_1 =
    entry_of "b_4" "b"
      (place_of "../structRGBColor.html#af24a8ebcd90343a2fd226ef53b3f5e69" "RGBColor" ∷ [])
    ∷ entry_of "ball_5flist_5fmanager_5" "ball_list_manager" (
        place_of "../structSharedContext.html#a7921ef1e9b5940b46e85c1529a4e8bec" "SharedContext"
        ∷ [])
    ∷ entry_of "ball_5fmanager_5fdestroy_6" "ball_manager_destroy" (
        place_of "../screenballmanager_8h.html#ab98251696a902b6e46ad4e8b980cbaf8"
          "ball_manager_destroy(BallListManager *manager):&#160;screenballmanager.c"
        ∷ place_of "../localballmanager_8h.html#ab98251696a902b6e46ad4e8b980cbaf8"
            "ball_manager_destroy(BallListManager *manager):&#160;screenballmanager.c"
        ∷ place_of "../test__screenballmanager_8h.html#ab98251696a902b6e46ad4e8b980cbaf8"
            "ball_manager_destroy(BallListManager *manager):&#160;screenballmanager.c"
        ∷ place_of "../screenballmanager_8c.html#ab98251696a902b6e46ad4e8b980cbaf8"
            "ball_manager_destroy(BallListManager *manager):&#160;screenballmanager.c"
        ∷ place_of "../localballmanager_8c.html#ab98251696a902b6e46ad4e8b980cbaf8"
            "ball_manager_destroy(BallListManager *manager):&#160;localballmanager.c"
        ∷ place_of "../test__screenballmanager_8c.html#ab98251696a902b6e46ad4e8b980cbaf8"
            "ball_manager_destroy(BallListManager *manager):&#160;test_screenballmanager.c"
        ∷ [])
    ∷ entry_of "ball_5fmanager_5finit_7" "ball_manager_init" (
        place_of "../screenballmanager_8h.html#a14fe76e5b1907c1215e567e76cc8ea6f"
          "ball_manager_init(BallListManager *manager):&#160;screenballmanager.c"
        ∷ place_of "../localballmanager_8h.html#a14fe76e5b1907c1215e567e76cc8ea6f"
            "ball_manager_init(BallListManager *manager):&#160;screenballmanager.c"
        ∷ place_of "../test__screenballmanager_8h.html#a14fe76e5b1907c1215e567e76cc8ea6f"
            "ball_manager_init(BallListManager *manager):&#160;screenballmanager.c"
        ∷ place_of "../screenballmanager_8c.html#a14fe76e5b1907c1215e567e76cc8ea6f"
            "ball_manager_init(BallListManager *manager):&#160;screenballmanager.c"
        ∷ place_of "../localballmanager_8c.html#a14fe76e5b1907c1215e567e76cc8ea6f"
            "ball_manager_init(BallListManager *manager):&#160;localballmanager.c"
        ∷ place_of "../test__screenballmanager_8c.html#a14fe76e5b1907c1215e567e76cc8ea6f"
            "ball_manager_init(BallListManager *manager):&#160;test_screenballmanager.c"
        ∷ [])
    ∷ entry_of "balllistmanager_8" "BallListManager"
        (place_of "../structBallListManager.html" "" ∷ [])
    ∷ entry_of "balllistnode_9" "BallListNode" (
        place_of "../structBallListNode.html" "BallListNode"
        ∷ place_of "../screenball__list_8h.html#a7a25928e905b086dfd2011aa154ff478"
            "BallListNode():&#160;screenball_list.h"
        ∷ place_of "../localball__list_8h.html#a7a25928e905b086dfd2011aa154ff478"
            "BallListNode():&#160;localball_list.h"
        ∷ place_of "../test__screenball__list_8h.html#a7a25928e905b086dfd2011aa154ff478"
            "BallListNode():&#160;test_screenball_list.h"
        ∷ [])
    ∷ entry_of "broadcast_5fball_5fstate_10" "broadcast_ball_state" (
        place_of "../server_8h.html#ab34e80f6999b6dccbccb8ce94b8e2cb7"
          "broadcast_ball_state(ClientListManager *client_mgr, BallListManager *ball_mgr):&#160;server.c"
        ∷ place_of "../server_8c.html#ab34e80f6999b6dccbccb8ce94b8e2cb7"
            "broadcast_ball_state(ClientListManager *client_mgr, BallListManager *ball_mgr):&#160;server.c"
        ∷ [])
    ∷ entry_of "broadcast_5fball_5fstate_5fall_11" "broadcast_ball_state_all" (
        place_of "../server_8h.html#a46c88e6684e4dda8d303a8bd52733934"
          "broadcast_ball_state_all(ClientListManager *client_mgr, BallListManager *ball_mgr):&#160;server.c"
        ∷ place_of "../server_8c.html#a46c88e6684e4dda8d303a8bd52733934"
            "broadcast_ball_state_all(ClientListManager *client_mgr, BallListManager *ball_mgr):&#160;server.c"
        ∷ [])
    ∷ entry_of "ball_20game_12" "Ball Game" (place_of "../md_README.html" "" ∷ [])
    ∷ []
