-- ===== src/SearchTables/Functions0To2.antt =====
-- The tables `searchData` of docs/html/search/functions_0.js to functions_2.js.
use owner_based_ball_game.Base.{List, [], ◌∷◌}
use owner_based_ball_game.Results.Build.{Entry}
use owner_based_ball_game.SearchTables.Entries.{entry_of, place_of}

abbrev pub functions_0 : List Entry
functions_0 =
    entry_of "add_5fball_264" "add_ball" (
      place_of "../screenballmanager_8h.html#acf75e3143c2142d93e39ec72a651cc72"
        "add_ball(BallListManager *manager, int count, int width, int height, int radius):&#160;screenballmanager.c"
      ∷ place_of "../localballmanager_8h.html#a429a903017991a2f2e72cbb8f17400ce"
          "add_ball(BallListManager *manager, int count, int radius, int owner_id):&#160;localballmanager.c"
      ∷ place_of "../test__screenballmanager_8h.html#acf75e3143c2142d93e39ec72a651cc72"
          "add_ball(BallListManager *manager, int count, int width, int height, int radius):&#160;screenballmanager.c"
      ∷ place_of "../screenballmanager_8c.html#acf75e3143c2142d93e39ec72a651cc72"
          "add_ball(BallListManager *manager, int count, int width, int height, int radius):&#160;screenballmanager.c"
      ∷ place_of "../localballmanager_8c.html#a429a903017991a2f2e72cbb8f17400ce"
          "add_ball(BallListManager *manager, int count, int radius, int owner_id):&#160;localballmanager.c"
      ∷ place_of "../test__screenballmanager_8c.html#acf75e3143c2142d93e39ec72a651cc72"
          "add_ball(BallListManager *manager, int count, int width, int height, int radius):&#160;test_screenballmanager.c"
      ∷ [])
    ∷ entry_of "add_5fclient_265" "add_client" (
        place_of "../client__list__manager_8h.html#a127b792db5fa7a5a8f01ca3287c2840e"
          "add_client(ClientListManager *manager, int csock, struct sockaddr_in cliaddr):&#160;client_list_manager.c"
        ∷ place_of "../client__list__manager_8c.html#a127b792db5fa7a5a8f01ca3287c2840e"
            "add_client(ClientListManager *manager, int csock, struct sockaddr_in cliaddr):&#160;client_list_manager.c"
        ∷ [])
    ∷ entry_of "append_5fclient_266" "append_client" (
        place_of "../client__list__manager_8h.html#ab69a7b0baed3a72bbb0a7d813258e6c9"
          "append_client(ClientNode *head, ClientNode **tail, SocketContext ctx):&#160;client_list_manager.c"
        ∷ place_of "../client__list__manager_8c.html#ab69a7b0baed3a72bbb0a7d813258e6c9"
            "append_client(ClientNode *head, ClientNode **tail, SocketContext ctx):&#160;client_list_manager.c"
        ∷ [])
    ∷ entry_of "appendball_267" "appendBall" (
        place_of "../screenball__list_8h.html#a87443dda91a9f7a4c6ed45619ec845ef"
          "appendBall(BallListNode *head, BallListNode **tail, ScreenBall ball):&#160;screenball_list.c"
        ∷ place_of "../localball__list_8h.html#a1b9c348e20415bcb72488d0ce82df52c"
            "appendBall(BallListNode *head, BallListNode **tail, LogicalBall ball):&#160;localball_list.c"
        ∷ place_of "../test__screenball__list_8h.html#a87443dda91a9f7a4c6ed45619ec845ef"
            "appendBall(BallListNode *head, BallListNode **tail, ScreenBall ball):&#160;screenball_list.c"
        ∷ place_of "../screenball__list_8c.html#a87443dda91a9f7a4c6ed45619ec845ef"
            "appendBall(BallListNode *head, BallListNode **tail, ScreenBall ball):&#160;screenball_list.c"
        ∷ place_of "../localball__list_8c.html#a1b9c348e20415bcb72488d0ce82df52c"
            "appendBall(BallListNode *head, BallListNode **tail, LogicalBall ball):&#160;localball_list.c"
        ∷ place_of "../test__screenball__list_8c.html#a87443dda91a9f7a4c6ed45619ec845ef"
            "appendBall(BallListNode *head, BallListNode **tail, ScreenBall ball):&#160;test_screenball_list.c"
        ∷ [])
    ∷ []

abbrev pub functions_1 : List Entry
functions_1 =
    entry_of "ball_5fmanager_5fdestroy_268" "ball_manager_destroy" (
      place_of "../screenballmanager_8h.html#ab98251696a902b6e46ad4e8b980cbaf8"
        "ball_manager_destroy(BallListManager *manager):&#160;screenballmanager.c"
      ∷ place_of "../localballmanager_8h.html#ab98251696a902b6e46ad4e8b980cbaf8"
          "ball_manager_destroy(BallListManager *manager):&#160;screenballmanager.c"
      ∷ place_of "../test__screenballmanager_8h.html#ab98251696a902b6e46ad4e8b980cbaf8"
          "ball_manager_destroy(BallListManager *manager):&#160;screenballmanager.c"
      ∷ place_of "../screenballmanager_8c.html#ab98251696a902b6e46ad4e8b980cbaf8"
          "ball_manager_destroy(BallListManager *manager):&#160;screenballmanager.c"
      ∷ place_of "../localballmanager_8c.html#ab98251696a902b6e46ad4e8b980cbaf8"
          "ball_manager_destroy(BallListManager *manager):&#160;localballmanager.c"
      ∷ place_of "../test__screenballmanager_8c.html#ab98251696a902b6e46ad4e8b980cbaf8"
          "ball_manager_destroy(BallListManager *manager):&#160;test_screenballmanager.c"
      ∷ [])
    ∷ entry_of "ball_5fmanager_5finit_269" "ball_manager_init" (
        place_of "../screenballmanager_8h.html#a14fe76e5b1907c1215e567e76cc8ea6f"
          "ball_manager_init(BallListManager *manager):&#160;screenballmanager.c"
        ∷ place_of "../localballmanager_8h.html#a14fe76e5b1907c1215e567e76cc8ea6f"
            "ball_manager_init(BallListManager *manager):&#160;screenballmanager.c"
        ∷ place_of "../test__screenballmanager_8h.html#a14fe76e5b1907c1215e567e76cc8ea6f"
            "ball_manager_init(BallListManager *manager):&#160;screenballmanager.c"
        ∷ place_of "../screenballmanager_8c.html#a14fe76e5b1907c1215e567e76cc8ea6f"
            "ball_manager_init(BallListManager *manager):&#160;screenballmanager.c"
        ∷ place_of "../localballmanager_8c.html#a14fe76e5b1907c1215e567e76cc8ea6f"
            "ball_manager_init(BallListManager *manager):&#160;localballmanager.c"
        ∷ place_of "../test__screenballmanager_8c.html#a14fe76e5b1907c1215e567e76cc8ea6f"
            "ball_manager_init(BallListManager *manager):&#160;test_screenballmanager.c"
        ∷ [])
    ∷ entry_of "broadcast_5fball_5fstate_270" "broadcast_ball_state" (
        place_of "../server_8h.html#ab34e80f6999b6dccbccb8ce94b8e2cb7"
          "broadcast_ball_state(ClientListManager *client_mgr, BallListManager *ball_mgr):&#160;server.c"
        ∷ place_of "../server_8c.html#ab34e80f6999b6dccbccb8ce94b8e2cb7"
            "broadcast_ball_state(ClientListManager *client_mgr, BallListManager *ball_mgr):&#160;server.c"
        ∷ [])
    ∷ entry_of "broadcast_5fball_5fstate_5fall_271" "broadcast_ball_state_all" (
        place_of "../server_8h.html#a46c88e6684e4dda8d303a8bd52733934"
          "broadcast_ball_state_all(ClientListManager *client_mgr, BallListManager *ball_mgr):&#160;server.c"
        ∷ place_of "../server_8c.html#a46c88e6684e4dda8d303a8bd52733934"
            "broadcast_ball_state_all(ClientListManager *client_mgr, BallListManager *ball_mgr):&#160;server.c"
        ∷ [])
    ∷ []

abbrev pub functions_2 : List Entry
functions_2 =
    entry_of "client_5flist_5fmanager_5fdestroy_272" "client_list_manager_destroy" (
      place_of "../client__list__manager_8h.html#a892775b5a42e088d18af9e4145d4477c"
        "client_list_manager_destroy(ClientListManager *manager):&#160;client_list_manager.c"
      ∷ place_of "../client__list__manager_8c.html#a892775b5a42e088d18af9e4145d4477c"
          "client_list_manager_destroy(ClientListManager *manager):&#160;client_list_manager.c"
      ∷ [])
    ∷ entry_of "client_5flist_5fmanager_5finit_273" "client_list_manager_init" (
        place_of "../client__list__manager_8h.html#a08f2f95cf8d0a1285c2dabaa55a7571f"
          "client_list_manager_init(ClientListManager *manager):&#160;client_list_manager.c"
        ∷ place_of "../client__list__manager_8c.html#a08f2f95cf8d0a1285c2dabaa55a7571f"
            "client_list_manager_init(ClientListManager *manager):&#160;client_list_manager.c"
        ∷ [])
    ∷ entry_of "count_5fball_5fby_5fowner_274" "count_ball_by_owner" (
        place_of "../localballmanager_8h.html#a91e67ffa6b48574c521ed176a77339f9"
          "count_ball_by_owner(BallListNode *head, int owner_id):&#160;localballmanager.c"
        ∷ place_of "../localballmanager_8c.html#a91e67ffa6b48574c521ed176a77339f9"
            "count_ball_by_owner(BallListNode *head, int owner_id):&#160;localballmanager.c"
        ∷ [])
    ∷ entry_of "create_5fclient_275" "create_client" (
        place_of "../client__list__manager_8h.html#a6d09771d227fec53df675be080e28c81"
          "create_client(int csock, struct sockaddr_in cliaddr):&#160;client_list_manager.c"
        ∷ place_of "../client__list__manager_8c.html#a6d09771d227fec53df675be080e28c81"
            "create_client(int csock, struct sockaddr_in cliaddr):&#160;client_list_manager.c"
        ∷ [])
    ∷ entry_of "create_5fclient_5fnode_276" "create_client_node" (
        place_of "../client__list__manager_8h.html#a7f88eea15c5914a9d096db48abfa9f02"
          "create_client_node(SocketContext ctx):&#160;client_list_manager.c"
        ∷ place_of "../client__list__manager_8c.html#a7f88eea15c5914a9d096db48abfa9f02"
            "create_client_node(SocketContext ctx):&#160;client_list_manager.c"
        ∷ [])
    ∷ entry_of "create_5flogical_5fball_277" "create_logical_ball" (
        place_of "../localball_8h.html#aecaa9ba3ea54f0dad619f086b1444838"
          "create_logical_ball(int id, int radius, int owner_id):&#160;loaclball.c"
        ∷ place_of "../loaclball_8c.html#aecaa9ba3ea54f0dad619f086b1444838"
            "create_logical_ball(int id, int radius, int owner_id):&#160;loaclball.c"
        ∷ [])
    ∷ entry_of "create_5fscreen_5fball_278" "create_screen_ball" (
        place_of "../screenball_8h.html#afbd97a5a45175d9ef618a4f435abf6fd"
          "create_screen_ball(int id, int width, int height, int radius):&#160;screenball.c"
        ∷ place_of "../test__screenball_8h.html#afbd97a5a45175d9ef618a4f435abf6fd"
            "create_screen_ball(int id, int width, int height, int radius):&#160;screenball.c"
        ∷ place_of "../screenball_8c.html#afbd97a5a45175d9ef618a4f435abf6fd"
            "create_screen_ball(int id, int width, int height, int radius):&#160;screenball.c"
        ∷ place_of "../test__screenball_8c.html#afbd97a5a45175d9ef618a4f435abf6fd"
            "create_screen_ball(int id, int width, int height, int radius):&#160;test_screenball.c"
        ∷ [])
    ∷ entry_of "createnode_279" "createNode" (
        place_of "../screenball__list_8h.html#a981d841cedbb7ca3a61c16c104aede5b"
          "createNode(ScreenBall ball):&#160;screenball_list.c"
        ∷ place_of "../localball__list_8h.html#a75ea72da39686317b4283185e152104c"
            "createNode(LogicalBall ball):&#160;localball_list.c"
        ∷ place_of "../test__screenball__list_8h.html#a981d841cedbb7ca3a61c16c104aede5b"
            "createNode(ScreenBall ball):&#160;screenball_list.c"
        ∷ place_of "../screenball__list_8c.html#a981d841cedbb7ca3a61c16c104aede5b"
            "createNode(ScreenBall ball):&#160;screenball_list.c"
        ∷ place_of "../localball__list_8c.html#a75ea72da39686317b4283185e152104c"
            "createNode(LogicalBall ball):&#160;localball_list.c"
        ∷ place_of "../test__screenball__list_8c.html#a981d841cedbb7ca3a61c16c104aede5b"
            "createNode(ScreenBall ball):&#160;test_screenball_list.c"
        ∷ [])
    ∷ entry_of "cycle_5fbroadcast_5fball_5fstate_280" "cycle_broadcast_ball_state" (
        place_of "../server_8h.html#a273716d1db6be8932a730a687e21b095"
          "cycle_broadcast_ball_state(void *arg):&#160;server.c"
        ∷ place_of "../server_8c.html#a273716d1db6be8932a730a687e21b095"
            "cycle_broadcast_ball_state(void *arg):&#160;server.c"
        ∷ [])
    ∷ []
