-- ===== src/SearchTables/Functions7ToA.antt =====
-- The tables `searchData` of docs/html/search/functions_7.js to functions_a.js.
use owner_based_ball_game.Base.{List, [], ◌∷◌}
use owner_based_ball_game.Results.Build.{Entry}
use owner_based_ball_game.SearchTables.Entries.{entry_of, place_of}

abbrev pub functions_7 : List Entry
functions_7 =
    entry_of "locate_313" "locate"
      (place_of "../fbDraw_8c.html#a4c330c538a885d6904b0c20672ec385e" "fbDraw.c" ∷ [])
    ∷ entry_of "log_5fball_5fmemory_5fusage_314" "log_ball_memory_usage" (
        place_of "../localballmanager_8h.html#a135e14152af6d4a80a82518c0230dc0f"
          "log_ball_memory_usage(BallListManager *manager, const char *action, int fd, int count):&#160;localballmanager.c"
        ∷ place_of "../localballmanager_8c.html#a135e14152af6d4a80a82518c0230dc0f"
            "log_ball_memory_usage(BallListManager *manager, const char *action, int fd, int count):&#160;localballmanager.c"
        ∷ [])
    ∷ entry_of "log_5fclient_5fconnect_315" "log_client_connect" (
        place_of "../server_8h.html#ad97aead738911fe5abfe88056e41625b"
          "log_client_connect(int fd, struct sockaddr_in *cliaddr):&#160;server.c"
        ∷ place_of "../server_8c.html#ad97aead738911fe5abfe88056e41625b"
            "log_client_connect(int fd, struct sockaddr_in *cliaddr):&#160;server.c"
        ∷ [])
    ∷ entry_of "log_5fclient_5fdisconnect_316" "log_client_disconnect" (
        place_of "../server_8h.html#adf933dd230c685a4169632dc0b897c6d"
          "log_client_disconnect(int fd, const char *reason):&#160;server.c"
        ∷ place_of "../server_8c.html#adf933dd230c685a4169632dc0b897c6d"
            "log_client_disconnect(int fd, const char *reason):&#160;server.c"
        ∷ [])
    ∷ entry_of "log_5fevent_317" "log_event" (
        place_of "../log_8h.html#a303e514d70c919cd7c9ec6105b6bc9f5"
          "log_event(LogLevel level, const char *action, int fd, int count, const char *details):&#160;log.c"
        ∷ place_of "../log_8c.html#a303e514d70c919cd7c9ec6105b6bc9f5"
            "log_event(LogLevel level, const char *action, int fd, int count, const char *details):&#160;log.c"
        ∷ [])
    ∷ entry_of "logic_5fto_5fpixel_318" "logic_to_pixel" (
        place_of "../screenballmanager_8h.html#aa892c9fb63bc88cd05b0d3a0cd27c75c"
          "logic_to_pixel(float logic, int screen_size):&#160;screenballmanager.c"
        ∷ place_of "../test__screenballmanager_8h.html#aa892c9fb63bc88cd05b0d3a0cd27c75c"
            "logic_to_pixel(float logic, int screen_size):&#160;screenballmanager.c"
        ∷ place_of "../screenballmanager_8c.html#aa892c9fb63bc88cd05b0d3a0cd27c75c"
            "logic_to_pixel(float logic, int screen_size):&#160;screenballmanager.c"
        ∷ place_of "../test__screenballmanager_8c.html#aa892c9fb63bc88cd05b0d3a0cd27c75c"
            "logic_to_pixel(float logic, int screen_size):&#160;test_screenballmanager.c"
        ∷ [])
    ∷ entry_of "logical_5fto_5fscreen_5fball_319" "logical_to_screen_ball" (
        place_of "../screenballmanager_8h.html#a0fd5e913d9557e8e1847c8d278a93f0d"
          "logical_to_screen_ball(LogicalBall l, int width, int height):&#160;screenballmanager.c"
        ∷ place_of "../test__screenballmanager_8h.html#a0fd5e913d9557e8e1847c8d278a93f0d"
            "logical_to_screen_ball(LogicalBall l, int width, int height):&#160;screenballmanager.c"
        ∷ place_of "../screenballmanager_8c.html#a0fd5e913d9557e8e1847c8d278a93f0d"
            "logical_to_screen_ball(LogicalBall l, int width, int height):&#160;screenballmanager.c"
        ∷ place_of "../test__screenballmanager_8c.html#a0fd5e913d9557e8e1847c8d278a93f0d"
            "logical_to_screen_ball(LogicalBall l, int width, int height):&#160;test_screenballmanager.c"
        ∷ [])
    ∷ []

abbrev pub functions_8 : List Entry
functions_8 =
    entry_of "main_320" "main" (
      place_of "../client_2main_8c.html#a3c04138a5bfe5d72780bb7e82a18e627"
        "main(int argc, char **argv):&#160;main.c"
      ∷ place_of "../server_2main_8c.html#a840291bc02cba5474a4cb46a9b9566fe"
          "main(void):&#160;main.c"
      ∷ place_of "../test__main_8c.html#a3c04138a5bfe5d72780bb7e82a18e627"
          "main(int argc, char **argv):&#160;test_main.c"
      ∷ [])
    ∷ entry_of "manager_5fdestroy_321" "manager_destroy" (
        place_of "../client_8h.html#ad7afb6b70d6e4660323703779a04c265"
          "manager_destroy(SharedContext *arg):&#160;client.c"
        ∷ place_of "../server_8h.html#ad7afb6b70d6e4660323703779a04c265"
            "manager_destroy(SharedContext *arg):&#160;client.c"
        ∷ place_of "../test__client_8h.html#ad7afb6b70d6e4660323703779a04c265"
            "manager_destroy(SharedContext *arg):&#160;client.c"
        ∷ place_of "../client_8c.html#ad7afb6b70d6e4660323703779a04c265"
            "manager_destroy(SharedContext *arg):&#160;client.c"
        ∷ place_of "../server_8c.html#ad7afb6b70d6e4660323703779a04c265"
            "manager_destroy(SharedContext *arg):&#160;server.c"
        ∷ place_of "../test__client_8c.html#ad7afb6b70d6e4660323703779a04c265"
            "manager_destroy(SharedContext *arg):&#160;test_client.c"
        ∷ [])
    ∷ entry_of "manager_5finit_322" "manager_init" (
        place_of "../client_8h.html#a1b61f36b5be073296b19aef41d17c4ee"
          "manager_init():&#160;client.c"
        ∷ place_of "../server_8h.html#a1b61f36b5be073296b19aef41d17c4ee"
            "manager_init():&#160;client.c"
        ∷ place_of "../test__client_8h.html#a1b61f36b5be073296b19aef41d17c4ee"
            "manager_init():&#160;client.c"
        ∷ place_of "../client_8c.html#a1b61f36b5be073296b19aef41d17c4ee"
            "manager_init():&#160;client.c"
        ∷ place_of "../server_8c.html#a1b61f36b5be073296b19aef41d17c4ee"
            "manager_init():&#160;server.c"
        ∷ place_of "../test__client_8c.html#a1b61f36b5be073296b19aef41d17c4ee"
            "manager_init():&#160;test_client.c"
        ∷ [])
    ∷ entry_of "move_5fall_5fball_323" "move_all_ball" (
        place_of "../localballmanager_8h.html#a37f58e952e714d32fd9f8f2c77ffbf2b"
          "move_all_ball(BallListManager *manager):&#160;localballmanager.c"
        ∷ place_of "../localballmanager_8c.html#a37f58e952e714d32fd9f8f2c77ffbf2b"
            "move_all_ball(BallListManager *manager):&#160;localballmanager.c"
        ∷ [])
    ∷ entry_of "move_5flogical_5fball_324" "move_logical_ball" (
        place_of "../localball_8h.html#aeb29dc58260b32c5b6c26f68cd764d48"
          "move_logical_ball(LogicalBall *b):&#160;loaclball.c"
        ∷ place_of "../loaclball_8c.html#aeb29dc58260b32c5b6c26f68cd764d48"
            "move_logical_ball(LogicalBall *b):&#160;loaclball.c"
        ∷ [])
    ∷ entry_of "moveballlist_325" "moveBallList" (
        place_of "../localball__list_8h.html#a92b3e98c6c171ebac2e38021298fa1ae"
          "moveBallList(BallListNode *head):&#160;localball_list.c"
        ∷ place_of "../localball__list_8c.html#a92b3e98c6c171ebac2e38021298fa1ae"
            "moveBallList(BallListNode *head):&#160;localball_list.c"
        ∷ [])
    ∷ []

abbrev pub functions_9 : List Entry
functions_9 =
    entry_of "parsecommand_326" "parseCommand" (
      place_of "../server_8h.html#a4ebec583e35d7af144ebe8885f360a4f"
        "parseCommand(const char *cmdStr, int *ball_count, int *radius):&#160;server.c"
      ∷ place_of "../server_8c.html#a4ebec583e35d7af144ebe8885f360a4f"
          "parseCommand(const char *cmdStr, int *ball_count, int *radius):&#160;server.c"
      ∷ [])
    ∷ entry_of "print_5fclients_327" "print_clients" (
        place_of "../client__list__manager_8h.html#a86b9ce932aabe66bb43bf8bd5ff1634e"
          "print_clients(ClientNode *head):&#160;client_list_manager.c"
        ∷ place_of "../client__list__manager_8c.html#a86b9ce932aabe66bb43bf8bd5ff1634e"
            "print_clients(ClientNode *head):&#160;client_list_manager.c"
        ∷ [])
    ∷ entry_of "printinfoball_328" "printInfoBall" (
        place_of "../screenball__list_8h.html#ae2f0b18293ade3d3401edec54d5968ce"
          "printInfoBall(BallListNode *head):&#160;screenball_list.c"
        ∷ place_of "../localball__list_8h.html#ae2f0b18293ade3d3401edec54d5968ce"
            "printInfoBall(BallListNode *head):&#160;screenball_list.c"
        ∷ place_of "../test__screenball__list_8h.html#ae2f0b18293ade3d3401edec54d5968ce"
            "printInfoBall(BallListNode *head):&#160;screenball_list.c"
        ∷ place_of "../screenball__list_8c.html#ae2f0b18293ade3d3401edec54d5968ce"
            "printInfoBall(BallListNode *head):&#160;screenball_list.c"
        ∷ place_of "../localball__list_8c.html#ae2f0b18293ade3d3401edec54d5968ce"
            "printInfoBall(BallListNode *head):&#160;localball_list.c"
        ∷ place_of "../test__screenball__list_8c.html#ae2f0b18293ade3d3401edec54d5968ce"
            "printInfoBall(BallListNode *head):&#160;test_screenball_list.c"
        ∷ [])
    ∷ []

abbrev pub functions_a : List Entry
functions_a =
    entry_of "remove_5fclient_5fby_5fsocket_329" "remove_client_by_socket" (
      place_of "../client__list__manager_8h.html#a9173e0c62c82e1bd21ebd6e756042441"
        "remove_client_by_socket(int socket_fd, ClientNode **head, ClientNode **tail):&#160;client_list_manager.c"
      ∷ place_of "../client__list__manager_8c.html#a9173e0c62c82e1bd21ebd6e756042441"
          "remove_client_by_socket(int socket_fd, ClientNode **head, ClientNode **tail):&#160;client_list_manager.c"
      ∷ [])
    ∷ entry_of "render_5fthread_330" "render_thread" (
        place_of "../client_8h.html#aef860fd4a7cbfca91aac6a488bb6207a"
          "render_thread(void *arg):&#160;client.c"
        ∷ place_of "../test__client_8h.html#aef860fd4a7cbfca91aac6a488bb6207a"
            "render_thread(void *arg):&#160;client.c"
        ∷ place_of "../client_8c.html#aef860fd4a7cbfca91aac6a488bb6207a"
            "render_thread(void *arg):&#160;client.c"
        ∷ place_of "../test__client_8c.html#aef860fd4a7cbfca91aac6a488bb6207a"
            "render_thread(void *arg):&#160;test_client.c"
        ∷ [])
    ∷ []
