-- ===== src/SearchTables/All7ToA.antt =====
-- The tables `searchData` of docs/html/search/all_7.js to all_a.js.
use owner_based_ball_game.Base.{List, [], ◌∷◌}
use owner_based_ball_game.Results.Build.{Entry}
use owner_based_ball_game.SearchTables.Entries.{entry_of, place_of}

abbrev pub all_7 : List Entry
all_7 =
    entry_of "handle_5fadd_100" "handle_add" (
      place_of "../localballmanager_8h.html#a6cafbcbb30bfb6d5c15f487c1eb17267"
        "handle_add(BallListManager *m, int count, int radius, int owner_id):&#160;localballmanager.c"
      ∷ place_of "../localballmanager_8c.html#a6cafbcbb30bfb6d5c15f487c1eb17267"
          "handle_add(BallListManager *m, int count, int radius, int owner_id):&#160;localballmanager.c"
      ∷ [])
    ∷ entry_of "handle_5fdelete_101" "handle_delete" (
        place_of "../localballmanager_8h.html#a6a6b9aad59d23a8c08806a0585c3a7cb"
          "handle_delete(BallListManager *m, int count, int radius, int owner_id):&#160;localballmanager.c"
        ∷ place_of "../localballmanager_8c.html#a6a6b9aad59d23a8c08806a0585c3a7cb"
            "handle_delete(BallListManager *m, int count, int radius, int owner_id):&#160;localballmanager.c"
        ∷ [])
    ∷ entry_of "handle_5fsigint_102" "handle_sigint" (
        place_of "../client_2main_8c.html#a8bfc90b3fb9344e9caafec953baacc0b"
          "handle_sigint(int sig):&#160;main.c"
        ∷ place_of "../server_2main_8c.html#a8bfc90b3fb9344e9caafec953baacc0b"
            "handle_sigint(int sig):&#160;main.c"
        ∷ place_of "../test__main_8c.html#a8bfc90b3fb9344e9caafec953baacc0b"
            "handle_sigint(int sig):&#160;test_main.c"
        ∷ [])
    ∷ entry_of "handle_5fspeed_5fdown_103" "handle_speed_down" (
        place_of "../localballmanager_8h.html#a75ad5a08a0e6e26e52117b44469571d8"
          "handle_speed_down(BallListManager *m, int count, int radius, int owner_id):&#160;localballmanager.c"
        ∷ place_of "../localballmanager_8c.html#a75ad5a08a0e6e26e52117b44469571d8"
            "handle_speed_down(BallListManager *m, int count, int radius, int owner_id):&#160;localballmanager.c"
        ∷ [])
    ∷ entry_of "handle_5fspeed_5fup_104" "handle_speed_up" (
        place_of "../localballmanager_8h.html#aa00cddab1af58b8b087352b036ed0c5d"
          "handle_speed_up(BallListManager *m, int count, int radius, int owner_id):&#160;localballmanager.c"
        ∷ place_of "../localballmanager_8c.html#aa00cddab1af58b8b087352b036ed0c5d"
            "handle_speed_up(BallListManager *m, int count, int radius, int owner_id):&#160;localballmanager.c"
        ∷ [])
    ∷ entry_of "handler_105" "handler" (
        place_of "../structCommandEntry.html#aeddc472a418053d47258ee82f0acd8b4" "CommandEntry" ∷ [])
    ∷ entry_of "head_106" "head" (
        place_of "../structBallListManager.html#aaf9153fec4aac933b58a7c56289f29ce"
          "BallListManager::head()"
        ∷ place_of "../structClientListManager.html#a94375dfabf02a071ac7634efd7e25dbf"
            "ClientListManager::head()"
        ∷ [])
    ∷ []

abbrev pub all_8 : List Entry
all_8 =
    entry_of "id_107" "id" (
      place_of "../structScreenBall.html#aa606d55ad077615a435f811147086e78" "ScreenBall::id()"
      ∷ place_of "../structLogicalBall.html#a4cd09f910d5f9aee3491b3cf234ac187" "LogicalBall::id()"
      ∷ [])
    ∷ []

abbrev pub all_9 : List Entry
all_9 =
    entry_of "keep_5frunning_108" "keep_running" (
      place_of "../client_8h.html#a69ed6cac8443e6accb95cd749c873604" "keep_running():&#160;client.c"
      ∷ place_of "../server_8h.html#a69ed6cac8443e6accb95cd749c873604"
          "keep_running():&#160;client.c"
      ∷ place_of "../task_8h.html#a69ed6cac8443e6accb95cd749c873604" "keep_running():&#160;client.c"
      ∷ place_of "../test__client_8h.html#a69ed6cac8443e6accb95cd749c873604"
          "keep_running():&#160;client.c"
      ∷ place_of "../client_8c.html#a69ed6cac8443e6accb95cd749c873604"
          "keep_running():&#160;client.c"
      ∷ place_of "../client_2main_8c.html#a69ed6cac8443e6accb95cd749c873604"
          "keep_running():&#160;client.c"
      ∷ place_of "../server_2main_8c.html#a69ed6cac8443e6accb95cd749c873604"
          "keep_running():&#160;client.c"
      ∷ place_of "../server_8c.html#a69ed6cac8443e6accb95cd749c873604"
          "keep_running():&#160;server.c"
      ∷ place_of "../test__client_8c.html#a69ed6cac8443e6accb95cd749c873604"
          "keep_running():&#160;test_client.c"
      ∷ place_of "../test__main_8c.html#a69ed6cac8443e6accb95cd749c873604"
          "keep_running():&#160;client.c"
      ∷ [])
    ∷ []

abbrev pub all_a : List Entry
all_a =
    entry_of "length_109" "length"
      (place_of "../structTask.html#a291588e6073c10e9922f9f3d0cf8bf03" "Task" ∷ [])
    ∷ entry_of "loaclball_2ec_110" "loaclball.c" (place_of "../loaclball_8c.html" "" ∷ [])
    ∷ entry_of "localball_2eh_111" "localball.h" (place_of "../localball_8h.html" "" ∷ [])
    ∷ entry_of "localball_5flist_2ec_112" "localball_list.c"
        (place_of "../localball__list_8c.html" "" ∷ [])
    ∷ entry_of "localball_5flist_2eh_113" "localball_list.h"
        (place_of "../localball__list_8h.html" "" ∷ [])
    ∷ entry_of "localballmanager_2ec_114" "localballmanager.c"
        (place_of "../localballmanager_8c.html" "" ∷ [])
    ∷ entry_of "localballmanager_2eh_115" "localballmanager.h"
        (place_of "../localballmanager_8h.html" "" ∷ [])
    ∷ entry_of "locate_116" "locate"
        (place_of "../fbDraw_8c.html#a4c330c538a885d6904b0c20672ec385e" "fbDraw.c" ∷ [])
    ∷ entry_of "log_2ec_117" "log.c" (place_of "../log_8c.html" "" ∷ [])
    ∷ entry_of "log_2eh_118" "log.h" (place_of "../log_8h.html" "" ∷ [])
    ∷ entry_of "log_5fball_5fmemory_5fusage_119" "log_ball_memory_usage" (
        place_of "../localballmanager_8h.html#a135e14152af6d4a80a82518c0230dc0f"
          "log_ball_memory_usage(BallListManager *manager, const char *action, int fd, int count):&#160;localballmanager.c"
        ∷ place_of "../localballmanager_8c.html#a135e14152af6d4a80a82518c0230dc0f"
            "log_ball_memory_usage(BallListManager *manager, const char *action, int fd, int count):&#160;localballmanager.c"
        ∷ [])
    ∷ entry_of "log_5fclient_5fconnect_120" "log_client_connect" (
        place_of "../server_8h.html#ad97aead738911fe5abfe88056e41625b"
          "log_client_connect(int fd, struct sockaddr_in *cliaddr):&#160;server.c"
        ∷ place_of "../server_8c.html#ad97aead738911fe5abfe88056e41625b"
            "log_client_connect(int fd, struct sockaddr_in *cliaddr):&#160;server.c"
        ∷ [])
    ∷ entry_of "log_5fclient_5fdisconnect_121" "log_client_disconnect" (
        place_of "../server_8h.html#adf933dd230c685a4169632dc0b897c6d"
          "log_client_disconnect(int fd, const char *reason):&#160;server.c"
        ∷ place_of "../server_8c.html#adf933dd230c685a4169632dc0b897c6d"
            "log_client_disconnect(int fd, const char *reason):&#160;server.c"
        ∷ [])
    ∷ entry_of "log_5fdebug_122" "LOG_DEBUG" (
        place_of "../log_8h.html#aca1fd1d8935433e6ba2e3918214e07f9ab9f002c6ffbfd511da8090213227454e"
          "log.h"
        ∷ [])
    ∷ entry_of "log_5ferror_123" "LOG_ERROR" (
        place_of "../log_8h.html#aca1fd1d8935433e6ba2e3918214e07f9a230506cce5c68c3bac5a821c42ed3473"
          "log.h"
        ∷ [])
    ∷ entry_of "log_5fevent_124" "log_event" (
        place_of "../log_8h.html#a303e514d70c919cd7c9ec6105b6bc9f5"
          "log_event(LogLevel level, const char *action, int fd, int count, const char *details):&#160;log.c"
        ∷ place_of "../log_8c.html#a303e514d70c919cd7c9ec6105b6bc9f5"
            "log_event(LogLevel level, const char *action, int fd, int count, const char *details):&#160;log.c"
        ∷ [])
    ∷ entry_of "log_5finfo_125" "LOG_INFO" (
        place_of "../log_8h.html#aca1fd1d8935433e6ba2e3918214e07f9a6e98ff471e3ce6c4ef2d75c37ee51837"
          "log.h"
        ∷ [])
    ∷ entry_of "log_5fwarning_126" "LOG_WARNING" (
        place_of "../log_8h.html#aca1fd1d8935433e6ba2e3918214e07f9a8f6fe15bfe15104da6d1b360194a5400"
          "log.h"
        ∷ [])
    ∷ entry_of "logic_5fto_5fpixel_127" "logic_to_pixel" (
        place_of "../screenballmanager_8h.html#aa892c9fb63bc88cd05b0d3a0cd27c75c"
          "logic_to_pixel(float logic, int screen_size):&#160;screenballmanager.c"
        ∷ place_of "../test__screenballmanager_8h.html#aa892c9fb63bc88cd05b0d3a0cd27c75c"
            "logic_to_pixel(float logic, int screen_size):&#160;screenballmanager.c"
        ∷ place_of "../screenballmanager_8c.html#aa892c9fb63bc88cd05b0d3a0cd27c75c"
            "logic_to_pixel(float logic, int screen_size):&#160;screenballmanager.c"
        ∷ place_of "../test__screenballmanager_8c.html#aa892c9fb63bc88cd05b0d3a0cd27c75c"
            "logic_to_pixel(float logic, int screen_size):&#160;test_screenballmanager.c"
        ∷ [])
    ∷ entry_of "logical_5fto_5fscreen_5fball_128" "logical_to_screen_ball" (
        place_of "../screenballmanager_8h.html#a0fd5e913d9557e8e1847c8d278a93f0d"
          "logical_to_screen_ball(LogicalBall l, int width, int height):&#160;screenballmanager.c"
        ∷ place_of "../test__screenballmanager_8h.html#a0fd5e913d9557e8e1847c8d278a93f0d"
            "logical_to_screen_ball(LogicalBall l, int width, int height):&#160;screenballmanager.c"
        ∷ place_of "../screenballmanager_8c.html#a0fd5e913d9557e8e1847c8d278a93f0d"
            "logical_to_screen_ball(LogicalBall l, int width, int height):&#160;screenballmanager.c"
        ∷ place_of "../test__screenballmanager_8c.html#a0fd5e913d9557e8e1847c8d278a93f0d"
            "logical_to_screen_ball(LogicalBall l, int width, int height):&#160;test_screenballmanager.c"
        ∷ [])
    ∷ entry_of "logicalball_129" "LogicalBall" (place_of "../structLogicalBall.html" "" ∷ [])
    ∷ entry_of "loglevel_130" "LogLevel"
        (place_of "../log_8h.html#aca1fd1d8935433e6ba2e3918214e07f9" "log.h" ∷ [])
    ∷ []
