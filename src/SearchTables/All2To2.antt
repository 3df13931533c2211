-- ===== src/SearchTables/All2To2.antt =====
-- The tables `searchData` of docs/html/search/all_2.js to all_2.js.
use owner_based_ball_game.Base.{List, [], ◌∷◌}
use owner_based_ball_game.Results.Build.{Entry}
use owner_based_ball_game.SearchTables.Entries.{entry_of, place_of}

abbrev pub all_2 : List Entry
all_2 =
    entry_of "cliaddr_13" "cliaddr" (
      place_of "../structSocketContext.html#a0926c38c4880ab922c8a38929fea37ee" "SocketContext" ∷ [])
    ∷ entry_of "client_2ec_14" "client.c" (place_of "../client_8c.html" "" ∷ [])
    ∷ entry_of "client_2eh_15" "client.h" (place_of "../client_8h.html" "" ∷ [])
    ∷ entry_of "client_5fcount_16" "client_count" (
        place_of "../structClientListManager.html#a5336b61832210ce547ccda30d4d07738"
          "ClientListManager"
        ∷ [])
    ∷ entry_of "client_5flist_5fmanager_17" "client_list_manager" (
        place_of "../structSharedContext.html#ab77cc16c253761b546cb7db7ca7440b4" "SharedContext"
        ∷ [])
    ∷ entry_of "client_5flist_5fmanager_2ec_18" "client_list_manager.c"
        (place_of "../client__list__manager_8c.html" "" ∷ [])
    ∷ entry_of "client_5flist_5fmanager_2eh_19" "client_list_manager.h"
        (place_of "../client__list__manager_8h.html" "" ∷ [])
    ∷ entry_of "client_5flist_5fmanager_5fdestroy_20" "client_list_manager_destroy" (
        place_of "../client__list__manager_8h.html#a892775b5a42e088d18af9e4145d4477c"
          "client_list_manager_destroy(ClientListManager *manager):&#160;client_list_manager.c"
        ∷ place_of "../client__list__manager_8c.html#a892775b5a42e088d18af9e4145d4477c"
            "client_list_manager_destroy(ClientListManager *manager):&#160;client_list_manager.c"
        ∷ [])
    ∷ entry_of "client_5flist_5fmanager_5finit_21" "client_list_manager_init" (
        place_of "../client__list__manager_8h.html#a08f2f95cf8d0a1285c2dabaa55a7571f"
          "client_list_manager_init(ClientListManager *manager):&#160;client_list_manager.c"
        ∷ place_of "../client__list__manager_8c.html#a08f2f95cf8d0a1285c2dabaa55a7571f"
            "client_list_manager_init(ClientListManager *manager):&#160;client_list_manager.c"
        ∷ [])
    ∷ entry_of "clientlistmanager_22" "ClientListManager"
        (place_of "../structClientListManager.html" "" ∷ [])
    ∷ entry_of "clientnode_23" "ClientNode" (
        place_of "../structClientNode.html" "ClientNode"
        ∷ place_of "../client__list__manager_8h.html#ae595e8068bdebfe340161c59e6ff780d"
            "ClientNode():&#160;client_list_manager.h"
        ∷ [])
    ∷ entry_of "cmd_24" "cmd" (
        place_of "../structCommandEntry.html#af3f0eb42cda65af1dc4c9baddcd1ea8a" "CommandEntry" ∷ [])
    ∷ entry_of "cmd_5fadd_25" "CMD_ADD" (
        place_of "../screenballmanager_8h.html#a705b5452a36f343b954b28197b364306"
          "CMD_ADD():&#160;screenballmanager.h"
        ∷ place_of "../localballmanager_8h.html#a705b5452a36f343b954b28197b364306"
            "CMD_ADD():&#160;localballmanager.h"
        ∷ place_of "../test__screenballmanager_8h.html#a705b5452a36f343b954b28197b364306"
            "CMD_ADD():&#160;test_screenballmanager.h"
        ∷ [])
    ∷ entry_of "cmd_5fdel_26" "CMD_DEL" (
        place_of "../screenballmanager_8h.html#a1e4ff1a3a7e4e8404651f96a0f6c3859"
          "CMD_DEL():&#160;screenballmanager.h"
        ∷ place_of "../localballmanager_8h.html#a1e4ff1a3a7e4e8404651f96a0f6c3859"
            "CMD_DEL():&#160;localballmanager.h"
        ∷ place_of "../test__screenballmanager_8h.html#a1e4ff1a3a7e4e8404651f96a0f6c3859"
            "CMD_DEL():&#160;test_screenballmanager.h"
        ∷ [])
    ∷ entry_of "cmd_5fexit_27" "CMD_EXIT" (
        place_of "../screenballmanager_8h.html#acfa1d482ab47b3ceebb9717007111649"
          "CMD_EXIT():&#160;screenballmanager.h"
        ∷ place_of "../localballmanager_8h.html#acfa1d482ab47b3ceebb9717007111649"
            "CMD_EXIT():&#160;localballmanager.h"
        ∷ place_of "../test__screenballmanager_8h.html#acfa1d482ab47b3ceebb9717007111649"
            "CMD_EXIT():&#160;test_screenballmanager.h"
        ∷ [])
    ∷ entry_of "cmd_5fspeed_5fdown_28" "CMD_SPEED_DOWN" (
        place_of "../screenballmanager_8h.html#a2942029130a40135ff412347dabb77bb"
          "CMD_SPEED_DOWN():&#160;screenballmanager.h"
        ∷ place_of "../localballmanager_8h.html#a2942029130a40135ff412347dabb77bb"
            "CMD_SPEED_DOWN():&#160;localballmanager.h"
        ∷ place_of "../test__screenballmanager_8h.html#a2942029130a40135ff412347dabb77bb"
            "CMD_SPEED_DOWN():&#160;test_screenballmanager.h"
        ∷ [])
    ∷ entry_of "cmd_5fspeed_5fup_29" "CMD_SPEED_UP" (
        place_of "../screenballmanager_8h.html#a06006efb7fdb7b009d00c78210d9e466"
          "CMD_SPEED_UP():&#160;screenballmanager.h"
        ∷ place_of "../localballmanager_8h.html#a06006efb7fdb7b009d00c78210d9e466"
            "CMD_SPEED_UP():&#160;localballmanager.h"
        ∷ place_of "../test__screenballmanager_8h.html#a06006efb7fdb7b009d00c78210d9e466"
            "CMD_SPEED_UP():&#160;test_screenballmanager.h"
        ∷ [])
    ∷ entry_of "color_30" "color" (
        place_of "../structScreenBall.html#af5e8f5b48fa03e52508d000a036a316f" "ScreenBall::color()"
        ∷ place_of "../structLogicalBall.html#a03f7404941dfb9bdedd2a37d649b379d"
            "LogicalBall::color()"
        ∷ [])
    ∷ entry_of "color_5fblue_31" "COLOR_BLUE" (
        place_of "../console__color_8h.html#a23c70d699a5a775bc2e1ebeb8603f630" "console_color.h"
        ∷ [])
    ∷ entry_of "color_5fcyan_32" "COLOR_CYAN" (
        place_of "../console__color_8h.html#a82573859711fce56f1aa0a76b18a9b18" "console_color.h"
        ∷ [])
    ∷ entry_of "color_5fgreen_33" "COLOR_GREEN" (
        place_of "../console__color_8h.html#afc9149f5de51bd9ac4f5ebbfa153f018" "console_color.h"
        ∷ [])
    ∷ entry_of "color_5fred_34" "COLOR_RED" (
        place_of "../console__color_8h.html#ad86358bf19927183dd7b4ae215a29731" "console_color.h"
        ∷ [])
    ∷ entry_of "color_5freset_35" "COLOR_RESET" (
        place_of "../console__color_8h.html#a17f760256046df23dd0ab46602f04d02" "console_color.h"
        ∷ [])
    ∷ entry_of "color_5fyellow_36" "COLOR_YELLOW" (
        place_of "../console__color_8h.html#a4534b577b74a58b0f4b7be027af664e0" "console_color.h"
        ∷ [])
    ∷ entry_of "command_5ftable_37" "command_table" (
        place_of "../localballmanager_8h.html#a89e3933ede6944f35dd30bacfaa3bea4"
          "command_table():&#160;localballmanager.c"
        ∷ place_of "../localballmanager_8c.html#a89e3933ede6944f35dd30bacfaa3bea4"
            "command_table():&#160;localballmanager.c"
        ∷ [])
    ∷ entry_of "commandentry_38" "CommandEntry" (place_of "../structCommandEntry.html" "" ∷ [])
    ∷ entry_of "commandhandler_39" "CommandHandler" (
        place_of "../localballmanager_8h.html#a2d0e2266e0b6f7860050f539be508d80"
          "localballmanager.h"
        ∷ [])
    ∷ entry_of "cond_40" "cond"
        (place_of "../structTaskQueue.html#a5b1cb9d817b1065bf06ba0b8dab5a1f3" "TaskQueue" ∷ [])
    ∷ entry_of "console_5fcolor_2eh_41" "console_color.h"
        (place_of "../console__color_8h.html" "" ∷ [])
    ∷ entry_of "count_42" "count"
        (place_of "../structTaskQueue.html#ad2a872ed1c5420b22a7789fc83f8910f" "TaskQueue" ∷ [])
    ∷ entry_of "count_5fball_5fby_5fowner_43" "count_ball_by_owner" (
        place_of "../localballmanager_8h.html#a91e67ffa6b48574c521ed176a77339f9"
          "count_ball_by_owner(BallListNode *head, int owner_id):&#160;localballmanager.c"
        ∷ place_of "../localballmanager_8c.html#a91e67ffa6b48574c521ed176a77339f9"
            "count_ball_by_owner(BallListNode *head, int owner_id):&#160;localballmanager.c"
        ∷ [])
    ∷ entry_of "create_5fclient_44" "create_client" (
        place_of "../client__list__manager_8h.html#a6d09771d227fec53df675be080e28c81"
          "create_client(int csock, struct sockaddr_in cliaddr):&#160;client_list_manager.c"
        ∷ place_of "../client__list__manager_8c.html#a6d09771d227fec53df675be080e28c81"
            "create_client(int csock, struct sockaddr_in cliaddr):&#160;client_list_manager.c"
        ∷ [])
    ∷ entry_of "create_5fclient_5fnode_45" "create_client_node" (
        place_of "../client__list__manager_8h.html#a7f88eea15c5914a9d096db48abfa9f02"
          "create_client_node(SocketContext ctx):&#160;client_list_manager.c"
        ∷ place_of "../client__list__manager_8c.html#a7f88eea15c5914a9d096db48abfa9f02"
            "create_client_node(SocketContext ctx):&#160;client_list_manager.c"
        ∷ [])
    ∷ entry_of "create_5flogical_5fball_46" "create_logical_ball" (
        place_of "../localball_8h.html#aecaa9ba3ea54f0dad619f086b1444838"
          "create_logical_ball(int id, int radius, int owner_id):&#160;loaclball.c"
        ∷ place_of "../loaclball_8c.html#aecaa9ba3ea54f0dad619f086b1444838"
            "create_logical_ball(int id, int radius, int owner_id):&#160;loaclball.c"
        ∷ [])
    ∷ entry_of "create_5fscreen_5fball_47" "create_screen_ball" (
        place_of "../screenball_8h.html#afbd97a5a45175d9ef618a4f435abf6fd"
          "create_screen_ball(int id, int width, int height, int radius):&#160;screenball.c"
        ∷ place_of "../test__screenball_8h.html#afbd97a5a45175d9ef618a4f435abf6fd"
            "create_screen_ball(int id, int width, int height, int radius):&#160;screenball.c"
        ∷ place_of "../screenball_8c.html#afbd97a5a45175d9ef618a4f435abf6fd"
            "create_screen_ball(int id, int width, int height, int radius):&#160;screenball.c"
        ∷ place_of "../test__screenball_8c.html#afbd97a5a45175d9ef618a4f435abf6fd"
            "create_screen_ball(int id, int width, int height, int radius):&#160;test_screenball.c"
        ∷ [])
    ∷ entry_of "createnode_48" "createNode" (
        place_of "../screenball__list_8h.html#a981d841cedbb7ca3a61c16c104aede5b"
          "createNode(ScreenBall ball):&#160;screenball_list.c"
        ∷ place_of "../localball__list_8h.html#a75ea72da39686317b4283185e152104c"
            "createNode(LogicalBall ball):&#160;localball_list.c"
        ∷ place_of "../test__screenball__list_8h.html#a981d841cedbb7ca3a61c16c104aede5b"
            "createNode(ScreenBall ball):&#160;screenball_list.c"
        ∷ place_of "../screenball__list_8c.html#a981d841cedbb7ca3a61c16c104aede5b"
            "createNode(ScreenBall ball):&#160;screenball_list.c"
        ∷ place_of "../localball__list_8c.html#a75ea72da39686317b4283185e152104c"
            "createNode(LogicalBall ball):&#160;localball_list.c"
        ∷ place_of "../test__screenball__list_8c.html#a981d841cedbb7ca3a61c16c104aede5b"
            "createNode(ScreenBall ball):&#160;test_screenball_list.c"
        ∷ [])
    ∷ entry_of "csock_49" "csock" (
        place_of "../structSocketContext.html#a2ab79b3c5b59904933a42ae37e09c800" "SocketContext"
        ∷ [])
    ∷ entry_of "ctx_50" "ctx"
        (place_of "../structClientNode.html#acd8edd54acc1d20e91eb22ba8b5c0efe" "ClientNode" ∷ [])
    ∷ entry_of "cycle_5fbroadcast_5fball_5fstate_51" "cycle_broadcast_ball_state" (
        place_of "../server_8h.html#a273716d1db6be8932a730a687e21b095"
          "cycle_broadcast_ball_state(void *arg):&#160;server.c"
        ∷ place_of "../server_8c.html#a273716d1db6be8932a730a687e21b095"
            "cycle_broadcast_ball_state(void *arg):&#160;server.c"
        ∷ [])
    ∷ []
