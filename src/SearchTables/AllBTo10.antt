-- ===== src/SearchTables/AllBTo10.antt =====
-- The tables `searchData` of docs/html/search/all_b.js to all_10.js.
use owner_based_ball_game.Base.{List, [], ◌∷◌}
use owner_based_ball_game.Results.Build.{Entry}
use owner_based_ball_game.SearchTables.Entries.{entry_of, place_of}

abbrev pub all_b : List Entry
all_b =
    entry_of "main_131" "main" (
      place_of "../client_2main_8c.html#a3c04138a5bfe5d72780bb7e82a18e627"
        "main(int argc, char **argv):&#160;main.c"
      ∷ place_of "../server_2main_8c.html#a840291bc02cba5474a4cb46a9b9566fe"
          "main(void):&#160;main.c"
      ∷ place_of "../test__main_8c.html#a3c04138a5bfe5d72780bb7e82a18e627"
          "main(int argc, char **argv):&#160;test_main.c"
      ∷ [])
    ∷ entry_of "main_2ec_132" "main.c" (
        place_of "../client_2main_8c.html" "(Global Namespace)"
        ∷ place_of "../server_2main_8c.html" "(Global Namespace)"
        ∷ [])
    ∷ entry_of "manager_5fdestroy_133" "manager_destroy" (
        place_of "../client_8h.html#ad7afb6b70d6e4660323703779a04c265"
          "manager_destroy(SharedContext *arg):&#160;client.c"
        ∷ place_of "../server_8h.html#ad7afb6b70d6e4660323703779a04c265"
            "manager_destroy(SharedContext *arg):&#160;client.c"
        ∷ place_of "../test__client_8h.html#ad7afb6b70d6e4660323703779a04c265"
            "manager_destroy(SharedContext *arg):&#160;client.c"
        ∷ place_of "../client_8c.html#ad7afb6b70d6e4660323703779a04c265"
            "manager_destroy(SharedContext *arg):&#160;client.c"
        ∷ place_of "../server_8c.html#ad7afb6b70d6e4660323703779a04c265"
            "manager_destroy(SharedContext *arg):&#160;server.c"
        ∷ place_of "../test__client_8c.html#ad7afb6b70d6e4660323703779a04c265"
            "manager_destroy(SharedContext *arg):&#160;test_client.c"
        ∷ [])
    ∷ entry_of "manager_5finit_134" "manager_init" (
        place_of "../client_8h.html#a1b61f36b5be073296b19aef41d17c4ee"
          "manager_init():&#160;client.c"
        ∷ place_of "../server_8h.html#a1b61f36b5be073296b19aef41d17c4ee"
            "manager_init():&#160;client.c"
        ∷ place_of "../test__client_8h.html#a1b61f36b5be073296b19aef41d17c4ee"
            "manager_init():&#160;client.c"
        ∷ place_of "../client_8c.html#a1b61f36b5be073296b19aef41d17c4ee"
            "manager_init():&#160;client.c"
        ∷ place_of "../server_8c.html#a1b61f36b5be073296b19aef41d17c4ee"
            "manager_init():&#160;server.c"
        ∷ place_of "../test__client_8c.html#a1b61f36b5be073296b19aef41d17c4ee"
            "manager_init():&#160;test_client.c"
        ∷ [])
    ∷ entry_of "max_5fclients_135" "MAX_CLIENTS" (
        place_of "../client_8h.html#a0a8f91f93d75a07f0ae45077db45b3eb"
          "MAX_CLIENTS():&#160;client.h"
        ∷ place_of "../client__list__manager_8h.html#a0a8f91f93d75a07f0ae45077db45b3eb"
            "MAX_CLIENTS():&#160;client_list_manager.h"
        ∷ place_of "../test__client_8h.html#a0a8f91f93d75a07f0ae45077db45b3eb"
            "MAX_CLIENTS():&#160;test_client.h"
        ∷ [])
    ∷ entry_of "max_5fevents_136" "MAX_EVENTS"
        (place_of "../server_2main_8c.html#ae42954bb8545d24e3e9dcde5920c9a0b" "main.c" ∷ [])
    ∷ entry_of "max_5finput_137" "MAX_INPUT" (
        place_of "../client_8h.html#a00c1f0e7816626f58349492ef0720b5f" "MAX_INPUT():&#160;client.h"
        ∷ place_of "../test__client_8h.html#a00c1f0e7816626f58349492ef0720b5f"
            "MAX_INPUT():&#160;test_client.h"
        ∷ [])
    ∷ entry_of "max_5fspeed_138" "MAX_SPEED" (
        place_of "../localball__list_8h.html#ac2cd96d53dd3ba6407db6766c3d92b26" "localball_list.h"
        ∷ [])
    ∷ entry_of "min_5fspeed_139" "MIN_SPEED" (
        place_of "../localball__list_8h.html#ad5f5efaa5cb771bd06da4bfe6046809e" "localball_list.h"
        ∷ [])
    ∷ entry_of "move_5fall_5fball_140" "move_all_ball" (
        place_of "../localballmanager_8h.html#a37f58e952e714d32fd9f8f2c77ffbf2b"
          "move_all_ball(BallListManager *manager):&#160;localballmanager.c"
        ∷ place_of "../localballmanager_8c.html#a37f58e952e714d32fd9f8f2c77ffbf2b"
            "move_all_ball(BallListManager *manager):&#160;localballmanager.c"
        ∷ [])
    ∷ entry_of "move_5flogical_5fball_141" "move_logical_ball" (
        place_of "../localball_8h.html#aeb29dc58260b32c5b6c26f68cd764d48"
          "move_logical_ball(LogicalBall *b):&#160;loaclball.c"
        ∷ place_of "../loaclball_8c.html#aeb29dc58260b32c5b6c26f68cd764d48"
            "move_logical_ball(LogicalBall *b):&#160;loaclball.c"
        ∷ [])
    ∷ entry_of "moveballlist_142" "moveBallList" (
        place_of "../localball__list_8h.html#a92b3e98c6c171ebac2e38021298fa1ae"
          "moveBallList(BallListNode *head):&#160;localball_list.c"
        ∷ place_of "../localball__list_8c.html#a92b3e98c6c171ebac2e38021298fa1ae"
            "moveBallList(BallListNode *head):&#160;localball_list.c"
        ∷ [])
    ∷ entry_of "mutex_143" "mutex"
        (place_of "../structTaskQueue.html#a3a31156f9f00c9bef440ee1ac513cca8" "TaskQueue" ∷ [])
    ∷ entry_of "mutex_5fball_144" "mutex_ball" (
        place_of "../structSharedContext.html#a470ed63818ca2c08d6f579cb0a6feb2d"
          "SharedContext::mutex_ball()"
        ∷ place_of "../structBallListManager.html#a058a4b1896f76ed40cd20ae9c6cd8608"
            "BallListManager::mutex_ball()"
        ∷ [])
    ∷ entry_of "mutex_5fclient_145" "mutex_client" (
        place_of "../structClientListManager.html#a75f1e860d3a3c02ad665e9c2595fe8ce"
          "ClientListManager"
        ∷ [])
    ∷ []

abbrev pub all_c : List Entry
all_c =
    entry_of "next_146" "next" (
      place_of "../structBallListNode.html#a1e57916d45f33193bef77bcb55627568" "BallListNode::next()"
      ∷ place_of "../structClientNode.html#a7327ae0e7a282465c7060fb9e2f61859" "ClientNode::next()"
      ∷ [])
    ∷ entry_of "num_5fworkers_147" "NUM_WORKERS"
        (place_of "../server_8h.html#ac9d054bcf2a4e92ae062eaa3cce95381" "server.h" ∷ [])
    ∷ []

abbrev pub all_d : List Entry
all_d =
    entry_of "owner_5fid_148" "owner_id" (
      place_of "../structScreenBall.html#a78c032273c6871b0cc6ebb36d88871e1" "ScreenBall::owner_id()"
      ∷ place_of "../structLogicalBall.html#a2da74bb0e6368d3b60c5f4068b9d5650"
          "LogicalBall::owner_id()"
      ∷ [])
    ∷ []

abbrev pub all_e : List Entry
all_e =
    entry_of "parsecommand_149" "parseCommand" (
      place_of "../server_8h.html#a4ebec583e35d7af144ebe8885f360a4f"
        "parseCommand(const char *cmdStr, int *ball_count, int *radius):&#160;server.c"
      ∷ place_of "../server_8c.html#a4ebec583e35d7af144ebe8885f360a4f"
          "parseCommand(const char *cmdStr, int *ball_count, int *radius):&#160;server.c"
      ∷ [])
    ∷ entry_of "pixel_150" "pixel"
        (place_of "../fbDraw_8h.html#a7bf8b649cde7078dcc31232cca17b90b" "fbDraw.h" ∷ [])
    ∷ entry_of "pixel_5ft_151" "pixel_t" (place_of "../structpixel__t.html" "" ∷ [])
    ∷ entry_of "print_5fclients_152" "print_clients" (
        place_of "../client__list__manager_8h.html#a86b9ce932aabe66bb43bf8bd5ff1634e"
          "print_clients(ClientNode *head):&#160;client_list_manager.c"
        ∷ place_of "../client__list__manager_8c.html#a86b9ce932aabe66bb43bf8bd5ff1634e"
            "print_clients(ClientNode *head):&#160;client_list_manager.c"
        ∷ [])
    ∷ entry_of "printinfoball_153" "printInfoBall" (
        place_of "../screenball__list_8h.html#ae2f0b18293ade3d3401edec54d5968ce"
          "printInfoBall(BallListNode *head):&#160;screenball_list.c"
        ∷ place_of "../localball__list_8h.html#ae2f0b18293ade3d3401edec54d5968ce"
            "printInfoBall(BallListNode *head):&#160;screenball_list.c"
        ∷ place_of "../test__screenball__list_8h.html#ae2f0b18293ade3d3401edec54d5968ce"
            "printInfoBall(BallListNode *head):&#160;screenball_list.c"
        ∷ place_of "../screenball__list_8c.html#ae2f0b18293ade3d3401edec54d5968ce"
            "printInfoBall(BallListNode *head):&#160;screenball_list.c"
        ∷ place_of "../localball__list_8c.html#ae2f0b18293ade3d3401edec54d5968ce"
            "printInfoBall(BallListNode *head):&#160;localball_list.c"
        ∷ place_of "../test__screenball__list_8c.html#ae2f0b18293ade3d3401edec54d5968ce"
            "printInfoBall(BallListNode *head):&#160;test_screenball_list.c"
        ∷ [])
    ∷ []

abbrev pub all_f : List Entry
all_f =
    entry_of "queue_154" "queue"
      (place_of "../structTaskQueue.html#a1954d7cebb5cf4fad4472b397c997f6b" "TaskQueue" ∷ [])
    ∷ []

abbrev pub all_10 : List Entry
all_10 =
    entry_of "r_155" "r"
      (place_of "../structRGBColor.html#a60d4e7624380517c8b7993e1fbb602c8" "RGBColor" ∷ [])
    ∷ entry_of "radius_156" "radius" (
        place_of "../structScreenBall.html#ae6b6451bb35a2a87dafc0b3103c80634" "ScreenBall::radius()"
        ∷ place_of "../structLogicalBall.html#a8517bcdef43bde4fd4ec182bde8eed41"
            "LogicalBall::radius()"
        ∷ place_of "../client_8h.html#aa4f8ea40228c3c3a9a7143b1d1ad8956" "RADIUS():&#160;client.h"
        ∷ place_of "../fbDraw_8h.html#aa4f8ea40228c3c3a9a7143b1d1ad8956" "RADIUS():&#160;fbDraw.h"
        ∷ place_of "../test__client_8h.html#aa4f8ea40228c3c3a9a7143b1d1ad8956"
            "RADIUS():&#160;test_client.h"
        ∷ [])
    ∷ entry_of "readme_2emd_157" "README.md" (place_of "../README_8md.html" "" ∷ [])
    ∷ entry_of "rear_158" "rear"
        (place_of "../structTaskQueue.html#a1cef5f52644c72ad2dee2540b26039a9" "TaskQueue" ∷ [])
    ∷ entry_of "remove_5fclient_5fby_5fsocket_159" "remove_client_by_socket" (
        place_of "../client__list__manager_8h.html#a9173e0c62c82e1bd21ebd6e756042441"
          "remove_client_by_socket(int socket_fd, ClientNode **head, ClientNode **tail):&#160;client_list_manager.c"
        ∷ place_of "../client__list__manager_8c.html#a9173e0c62c82e1bd21ebd6e756042441"
            "remove_client_by_socket(int socket_fd, ClientNode **head, ClientNode **tail):&#160;client_list_manager.c"
        ∷ [])
    ∷ entry_of "render_5fthread_160" "render_thread" (
        place_of "../client_8h.html#aef860fd4a7cbfca91aac6a488bb6207a"
          "render_thread(void *arg):&#160;client.c"
        ∷ place_of "../test__client_8h.html#aef860fd4a7cbfca91aac6a488bb6207a"
            "render_thread(void *arg):&#160;client.c"
        ∷ place_of "../client_8c.html#aef860fd4a7cbfca91aac6a488bb6207a"
            "render_thread(void *arg):&#160;client.c"
        ∷ place_of "../test__client_8c.html#aef860fd4a7cbfca91aac6a488bb6207a"
            "render_thread(void *arg):&#160;test_client.c"
        ∷ [])
    ∷ entry_of "rgbcolor_161" "RGBColor" (place_of "../structRGBColor.html" "" ∷ [])
    ∷ []
