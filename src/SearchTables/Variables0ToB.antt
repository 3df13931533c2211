-- ===== src/SearchTables/Variables0ToB.antt =====
-- The tables `searchData` of docs/html/search/variables_0.js to variables_b.js.
use owner_based_ball_game.Base.{List, [], ◌∷◌}
use owner_based_ball_game.Results.Build.{Entry}
use owner_based_ball_game.SearchTables.Entries.{entry_of, place_of}

abbrev pub variables_0 : List Entry
variables_0 =
    entry_of "b_344" "b"
      (place_of "../structRGBColor.html#af24a8ebcd90343a2fd226ef53b3f5e69" "RGBColor" ∷ [])
    ∷ entry_of "ball_5flist_5fmanager_345" "ball_list_manager" (
        place_of "../structSharedContext.html#a7921ef1e9b5940b46e85c1529a4e8bec" "SharedContext"
        ∷ [])
    ∷ []

abbrev pub variables_1 : List Entry
variables_1 =
    entry_of "cliaddr_346" "cliaddr" (
      place_of "../structSocketContext.html#a0926c38c4880ab922c8a38929fea37ee" "SocketContext" ∷ [])
    ∷ entry_of "client_5fcount_347" "client_count" (
        place_of "../structClientListManager.html#a5336b61832210ce547ccda30d4d07738"
          "ClientListManager"
        ∷ [])
    ∷ entry_of "client_5flist_5fmanager_348" "client_list_manager" (
        place_of "../structSharedContext.html#ab77cc16c253761b546cb7db7ca7440b4" "SharedContext"
        ∷ [])
    ∷ entry_of "cmd_349" "cmd" (
        place_of "../structCommandEntry.html#af3f0eb42cda65af1dc4c9baddcd1ea8a" "CommandEntry" ∷ [])
    ∷ entry_of "color_350" "color" (
        place_of "../structScreenBall.html#af5e8f5b48fa03e52508d000a036a316f" "ScreenBall::color()"
        ∷ place_of "../structLogicalBall.html#a03f7404941dfb9bdedd2a37d649b379d"
            "LogicalBall::color()"
        ∷ [])
    ∷ entry_of "command_5ftable_351" "command_table" (
        place_of "../localballmanager_8h.html#a89e3933ede6944f35dd30bacfaa3bea4"
          "command_table():&#160;localballmanager.c"
        ∷ place_of "../localballmanager_8c.html#a89e3933ede6944f35dd30bacfaa3bea4"
            "command_table():&#160;localballmanager.c"
        ∷ [])
    ∷ entry_of "cond_352" "cond"
        (place_of "../structTaskQueue.html#a5b1cb9d817b1065bf06ba0b8dab5a1f3" "TaskQueue" ∷ [])
    ∷ entry_of "count_353" "count"
        (place_of "../structTaskQueue.html#ad2a872ed1c5420b22a7789fc83f8910f" "TaskQueue" ∷ [])
    ∷ entry_of "csock_354" "csock" (
        place_of "../structSocketContext.html#a2ab79b3c5b59904933a42ae37e09c800" "SocketContext"
        ∷ [])
    ∷ entry_of "ctx_355" "ctx"
        (place_of "../structClientNode.html#acd8edd54acc1d20e91eb22ba8b5c0efe" "ClientNode" ∷ [])
    ∷ []

abbrev pub variables_2 : List Entry
variables_2 =
    entry_of "data_356" "data" (
      place_of "../structBallListNode.html#a0b52602a9632bb31718b4ca4e8c92a42" "BallListNode::data()"
      ∷ place_of "../structBallListNode.html#a90808e514c80c982e50ee4ec3bc93cf2"
          "BallListNode::data()"
      ∷ place_of "../structTask.html#a1b4339422c2c4e0d20d685ebee045f51" "Task::data()"
      ∷ [])
    ∷ entry_of "dx_357" "dx" (
        place_of "../structScreenBall.html#a4d1b4f0b9cab04ada8676d92a9f37bfa" "ScreenBall::dx()"
        ∷ place_of "../structLogicalBall.html#a231692c1ad66b7dfa650d1b13b8279a0" "LogicalBall::dx()"
        ∷ [])
    ∷ entry_of "dy_358" "dy" (
        place_of "../structScreenBall.html#aae2a7b7ed740b84b69ff322e27d254f6" "ScreenBall::dy()"
        ∷ place_of "../structLogicalBall.html#acf12751edb253f7f129ed4de121ad46e" "LogicalBall::dy()"
        ∷ [])
    ∷ []

abbrev pub variables_3 : List Entry
variables_3 =
    entry_of "epoll_5ffd_359" "epoll_fd" (
      place_of "../structSharedContext.html#ab7f68ca5810799896fd22c627205a10f" "SharedContext" ∷ [])
    ∷ []

abbrev pub variables_4 : List Entry
variables_4 =
    entry_of "fbfd_360" "fbfd"
      (place_of "../structdev__fb__t.html#a9177e1d7c16865ec0809db3142365439" "dev_fb_t" ∷ [])
    ∷ entry_of "fbp_361" "fbp"
        (place_of "../structdev__fb__t.html#abffc82839f47242dcc92b155601a2a9f" "dev_fb_t" ∷ [])
    ∷ entry_of "fd_362" "fd"
        (place_of "../structTask.html#a33500ca12b64815a047cd5423fa75fed" "Task" ∷ [])
    ∷ entry_of "finfo_363" "finfo"
        (place_of "../structdev__fb__t.html#a908f5a5916b64a5e198f3a88d43dea15" "dev_fb_t" ∷ [])
    ∷ entry_of "framebuffer_364" "framebuffer" (
        place_of "../structSharedContext.html#acaf3cf1ecea51d21a39513a1bf2a7e35" "SharedContext"
        ∷ [])
    ∷ entry_of "front_365" "front"
        (place_of "../structTaskQueue.html#a6497fa0f350541a9d7549713183d771e" "TaskQueue" ∷ [])
    ∷ []

abbrev pub variables_5 : List Entry
variables_5 =
    entry_of "g_366" "g"
      (place_of "../structRGBColor.html#a44111dbc8e22536a46b3581d556eaab9" "RGBColor" ∷ [])
    ∷ entry_of "global_5ftask_5fqueue_367" "global_task_queue" (
        place_of "../server_8h.html#a459f3b7a46f802286d1392b741fbf4df"
          "global_task_queue():&#160;server.c"
        ∷ place_of "../server_2main_8c.html#a459f3b7a46f802286d1392b741fbf4df"
            "global_task_queue():&#160;server.c"
        ∷ place_of "../server_8c.html#a459f3b7a46f802286d1392b741fbf4df"
            "global_task_queue():&#160;server.c"
        ∷ [])
    ∷ []

abbrev pub variables_6 : List Entry
variables_6 =
    entry_of "handler_368" "handler"
      (place_of "../structCommandEntry.html#aeddc472a418053d47258ee82f0acd8b4" "CommandEntry" ∷ [])
    ∷ entry_of "head_369" "head" (
        place_of "../structBallListManager.html#aaf9153fec4aac933b58a7c56289f29ce"
          "BallListManager::head()"
        ∷ place_of "../structClientListManager.html#a94375dfabf02a071ac7634efd7e25dbf"
            "ClientListManager::head()"
        ∷ [])
    ∷ []

abbrev pub variables_7 : List Entry
variables_7 =
    entry_of "id_370" "id" (
      place_of "../structScreenBall.html#aa606d55ad077615a435f811147086e78" "ScreenBall::id()"
      ∷ place_of "../structLogicalBall.html#a4cd09f910d5f9aee3491b3cf234ac187" "LogicalBall::id()"
      ∷ [])
    ∷ []

abbrev pub variables_8 : List Entry
variables_8 =
    entry_of "keep_5frunning_371" "keep_running" (
      place_of "../client_8h.html#a69ed6cac8443e6accb95cd749c873604" "keep_running():&#160;client.c"
      ∷ place_of "../server_8h.html#a69ed6cac8443e6accb95cd749c873604"
          "keep_running():&#160;client.c"
      ∷ place_of "../task_8h.html#a69ed6cac8443e6accb95cd749c873604" "keep_running():&#160;client.c"
      ∷ place_of "../test__client_8h.html#a69ed6cac8443e6accb95cd749c873604"
          "keep_running():&#160;client.c"
      ∷ place_of "../client_8c.html#a69ed6cac8443e6accb95cd749c873604"
          "keep_running():&#160;client.c"
      ∷ place_of "../client_2main_8c.html#a69ed6cac8443e6accb95cd749c873604"
          "keep_running():&#160;client.c"
      ∷ place_of "../server_2main_8c.html#a69ed6cac8443e6accb95cd749c873604"
          "keep_running():&#160;client.c"
      ∷ place_of "../server_8c.html#a69ed6cac8443e6accb95cd749c873604"
          "keep_running():&#160;server.c"
      ∷ place_of "../test__client_8c.html#a69ed6cac8443e6accb95cd749c873604"
          "keep_running():&#160;test_client.c"
      ∷ place_of "../test__main_8c.html#a69ed6cac8443e6accb95cd749c873604"
          "keep_running():&#160;client.c"
      ∷ [])
    ∷ []

abbrev pub variables_9 : List Entry
variables_9 =
    entry_of "length_372" "length"
      (place_of "../structTask.html#a291588e6073c10e9922f9f3d0cf8bf03" "Task" ∷ [])
    ∷ []

abbrev pub variables_a : List Entry
variables_a =
    entry_of "mutex_373" "mutex"
      (place_of "../structTaskQueue.html#a3a31156f9f00c9bef440ee1ac513cca8" "TaskQueue" ∷ [])
    ∷ entry_of "mutex_5fball_374" "mutex_ball" (
        place_of "../structSharedContext.html#a470ed63818ca2c08d6f579cb0a6feb2d"
          "SharedContext::mutex_ball()"
        ∷ place_of "../structBallListManager.html#a058a4b1896f76ed40cd20ae9c6cd8608"
            "BallListManager::mutex_ball()"
        ∷ [])
    ∷ entry_of "mutex_5fclient_375" "mutex_client" (
        place_of "../structClientListManager.html#a75f1e860d3a3c02ad665e9c2595fe8ce"
          "ClientListManager"
        ∷ [])
    ∷ []

abbrev pub variables_b : List Entry
variables_b =
    entry_of "next_376" "next" (
      place_of "../structBallListNode.html#a1e57916d45f33193bef77bcb55627568" "BallListNode::next()"
      ∷ place_of "../structClientNode.html#a7327ae0e7a282465c7060fb9e2f61859" "ClientNode::next()"
      ∷ [])
    ∷ []
