-- ===== src/SearchTables/Defines0ToPages0.antt =====
-- The tables `searchData` of docs/html/search, from defines_0.js to pages_0.js.
use owner_based_ball_game.Base.{List, [], ◌∷◌}
use owner_based_ball_game.Results.Build.{Entry}
use owner_based_ball_game.SearchTables.Entries.{entry_of, place_of}

abbrev pub defines_0 : List Entry
defines_0 =
    entry_of "cmd_5fadd_402" "CMD_ADD" (
      place_of "../screenballmanager_8h.html#a705b5452a36f343b954b28197b364306"
        "CMD_ADD():&#160;screenballmanager.h"
      ∷ place_of "../localballmanager_8h.html#a705b5452a36f343b954b28197b364306"
          "CMD_ADD():&#160;localballmanager.h"
      ∷ place_of "../test__screenballmanager_8h.html#a705b5452a36f343b954b28197b364306"
          "CMD_ADD():&#160;test_screenballmanager.h"
      ∷ [])
    ∷ entry_of "cmd_5fdel_403" "CMD_DEL" (
        place_of "../screenballmanager_8h.html#a1e4ff1a3a7e4e8404651f96a0f6c3859"
          "CMD_DEL():&#160;screenballmanager.h"
        ∷ place_of "../localballmanager_8h.html#a1e4ff1a3a7e4e8404651f96a0f6c3859"
            "CMD_DEL():&#160;localballmanager.h"
        ∷ place_of "../test__screenballmanager_8h.html#a1e4ff1a3a7e4e8404651f96a0f6c3859"
            "CMD_DEL():&#160;test_screenballmanager.h"
        ∷ [])
    ∷ entry_of "cmd_5fexit_404" "CMD_EXIT" (
        place_of "../screenballmanager_8h.html#acfa1d482ab47b3ceebb9717007111649"
          "CMD_EXIT():&#160;screenballmanager.h"
        ∷ place_of "../localballmanager_8h.html#acfa1d482ab47b3ceebb9717007111649"
            "CMD_EXIT():&#160;localballmanager.h"
        ∷ place_of "../test__screenballmanager_8h.html#acfa1d482ab47b3ceebb9717007111649"
            "CMD_EXIT():&#160;test_screenballmanager.h"
        ∷ [])
    ∷ entry_of "cmd_5fspeed_5fdown_405" "CMD_SPEED_DOWN" (
        place_of "../screenballmanager_8h.html#a2942029130a40135ff412347dabb77bb"
          "CMD_SPEED_DOWN():&#160;screenballmanager.h"
        ∷ place_of "../localballmanager_8h.html#a2942029130a40135ff412347dabb77bb"
            "CMD_SPEED_DOWN():&#160;localballmanager.h"
        ∷ place_of "../test__screenballmanager_8h.html#a2942029130a40135ff412347dabb77bb"
            "CMD_SPEED_DOWN():&#160;test_screenballmanager.h"
        ∷ [])
    ∷ entry_of "cmd_5fspeed_5fup_406" "CMD_SPEED_UP" (
        place_of "../screenballmanager_8h.html#a06006efb7fdb7b009d00c78210d9e466"
          "CMD_SPEED_UP():&#160;screenballmanager.h"
        ∷ place_of "../localballmanager_8h.html#a06006efb7fdb7b009d00c78210d9e466"
            "CMD_SPEED_UP():&#160;localballmanager.h"
        ∷ place_of "../test__screenballmanager_8h.html#a06006efb7fdb7b009d00c78210d9e466"
            "CMD_SPEED_UP():&#160;test_screenballmanager.h"
        ∷ [])
    ∷ entry_of "color_5fblue_407" "COLOR_BLUE" (
        place_of "../console__color_8h.html#a23c70d699a5a775bc2e1ebeb8603f630" "console_color.h"
        ∷ [])
    ∷ entry_of "color_5fcyan_408" "COLOR_CYAN" (
        place_of "../console__color_8h.html#a82573859711fce56f1aa0a76b18a9b18" "console_color.h"
        ∷ [])
    ∷ entry_of "color_5fgreen_409" "COLOR_GREEN" (
        place_of "../console__color_8h.html#afc9149f5de51bd9ac4f5ebbfa153f018" "console_color.h"
        ∷ [])
    ∷ entry_of "color_5fred_410" "COLOR_RED" (
        place_of "../console__color_8h.html#ad86358bf19927183dd7b4ae215a29731" "console_color.h"
        ∷ [])
    ∷ entry_of "color_5freset_411" "COLOR_RESET" (
        place_of "../console__color_8h.html#a17f760256046df23dd0ab46602f04d02" "console_color.h"
        ∷ [])
    ∷ entry_of "color_5fyellow_412" "COLOR_YELLOW" (
        place_of "../console__color_8h.html#a4534b577b74a58b0f4b7be027af664e0" "console_color.h"
        ∷ [])
    ∷ []

abbrev pub defines_1 : List Entry
defines_1 =
    entry_of "fb_5fget_5ffinfo_5ffail_413" "FB_GET_FINFO_FAIL"
      (place_of "../fbDraw_8h.html#a05e5244c4ec8e90bca3dde787436371d" "fbDraw.h" ∷ [])
    ∷ entry_of "fb_5fget_5fvinfo_5ffail_414" "FB_GET_VINFO_FAIL"
        (place_of "../fbDraw_8h.html#a79a9ebe4a6042a13ee7fdcbae4d22642" "fbDraw.h" ∷ [])
    ∷ entry_of "fb_5fmmap_5ffail_415" "FB_MMAP_FAIL"
        (place_of "../fbDraw_8h.html#a229d80050cb3c6fe2030eab7eb9df14f" "fbDraw.h" ∷ [])
    ∷ entry_of "fb_5fopen_5ffail_416" "FB_OPEN_FAIL"
        (place_of "../fbDraw_8h.html#a31443a70375d226ac402fdc8805c45fe" "fbDraw.h" ∷ [])
    ∷ entry_of "fbdevice_417" "FBDEVICE"
        (place_of "../fbDraw_8h.html#a284388f6429fe1ffaf0037bc66132e54" "fbDraw.h" ∷ [])
    ∷ []

abbrev pub defines_2 : List Entry
defines_2 =
    entry_of "max_5fclients_418" "MAX_CLIENTS" (
      place_of "../client_8h.html#a0a8f91f93d75a07f0ae45077db45b3eb" "MAX_CLIENTS():&#160;client.h"
      ∷ place_of "../client__list__manager_8h.html#a0a8f91f93d75a07f0ae45077db45b3eb"
          "MAX_CLIENTS():&#160;client_list_manager.h"
      ∷ place_of "../test__client_8h.html#a0a8f91f93d75a07f0ae45077db45b3eb"
          "MAX_CLIENTS():&#160;test_client.h"
      ∷ [])
    ∷ entry_of "max_5fevents_419" "MAX_EVENTS"
        (place_of "../server_2main_8c.html#ae42954bb8545d24e3e9dcde5920c9a0b" "main.c" ∷ [])
    ∷ entry_of "max_5finput_420" "MAX_INPUT" (
        place_of "../client_8h.html#a00c1f0e7816626f58349492ef0720b5f" "MAX_INPUT():&#160;client.h"
        ∷ place_of "../test__client_8h.html#a00c1f0e7816626f58349492ef0720b5f"
            "MAX_INPUT():&#160;test_client.h"
        ∷ [])
    ∷ entry_of "max_5fspeed_421" "MAX_SPEED" (
        place_of "../localball__list_8h.html#ac2cd96d53dd3ba6407db6766c3d92b26" "localball_list.h"
        ∷ [])
    ∷ entry_of "min_5fspeed_422" "MIN_SPEED" (
        place_of "../localball__list_8h.html#ad5f5efaa5cb771bd06da4bfe6046809e" "localball_list.h"
        ∷ [])
    ∷ []

abbrev pub defines_3 : List Entry
defines_3 =
    entry_of "num_5fworkers_423" "NUM_WORKERS"
      (place_of "../server_8h.html#ac9d054bcf2a4e92ae062eaa3cce95381" "server.h" ∷ [])
    ∷ []

abbrev pub defines_4 : List Entry
defines_4 =
    entry_of "radius_424" "RADIUS" (
      place_of "../client_8h.html#aa4f8ea40228c3c3a9a7143b1d1ad8956" "RADIUS():&#160;client.h"
      ∷ place_of "../fbDraw_8h.html#aa4f8ea40228c3c3a9a7143b1d1ad8956" "RADIUS():&#160;fbDraw.h"
      ∷ place_of "../test__client_8h.html#aa4f8ea40228c3c3a9a7143b1d1ad8956"
          "RADIUS():&#160;test_client.h"
      ∷ [])
    ∷ []

abbrev pub defines_5 : List Entry
defines_5 =
    entry_of "server_5fport_425" "SERVER_PORT" (
      place_of "../client_8h.html#ac42367fe5c999ec6650de83e9d72fe8c" "SERVER_PORT():&#160;client.h"
      ∷ place_of "../server_8h.html#ac42367fe5c999ec6650de83e9d72fe8c"
          "SERVER_PORT():&#160;server.h"
      ∷ place_of "../test__client_8h.html#ac42367fe5c999ec6650de83e9d72fe8c"
          "SERVER_PORT():&#160;test_client.h"
      ∷ [])
    ∷ entry_of "start_5fball_5fcount_426" "START_BALL_COUNT" (
        place_of "../localballmanager_8h.html#ae65d5f650c5b1999f5a77437e9adc55a"
          "localballmanager.h"
        ∷ [])
    ∷ entry_of "start_5fball_5fradius_427" "START_BALL_RADIUS" (
        place_of "../client_8h.html#a1cf54f2cd9eb07d77276b8273921fda7"
          "START_BALL_RADIUS():&#160;client.h"
        ∷ place_of "../localballmanager_8h.html#a1cf54f2cd9eb07d77276b8273921fda7"
            "START_BALL_RADIUS():&#160;localballmanager.h"
        ∷ place_of "../test__client_8h.html#a1cf54f2cd9eb07d77276b8273921fda7"
            "START_BALL_RADIUS():&#160;test_client.h"
        ∷ [])
    ∷ []

abbrev pub defines_6 : List Entry
defines_6 =
    entry_of "task_5fqueue_5fcapacity_428" "TASK_QUEUE_CAPACITY"
      (place_of "../task_8h.html#a03f4253f37afc79fe2fdc33aea1a10b2" "task.h" ∷ [])
    ∷ entry_of "thread_5fnum_429" "THREAD_NUM" (
        place_of "../client_2main_8c.html#acd532f688378febc70bf2aedccd9bb60"
          "THREAD_NUM():&#160;main.c"
        ∷ place_of "../test__main_8c.html#acd532f688378febc70bf2aedccd9bb60"
            "THREAD_NUM():&#160;test_main.c"
        ∷ [])
    ∷ []

abbrev pub pages_0 : List Entry
pages_0 = entry_of "ball_20game_430" "Ball Game" (place_of "../md_README.html" "" ∷ []) ∷ []
