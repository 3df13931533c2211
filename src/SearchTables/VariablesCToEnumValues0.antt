-- ===== src/SearchTables/VariablesCToEnumValues0.antt =====
-- The tables `searchData` of docs/html/search, from variables_c.js to enumvalues_0.js.
use owner_based_ball_game.Base.{List, [], ◌∷◌}
use owner_based_ball_game.Results.Build.{Entry}
use owner_based_ball_game.SearchTables.Entries.{entry_of, place_of}

abbrev pub variables_c : List Entry
variables_c =
    entry_of "owner_5fid_377" "owner_id" (
      place_of "../structScreenBall.html#a78c032273c6871b0cc6ebb36d88871e1" "ScreenBall::owner_id()"
      ∷ place_of "../structLogicalBall.html#a2da74bb0e6368d3b60c5f4068b9d5650"
          "LogicalBall::owner_id()"
      ∷ [])
    ∷ []

abbrev pub variables_d : List Entry
variables_d =
    entry_of "queue_378" "queue"
      (place_of "../structTaskQueue.html#a1954d7cebb5cf4fad4472b397c997f6b" "TaskQueue" ∷ [])
    ∷ []

abbrev pub variables_e : List Entry
variables_e =
    entry_of "r_379" "r"
      (place_of "../structRGBColor.html#a60d4e7624380517c8b7993e1fbb602c8" "RGBColor" ∷ [])
    ∷ entry_of "radius_380" "radius" (
        place_of "../structScreenBall.html#ae6b6451bb35a2a87dafc0b3103c80634" "ScreenBall::radius()"
        ∷ place_of "../structLogicalBall.html#a8517bcdef43bde4fd4ec182bde8eed41"
            "LogicalBall::radius()"
        ∷ [])
    ∷ entry_of "rear_381" "rear"
        (place_of "../structTaskQueue.html#a1cef5f52644c72ad2dee2540b26039a9" "TaskQueue" ∷ [])
    ∷ []

abbrev pub variables_f : List Entry
variables_f =
    entry_of "screensize_382" "screensize"
      (place_of "../structdev__fb__t.html#a29befe07b88975030a81f16b17c5a836" "dev_fb_t" ∷ [])
    ∷ entry_of "socket_5ffd_383" "socket_fd" (
        place_of "../structSharedContext.html#a86b786e53d10d939506dfd315ba21c70" "SharedContext"
        ∷ [])
    ∷ []

abbrev pub variables_10 : List Entry
variables_10 =
    entry_of "tail_384" "tail" (
      place_of "../structBallListManager.html#a74c528bd060cb5447dc2b211ae428978"
        "BallListManager::tail()"
      ∷ place_of "../structClientListManager.html#a52d16435c2349ff5aa270d2d690ef3df"
          "ClientListManager::tail()"
      ∷ [])
    ∷ entry_of "task_5fqueue_385" "task_queue" (
        place_of "../structSharedContext.html#a301f283b2372d1594e64a482d62d3821" "SharedContext"
        ∷ [])
    ∷ entry_of "total_5fcount_386" "total_count" (
        place_of "../structBallListManager.html#a75a835d63501f5f3b3ffc4fad043f5d6" "BallListManager"
        ∷ [])
    ∷ []

abbrev pub variables_11 : List Entry
variables_11 =
    entry_of "vinfo_387" "vinfo"
      (place_of "../structdev__fb__t.html#ab3ac4d607c720165fdc7a04a1a2a3321" "dev_fb_t" ∷ [])
    ∷ []

abbrev pub variables_12 : List Entry
variables_12 =
    entry_of "x_388" "x" (
      place_of "../structScreenBall.html#a7b25385aed227acb52deea14ef7f119d" "ScreenBall::x()"
      ∷ place_of "../structLogicalBall.html#a0124c3c3a73988845cab40054965b70f" "LogicalBall::x()"
      ∷ place_of "../structpixel__t.html#ab96756fdec59282d76623d0af523be19" "pixel_t::x()"
      ∷ [])
    ∷ []

abbrev pub variables_13 : List Entry
variables_13 =
    entry_of "y_389" "y" (
      place_of "../structScreenBall.html#a75b9a9079b15a367ff395eb1bb5cd402" "ScreenBall::y()"
      ∷ place_of "../structLogicalBall.html#a3cc9b445ab44ba112a693911d0522769" "LogicalBall::y()"
      ∷ place_of "../structpixel__t.html#a95e4eacba7ef834295e2e9a7aaffe721" "pixel_t::y()"
      ∷ [])
    ∷ []

abbrev pub typedefs_0 : List Entry
typedefs_0 =
    entry_of "balllistnode_390" "BallListNode" (
      place_of "../screenball__list_8h.html#a7a25928e905b086dfd2011aa154ff478"
        "BallListNode():&#160;screenball_list.h"
      ∷ place_of "../localball__list_8h.html#a7a25928e905b086dfd2011aa154ff478"
          "BallListNode():&#160;localball_list.h"
      ∷ place_of "../test__screenball__list_8h.html#a7a25928e905b086dfd2011aa154ff478"
          "BallListNode():&#160;test_screenball_list.h"
      ∷ [])
    ∷ []

abbrev pub typedefs_1 : List Entry
typedefs_1 =
    entry_of "clientnode_391" "ClientNode" (
      place_of "../client__list__manager_8h.html#ae595e8068bdebfe340161c59e6ff780d"
        "client_list_manager.h"
      ∷ [])
    ∷ entry_of "commandhandler_392" "CommandHandler" (
        place_of "../localballmanager_8h.html#a2d0e2266e0b6f7860050f539be508d80"
          "localballmanager.h"
        ∷ [])
    ∷ []

abbrev pub typedefs_2 : List Entry
typedefs_2 =
    entry_of "dev_5ffb_393" "dev_fb"
      (place_of "../fbDraw_8h.html#a147028deefea41316d7296df26e7609c" "fbDraw.h" ∷ [])
    ∷ []

abbrev pub typedefs_3 : List Entry
typedefs_3 =
    entry_of "pixel_394" "pixel"
      (place_of "../fbDraw_8h.html#a7bf8b649cde7078dcc31232cca17b90b" "fbDraw.h" ∷ [])
    ∷ []

abbrev pub typedefs_4 : List Entry
typedefs_4 =
    entry_of "ubyte_395" "ubyte"
      (place_of "../fbDraw_8h.html#a5dd4f281954ce1405c92d62a427f839a" "fbDraw.h" ∷ [])
    ∷ entry_of "uchar_396" "uchar" (
        place_of "../screenballmanager_8h.html#a65f85814a8290f9797005d3b28e7e5fc"
          "uchar():&#160;screenballmanager.h"
        ∷ place_of "../localballmanager_8h.html#a65f85814a8290f9797005d3b28e7e5fc"
            "uchar():&#160;localballmanager.h"
        ∷ place_of "../test__screenballmanager_8h.html#a65f85814a8290f9797005d3b28e7e5fc"
            "uchar():&#160;test_screenballmanager.h"
        ∷ [])
    ∷ []

abbrev pub enums_0 : List Entry
enums_0 =
    entry_of "loglevel_397" "LogLevel"
      (place_of "../log_8h.html#aca1fd1d8935433e6ba2e3918214e07f9" "log.h" ∷ [])
    ∷ []

abbrev pub enumvalues_0 : List Entry
enumvalues_0 =
    entry_of "log_5fdebug_398" "LOG_DEBUG" (
      place_of "../log_8h.html#aca1fd1d8935433e6ba2e3918214e07f9ab9f002c6ffbfd511da8090213227454e"
        "log.h"
      ∷ [])
    ∷ entry_of "log_5ferror_399" "LOG_ERROR" (
        place_of "../log_8h.html#aca1fd1d8935433e6ba2e3918214e07f9a230506cce5c68c3bac5a821c42ed3473"
          "log.h"
        ∷ [])
    ∷ entry_of "log_5finfo_400" "LOG_INFO" (
        place_of "../log_8h.html#aca1fd1d8935433e6ba2e3918214e07f9a6e98ff471e3ce6c4ef2d75c37ee51837"
          "log.h"
        ∷ [])
    ∷ entry_of "log_5fwarning_401" "LOG_WARNING" (
        place_of "../log_8h.html#aca1fd1d8935433e6ba2e3918214e07f9a8f6fe15bfe15104da6d1b360194a5400"
          "log.h"
        ∷ [])
    ∷ []
