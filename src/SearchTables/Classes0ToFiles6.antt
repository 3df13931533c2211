-- ===== src/SearchTables/Classes0ToFiles6.antt =====
-- The tables `searchData` of docs/html/search, from classes_0.js to files_6.js.
use owner_based_ball_game.Base.{List, [], ◌∷◌}
use owner_based_ball_game.Results.Build.{Entry}
use owner_based_ball_game.SearchTables.Entries.{entry_of, place_of}

abbrev pub classes_0 : List Entry
classes_0 =
    entry_of "balllistmanager_214" "BallListManager"
      (place_of "../structBallListManager.html" "" ∷ [])
    ∷ entry_of "balllistnode_215" "BallListNode" (place_of "../structBallListNode.html" "" ∷ [])
    ∷ []

abbrev pub classes_1 : List Entry
classes_1 =
    entry_of "clientlistmanager_216" "ClientListManager"
      (place_of "../structClientListManager.html" "" ∷ [])
    ∷ entry_of "clientnode_217" "ClientNode" (place_of "../structClientNode.html" "" ∷ [])
    ∷ entry_of "commandentry_218" "CommandEntry" (place_of "../structCommandEntry.html" "" ∷ [])
    ∷ []

abbrev pub classes_2 : List Entry
classes_2 =
    entry_of "dev_5ffb_5ft_219" "dev_fb_t" (place_of "../structdev__fb__t.html" "" ∷ []) ∷ []

abbrev pub classes_3 : List Entry
classes_3 =
    entry_of "logicalball_220" "LogicalBall" (place_of "../structLogicalBall.html" "" ∷ []) ∷ []

abbrev pub classes_4 : List Entry
classes_4 = entry_of "pixel_5ft_221" "pixel_t" (place_of "../structpixel__t.html" "" ∷ []) ∷ []

abbrev pub classes_5 : List Entry
classes_5 = entry_of "rgbcolor_222" "RGBColor" (place_of "../structRGBColor.html" "" ∷ []) ∷ []

abbrev pub classes_6 : List Entry
classes_6 =
    entry_of "screenball_223" "ScreenBall" (place_of "../structScreenBall.html" "" ∷ [])
    ∷ entry_of "sharedcontext_224" "SharedContext" (place_of "../structSharedContext.html" "" ∷ [])
    ∷ entry_of "socketcontext_225" "SocketContext" (place_of "../structSocketContext.html" "" ∷ [])
    ∷ []

abbrev pub classes_7 : List Entry
classes_7 =
    entry_of "task_226" "Task" (place_of "../structTask.html" "" ∷ [])
    ∷ entry_of "taskqueue_227" "TaskQueue" (place_of "../structTaskQueue.html" "" ∷ [])
    ∷ []

abbrev pub files_0 : List Entry
files_0 =
    entry_of "client_2ec_228" "client.c" (place_of "../client_8c.html" "" ∷ [])
    ∷ entry_of "client_2eh_229" "client.h" (place_of "../client_8h.html" "" ∷ [])
    ∷ entry_of "client_5flist_5fmanager_2ec_230" "client_list_manager.c"
        (place_of "../client__list__manager_8c.html" "" ∷ [])
    ∷ entry_of "client_5flist_5fmanager_2eh_231" "client_list_manager.h"
        (place_of "../client__list__manager_8h.html" "" ∷ [])
    ∷ entry_of "console_5fcolor_2eh_232" "console_color.h"
        (place_of "../console__color_8h.html" "" ∷ [])
    ∷ []

abbrev pub files_1 : List Entry
files_1 =
    entry_of "fbdraw_2ec_233" "fbDraw.c" (place_of "../fbDraw_8c.html" "" ∷ [])
    ∷ entry_of "fbdraw_2eh_234" "fbDraw.h" (place_of "../fbDraw_8h.html" "" ∷ [])
    ∷ []

abbrev pub files_2 : List Entry
files_2 =
    entry_of "loaclball_2ec_235" "loaclball.c" (place_of "../loaclball_8c.html" "" ∷ [])
    ∷ entry_of "localball_2eh_236" "localball.h" (place_of "../localball_8h.html" "" ∷ [])
    ∷ entry_of "localball_5flist_2ec_237" "localball_list.c"
        (place_of "../localball__list_8c.html" "" ∷ [])
    ∷ entry_of "localball_5flist_2eh_238" "localball_list.h"
        (place_of "../localball__list_8h.html" "" ∷ [])
    ∷ entry_of "localballmanager_2ec_239" "localballmanager.c"
        (place_of "../localballmanager_8c.html" "" ∷ [])
    ∷ entry_of "localballmanager_2eh_240" "localballmanager.h"
        (place_of "../localballmanager_8h.html" "" ∷ [])
    ∷ entry_of "log_2ec_241" "log.c" (place_of "../log_8c.html" "" ∷ [])
    ∷ entry_of "log_2eh_242" "log.h" (place_of "../log_8h.html" "" ∷ [])
    ∷ []

abbrev pub files_3 : List Entry
files_3 =
    entry_of "main_2ec_243" "main.c" (
      place_of "../client_2main_8c.html" "(Global Namespace)"
      ∷ place_of "../server_2main_8c.html" "(Global Namespace)"
      ∷ [])
    ∷ []

abbrev pub files_4 : List Entry
files_4 = entry_of "readme_2emd_244" "README.md" (place_of "../README_8md.html" "" ∷ []) ∷ []

abbrev pub files_5 : List Entry
files_5 =
    entry_of "screenball_2ec_245" "screenball.c" (place_of "../screenball_8c.html" "" ∷ [])
    ∷ entry_of "screenball_2eh_246" "screenball.h" (place_of "../screenball_8h.html" "" ∷ [])
    ∷ entry_of "screenball_5flist_2ec_247" "screenball_list.c"
        (place_of "../screenball__list_8c.html" "" ∷ [])
    ∷ entry_of "screenball_5flist_2eh_248" "screenball_list.h"
        (place_of "../screenball__list_8h.html" "" ∷ [])
    ∷ entry_of "screenballmanager_2ec_249" "screenballmanager.c"
        (place_of "../screenballmanager_8c.html" "" ∷ [])
    ∷ entry_of "screenballmanager_2eh_250" "screenballmanager.h"
        (place_of "../screenballmanager_8h.html" "" ∷ [])
    ∷ entry_of "server_2ec_251" "server.c" (place_of "../server_8c.html" "" ∷ [])
    ∷ entry_of "server_2eh_252" "server.h" (place_of "../server_8h.html" "" ∷ [])
    ∷ []

abbrev pub files_6 : List Entry
files_6 =
    entry_of "task_2ec_253" "task.c" (place_of "../task_8c.html" "" ∷ [])
    ∷ entry_of "task_2eh_254" "task.h" (place_of "../task_8h.html" "" ∷ [])
    ∷ entry_of "test_5fclient_2ec_255" "test_client.c" (place_of "../test__client_8c.html" "" ∷ [])
    ∷ entry_of "test_5fclient_2eh_256" "test_client.h" (place_of "../test__client_8h.html" "" ∷ [])
    ∷ entry_of "test_5fmain_2ec_257" "test_main.c" (place_of "../test__main_8c.html" "" ∷ [])
    ∷ entry_of "test_5fscreenball_2ec_258" "test_screenball.c"
        (place_of "../test__screenball_8c.html" "" ∷ [])
    ∷ entry_of "test_5fscreenball_2eh_259" "test_screenball.h"
        (place_of "../test__screenball_8h.html" "" ∷ [])
    ∷ entry_of "test_5fscreenball_5flist_2ec_260" "test_screenball_list.c"
        (place_of "../test__screenball__list_8c.html" "" ∷ [])
    ∷ entry_of "test_5fscreenball_5flist_2eh_261" "test_screenball_list.h"
        (place_of "../test__screenball__list_8h.html" "" ∷ [])
    ∷ entry_of "test_5fscreenballmanager_2ec_262" "test_screenballmanager.c"
        (place_of "../test__screenballmanager_8c.html" "" ∷ [])
    ∷ entry_of "test_5fscreenballmanager_2eh_263" "test_screenballmanager.h"
        (place_of "../test__screenballmanager_8h.html" "" ∷ [])
    ∷ []
