-- ===== src/SearchTables/All11To14.antt =====
-- The tables `searchData` of docs/html/search/all_11.js to all_14.js.
use owner_based_ball_game.Base.{List, [], ◌∷◌}
use owner_based_ball_game.Results.Build.{Entry}
use owner_based_ball_game.SearchTables.Entries.{entry_of, place_of}

abbrev pub all_11 : List Entry
all_11 =
    entry_of "screenball_162" "ScreenBall" (place_of "../structScreenBall.html" "" ∷ [])
    ∷ entry_of "screenball_2ec_163" "screenball.c" (place_of "../screenball_8c.html" "" ∷ [])
    ∷ entry_of "screenball_2eh_164" "screenball.h" (place_of "../screenball_8h.html" "" ∷ [])
    ∷ entry_of "screenball_5flist_2ec_165" "screenball_list.c"
        (place_of "../screenball__list_8c.html" "" ∷ [])
    ∷ entry_of "screenball_5flist_2eh_166" "screenball_list.h"
        (place_of "../screenball__list_8h.html" "" ∷ [])
    ∷ entry_of "screenballmanager_2ec_167" "screenballmanager.c"
        (place_of "../screenballmanager_8c.html" "" ∷ [])
    ∷ entry_of "screenballmanager_2eh_168" "screenballmanager.h"
        (place_of "../screenballmanager_8h.html" "" ∷ [])
    ∷ entry_of "screensize_169" "screensize"
        (place_of "../structdev__fb__t.html#a29befe07b88975030a81f16b17c5a836" "dev_fb_t" ∷ [])
    ∷ entry_of "serialize_5fball_5flist_170" "serialize_ball_list" (
        place_of "../localballmanager_8h.html#a2082b26fcf72cea20fa8663884824140"
          "serialize_ball_list(BallListManager *manager, int owner_id):&#160;localballmanager.c"
        ∷ place_of "../localballmanager_8c.html#a2082b26fcf72cea20fa8663884824140"
            "serialize_ball_list(BallListManager *manager, int owner_id):&#160;localballmanager.c"
        ∷ [])
    ∷ entry_of "serialize_5fball_5flist_5fall_171" "serialize_ball_list_all" (
        place_of "../localballmanager_8h.html#a46ad3e702269364aab81b2e0ef75479b"
          "serialize_ball_list_all(BallListManager *manager):&#160;localballmanager.c"
        ∷ place_of "../localballmanager_8c.html#a46ad3e702269364aab81b2e0ef75479b"
            "serialize_ball_list_all(BallListManager *manager):&#160;localballmanager.c"
        ∷ [])
    ∷ entry_of "server_2ec_172" "server.c" (place_of "../server_8c.html" "" ∷ [])
    ∷ entry_of "server_2eh_173" "server.h" (place_of "../server_8h.html" "" ∷ [])
    ∷ entry_of "server_5fport_174" "SERVER_PORT" (
        place_of "../client_8h.html#ac42367fe5c999ec6650de83e9d72fe8c"
          "SERVER_PORT():&#160;client.h"
        ∷ place_of "../server_8h.html#ac42367fe5c999ec6650de83e9d72fe8c"
            "SERVER_PORT():&#160;server.h"
        ∷ place_of "../test__client_8h.html#ac42367fe5c999ec6650de83e9d72fe8c"
            "SERVER_PORT():&#160;test_client.h"
        ∷ [])
    ∷ entry_of "set_5fnonblocking_175" "set_nonblocking"
        (place_of "../server_2main_8c.html#afad9eb7393cb103c5d29a738485b82b0" "main.c" ∷ [])
    ∷ entry_of "sharedcontext_176" "SharedContext" (place_of "../structSharedContext.html" "" ∷ [])
    ∷ entry_of "socket_5ffd_177" "socket_fd" (
        place_of "../structSharedContext.html#a86b786e53d10d939506dfd315ba21c70" "SharedContext"
        ∷ [])
    ∷ entry_of "socket_5frecv_5fthread_178" "socket_recv_thread" (
        place_of "../client_8h.html#a5c6497b9675c61381d71e416ef405a97"
          "socket_recv_thread(void *arg):&#160;client.c"
        ∷ place_of "../test__client_8h.html#a5c6497b9675c61381d71e416ef405a97"
            "socket_recv_thread(void *arg):&#160;client.c"
        ∷ place_of "../client_8c.html#a5c6497b9675c61381d71e416ef405a97"
            "socket_recv_thread(void *arg):&#160;client.c"
        ∷ place_of "../test__client_8c.html#a5c6497b9675c61381d71e416ef405a97"
            "socket_recv_thread(void *arg):&#160;test_client.c"
        ∷ [])
    ∷ entry_of "socket_5fsend_5fthread_179" "socket_send_thread" (
        place_of "../client_8h.html#a3dc037073deeabdabe3fe3ee690ab7cf"
          "socket_send_thread(void *arg):&#160;client.c"
        ∷ place_of "../test__client_8h.html#a3dc037073deeabdabe3fe3ee690ab7cf"
            "socket_send_thread(void *arg):&#160;client.c"
        ∷ place_of "../client_8c.html#a3dc037073deeabdabe3fe3ee690ab7cf"
            "socket_send_thread(void *arg):&#160;client.c"
        ∷ place_of "../test__client_8c.html#a3dc037073deeabdabe3fe3ee690ab7cf"
            "socket_send_thread(void *arg):&#160;test_client.c"
        ∷ [])
    ∷ entry_of "socketcontext_180" "SocketContext" (place_of "../structSocketContext.html" "" ∷ [])
    ∷ entry_of "speeddownballs_181" "speedDownBalls" (
        place_of "../localball__list_8h.html#a81eb5efcebbdb27fb4f13cb2ef597ac0"
          "speedDownBalls(BallListNode *head, int owner_id):&#160;localball_list.c"
        ∷ place_of "../localball__list_8c.html#a81eb5efcebbdb27fb4f13cb2ef597ac0"
            "speedDownBalls(BallListNode *head, int owner_id):&#160;localball_list.c"
        ∷ [])
    ∷ entry_of "speedupballs_182" "speedUpBalls" (
        place_of "../localball__list_8h.html#aeec22d056440583fbbbcfad588208ae2"
          "speedUpBalls(BallListNode *head, int owner_id):&#160;localball_list.c"
        ∷ place_of "../localball__list_8c.html#aeec22d056440583fbbbcfad588208ae2"
            "speedUpBalls(BallListNode *head, int owner_id):&#160;localball_list.c"
        ∷ [])
    ∷ entry_of "start_5fball_5fcount_183" "START_BALL_COUNT" (
        place_of "../localballmanager_8h.html#ae65d5f650c5b1999f5a77437e9adc55a"
          "localballmanager.h"
        ∷ [])
    ∷ entry_of "start_5fball_5fradius_184" "START_BALL_RADIUS" (
        place_of "../client_8h.html#a1cf54f2cd9eb07d77276b8273921fda7"
          "START_BALL_RADIUS():&#160;client.h"
        ∷ place_of "../localballmanager_8h.html#a1cf54f2cd9eb07d77276b8273921fda7"
            "START_BALL_RADIUS():&#160;localballmanager.h"
        ∷ place_of "../test__client_8h.html#a1cf54f2cd9eb07d77276b8273921fda7"
            "START_BALL_RADIUS():&#160;test_client.h"
        ∷ [])
    ∷ []

abbrev pub all_12 : List Entry
all_12 =
    entry_of "tail_185" "tail" (
      place_of "../structBallListManager.html#a74c528bd060cb5447dc2b211ae428978"
        "BallListManager::tail()"
      ∷ place_of "../structClientListManager.html#a52d16435c2349ff5aa270d2d690ef3df"
          "ClientListManager::tail()"
      ∷ [])
    ∷ entry_of "task_186" "Task" (place_of "../structTask.html" "" ∷ [])
    ∷ entry_of "task_2ec_187" "task.c" (place_of "../task_8c.html" "" ∷ [])
    ∷ entry_of "task_2eh_188" "task.h" (place_of "../task_8h.html" "" ∷ [])
    ∷ entry_of "task_5fqueue_189" "task_queue" (
        place_of "../structSharedContext.html#a301f283b2372d1594e64a482d62d3821" "SharedContext"
        ∷ [])
    ∷ entry_of "task_5fqueue_5fcapacity_190" "TASK_QUEUE_CAPACITY"
        (place_of "../task_8h.html#a03f4253f37afc79fe2fdc33aea1a10b2" "task.h" ∷ [])
    ∷ entry_of "task_5fqueue_5fdestroy_191" "task_queue_destroy" (
        place_of "../task_8h.html#a77d8d6ab29e7dc685ae03304015ab0d7"
          "task_queue_destroy(TaskQueue *q):&#160;task.c"
        ∷ place_of "../task_8c.html#a77d8d6ab29e7dc685ae03304015ab0d7"
            "task_queue_destroy(TaskQueue *q):&#160;task.c"
        ∷ [])
    ∷ entry_of "task_5fqueue_5finit_192" "task_queue_init" (
        place_of "../task_8h.html#a30d4a0d7c613b6dd454c9d5e49e8c058"
          "task_queue_init(TaskQueue *q):&#160;task.c"
        ∷ place_of "../task_8c.html#a30d4a0d7c613b6dd454c9d5e49e8c058"
            "task_queue_init(TaskQueue *q):&#160;task.c"
        ∷ [])
    ∷ entry_of "task_5fqueue_5fpop_193" "task_queue_pop" (
        place_of "../task_8h.html#a485285d4993388409c181cb719ecddbb"
          "task_queue_pop(TaskQueue *q):&#160;task.c"
        ∷ place_of "../task_8c.html#a485285d4993388409c181cb719ecddbb"
            "task_queue_pop(TaskQueue *q):&#160;task.c"
        ∷ [])
    ∷ entry_of "task_5fqueue_5fpush_194" "task_queue_push" (
        place_of "../task_8h.html#a4d43d3995525bd349f4efca5208e0c9d"
          "task_queue_push(TaskQueue *q, Task task):&#160;task.c"
        ∷ place_of "../task_8c.html#a4d43d3995525bd349f4efca5208e0c9d"
            "task_queue_push(TaskQueue *q, Task task):&#160;task.c"
        ∷ [])
    ∷ entry_of "taskqueue_195" "TaskQueue" (place_of "../structTaskQueue.html" "" ∷ [])
    ∷ entry_of "test_5fclient_2ec_196" "test_client.c" (place_of "../test__client_8c.html" "" ∷ [])
    ∷ entry_of "test_5fclient_2eh_197" "test_client.h" (place_of "../test__client_8h.html" "" ∷ [])
    ∷ entry_of "test_5fmain_2ec_198" "test_main.c" (place_of "../test__main_8c.html" "" ∷ [])
    ∷ entry_of "test_5fscreenball_2ec_199" "test_screenball.c"
        (place_of "../test__screenball_8c.html" "" ∷ [])
    ∷ entry_of "test_5fscreenball_2eh_200" "test_screenball.h"
        (place_of "../test__screenball_8h.html" "" ∷ [])
    ∷ entry_of "test_5fscreenball_5flist_2ec_201" "test_screenball_list.c"
        (place_of "../test__screenball__list_8c.html" "" ∷ [])
    ∷ entry_of "test_5fscreenball_5flist_2eh_202" "test_screenball_list.h"
        (place_of "../test__screenball__list_8h.html" "" ∷ [])
    ∷ entry_of "test_5fscreenballmanager_2ec_203" "test_screenballmanager.c"
        (place_of "../test__screenballmanager_8c.html" "" ∷ [])
    ∷ entry_of "test_5fscreenballmanager_2eh_204" "test_screenballmanager.h"
        (place_of "../test__screenballmanager_8h.html" "" ∷ [])
    ∷ entry_of "thread_5fnum_205" "THREAD_NUM" (
        place_of "../client_2main_8c.html#acd532f688378febc70bf2aedccd9bb60"
          "THREAD_NUM():&#160;main.c"
        ∷ place_of "../test__main_8c.html#acd532f688378febc70bf2aedccd9bb60"
            "THREAD_NUM():&#160;test_main.c"
        ∷ [])
    ∷ entry_of "total_5fcount_206" "total_count" (
        place_of "../structBallListManager.html#a75a835d63501f5f3b3ffc4fad043f5d6" "BallListManager"
        ∷ [])
    ∷ []

abbrev pub all_13 : List Entry
all_13 =
    entry_of "ubyte_207" "ubyte"
      (place_of "../fbDraw_8h.html#a5dd4f281954ce1405c92d62a427f839a" "fbDraw.h" ∷ [])
    ∷ entry_of "uchar_208" "uchar" (
        place_of "../screenballmanager_8h.html#a65f85814a8290f9797005d3b28e7e5fc"
          "uchar():&#160;screenballmanager.h"
        ∷ place_of "../localballmanager_8h.html#a65f85814a8290f9797005d3b28e7e5fc"
            "uchar():&#160;localballmanager.h"
        ∷ place_of "../test__screenballmanager_8h.html#a65f85814a8290f9797005d3b28e7e5fc"
            "uchar():&#160;test_screenballmanager.h"
        ∷ [])
    ∷ entry_of "updateballlistfromserialized_209" "updateBallListFromSerialized" (
        place_of "../screenballmanager_8h.html#a5462b0911a2cf38d3d117c602e61ea69"
          "updateBallListFromSerialized(BallListManager *manager, const char *str, int width, int height):&#160;screenballmanager.c"
        ∷ place_of "../test__screenballmanager_8h.html#a5462b0911a2cf38d3d117c602e61ea69"
            "updateBallListFromSerialized(BallListManager *manager, const char *str, int width, int height):&#160;screenballmanager.c"
        ∷ place_of "../screenballmanager_8c.html#a5462b0911a2cf38d3d117c602e61ea69"
            "updateBallListFromSerialized(BallListManager *manager, const char *str, int width, int height):&#160;screenballmanager.c"
        ∷ place_of "../test__screenballmanager_8c.html#a5462b0911a2cf38d3d117c602e61ea69"
            "updateBallListFromSerialized(BallListManager *manager, const char *str, int width, int height):&#160;test_screenballmanager.c"
        ∷ [])
    ∷ []

abbrev pub all_14 : List Entry
all_14 =
    entry_of "vinfo_210" "vinfo"
      (place_of "../structdev__fb__t.html#ab3ac4d607c720165fdc7a04a1a2a3321" "dev_fb_t" ∷ [])
    ∷ []
