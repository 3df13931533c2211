-- ===== src/SearchTables/FunctionsBToE.antt =====
-- The tables `searchData` of docs/html/search/functions_b.js to functions_e.js.
use owner_based_ball_game.Base.{List, [], ◌∷◌}
use owner_based_ball_game.Results.Build.{Entry}
use owner_based_ball_game.SearchTables.Entries.{entry_of, place_of}

abbrev pub functions_b : List Entry
functions_b =
    entry_of "serialize_5fball_5flist_331" "serialize_ball_list" (
      place_of "../localballmanager_8h.html#a2082b26fcf72cea20fa8663884824140"
        "serialize_ball_list(BallListManager *manager, int owner_id):&#160;localballmanager.c"
      ∷ place_of "../localballmanager_8c.html#a2082b26fcf72cea20fa8663884824140"
          "serialize_ball_list(BallListManager *manager, int owner_id):&#160;localballmanager.c"
      ∷ [])
    ∷ entry_of "serialize_5fball_5flist_5fall_332" "serialize_ball_list_all" (
        place_of "../localballmanager_8h.html#a46ad3e702269364aab81b2e0ef75479b"
          "serialize_ball_list_all(BallListManager *manager):&#160;localballmanager.c"
        ∷ place_of "../localballmanager_8c.html#a46ad3e702269364aab81b2e0ef75479b"
            "serialize_ball_list_all(BallListManager *manager):&#160;localballmanager.c"
        ∷ [])
    ∷ entry_of "set_5fnonblocking_333" "set_nonblocking"
        (place_of "../server_2main_8c.html#afad9eb7393cb103c5d29a738485b82b0" "main.c" ∷ [])
    ∷ entry_of "socket_5frecv_5fthread_334" "socket_recv_thread" (
        place_of "../client_8h.html#a5c6497b9675c61381d71e416ef405a97"
          "socket_recv_thread(void *arg):&#160;client.c"
        ∷ place_of "../test__client_8h.html#a5c6497b9675c61381d71e416ef405a97"
            "socket_recv_thread(void *arg):&#160;client.c"
        ∷ place_of "../client_8c.html#a5c6497b9675c61381d71e416ef405a97"
            "socket_recv_thread(void *arg):&#160;client.c"
        ∷ place_of "../test__client_8c.html#a5c6497b9675c61381d71e416ef405a97"
            "socket_recv_thread(void *arg):&#160;test_client.c"
        ∷ [])
    ∷ entry_of "socket_5fsend_5fthread_335" "socket_send_thread" (
        place_of "../client_8h.html#a3dc037073deeabdabe3fe3ee690ab7cf"
          "socket_send_thread(void *arg):&#160;client.c"
        ∷ place_of "../test__client_8h.html#a3dc037073deeabdabe3fe3ee690ab7cf"
            "socket_send_thread(void *arg):&#160;client.c"
        ∷ place_of "../client_8c.html#a3dc037073deeabdabe3fe3ee690ab7cf"
            "socket_send_thread(void *arg):&#160;client.c"
        ∷ place_of "../test__client_8c.html#a3dc037073deeabdabe3fe3ee690ab7cf"
            "socket_send_thread(void *arg):&#160;test_client.c"
        ∷ [])
    ∷ entry_of "speeddownballs_336" "speedDownBalls" (
        place_of "../localball__list_8h.html#a81eb5efcebbdb27fb4f13cb2ef597ac0"
          "speedDownBalls(BallListNode *head, int owner_id):&#160;localball_list.c"
        ∷ place_of "../localball__list_8c.html#a81eb5efcebbdb27fb4f13cb2ef597ac0"
            "speedDownBalls(BallListNode *head, int owner_id):&#160;localball_list.c"
        ∷ [])
    ∷ entry_of "speedupballs_337" "speedUpBalls" (
        place_of "../localball__list_8h.html#aeec22d056440583fbbbcfad588208ae2"
          "speedUpBalls(BallListNode *head, int owner_id):&#160;localball_list.c"
        ∷ place_of "../localball__list_8c.html#aeec22d056440583fbbbcfad588208ae2"
            "speedUpBalls(BallListNode *head, int owner_id):&#160;localball_list.c"
        ∷ [])
    ∷ []

abbrev pub functions_c : List Entry
functions_c =
    entry_of "task_5fqueue_5fdestroy_338" "task_queue_destroy" (
      place_of "../task_8h.html#a77d8d6ab29e7dc685ae03304015ab0d7"
        "task_queue_destroy(TaskQueue *q):&#160;task.c"
      ∷ place_of "../task_8c.html#a77d8d6ab29e7dc685ae03304015ab0d7"
          "task_queue_destroy(TaskQueue *q):&#160;task.c"
      ∷ [])
    ∷ entry_of "task_5fqueue_5finit_339" "task_queue_init" (
        place_of "../task_8h.html#a30d4a0d7c613b6dd454c9d5e49e8c058"
          "task_queue_init(TaskQueue *q):&#160;task.c"
        ∷ place_of "../task_8c.html#a30d4a0d7c613b6dd454c9d5e49e8c058"
            "task_queue_init(TaskQueue *q):&#160;task.c"
        ∷ [])
    ∷ entry_of "task_5fqueue_5fpop_340" "task_queue_pop" (
        place_of "../task_8h.html#a485285d4993388409c181cb719ecddbb"
          "task_queue_pop(TaskQueue *q):&#160;task.c"
        ∷ place_of "../task_8c.html#a485285d4993388409c181cb719ecddbb"
            "task_queue_pop(TaskQueue *q):&#160;task.c"
        ∷ [])
    ∷ entry_of "task_5fqueue_5fpush_341" "task_queue_push" (
        place_of "../task_8h.html#a4d43d3995525bd349f4efca5208e0c9d"
          "task_queue_push(TaskQueue *q, Task task):&#160;task.c"
        ∷ place_of "../task_8c.html#a4d43d3995525bd349f4efca5208e0c9d"
            "task_queue_push(TaskQueue *q, Task task):&#160;task.c"
        ∷ [])
    ∷ []

abbrev pub functions_d : List Entry
functions_d =
    entry_of "updateballlistfromserialized_342" "updateBallListFromSerialized" (
      place_of "../screenballmanager_8h.html#a5462b0911a2cf38d3d117c602e61ea69"
        "updateBallListFromSerialized(BallListManager *manager, const char *str, int width, int height):&#160;screenballmanager.c"
      ∷ place_of "../test__screenballmanager_8h.html#a5462b0911a2cf38d3d117c602e61ea69"
          "updateBallListFromSerialized(BallListManager *manager, const char *str, int width, int height):&#160;screenballmanager.c"
      ∷ place_of "../screenballmanager_8c.html#a5462b0911a2cf38d3d117c602e61ea69"
          "updateBallListFromSerialized(BallListManager *manager, const char *str, int width, int height):&#160;screenballmanager.c"
      ∷ place_of "../test__screenballmanager_8c.html#a5462b0911a2cf38d3d117c602e61ea69"
          "updateBallListFromSerialized(BallListManager *manager, const char *str, int width, int height):&#160;test_screenballmanager.c"
      ∷ [])
    ∷ []

abbrev pub functions_e : List Entry
functions_e =
    entry_of "worker_5fthread_343" "worker_thread" (
      place_of "../server_8h.html#a39b4d7ca2619ae96920c437df5ab9ece"
        "worker_thread(void *arg):&#160;server.c"
      ∷ place_of "../server_8c.html#a39b4d7ca2619ae96920c437df5ab9ece"
          "worker_thread(void *arg):&#160;server.c"
      ∷ [])
    ∷ []
