-- ===== src/SearchTables/Functions3To3.antt =====
-- The tables `searchData` of docs/html/search/functions_3.js to functions_3.js.
use owner_based_ball_game.Base.{List, [], ◌∷◌}
use owner_based_ball_game.Results.Build.{Entry}
use owner_based_ball_game.SearchTables.Entries.{entry_of, place_of}

abbrev pub functions_3 : List Entry
functions_3 =
    entry_of "deep_5fcopy_5fball_5flist_281" "deep_copy_ball_list" (
      place_of "../screenball__list_8h.html#a460f078ebf1af242924d8287eb4ffe15"
        "deep_copy_ball_list(BallListNode *head):&#160;screenball_list.c"
      ∷ place_of "../test__screenball__list_8h.html#a460f078ebf1af242924d8287eb4ffe15"
          "deep_copy_ball_list(BallListNode *head):&#160;screenball_list.c"
      ∷ place_of "../screenball__list_8c.html#a460f078ebf1af242924d8287eb4ffe15"
          "deep_copy_ball_list(BallListNode *head):&#160;screenball_list.c"
      ∷ place_of "../test__screenball__list_8c.html#a460f078ebf1af242924d8287eb4ffe15"
          "deep_copy_ball_list(BallListNode *head):&#160;test_screenball_list.c"
      ∷ [])
    ∷ entry_of "delete_5fall_5fball_282" "delete_all_ball" (
        place_of "../screenball__list_8h.html#aca61013c11e0e646d7e302eca8f7db0a"
          "delete_all_ball(BallListNode **head, BallListNode **tail, int *count):&#160;screenball_list.c"
        ∷ place_of "../test__screenball__list_8h.html#aca61013c11e0e646d7e302eca8f7db0a"
            "delete_all_ball(BallListNode **head, BallListNode **tail, int *count):&#160;screenball_list.c"
        ∷ place_of "../screenball__list_8c.html#aca61013c11e0e646d7e302eca8f7db0a"
            "delete_all_ball(BallListNode **head, BallListNode **tail, int *count):&#160;screenball_list.c"
        ∷ place_of "../test__screenball__list_8c.html#aca61013c11e0e646d7e302eca8f7db0a"
            "delete_all_ball(BallListNode **head, BallListNode **tail, int *count):&#160;test_screenball_list.c"
        ∷ [])
    ∷ entry_of "delete_5fball_283" "delete_ball" (
        place_of "../screenballmanager_8h.html#a2eb3cf2d7864fdb06e74872efd75973f"
          "delete_ball(BallListManager *manager, int count):&#160;screenballmanager.c"
        ∷ place_of "../localballmanager_8h.html#a5206bd88aa6e0a47024757dab4be157e"
            "delete_ball(BallListManager *manager, int count, int owner_id):&#160;localballmanager.c"
        ∷ place_of "../test__screenballmanager_8h.html#a2eb3cf2d7864fdb06e74872efd75973f"
            "delete_ball(BallListManager *manager, int count):&#160;screenballmanager.c"
        ∷ place_of "../screenballmanager_8c.html#a2eb3cf2d7864fdb06e74872efd75973f"
            "delete_ball(BallListManager *manager, int count):&#160;screenballmanager.c"
        ∷ place_of "../localballmanager_8c.html#a5206bd88aa6e0a47024757dab4be157e"
            "delete_ball(BallListManager *manager, int count, int owner_id):&#160;localballmanager.c"
        ∷ place_of "../test__screenballmanager_8c.html#a2eb3cf2d7864fdb06e74872efd75973f"
            "delete_ball(BallListManager *manager, int count):&#160;test_screenballmanager.c"
        ∷ [])
    ∷ entry_of "delete_5fball_5fby_5fsocket_284" "delete_ball_by_socket" (
        place_of "../localballmanager_8h.html#a7611532112cd88506e3ff85bcdd01dd2"
          "delete_ball_by_socket(BallListManager *manager, int socket_fd):&#160;localballmanager.c"
        ∷ place_of "../localballmanager_8c.html#a7611532112cd88506e3ff85bcdd01dd2"
            "delete_ball_by_socket(BallListManager *manager, int socket_fd):&#160;localballmanager.c"
        ∷ [])
    ∷ entry_of "deletelastball_285" "deleteLastBall" (
        place_of "../screenball__list_8h.html#a657cd2a2dc77a3e7f8299bd1abf1d469"
          "deleteLastBall(BallListNode **head, BallListNode **tail):&#160;screenball_list.c"
        ∷ place_of "../test__screenball__list_8h.html#a657cd2a2dc77a3e7f8299bd1abf1d469"
            "deleteLastBall(BallListNode **head, BallListNode **tail):&#160;screenball_list.c"
        ∷ place_of "../screenball__list_8c.html#a657cd2a2dc77a3e7f8299bd1abf1d469"
            "deleteLastBall(BallListNode **head, BallListNode **tail):&#160;screenball_list.c"
        ∷ place_of "../test__screenball__list_8c.html#a657cd2a2dc77a3e7f8299bd1abf1d469"
            "deleteLastBall(BallListNode **head, BallListNode **tail):&#160;test_screenball_list.c"
        ∷ [])
    ∷ entry_of "dispatch_5fcommand_286" "dispatch_command" (
        place_of "../localballmanager_8h.html#ae66571bf715df75b268f8c76f71f5582"
          "dispatch_command(BallListManager *m, char cmd, int count, int radius, int owner_id):&#160;localballmanager.c"
        ∷ place_of "../localballmanager_8c.html#ae66571bf715df75b268f8c76f71f5582"
            "dispatch_command(BallListManager *m, char cmd, int count, int radius, int owner_id):&#160;localballmanager.c"
        ∷ [])
    ∷ entry_of "draw_5fball_287" "draw_ball" (
        place_of "../screenballmanager_8h.html#a41020ad91bb69f687b08927ce747edfd"
          "draw_ball(dev_fb *fb, ScreenBall *b):&#160;screenballmanager.c"
        ∷ place_of "../screenballmanager_8c.html#a41020ad91bb69f687b08927ce747edfd"
            "draw_ball(dev_fb *fb, ScreenBall *b):&#160;screenballmanager.c"
        ∷ [])
    ∷ entry_of "draw_5fball_5flist_288" "draw_ball_list" (
        place_of "../screenballmanager_8h.html#a5855fb719d7d1f3ddb7e346ea7209047"
          "draw_ball_list(dev_fb *fb, BallListNode *head):&#160;screenballmanager.c"
        ∷ place_of "../screenballmanager_8c.html#a5855fb719d7d1f3ddb7e346ea7209047"
            "draw_ball_list(dev_fb *fb, BallListNode *head):&#160;screenballmanager.c"
        ∷ [])
    ∷ entry_of "draw_5fcommand_5fguide_289" "draw_command_guide" (
        place_of "../screenballmanager_8h.html#a243e77cbbbb552b3593516f5b2fb6a6f"
          "draw_command_guide(dev_fb *fb):&#160;screenballmanager.c"
        ∷ place_of "../screenballmanager_8c.html#a243e77cbbbb552b3593516f5b2fb6a6f"
            "draw_command_guide(dev_fb *fb):&#160;screenballmanager.c"
        ∷ [])
    ∷ []
