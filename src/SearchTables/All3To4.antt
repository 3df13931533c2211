-- ===== src/SearchTables/All3To4.antt =====
-- The tables `searchData` of docs/html/search/all_3.js to all_4.js.
use owner_based_ball_game.Base.{List, [], ◌∷◌}
use owner_based_ball_game.Results.Build.{Entry}
use owner_based_ball_game.SearchTables.Entries.{entry_of, place_of}

abbrev pub all_3 : List Entry
all_3 =
    entry_of "data_52" "data" (
      place_of "../structBallListNode.html#a0b52602a9632bb31718b4ca4e8c92a42" "BallListNode::data()"
      ∷ place_of "../structBallListNode.html#a90808e514c80c982e50ee4ec3bc93cf2"
          "BallListNode::data()"
      ∷ place_of "../structTask.html#a1b4339422c2c4e0d20d685ebee045f51" "Task::data()"
      ∷ [])
    ∷ entry_of "deep_5fcopy_5fball_5flist_53" "deep_copy_ball_list" (
        place_of "../screenball__list_8h.html#a460f078ebf1af242924d8287eb4ffe15"
          "deep_copy_ball_list(BallListNode *head):&#160;screenball_list.c"
        ∷ place_of "../test__screenball__list_8h.html#a460f078ebf1af242924d8287eb4ffe15"
            "deep_copy_ball_list(BallListNode *head):&#160;screenball_list.c"
        ∷ place_of "../screenball__list_8c.html#a460f078ebf1af242924d8287eb4ffe15"
            "deep_copy_ball_list(BallListNode *head):&#160;screenball_list.c"
        ∷ place_of "../test__screenball__list_8c.html#a460f078ebf1af242924d8287eb4ffe15"
            "deep_copy_ball_list(BallListNode *head):&#160;test_screenball_list.c"
        ∷ [])
    ∷ entry_of "delete_5fall_5fball_54" "delete_all_ball" (
        place_of "../screenball__list_8h.html#aca61013c11e0e646d7e302eca8f7db0a"
          "delete_all_ball(BallListNode **head, BallListNode **tail, int *count):&#160;screenball_list.c"
        ∷ place_of "../test__screenball__list_8h.html#aca61013c11e0e646d7e302eca8f7db0a"
            "delete_all_ball(BallListNode **head, BallListNode **tail, int *count):&#160;screenball_list.c"
        ∷ place_of "../screenball__list_8c.html#aca61013c11e0e646d7e302eca8f7db0a"
            "delete_all_ball(BallListNode **head, BallListNode **tail, int *count):&#160;screenball_list.c"
        ∷ place_of "../test__screenball__list_8c.html#aca61013c11e0e646d7e302eca8f7db0a"
            "delete_all_ball(BallListNode **head, BallListNode **tail, int *count):&#160;test_screenball_list.c"
        ∷ [])
    ∷ entry_of "delete_5fball_55" "delete_ball" (
        place_of "../screenballmanager_8h.html#a2eb3cf2d7864fdb06e74872efd75973f"
          "delete_ball(BallListManager *manager, int count):&#160;screenballmanager.c"
        ∷ place_of "../localballmanager_8h.html#a5206bd88aa6e0a47024757dab4be157e"
            "delete_ball(BallListManager *manager, int count, int owner_id):&#160;localballmanager.c"
        ∷ place_of "../test__screenballmanager_8h.html#a2eb3cf2d7864fdb06e74872efd75973f"
            "delete_ball(BallListManager *manager, int count):&#160;screenballmanager.c"
        ∷ place_of "../screenballmanager_8c.html#a2eb3cf2d7864fdb06e74872efd75973f"
            "delete_ball(BallListManager *manager, int count):&#160;screenballmanager.c"
        ∷ place_of "../localballmanager_8c.html#a5206bd88aa6e0a47024757dab4be157e"
            "delete_ball(BallListManager *manager, int count, int owner_id):&#160;localballmanager.c"
        ∷ place_of "../test__screenballmanager_8c.html#a2eb3cf2d7864fdb06e74872efd75973f"
            "delete_ball(BallListManager *manager, int count):&#160;test_screenballmanager.c"
        ∷ [])
    ∷ entry_of "delete_5fball_5fby_5fsocket_56" "delete_ball_by_socket" (
        place_of "../localballmanager_8h.html#a7611532112cd88506e3ff85bcdd01dd2"
          "delete_ball_by_socket(BallListManager *manager, int socket_fd):&#160;localballmanager.c"
        ∷ place_of "../localballmanager_8c.html#a7611532112cd88506e3ff85bcdd01dd2"
            "delete_ball_by_socket(BallListManager *manager, int socket_fd):&#160;localballmanager.c"
        ∷ [])
    ∷ entry_of "deletelastball_57" "deleteLastBall" (
        place_of "../screenball__list_8h.html#a657cd2a2dc77a3e7f8299bd1abf1d469"
          "deleteLastBall(BallListNode **head, BallListNode **tail):&#160;screenball_list.c"
        ∷ place_of "../test__screenball__list_8h.html#a657cd2a2dc77a3e7f8299bd1abf1d469"
            "deleteLastBall(BallListNode **head, BallListNode **tail):&#160;screenball_list.c"
        ∷ place_of "../screenball__list_8c.html#a657cd2a2dc77a3e7f8299bd1abf1d469"
            "deleteLastBall(BallListNode **head, BallListNode **tail):&#160;screenball_list.c"
        ∷ place_of "../test__screenball__list_8c.html#a657cd2a2dc77a3e7f8299bd1abf1d469"
            "deleteLastBall(BallListNode **head, BallListNode **tail):&#160;test_screenball_list.c"
        ∷ [])
    ∷ entry_of "dev_5ffb_58" "dev_fb"
        (place_of "../fbDraw_8h.html#a147028deefea41316d7296df26e7609c" "fbDraw.h" ∷ [])
    ∷ entry_of "dev_5ffb_5ft_59" "dev_fb_t" (place_of "../structdev__fb__t.html" "" ∷ [])
    ∷ entry_of "dispatch_5fcommand_60" "dispatch_command" (
        place_of "../localballmanager_8h.html#ae66571bf715df75b268f8c76f71f5582"
          "dispatch_command(BallListManager *m, char cmd, int count, int radius, int owner_id):&#160;localballmanager.c"
        ∷ place_of "../localballmanager_8c.html#ae66571bf715df75b268f8c76f71f5582"
            "dispatch_command(BallListManager *m, char cmd, int count, int radius, int owner_id):&#160;localballmanager.c"
        ∷ [])
    ∷ entry_of "draw_5fball_61" "draw_ball" (
        place_of "../screenballmanager_8h.html#a41020ad91bb69f687b08927ce747edfd"
          "draw_ball(dev_fb *fb, ScreenBall *b):&#160;screenballmanager.c"
        ∷ place_of "../screenballmanager_8c.html#a41020ad91bb69f687b08927ce747edfd"
            "draw_ball(dev_fb *fb, ScreenBall *b):&#160;screenballmanager.c"
        ∷ [])
    ∷ entry_of "draw_5fball_5flist_62" "draw_ball_list" (
        place_of "../screenballmanager_8h.html#a5855fb719d7d1f3ddb7e346ea7209047"
          "draw_ball_list(dev_fb *fb, BallListNode *head):&#160;screenballmanager.c"
        ∷ place_of "../screenballmanager_8c.html#a5855fb719d7d1f3ddb7e346ea7209047"
            "draw_ball_list(dev_fb *fb, BallListNode *head):&#160;screenballmanager.c"
        ∷ [])
    ∷ entry_of "draw_5fcommand_5fguide_63" "draw_command_guide" (
        place_of "../screenballmanager_8h.html#a243e77cbbbb552b3593516f5b2fb6a6f"
          "draw_command_guide(dev_fb *fb):&#160;screenballmanager.c"
        ∷ place_of "../screenballmanager_8c.html#a243e77cbbbb552b3593516f5b2fb6a6f"
            "draw_command_guide(dev_fb *fb):&#160;screenballmanager.c"
        ∷ [])
    ∷ entry_of "dx_64" "dx" (
        place_of "../structScreenBall.html#a4d1b4f0b9cab04ada8676d92a9f37bfa" "ScreenBall::dx()"
        ∷ place_of "../structLogicalBall.html#a231692c1ad66b7dfa650d1b13b8279a0" "LogicalBall::dx()"
        ∷ [])
    ∷ entry_of "dy_65" "dy" (
        place_of "../structScreenBall.html#aae2a7b7ed740b84b69ff322e27d254f6" "ScreenBall::dy()"
        ∷ place_of "../structLogicalBall.html#acf12751edb253f7f129ed4de121ad46e" "LogicalBall::dy()"
        ∷ [])
    ∷ []

abbrev pub all_4 : List Entry
all_4 =
    entry_of "epoll_5ffd_66" "epoll_fd" (
      place_of "../structSharedContext.html#ab7f68ca5810799896fd22c627205a10f" "SharedContext" ∷ [])
    ∷ []
