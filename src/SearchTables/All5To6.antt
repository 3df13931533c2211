-- ===== src/SearchTables/All5To6.antt =====
-- The tables `searchData` of docs/html/search/all_5.js to all_6.js.
use owner_based_ball_game.Base.{List, [], ◌∷◌}
use owner_based_ball_game.Results.Build.{Entry}
use owner_based_ball_game.SearchTables.Entries.{entry_of, place_of}

abbrev pub all_5 : List Entry
all_5 =
    entry_of "fb_5fcheckpx_67" "fb_checkPx"
      (place_of "../fbDraw_8c.html#a6703842600afbc9bb310e521be9045f2" "fbDraw.c" ∷ [])
    ∷ entry_of "fb_5fclose_68" "fb_close" (
        place_of "../fbDraw_8h.html#a65100543c0b863045bebc6171516a50c"
          "fb_close(dev_fb *fb):&#160;fbDraw.c"
        ∷ place_of "../fbDraw_8c.html#a65100543c0b863045bebc6171516a50c"
            "fb_close(dev_fb *fb):&#160;fbDraw.c"
        ∷ [])
    ∷ entry_of "fb_5fdrawbox_69" "fb_drawBox" (
        place_of "../fbDraw_8h.html#a78d5b200ac06f9cde2a2884d57c091c8"
          "fb_drawBox(dev_fb *fb, pixel px, int w, int h, char r, char g, char b):&#160;fbDraw.c"
        ∷ place_of "../fbDraw_8c.html#a78d5b200ac06f9cde2a2884d57c091c8"
            "fb_drawBox(dev_fb *fb, pixel px, int w, int h, char r, char g, char b):&#160;fbDraw.c"
        ∷ [])
    ∷ entry_of "fb_5fdrawboxwidthalpa_70" "fb_drawBoxWidthAlpa" (
        place_of "../fbDraw_8h.html#aefa72f925752ba73180456c8eefc675f"
          "fb_drawBoxWidthAlpa(dev_fb *fb, pixel px, int w, int h, char r, char g, char b, char a):&#160;fbDraw.c"
        ∷ place_of "../fbDraw_8c.html#aefa72f925752ba73180456c8eefc675f"
            "fb_drawBoxWidthAlpa(dev_fb *fb, pixel px, int w, int h, char r, char g, char b, char a):&#160;fbDraw.c"
        ∷ [])
    ∷ entry_of "fb_5fdrawchar_71" "fb_drawChar" (
        place_of "../fbDraw_8h.html#ab493deb443c7f2870bb64e15bee0be6b"
          "fb_drawChar(dev_fb *fb, char c, pixel start, short height, char r, char g, char b):&#160;fbDraw.c"
        ∷ place_of "../fbDraw_8c.html#a2f023a9f155ead2094d69d98564da4ee"
            "fb_drawChar(dev_fb *fb, char c, pixel start, short h, char r, char g, char b):&#160;fbDraw.c"
        ∷ [])
    ∷ entry_of "fb_5fdrawfilledcircle_72" "fb_drawFilledCircle" (
        place_of "../fbDraw_8h.html#a8a3a8f2ca7c1d98910df2d4d72fea41c"
          "fb_drawFilledCircle(dev_fb *fb, pixel center, char r, char g, char b):&#160;fbDraw.c"
        ∷ place_of "../fbDraw_8c.html#a8a3a8f2ca7c1d98910df2d4d72fea41c"
            "fb_drawFilledCircle(dev_fb *fb, pixel center, char r, char g, char b):&#160;fbDraw.c"
        ∷ [])
    ∷ entry_of "fb_5fdrawline_73" "fb_drawLine" (
        place_of "../fbDraw_8h.html#a50152fe633f3fb4372fb7cf7febdbb9f"
          "fb_drawLine(dev_fb *fb, pixel start, pixel end, char r, char g, char b):&#160;fbDraw.c"
        ∷ place_of "../fbDraw_8c.html#a50152fe633f3fb4372fb7cf7febdbb9f"
            "fb_drawLine(dev_fb *fb, pixel start, pixel end, char r, char g, char b):&#160;fbDraw.c"
        ∷ [])
    ∷ entry_of "fb_5fdrawpixel_74" "fb_drawPixel" (
        place_of "../fbDraw_8h.html#ab57af793299160fddaad15d808aa3ab4"
          "fb_drawPixel(dev_fb *fb, int x, int y, char r, char g, char b):&#160;fbDraw.c"
        ∷ place_of "../fbDraw_8c.html#ab57af793299160fddaad15d808aa3ab4"
            "fb_drawPixel(dev_fb *fb, int x, int y, char r, char g, char b):&#160;fbDraw.c"
        ∷ [])
    ∷ entry_of "fb_5fdrawpixelpx_75" "fb_drawPixelPx" (
        place_of "../fbDraw_8h.html#a1b2b250f00e56bfd0873b2ab03ee4b12"
          "fb_drawPixelPx(dev_fb *fb, pixel px, char r, char g, char b):&#160;fbDraw.c"
        ∷ place_of "../fbDraw_8c.html#a1b2b250f00e56bfd0873b2ab03ee4b12"
            "fb_drawPixelPx(dev_fb *fb, pixel px, char r, char g, char b):&#160;fbDraw.c"
        ∷ [])
    ∷ entry_of "fb_5fdrawpixelwithalpha_76" "fb_drawPixelwithAlpha" (
        place_of "../fbDraw_8h.html#a72cda0f472bfd0a7f7ef6f77b96645ba"
          "fb_drawPixelwithAlpha(dev_fb *fb, int x, int y, char r, char g, char b, char a):&#160;fbDraw.c"
        ∷ place_of "../fbDraw_8c.html#a72cda0f472bfd0a7f7ef6f77b96645ba"
            "fb_drawPixelwithAlpha(dev_fb *fb, int x, int y, char r, char g, char b, char a):&#160;fbDraw.c"
        ∷ [])
    ∷ entry_of "fb_5ffillbox_77" "fb_fillBox" (
        place_of "../fbDraw_8h.html#ae95b4b861a1d4c9aca2c5aed0169e2ae"
          "fb_fillBox(dev_fb *fb, pixel px, int w, int h, char r, char g, char b):&#160;fbDraw.c"
        ∷ place_of "../fbDraw_8c.html#ae95b4b861a1d4c9aca2c5aed0169e2ae"
            "fb_fillBox(dev_fb *fb, pixel px, int w, int h, char r, char g, char b):&#160;fbDraw.c"
        ∷ [])
    ∷ entry_of "fb_5ffillscr_78" "fb_fillScr" (
        place_of "../fbDraw_8h.html#a1a588a6975a2e8e498267375198ba6fb"
          "fb_fillScr(dev_fb *fb, char r, char g, char b):&#160;fbDraw.c"
        ∷ place_of "../fbDraw_8c.html#a1a588a6975a2e8e498267375198ba6fb"
            "fb_fillScr(dev_fb *fb, char r, char g, char b):&#160;fbDraw.c"
        ∷ [])
    ∷ entry_of "fb_5fget_5ffinfo_5ffail_79" "FB_GET_FINFO_FAIL"
        (place_of "../fbDraw_8h.html#a05e5244c4ec8e90bca3dde787436371d" "fbDraw.h" ∷ [])
    ∷ entry_of "fb_5fget_5fvinfo_5ffail_80" "FB_GET_VINFO_FAIL"
        (place_of "../fbDraw_8h.html#a79a9ebe4a6042a13ee7fdcbae4d22642" "fbDraw.h" ∷ [])
    ∷ entry_of "fb_5finit_81" "fb_init" (
        place_of "../fbDraw_8h.html#aed7e45b126c4b190264d8cc58c7bcccb"
          "fb_init(dev_fb *fb):&#160;fbDraw.c"
        ∷ place_of "../fbDraw_8c.html#aed7e45b126c4b190264d8cc58c7bcccb"
            "fb_init(dev_fb *fb):&#160;fbDraw.c"
        ∷ [])
    ∷ entry_of "fb_5fmmap_5ffail_82" "FB_MMAP_FAIL"
        (place_of "../fbDraw_8h.html#a229d80050cb3c6fe2030eab7eb9df14f" "fbDraw.h" ∷ [])
    ∷ entry_of "fb_5fopen_5ffail_83" "FB_OPEN_FAIL"
        (place_of "../fbDraw_8h.html#a31443a70375d226ac402fdc8805c45fe" "fbDraw.h" ∷ [])
    ∷ entry_of "fb_5fprintstr_84" "fb_printStr" (
        place_of "../fbDraw_8h.html#aea2687fc6aef3acf018760c31ccd080b"
          "fb_printStr(dev_fb *fb, const char *str, pixel *cursor, short height, char r, char g, char b):&#160;fbDraw.c"
        ∷ place_of "../fbDraw_8c.html#aea2687fc6aef3acf018760c31ccd080b"
            "fb_printStr(dev_fb *fb, const char *str, pixel *cursor, short height, char r, char g, char b):&#160;fbDraw.c"
        ∷ [])
    ∷ entry_of "fb_5ftopixel_85" "fb_toPixel" (
        place_of "../fbDraw_8h.html#a44625c7bccaa315ca804eb2567b1747d"
          "fb_toPixel(int x, int y):&#160;fbDraw.c"
        ∷ place_of "../fbDraw_8c.html#a44625c7bccaa315ca804eb2567b1747d"
            "fb_toPixel(int x, int y):&#160;fbDraw.c"
        ∷ [])
    ∷ entry_of "fbdevice_86" "FBDEVICE"
        (place_of "../fbDraw_8h.html#a284388f6429fe1ffaf0037bc66132e54" "fbDraw.h" ∷ [])
    ∷ entry_of "fbdraw_2ec_87" "fbDraw.c" (place_of "../fbDraw_8c.html" "" ∷ [])
    ∷ entry_of "fbdraw_2eh_88" "fbDraw.h" (place_of "../fbDraw_8h.html" "" ∷ [])
    ∷ entry_of "fbfd_89" "fbfd"
        (place_of "../structdev__fb__t.html#a9177e1d7c16865ec0809db3142365439" "dev_fb_t" ∷ [])
    ∷ entry_of "fbp_90" "fbp"
        (place_of "../structdev__fb__t.html#abffc82839f47242dcc92b155601a2a9f" "dev_fb_t" ∷ [])
    ∷ entry_of "fd_91" "fd"
        (place_of "../structTask.html#a33500ca12b64815a047cd5423fa75fed" "Task" ∷ [])
    ∷ entry_of "finfo_92" "finfo"
        (place_of "../structdev__fb__t.html#a908f5a5916b64a5e198f3a88d43dea15" "dev_fb_t" ∷ [])
    ∷ entry_of "framebuffer_93" "framebuffer" (
        place_of "../structSharedContext.html#acaf3cf1ecea51d21a39513a1bf2a7e35" "SharedContext"
        ∷ [])
    ∷ entry_of "free_5fclient_5flist_94" "free_client_list" (
        place_of "../client__list__manager_8h.html#a5e84253f47be5964949f33ad6aede380"
          "free_client_list(ClientNode **head):&#160;client_list_manager.c"
        ∷ place_of "../client__list__manager_8c.html#a5e84253f47be5964949f33ad6aede380"
            "free_client_list(ClientNode **head):&#160;client_list_manager.c"
        ∷ [])
    ∷ entry_of "freeballlist_95" "freeBallList" (
        place_of "../screenball__list_8h.html#aa6b114782a389cd9f97fc59e91be6373"
          "freeBallList(BallListNode **head):&#160;screenball_list.c"
        ∷ place_of "../localball__list_8h.html#aa6b114782a389cd9f97fc59e91be6373"
            "freeBallList(BallListNode **head):&#160;screenball_list.c"
        ∷ place_of "../test__screenball__list_8h.html#aa6b114782a389cd9f97fc59e91be6373"
            "freeBallList(BallListNode **head):&#160;screenball_list.c"
        ∷ place_of "../screenball__list_8c.html#aa6b114782a389cd9f97fc59e91be6373"
            "freeBallList(BallListNode **head):&#160;screenball_list.c"
        ∷ place_of "../localball__list_8c.html#aa6b114782a389cd9f97fc59e91be6373"
            "freeBallList(BallListNode **head):&#160;localball_list.c"
        ∷ place_of "../test__screenball__list_8c.html#aa6b114782a389cd9f97fc59e91be6373"
            "freeBallList(BallListNode **head):&#160;test_screenball_list.c"
        ∷ [])
    ∷ entry_of "front_96" "front"
        (place_of "../structTaskQueue.html#a6497fa0f350541a9d7549713183d771e" "TaskQueue" ∷ [])
    ∷ []

abbrev pub all_6 : List Entry
all_6 =
    entry_of "g_97" "g"
      (place_of "../structRGBColor.html#a44111dbc8e22536a46b3581d556eaab9" "RGBColor" ∷ [])
    ∷ entry_of "get_5fcolor_5fby_5fowner_98" "get_color_by_owner" (
        place_of "../localball_8h.html#a31a35c30e6be9466befcc6faacb55d38"
          "get_color_by_owner(int owner_id):&#160;loaclball.c"
        ∷ place_of "../loaclball_8c.html#a31a35c30e6be9466befcc6faacb55d38"
            "get_color_by_owner(int owner_id):&#160;loaclball.c"
        ∷ [])
    ∷ entry_of "global_5ftask_5fqueue_99" "global_task_queue" (
        place_of "../server_8h.html#a459f3b7a46f802286d1392b741fbf4df"
          "global_task_queue():&#160;server.c"
        ∷ place_of "../server_2main_8c.html#a459f3b7a46f802286d1392b741fbf4df"
            "global_task_queue():&#160;server.c"
        ∷ place_of "../server_8c.html#a459f3b7a46f802286d1392b741fbf4df"
            "global_task_queue():&#160;server.c"
        ∷ [])
    ∷ []
