-- ===== src/SearchTables/Functions4To6.antt =====
-- The tables `searchData` of docs/html/search/functions_4.js to functions_6.js.
use owner_based_ball_game.Base.{List, [], ◌∷◌}
use owner_based_ball_game.Results.Build.{Entry}
use owner_based_ball_game.SearchTables.Entries.{entry_of, place_of}

abbrev pub functions_4 : List Entry
functions_4 =
    entry_of "fb_5fcheckpx_290" "fb_checkPx"
      (place_of "../fbDraw_8c.html#a6703842600afbc9bb310e521be9045f2" "fbDraw.c" ∷ [])
    ∷ entry_of "fb_5fclose_291" "fb_close" (
        place_of "../fbDraw_8h.html#a65100543c0b863045bebc6171516a50c"
          "fb_close(dev_fb *fb):&#160;fbDraw.c"
        ∷ place_of "../fbDraw_8c.html#a65100543c0b863045bebc6171516a50c"
            "fb_close(dev_fb *fb):&#160;fbDraw.c"
        ∷ [])
    ∷ entry_of "fb_5fdrawbox_292" "fb_drawBox" (
        place_of "../fbDraw_8h.html#a78d5b200ac06f9cde2a2884d57c091c8"
          "fb_drawBox(dev_fb *fb, pixel px, int w, int h, char r, char g, char b):&#160;fbDraw.c"
        ∷ place_of "../fbDraw_8c.html#a78d5b200ac06f9cde2a2884d57c091c8"
            "fb_drawBox(dev_fb *fb, pixel px, int w, int h, char r, char g, char b):&#160;fbDraw.c"
        ∷ [])
    ∷ entry_of "fb_5fdrawboxwidthalpa_293" "fb_drawBoxWidthAlpa" (
        place_of "../fbDraw_8h.html#aefa72f925752ba73180456c8eefc675f"
          "fb_drawBoxWidthAlpa(dev_fb *fb, pixel px, int w, int h, char r, char g, char b, char a):&#160;fbDraw.c"
        ∷ place_of "../fbDraw_8c.html#aefa72f925752ba73180456c8eefc675f"
            "fb_drawBoxWidthAlpa(dev_fb *fb, pixel px, int w, int h, char r, char g, char b, char a):&#160;fbDraw.c"
        ∷ [])
    ∷ entry_of "fb_5fdrawchar_294" "fb_drawChar" (
        place_of "../fbDraw_8h.html#ab493deb443c7f2870bb64e15bee0be6b"
          "fb_drawChar(dev_fb *fb, char c, pixel start, short height, char r, char g, char b):&#160;fbDraw.c"
        ∷ place_of "../fbDraw_8c.html#a2f023a9f155ead2094d69d98564da4ee"
            "fb_drawChar(dev_fb *fb, char c, pixel start, short h, char r, char g, char b):&#160;fbDraw.c"
        ∷ [])
    ∷ entry_of "fb_5fdrawfilledcircle_295" "fb_drawFilledCircle" (
        place_of "../fbDraw_8h.html#a8a3a8f2ca7c1d98910df2d4d72fea41c"
          "fb_drawFilledCircle(dev_fb *fb, pixel center, char r, char g, char b):&#160;fbDraw.c"
        ∷ place_of "../fbDraw_8c.html#a8a3a8f2ca7c1d98910df2d4d72fea41c"
            "fb_drawFilledCircle(dev_fb *fb, pixel center, char r, char g, char b):&#160;fbDraw.c"
        ∷ [])
    ∷ entry_of "fb_5fdrawline_296" "fb_drawLine" (
        place_of "../fbDraw_8h.html#a50152fe633f3fb4372fb7cf7febdbb9f"
          "fb_drawLine(dev_fb *fb, pixel start, pixel end, char r, char g, char b):&#160;fbDraw.c"
        ∷ place_of "../fbDraw_8c.html#a50152fe633f3fb4372fb7cf7febdbb9f"
            "fb_drawLine(dev_fb *fb, pixel start, pixel end, char r, char g, char b):&#160;fbDraw.c"
        ∷ [])
    ∷ entry_of "fb_5fdrawpixel_297" "fb_drawPixel" (
        place_of "../fbDraw_8h.html#ab57af793299160fddaad15d808aa3ab4"
          "fb_drawPixel(dev_fb *fb, int x, int y, char r, char g, char b):&#160;fbDraw.c"
        ∷ place_of "../fbDraw_8c.html#ab57af793299160fddaad15d808aa3ab4"
            "fb_drawPixel(dev_fb *fb, int x, int y, char r, char g, char b):&#160;fbDraw.c"
        ∷ [])
    ∷ entry_of "fb_5fdrawpixelpx_298" "fb_drawPixelPx" (
        place_of "../fbDraw_8h.html#a1b2b250f00e56bfd0873b2ab03ee4b12"
          "fb_drawPixelPx(dev_fb *fb, pixel px, char r, char g, char b):&#160;fbDraw.c"
        ∷ place_of "../fbDraw_8c.html#a1b2b250f00e56bfd0873b2ab03ee4b12"
            "fb_drawPixelPx(dev_fb *fb, pixel px, char r, char g, char b):&#160;fbDraw.c"
        ∷ [])
    ∷ entry_of "fb_5fdrawpixelwithalpha_299" "fb_drawPixelwithAlpha" (
        place_of "../fbDraw_8h.html#a72cda0f472bfd0a7f7ef6f77b96645ba"
          "fb_drawPixelwithAlpha(dev_fb *fb, int x, int y, char r, char g, char b, char a):&#160;fbDraw.c"
        ∷ place_of "../fbDraw_8c.html#a72cda0f472bfd0a7f7ef6f77b96645ba"
            "fb_drawPixelwithAlpha(dev_fb *fb, int x, int y, char r, char g, char b, char a):&#160;fbDraw.c"
        ∷ [])
    ∷ entry_of "fb_5ffillbox_300" "fb_fillBox" (
        place_of "../fbDraw_8h.html#ae95b4b861a1d4c9aca2c5aed0169e2ae"
          "fb_fillBox(dev_fb *fb, pixel px, int w, int h, char r, char g, char b):&#160;fbDraw.c"
        ∷ place_of "../fbDraw_8c.html#ae95b4b861a1d4c9aca2c5aed0169e2ae"
            "fb_fillBox(dev_fb *fb, pixel px, int w, int h, char r, char g, char b):&#160;fbDraw.c"
        ∷ [])
    ∷ entry_of "fb_5ffillscr_301" "fb_fillScr" (
        place_of "../fbDraw_8h.html#a1a588a6975a2e8e498267375198ba6fb"
          "fb_fillScr(dev_fb *fb, char r, char g, char b):&#160;fbDraw.c"
        ∷ place_of "../fbDraw_8c.html#a1a588a6975a2e8e498267375198ba6fb"
            "fb_fillScr(dev_fb *fb, char r, char g, char b):&#160;fbDraw.c"
        ∷ [])
    ∷ entry_of "fb_5finit_302" "fb_init" (
        place_of "../fbDraw_8h.html#aed7e45b126c4b190264d8cc58c7bcccb"
          "fb_init(dev_fb *fb):&#160;fbDraw.c"
        ∷ place_of "../fbDraw_8c.html#aed7e45b126c4b190264d8cc58c7bcccb"
            "fb_init(dev_fb *fb):&#160;fbDraw.c"
        ∷ [])
    ∷ entry_of "fb_5fprintstr_303" "fb_printStr" (
        place_of "../fbDraw_8h.html#aea2687fc6aef3acf018760c31ccd080b"
          "fb_printStr(dev_fb *fb, const char *str, pixel *cursor, short height, char r, char g, char b):&#160;fbDraw.c"
        ∷ place_of "../fbDraw_8c.html#aea2687fc6aef3acf018760c31ccd080b"
            "fb_printStr(dev_fb *fb, const char *str, pixel *cursor, short height, char r, char g, char b):&#160;fbDraw.c"
        ∷ [])
    ∷ entry_of "fb_5ftopixel_304" "fb_toPixel" (
        place_of "../fbDraw_8h.html#a44625c7bccaa315ca804eb2567b1747d"
          "fb_toPixel(int x, int y):&#160;fbDraw.c"
        ∷ place_of "../fbDraw_8c.html#a44625c7bccaa315ca804eb2567b1747d"
            "fb_toPixel(int x, int y):&#160;fbDraw.c"
        ∷ [])
    ∷ entry_of "free_5fclient_5flist_305" "free_client_list" (
        place_of "../client__list__manager_8h.html#a5e84253f47be5964949f33ad6aede380"
          "free_client_list(ClientNode **head):&#160;client_list_manager.c"
        ∷ place_of "../client__list__manager_8c.html#a5e84253f47be5964949f33ad6aede380"
            "free_client_list(ClientNode **head):&#160;client_list_manager.c"
        ∷ [])
    ∷ entry_of "freeballlist_306" "freeBallList" (
        place_of "../screenball__list_8h.html#aa6b114782a389cd9f97fc59e91be6373"
          "freeBallList(BallListNode **head):&#160;screenball_list.c"
        ∷ place_of "../localball__list_8h.html#aa6b114782a389cd9f97fc59e91be6373"
            "freeBallList(BallListNode **head):&#160;screenball_list.c"
        ∷ place_of "../test__screenball__list_8h.html#aa6b114782a389cd9f97fc59e91be6373"
            "freeBallList(BallListNode **head):&#160;screenball_list.c"
        ∷ place_of "../screenball__list_8c.html#aa6b114782a389cd9f97fc59e91be6373"
            "freeBallList(BallListNode **head):&#160;screenball_list.c"
        ∷ place_of "../localball__list_8c.html#aa6b114782a389cd9f97fc59e91be6373"
            "freeBallList(BallListNode **head):&#160;localball_list.c"
        ∷ place_of "../test__screenball__list_8c.html#aa6b114782a389cd9f97fc59e91be6373"
            "freeBallList(BallListNode **head):&#160;test_screenball_list.c"
        ∷ [])
    ∷ []

abbrev pub functions_5 : List Entry
functions_5 =
    entry_of "get_5fcolor_5fby_5fowner_307" "get_color_by_owner" (
      place_of "../localball_8h.html#a31a35c30e6be9466befcc6faacb55d38"
        "get_color_by_owner(int owner_id):&#160;loaclball.c"
      ∷ place_of "../loaclball_8c.html#a31a35c30e6be9466befcc6faacb55d38"
          "get_color_by_owner(int owner_id):&#160;loaclball.c"
      ∷ [])
    ∷ []

abbrev pub functions_6 : List Entry
functions_6 =
    entry_of "handle_5fadd_308" "handle_add" (
      place_of "../localballmanager_8h.html#a6cafbcbb30bfb6d5c15f487c1eb17267"
        "handle_add(BallListManager *m, int count, int radius, int owner_id):&#160;localballmanager.c"
      ∷ place_of "../localballmanager_8c.html#a6cafbcbb30bfb6d5c15f487c1eb17267"
          "handle_add(BallListManager *m, int count, int radius, int owner_id):&#160;localballmanager.c"
      ∷ [])
    ∷ entry_of "handle_5fdelete_309" "handle_delete" (
        place_of "../localballmanager_8h.html#a6a6b9aad59d23a8c08806a0585c3a7cb"
          "handle_delete(BallListManager *m, int count, int radius, int owner_id):&#160;localballmanager.c"
        ∷ place_of "../localballmanager_8c.html#a6a6b9aad59d23a8c08806a0585c3a7cb"
            "handle_delete(BallListManager *m, int count, int radius, int owner_id):&#160;localballmanager.c"
        ∷ [])
    ∷ entry_of "handle_5fsigint_310" "handle_sigint" (
        place_of "../client_2main_8c.html#a8bfc90b3fb9344e9caafec953baacc0b"
          "handle_sigint(int sig):&#160;main.c"
        ∷ place_of "../server_2main_8c.html#a8bfc90b3fb9344e9caafec953baacc0b"
            "handle_sigint(int sig):&#160;main.c"
        ∷ place_of "../test__main_8c.html#a8bfc90b3fb9344e9caafec953baacc0b"
            "handle_sigint(int sig):&#160;test_main.c"
        ∷ [])
    ∷ entry_of "handle_5fspeed_5fdown_311" "handle_speed_down" (
        place_of "../localballmanager_8h.html#a75ad5a08a0e6e26e52117b44469571d8"
          "handle_speed_down(BallListManager *m, int count, int radius, int owner_id):&#160;localballmanager.c"
        ∷ place_of "../localballmanager_8c.html#a75ad5a08a0e6e26e52117b44469571d8"
            "handle_speed_down(BallListManager *m, int count, int radius, int owner_id):&#160;localballmanager.c"
        ∷ [])
    ∷ entry_of "handle_5fspeed_5fup_312" "handle_speed_up" (
        place_of "../localballmanager_8h.html#aa00cddab1af58b8b087352b036ed0c5d"
          "handle_speed_up(BallListManager *m, int count, int radius, int owner_id):&#160;localballmanager.c"
        ∷ place_of "../localballmanager_8c.html#aa00cddab1af58b8b087352b036ed0c5d"
            "handle_speed_up(BallListManager *m, int count, int radius, int owner_id):&#160;localballmanager.c"
        ∷ [])
    ∷ []
