-- ===== src/Panel/Select.antt =====
-- The menu of sections: `SelectItemCount`, `SelectItemSet`, `OnSelectItem` and `OnSearchSelectKey` of
-- docs/html/search/search.js.
pub mod Menu
use owner_based_ball_game.Base.{
  Bool, List, Result, [], if◌then◌else◌, ltb, not, ok, out_of_fuel, type_error, ℕ, ◌&&◌, ◌+◌, ◌-◌,
  ◌==◌, ◌||◌, ◌∷◌,
}
use owner_based_ball_game.Host.{Host}
use owner_based_ball_game.Panel.Layout.{Layout, close_selection}
use owner_based_ball_game.Panel.Query.{search_panel}
use owner_based_ball_game.Panel.State.{Panel, SelectChild, focus_field}
use owner_based_ball_game.Results.Search.{mark}
use owner_based_ball_game.Text.{Text, remove_spaces, text_eq, txt}

abbrev pub is_select_item : SelectChild → Bool
is_select_item c = text_eq c.class_name (txt "SelectItem")

unfoldable pub select_item_count : List SelectChild → ℕ
select_item_count [] = 0
select_item_count (c ∷ cs) = (if is_select_item c then 1 else 0) + select_item_count cs

-- '&#8226;' and '&#160;'
abbrev pub bullet : Text
bullet = 8226 ∷ []

abbrev pub blank : Text
blank = 160 ∷ []

-- The loop of `SelectItemSet`, at the `j`-th item.
unfoldable pub set_marks : ℕ → ℕ → List SelectChild → List SelectChild
set_marks id j [] = []
set_marks id j (c ∷ cs) =
    (if is_select_item c then record c { mark = if j == id then bullet else blank } else c)
    ∷ set_marks id (if is_select_item c then j + 1 else j) cs

unfoldable pub select_item_set : ℕ → Panel → Panel
unfolding set_marks
select_item_set id p = record p { select_children = set_marks id 0 p.select_children }

unfoldable pub on_select_item : Host → Layout → ℕ → Panel → Panel × Result (Unit {0})
unfolding select_item_set search_panel remove_spaces
on_select_item host layout id p =
    let p' = select_item_set id (record p { search_index = id }) in
    if not (text_eq (remove_spaces p'.field_value) []) && p'.search_active
    then search_panel host layout p'
    else (p', ok tt)

-- The last branch of `OnSearchSelectKey`; an error leaves the rest of it out.
unfoldable pub after_choice : Panel × Result (Unit {0}) → Panel × Result (Unit {0})
unfolding close_selection
after_choice (p, ok r) =
    let p' = close_selection p in (record p' { focus_calls = focus_field ∷ p'.focus_calls }, ok tt)
after_choice (p, type_error) = (p, type_error)
after_choice (p, out_of_fuel) = (p, out_of_fuel)

-- `OnSearchSelectKey`, on `e.keyCode`
unfoldable pub on_search_select_key : Host → Layout → ℕ → Panel → Panel × Result (Unit {0})
unfolding on_select_item after_choice select_item_count
on_search_select_key host layout key p =
    if key == 40 && ltb p.search_index (select_item_count p.select_children)
    then on_select_item host layout (p.search_index + 1) p
    else if key == 38 && ltb 0 p.search_index
    then on_select_item host layout (p.search_index - 1) p
    else if key == 13 || key == 27
    then after_choice (on_select_item host layout p.search_index p)
    else (p, ok tt)
