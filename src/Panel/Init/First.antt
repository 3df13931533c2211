-- ===== src/Panel/Init/First.antt =====
-- The menu of sections as `init_search` leaves it.
use owner_based_ball_game.Base.{
  Bool-cases, List, Option, [], ap, arith, if◌then◌else◌, inl, inr, length, none, not, refl, some,
  suc, ℕ, ◌&&◌, ◌++◌, ◌+◌, ◌∙◌, ◌∷◌, ◌≡◌, ◌≢◌,
}
use owner_based_ball_game.Dom.{item}
use owner_based_ball_game.Host.{Host}
use owner_based_ball_game.Panel.Init.{init_search, menu_link, menu_links}
use owner_based_ball_game.Panel.Layout.{Layout}
use owner_based_ball_game.Panel.Query.{section_content}
use owner_based_ball_game.Panel.SearchData.{index_section_labels, index_section_names}
use owner_based_ball_game.Panel.Select.{
  is_select_item, on_select_item, select_item_count, select_item_set, set_marks,
}
use owner_based_ball_game.Panel.Select.Menu.{
  item_marks, marks_from, on_select_item-Chosen, search_panel-KeepsMenu,
}
use owner_based_ball_game.Panel.State.{Panel, SelectChild}
use owner_based_ball_game.Text.{Text, remove_spaces, text_eq}

select_item_count-append :
    (cs ds : List SelectChild)
    → select_item_count (cs ++ ds) ≡ select_item_count cs + select_item_count ds
unfolding select_item_count
select_item_count-append [] ds = omega arith
select_item_count-append (c ∷ cs) ds = omega (arith, select_item_count-append cs ds)

select_item_count-menu_links :
    (key : ℕ) (labels : List Text) → select_item_count (menu_links key labels) ≡ length labels
unfolding select_item_count menu_links menu_link text_eq
select_item_count-menu_links key [] = refl
select_item_count-menu_links key (l ∷ ls) = omega (arith, select_item_count-menu_links (suc key) ls)

-- The labels of the entries of a menu, and the numbers of their calls of `OnSelectItem`.
unfoldable pub item_calls : List SelectChild → List (Text × Option ℕ)
item_calls [] = []
item_calls (c ∷ cs) =
    let rest = item_calls cs in if is_select_item c then (c.label, c.on_click) ∷ rest else rest

-- labels with the numbers from `key` on
abbrev pub numbered : ℕ → List Text → List (Text × Option ℕ)
numbered key [] = []
numbered key (label ∷ labels) = (label, some key) ∷ numbered (suc key) labels

item_calls-set_marks :
    (id j : ℕ) (cs : List SelectChild) → item_calls (set_marks id j cs) ≡ item_calls cs
unfolding item_calls set_marks
item_calls-set_marks id j [] = refl
item_calls-set_marks id j (c ∷ cs) = elim (Bool-cases (is_select_item c)) [
  | inl item ↦
      rw (item, item)
        (ap (λ calls. (c.label, c.on_click) ∷ calls) (item_calls-set_marks id (j + 1) cs))
  | inr other ↦ rw (other, other) (item_calls-set_marks id j cs)
]

item_calls-menu_links :
    (cs : List SelectChild) (key : ℕ) (labels : List Text)
    → select_item_count cs ≡ 0
    → item_calls (cs ++ menu_links key labels) ≡ numbered key labels
unfolding item_calls menu_links menu_link select_item_count text_eq
item_calls-menu_links [] key [] empty = refl
item_calls-menu_links [] key (l ∷ ls) empty =
    ap (λ calls. (l, some key) ∷ calls) (item_calls-menu_links [] (suc key) ls refl)
item_calls-menu_links (c ∷ cs) key labels empty = elim (Bool-cases (is_select_item c)) [
  | inl item ↦ absurd (ground (arith, item))
  | inr other ↦ rw other (item_calls-menu_links cs key labels (ground arith))
]

on_select_item-set_marks :
    (host : Host) (layout : Layout) (id : ℕ) (p : Panel)
    → (on_select_item host layout id p).0.select_children ≡ set_marks id 0 p.select_children
unfolding on_select_item select_item_set
on_select_item-set_marks host layout id p =
    let chosen = select_item_set id (record p { search_index = id }) in
    elim (Bool-cases (not (text_eq (remove_spaces p.field_value) []) && p.search_active)) [
      | inl searches ↦ rw searches (search_panel-KeepsMenu host layout chosen).children_same
      | inr quiet ↦ rw quiet refl
    ]

-- On a menu without entries, `init_search` leaves one entry for each section of the index, with the label
-- and the call of `OnSelectItem` with the number of the section; it marks the first and no other, and takes the index to it, which `Search` has a table for.
pub init_search-Chosen :
    (host : Host) (layout : Layout) (p : Panel)
    → select_item_count p.select_children ≡ 0
    → let q = (init_search host layout p).0 in
      (item_marks q.select_children ≡ marks_from 0 0 (length index_section_names))
      × (item_calls q.select_children ≡ numbered 0 index_section_labels)
      × (q.search_index ≡ 0)
      × (section_content q.search_index ≢ none)
unfolding init_search
init_search-Chosen host layout p empty =
    let filled = p.select_children ++ menu_links 0 index_section_labels in
    let chosen = on_select_item-Chosen host layout 0 (record p { select_children = filled }) in
    let all_new : select_item_count filled ≡ length index_section_names = omega (
      arith,
      select_item_count-append p.select_children (menu_links 0 index_section_labels),
      select_item_count-menu_links 0 index_section_labels,
    ) in
    (
      chosen.marks ∙ ap (marks_from 0 0) all_new,
      ap item_calls (on_select_item-set_marks host layout 0 (record p { select_children = filled }))
          ∙ item_calls-set_marks 0 0 filled
          ∙ item_calls-menu_links p.select_children 0 index_section_labels empty,
      chosen.index,
      rw chosen.index (unfold section_content in λ h. cc),
    )
