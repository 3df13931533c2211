-- ===== src/Panel/Select/Menu.antt =====
-- The menu of sections: which entry is marked, and where the keys can take the index.
use owner_based_ball_game.Base.{
  All, Bool-cases, List, Result, [], arith, if◌then◌else◌, inl, inr, ltb, lt→ltb, not, ok,
  out_of_fuel, refl, suc, sym, type_error, zero, ℕ, ◌&&◌, ◌+◌, ◌-◌, ◌<◌, ◌==◌, ◌||◌, ◌∙◌, ◌∷◌, ◌≡◌,
  ◌≤◌, ◌⊎◌,
}
use owner_based_ball_game.Host.{Host}
use owner_based_ball_game.Panel.Layout.{Layout}
use owner_based_ball_game.Panel.Query.{Target, search_panel, search_with}
use owner_based_ball_game.Panel.Select.{
  after_choice, blank, bullet, is_select_item, on_search_select_key, on_select_item,
  select_item_count, select_item_set, set_marks,
}
use owner_based_ball_game.Panel.State.{Panel, SelectChild}
use owner_based_ball_game.Text.{Text, remove_spaces, text_eq}

-- The marks of the entries of class SelectItem, in order.
unfoldable pub item_marks : List SelectChild → List Text
item_marks [] = []
item_marks (c ∷ cs) = let rest = item_marks cs in if is_select_item c then c.mark ∷ rest else rest

-- A bullet at the number `id` and blanks elsewhere, for the numbers from `j` on.
unfoldable pub marks_from : ℕ → ℕ → ℕ → List Text
marks_from id j zero = []
marks_from id j (suc n) = (if j == id then bullet else blank) ∷ marks_from id (j + 1) n

item_marks-set_marks :
    (id j : ℕ) (cs : List SelectChild)
    → item_marks (set_marks id j cs) ≡ marks_from id j (select_item_count cs)
unfolding item_marks set_marks marks_from select_item_count
item_marks-set_marks id j [] = refl
item_marks-set_marks id j (c ∷ cs) = elim (Bool-cases (is_select_item c)) [
  | inl h ↦
      let one : 1 + select_item_count cs ≡ suc (select_item_count cs) = omega arith in
      rw (h, h, one, item_marks-set_marks id (j + 1) cs)
  | inr h ↦
      let none_more : 0 + select_item_count cs ≡ select_item_count cs = omega arith in
      rw (h, h, none_more, item_marks-set_marks id j cs)
]

-- `SelectItemSet` marks the entry of the given number and no other.
pub item_marks-select_item_set :
    (id : ℕ) (p : Panel)
    → item_marks (select_item_set id p).select_children
      ≡ marks_from id 0 (select_item_count p.select_children)
unfolding select_item_set
item_marks-select_item_set id p = item_marks-set_marks id 0 p.select_children

select_item_count-set_marks :
    (id j : ℕ) (cs : List SelectChild)
    → select_item_count (set_marks id j cs) ≡ select_item_count cs
unfolding set_marks select_item_count
select_item_count-set_marks id j [] = refl
select_item_count-set_marks id j (c ∷ cs) = elim (Bool-cases (is_select_item c)) [
  | inl h ↦ rw (h, h, select_item_count-set_marks id (j + 1) cs)
  | inr h ↦ rw (h, h, select_item_count-set_marks id j cs)
]

-- What a search leaves of the menu.
pub record KeepsMenu (p q : Panel) : Type 0 where
  pub index_same : q.search_index ≡ p.search_index
  pub children_same : q.select_children ≡ p.select_children

search_with-KeepsMenu :
    (layout : Layout) (p : Panel) (value : Text) (r : Result Target)
    → KeepsMenu p (search_with layout p value r).0
unfolding search_with
search_with-KeepsMenu layout p value (ok t) = ground arith
search_with-KeepsMenu layout p value type_error = ground arith
search_with-KeepsMenu layout p value out_of_fuel = ground arith

pub search_panel-KeepsMenu :
    (host : Host) (layout : Layout) (p : Panel)
    → KeepsMenu (record p { key_timeout = 0 }) (search_panel host layout p).0
search_panel-KeepsMenu host layout p =
    unfold search_panel in search_with-KeepsMenu layout (record p { key_timeout = 0 }) _ _

-- A choice takes the index to the given number and marks the entry of that number.
pub record Chosen (id : ℕ) (p q : Panel) : Type 0 where
  pub index : q.search_index ≡ id
  pub marks : item_marks q.select_children ≡ marks_from id 0 (select_item_count p.select_children)
  pub count : select_item_count q.select_children ≡ select_item_count p.select_children

Chosen-keep : (id : ℕ) (p q r : Panel) → Chosen id p q → KeepsMenu q r → Chosen id p r
Chosen-keep id p q r c k = record {
  index = k.index_same ∙ c.index;
  marks = rw k.children_same c.marks;
  count = rw k.children_same c.count;
}

on_select_item-if :
    (host : Host) (layout : Layout) (id : ℕ) (p : Panel)
    → let chosen = select_item_set id (record p { search_index = id }) in
      on_select_item host layout id p ≡ (
        if not (text_eq (remove_spaces p.field_value) []) && p.search_active
        then search_panel host layout chosen
        else (chosen, ok tt))
unfolding on_select_item
on_select_item-if host layout id p = refl

select_item_set-Chosen :
    (id : ℕ) (p : Panel) → Chosen id p (select_item_set id (record p { search_index = id }))
select_item_set-Chosen id p = record {
  index = unfold select_item_set in refl;
  marks = item_marks-select_item_set id (record p { search_index = id });
  count = unfold select_item_set in select_item_count-set_marks id 0 p.select_children;
}

pub on_select_item-Chosen :
    (host : Host) (layout : Layout) (id : ℕ) (p : Panel)
    → Chosen id p (on_select_item host layout id p).0
on_select_item-Chosen host layout id p =
    let chosen = select_item_set id (record p { search_index = id }) in
    let c = select_item_set-Chosen id p in
    rw (on_select_item-if host layout id p)
      (elim (Bool-cases (not (text_eq (remove_spaces p.field_value) []) && p.search_active)) [
        | inl h ↦
            let k = search_panel-KeepsMenu host layout chosen in
            let same : KeepsMenu chosen (search_panel host layout chosen).0 = record {
              index_same = k.index_same;
              children_same = k.children_same;
            } in
            rw h (Chosen-keep id p chosen _ c same)
        | inr h ↦ rw h c
      ])

after_choice-Chosen :
    (id : ℕ) (p : Panel) (r : Panel × Result (Unit {0}))
    → Chosen id p r.0
    → Chosen id p (after_choice r).0
unfolding after_choice
after_choice-Chosen id p (q, ok u) c = record { index = c.index; marks = c.marks; count = c.count }
after_choice-Chosen id p (q, type_error) c = c
after_choice-Chosen id p (q, out_of_fuel) c = c

-- The index that `OnSearchSelectKey` chooses.
abbrev pub chosen_index : ℕ → Panel → ℕ
chosen_index key p =
    if key == 40 && ltb p.search_index (select_item_count p.select_children)
    then p.search_index + 1
    else if key == 38 && ltb 0 p.search_index
    then p.search_index - 1
    else p.search_index

on_search_select_key-if :
    (host : Host) (layout : Layout) (key : ℕ) (p : Panel)
    → on_search_select_key host layout key p ≡ (
        if key == 40 && ltb p.search_index (select_item_count p.select_children)
        then on_select_item host layout (p.search_index + 1) p
        else if key == 38 && ltb 0 p.search_index
        then on_select_item host layout (p.search_index - 1) p
        else if key == 13 || key == 27
        then after_choice (on_select_item host layout p.search_index p)
        else (p, ok tt))
unfolding on_search_select_key
on_search_select_key-if host layout key p = refl

-- Down and Up move the index by one, Enter and Escape leave it, and each of these keys that acts
-- marks the entry of the new index and no other.
pub on_search_select_key-Chosen :
    (host : Host) (layout : Layout) (key : ℕ) (p : Panel)
    → (key ≡ 40) × (p.search_index < select_item_count p.select_children)
      ⊎ (key ≡ 38) × (0 < p.search_index)
      ⊎ (key ≡ 13)
      ⊎ (key ≡ 27)
    → Chosen (chosen_index key p) p (on_search_select_key host layout key p).0
on_search_select_key-Chosen host layout key p (inl (down, room)) =
    rw (on_search_select_key-if host layout key p, down, lt→ltb _ _ room)
      (on_select_item-Chosen host layout (p.search_index + 1) p)
on_search_select_key-Chosen host layout key p (inr (inl (up, room))) =
    rw (on_search_select_key-if host layout key p, up, lt→ltb _ _ room)
      (on_select_item-Chosen host layout (p.search_index - 1) p)
on_search_select_key-Chosen host layout key p (inr (inr (inl enter))) =
    rw (on_search_select_key-if host layout key p, enter)
      (after_choice-Chosen _ p _ (on_select_item-Chosen host layout p.search_index p))
on_search_select_key-Chosen host layout key p (inr (inr (inr escape))) =
    rw (on_search_select_key-if host layout key p, escape)
      (after_choice-Chosen _ p _ (on_select_item-Chosen host layout p.search_index p))

-- No entry is marked when the number is past the last one.
marks_from-past : (id j n : ℕ) → j + n ≤ id → All (λ m. m ≡ blank) (marks_from id j n)
unfolding marks_from
marks_from-past id j zero h = tt
marks_from-past id j (suc n) h = (ground arith, marks_from-past id (j + 1) n (omega arith))

-- On the last entry Down still moves on: the index becomes the number of entries, which is the
-- number of no entry, and no entry is marked any more.
pub on_search_select_key-past_last :
    (host : Host) (layout : Layout) (p : Panel)
    → p.search_index + 1 ≡ select_item_count p.select_children
    → let q = (on_search_select_key host layout 40 p).0 in
      (q.search_index ≡ select_item_count q.select_children)
      × All (λ m. m ≡ blank) (item_marks q.select_children)
on_search_select_key-past_last host layout p last =
    let c = on_search_select_key-Chosen host layout 40 p (inl (refl, omega arith)) in
    let next : chosen_index 40 p ≡ p.search_index + 1 = ground arith in
    (c.index ∙ next ∙ last ∙ sym c.count, rw (c.marks, next) (marks_from-past _ 0 _ (omega arith)))
