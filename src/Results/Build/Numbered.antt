-- ===== src/Results/Build/Numbered.antt =====
-- The page that `createResults` builds has one link of each number, and each stands in a row.
use native.Mathlib.Nat.{add-zero}
use owner_based_ball_game.Base.{
  Bool, List, Option, [], ap, arith, false, first_some, if◌then◌else◌, length, negsuc, none, ok,
  pos, refl, some, suc, true, zero, ℕ, ℤ, ◌+◌, ◌<◌, ◌==◌, ◌∙◌, ◌∷◌, ◌≡◌,
}
use owner_based_ball_game.Dom.{Elem, Node, Place, get_element_by_id, id_among, id_in, nil, node}
use owner_based_ball_game.Results.Build.{
  Entry, Link, child_link, child_links, create_results, entry_nodes, multiple_nodes, result_link,
  result_row, result_rows, set_target, single_nodes,
}
use owner_based_ball_game.Results.Build.Decimals.{
  text_eq-child_id, text_eq-item_id, text_eq-item_id_below,
}
use owner_based_ball_game.Results.Page.{child_id, item_id, row_of}
use owner_based_ball_game.Text.{text_eq, txt}

pub id-set_target : (b : Bool) (e : Elem) → (set_target b e).id ≡ e.id
unfolding text_eq
id-set_target true e = refl
id-set_target false e = refl

pub id-child_link : (e c : ℕ) (l : Link) → (child_link e c l).id ≡ child_id (pos e) c
unfolding child_link text_eq
id-child_link e c l = id-set_target l.in_parent _

id_among-child_links :
    (e c : ℕ) (j : ℤ) (p : Place) (k : ℕ) (ls : List Link)
    → id_among (item_id j) p k (child_links e c ls) ≡ none
unfolding id_in child_links
id_among-child_links e c j p k [] = refl
id_among-child_links e c j p k (l ∷ ls) =
    rw (id-child_link e c l, text_eq-child_id e c j, id_among-child_links e (suc c) j p (suc k) ls)

-- `getElementById` with the id of some link, at the link of an entry.
found_link : ℕ → ℤ → Place → Option Place
found_link e j p = if text_eq (item_id (pos e)) (item_id j) then some p else none

pub first_some-none {ℓ} : {A : Type ℓ} (o : Option A) → first_some o none ≡ o
first_some-none none = refl
first_some-none (some a) = refl

id_among-single_nodes :
    (e : ℕ) (entry : Entry) (j : ℤ) (p : Place) (l : Link)
    → id_among (item_id j) p 0 (single_nodes e entry l) ≡ found_link e j (0 ∷ p)
unfolding id_in single_nodes result_link text_eq found_link item_id
id_among-single_nodes e entry j p l = rw id-set_target (first_some-none _)

id_among-multiple_nodes :
    (e : ℕ) (entry : Entry) (j : ℤ) (p : Place) (ls : List Link)
    → id_among (item_id j) p 0 (multiple_nodes e entry ls) ≡ found_link e j (0 ∷ p)
unfolding id_in multiple_nodes result_link text_eq found_link item_id
id_among-multiple_nodes e entry j p ls = rw id_among-child_links (first_some-none _)

id_among-entry_nodes :
    (e : ℕ) (entry : Entry) (j : ℤ) (p : Place) (ls : List Link)
    → id_among (item_id j) p 0 (entry_nodes e entry ls) ≡ found_link e j (0 ∷ p)
unfolding entry_nodes
id_among-entry_nodes e entry j p [] = id_among-multiple_nodes e entry j p []
id_among-entry_nodes e entry j p (l ∷ []) = id_among-single_nodes e entry j p l
id_among-entry_nodes e entry j p (l ∷ m ∷ ls) = id_among-multiple_nodes e entry j p (l ∷ m ∷ ls)

id_in-result_row :
    (e : ℕ) (entry : Entry) (j : ℤ) (p : Place)
    → id_in (item_id j) p (result_row e entry) ≡ found_link e j (0 ∷ 0 ∷ p)
unfolding id_in result_row text_eq item_id
id_in-result_row e entry j p = rw id_among-entry_nodes (first_some-none _)

-- Among the rows from the `e`-th on, the link of the number `e + k` is found in the `k`-th of them.
link_in_rows :
    (k e : ℕ) (data_rows : List Entry)
    → k < length data_rows
    → id_among (item_id (pos (e + k))) [] e (result_rows e data_rows) ≡ some (0 ∷ 0 ∷ (e + k) ∷ [])
unfolding id_in result_rows found_link
link_in_rows k e [] h = absurd (omega arith)
link_in_rows zero e (entry ∷ rest) h =
    let self : (e == e) ≡ true = ground arith in
    rw (id_in-result_row, text_eq-item_id, add-zero, self)
link_in_rows (suc k) e (entry ∷ rest) h =
    let other : (e == e + suc k) ≡ false = ground arith in
    let next : suc e + k ≡ e + suc k = omega arith in
    rw (id_in-result_row, text_eq-item_id, other, ← next)
      (link_in_rows k (suc e) rest (omega arith))

no_link_in_rows :
    (e : ℕ) (j : ℤ) (data_rows : List Entry)
    → ((k : ℕ) → k < length data_rows → text_eq (item_id (pos (e + k))) (item_id j) ≡ false)
    → id_among (item_id j) [] e (result_rows e data_rows) ≡ none
unfolding id_in result_rows found_link
no_link_in_rows e j [] h = refl
no_link_in_rows e j (entry ∷ rest) h =
    let here : text_eq (item_id (pos e)) (item_id j) ≡ false =
      ap (λ i. text_eq (item_id (pos i)) (item_id j)) (omega arith) ∙ h 0 (omega arith) in
    rw (id_in-result_row, here)
      (no_link_in_rows (suc e) j rest λ k lt.
        ap (λ i. text_eq (item_id (pos i)) (item_id j)) (omega arith) ∙ h (suc k) (omega arith))

-- Each number below `count` is the id of a link in a row; `count` and -1 are not.
pub record HasLinks (rows : Node) (count : ℕ) : Type 0 where
  pub link_lem :
      (i : ℕ)
      → i < count
      → (q : Place) × (r : Place) × (get_element_by_id rows (item_id (pos i)) ≡ some q)
        × (row_of q ≡ ok r)
  pub past_lem : get_element_by_id rows (item_id (pos count)) ≡ none
  pub below_lem : get_element_by_id rows (item_id (negsuc 0)) ≡ none

root_id : (j : ℤ) → text_eq (txt "SRResults") (item_id j) ≡ false
unfolding item_id text_eq
root_id j = refl

-- the element `SRResults` of the page, before the rows are built
abbrev pub empty_results : Elem → Node
empty_results e = node e nil

-- `createResults` numbers the links of an empty element with the id SRResults from 0 on, one for
-- each entry of the table, each in a row; `getElementById` finds none of the number behind the last,
-- and none of -1.
pub create_results-HasLinks :
    (search_data : List Entry) (e : Elem)
    → e.id ≡ txt "SRResults"
    → HasLinks (create_results search_data (empty_results e)) (length search_data)
unfolding create_results row_of get_element_by_id id_in
create_results-HasLinks search_data e id = record {
  link_lem = λ i lt.
      let start : 0 + i ≡ i = omega arith in
      (
        0 ∷ 0 ∷ i ∷ [],
        i ∷ [],
        rw (id, root_id) (rw start at (link_in_rows i 0 search_data lt)),
        refl,
      );
  past_lem =
      rw (id, root_id)
        (no_link_in_rows 0 (pos (length search_data)) search_data
          λ k lt. text_eq-item_id (0 + k) (length search_data) ∙ ground arith);
  below_lem =
      rw (id, root_id)
        (no_link_in_rows 0 (negsuc 0) search_data λ k lt. text_eq-item_id_below (0 + k));
}
