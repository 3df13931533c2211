-- ===== src/Results/Build/Kept.antt =====
-- What a page of docs/html/search/search.js goes through once it is built: searches, Toggle, and the
-- styles that Nav sets. Its links stay numbered.
use mathlib.Core.Path.{subst}
use owner_based_ball_game.Base.{
  Bool-cases, List, Option, Result, [], inl, inr, length, negsuc, none, ok, out_of_fuel, pos, refl,
  some, suc, type_error, ℕ, ◌>>=◌, ◌∙◌, ◌∷◌, ◌≡◌,
}
use owner_based_ball_game.Dom.{
  Elem, Node, Nodes, Place, cons, get_element_by_id, id_among, id_in, nil, node, set_display,
}
use owner_based_ball_game.Dom.Laws.{get_element_by_id-update}
use owner_based_ball_game.Host.{Host}
use owner_based_ball_game.Results.Build.{Entry, create_results}
use owner_based_ball_game.Results.Build.Numbered.{HasLinks, create_results-HasLinks, empty_results}
use owner_based_ball_game.Results.Nav.Slots.{IsNumbered, slot-in_row, slot-missing}
use owner_based_ball_game.Results.Page.{Page, SearchResults, item_id, toggle, toggle_found}
use owner_based_ball_game.Results.Search.{
  is_row, mark, mark_among, mark_in, search_page, search_word,
}
use owner_based_ball_game.Results.Walk.{find_child_element}
use owner_based_ball_game.Text.{Text, txt}

module _ (host : Host) (word : Text) where
  id-mark : (e : Elem) → (mark host word e).id ≡ e.id
  unfolding mark
  id-mark e = elim (Bool-cases (is_row e)) [ inl row ↦ rw row | inr other ↦ rw other ]

  mutual
    unfolding id_in mark_in

    id_in-mark_in :
        (s : Text) (p : Place) (n : Node) → id_in s p (mark_in host word n) ≡ id_in s p n
    id_in-mark_in s p (node e cs) = rw (id-mark e, id_among-mark_among s p 0 cs)

    id_among-mark_among :
        (s : Text) (p : Place) (i : ℕ) (ns : Nodes)
        → id_among s p i (mark_among host word ns) ≡ id_among s p i ns
    id_among-mark_among s p i nil = refl
    id_among-mark_among s p i (cons n ns) =
        rw (id_in-mark_in s (i ∷ p) n, id_among-mark_among s p (suc i) ns)

-- The page finds the same elements by their ids as another page does.
SameIds : Page → Page → Type 0
SameIds p r = (s : Text) → get_element_by_id r.rows s ≡ get_element_by_id p.rows s

-- What changes a page: a search, a toggle of a row, and a style that Nav sets.
pub data PageStep (host : Host) : Page → Page → Type 0 where
  search_step :
      {p : Page} (self : SearchResults) (query term : Text)
      → PageStep host p (search_page host query term (self, p)).1
  toggle_step : {p r : Page} (id : Text) → toggle p id ≡ ok r → PageStep host p r
  style_step :
      {p : Page} (q : Place) (v : Text)
      → PageStep host p (record p { rows = set_display q v p.rows })

-- From a page that was built from a table.
pub data PageReach (host : Host) (search_data : List Entry) (e : Elem) : Page → Type 0 where
  built :
      {p : Page}
      → p.rows ≡ create_results search_data (empty_results e)
      → PageReach host search_data e p
  step :
      {p r : Page}
      → PageReach host search_data e p
      → PageStep host p r
      → PageReach host search_data e r

set_display-SameIds :
    (q : Place) (v : Text) (p : Page) → SameIds p (record p { rows = set_display q v p.rows })
unfolding SameIds
set_display-SameIds q v p =
    get_element_by_id-update q (λ e. record e { display = v }) (λ e. refl) p.rows

toggle_found-SameIds : (p : Page) (found : Option Place) → SameIds p (toggle_found p found)
unfolding toggle_found SameIds
toggle_found-SameIds p none = λ s. refl
toggle_found-SameIds p (some q) = set_display-SameIds q _ p

toggle-SameIds : (id : Text) (p r : Page) → toggle p id ≡ ok r → SameIds p r
unfolding toggle
toggle-SameIds id p r = go (find_child_element p.rows id)
  where
    go :
        (found : Result (Option Place))
        → (found >>= λ f. ok (toggle_found p f)) ≡ ok r
        → SameIds p r
    go (ok f) e =
        let same : toggle_found p f ≡ r = cc in subst (SameIds p) same (toggle_found-SameIds p f)
    go type_error e = cc
    go out_of_fuel e = cc

PageStep-SameIds : (host : Host) (p r : Page) → PageStep host p r → SameIds p r
unfolding SameIds search_page get_element_by_id
PageStep-SameIds host p _ (search_step self query term) =
    λ s. id_in-mark_in host (search_word host query term) s [] p.rows
PageStep-SameIds host p r (toggle_step id e) = toggle-SameIds id p r e
PageStep-SameIds host p _ (style_step q v) = set_display-SameIds q v p

HasLinks-SameIds :
    (p r : Page) {count : ℕ} → HasLinks p.rows count → SameIds p r → HasLinks r.rows count
unfolding SameIds
HasLinks-SameIds p r h same = record {
  link_lem = λ i lt.
      let (q, row, found, stands) = h.link_lem i lt in
      (q, row, same (item_id (pos i)) ∙ found, stands);
  past_lem = same _ ∙ h.past_lem;
  below_lem = same _ ∙ h.below_lem;
}

PageReach-HasLinks :
    (host : Host) (search_data : List Entry) (e : Elem) (p : Page)
    → e.id ≡ txt "SRResults"
    → PageReach host search_data e p
    → HasLinks p.rows (length search_data)
PageReach-HasLinks host search_data e p id (built made) =
    rw made (create_results-HasLinks search_data e id)
PageReach-HasLinks host search_data e p id (step {p = before} reached moved) =
    HasLinks-SameIds before p (PageReach-HasLinks host search_data e before id reached)
      (PageStep-SameIds host before p moved)

-- On every page that `createResults` built, whatever has been searched, toggled and styled since,
-- there is one link for each entry of the table, numbered from 0 on without gaps, and each stands in
-- a row: what `NavNext` and `NavPrev` need to end.
pub PageReach-IsNumbered :
    (host : Host) (search_data : List Entry) (e : Elem) (p : Page)
    → e.id ≡ txt "SRResults"
    → PageReach host search_data e p
    → IsNumbered p (length search_data)
PageReach-IsNumbered host search_data e p id reached =
    let h = PageReach-HasLinks host search_data e p id reached in
    record {
      present = λ i lt.
          let (q, row, found, stands) = h.link_lem i lt in slot-in_row p (pos i) q row found stands;
      past_end = slot-missing p (pos (length search_data)) h.past_lem;
      before_start = slot-missing p (negsuc 0) h.below_lem;
    }
