-- ===== src/Panel/Query/Address.antt =====
-- Which page of results a search goes to.
use owner_based_ball_game.Base.{
  All, Option-cases, [], arith, get_elem?, inl, inr, none, ok, some, suc, type_error, zero, ℕ, ◌++◌,
  ◌∷◌, ◌≡◌, ◌≢◌, ◌⊎◌,
}
use owner_based_ball_game.Host.{Host}
use owner_based_ball_game.Panel.Layout.{Layout}
use owner_based_ball_game.Panel.Query.{
  Target, index_char, search_panel, search_target, section_content,
}
use owner_based_ball_game.Panel.SearchData.{index_section_names}
use owner_based_ball_game.Panel.State.{Panel}
use owner_based_ball_game.Text.{Text, index_of, starts_with, to_string, txt}

index_of-none : (c : ℕ) (t : Text) → index_of (c ∷ []) t ≡ none → All (λ d. d ≢ c) t
unfolding index_of starts_with
index_of-none c [] h = tt
index_of-none c (d ∷ t) h = ground (arith, index_of-none c t)

-- The place is one further on in a text with one more character in front.
index_of-some_cons :
    (c d : ℕ) (t : Text) (i : ℕ)
    → index_of (c ∷ []) (d ∷ t) ≡ some i
    → ((j : ℕ) → index_of (c ∷ []) t ≡ some j → get_elem? t j ≡ some c)
    → get_elem? (d ∷ t) i ≡ some c
unfolding index_of starts_with
index_of-some_cons c d t zero h ih = ground arith
index_of-some_cons c d t (suc i) h ih = ground (arith, ih i)

index_of-some : (c : ℕ) (t : Text) (i : ℕ) → index_of (c ∷ []) t ≡ some i → get_elem? t i ≡ some c
unfolding index_of starts_with
index_of-some c [] i h = ground arith
index_of-some c (d ∷ t) i h = index_of-some_cons c d t i h (index_of-some c t)

-- The address without and with the search term.
abbrev pub target : Host → Text → Text → Target
target host page value = record {
  page = page;
  with_search = page ++ (txt "?" ++ host.escape value);
}

-- With a single index character, the search goes to the page of the place at which the selected
-- section has that character, with the term behind a question mark; if the section does not have
-- the character, it goes to the page for no matches.
pub search_target_lem :
    (host : Host) (p : Panel) (value content name : Text) (c : ℕ)
    → section_content p.search_index ≡ some content
    → get_elem? index_section_names p.search_index ≡ some name
    → index_char host value ≡ c ∷ []
    → ((i : ℕ) × (get_elem? content i ≡ some c)
        × (search_target host p value
            ≡ ok (
                target host
                  (p.results_path
                    ++ (txt "/" ++ (name ++ (txt "_" ++ (to_string 16 i ++ txt ".html")))))
                  value)))
      ⊎ (All (λ d. d ≢ c) content
          × (search_target host p value
              ≡ ok (record {
                page = p.results_path ++ txt "/nomatches.html";
                with_search = p.results_path ++ txt "/nomatches.html";
              })))
unfolding search_target
search_target_lem host p value content name c section named char =
    elim (Option-cases (index_of (c ∷ []) content)) [
      | inl h ↦ inr (index_of-none c content h, rw (section, char, h))
      | inr (i, h) ↦ inl (i, index_of-some c content i h, rw (section, char, h, named))
    ]

-- An index past the sections makes `Search` an error: it sets `keyTimeout` to 0 and nothing else.
pub search_panel-past :
    (host : Host) (layout : Layout) (p : Panel)
    → section_content p.search_index ≡ none
    → search_panel host layout p ≡ (record p { key_timeout = 0 }, type_error)
unfolding search_panel
search_panel-past host layout p h = rw h
