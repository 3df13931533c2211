-- ===== src/Memory/Append.antt =====
-- A node is put behind a linked list in memory.
use owner_based_ball_game.Base.{
  Bool-cases, List, Option, [], arith, false, inl, inr, none, refl, some, sym, ◌++◌, ◌==◌, ◌∙◌, ◌∷◌,
  ◌≡◌, ◌≢◌,
}
use owner_based_ball_game.Memory.{
  Cell, Memory, Ptr, append_node, cell, create_node, ends, fault, load, null, put_cell, set_next,
  write,
}
use owner_based_ball_game.Memory.Chain.{
  Distinct-snoc, Linked, Linked-append, Linked-put_cell, first_ptr, first_ptr-append, has,
  has-append, has-none, last_ptr, last_ptr-append, not_null,
}
use owner_based_ball_game.Memory.Cut.{Linked-redirect, at-last_ptr, redirect, redirect-other}
use owner_based_ball_game.Memory.LinkedList.{IsLinkedList, set_next-last_ptr}

module _ {V : Type 0} where
  -- the memory with the new node behind the list
  abbrev pub put_behind : List (Ptr × V) → Ptr → V → Memory V → Memory V
  put_behind xs p v m = record m { cells = redirect (put_cell m.cells p (some (cell v null))) xs p }

  at_put : (f : Ptr → Option (Cell V)) (p : Ptr) (c : Option (Cell V)) → put_cell f p c p ≡ c
  unfolding put_cell
  at_put f p c = ground arith

  only-put_behind :
      (xs : List (Ptr × V)) (p : Ptr) (v : V) (m : Memory V)
      → ((b : Ptr) → has b xs ≡ false → m.cells b ≡ none)
      → (b : Ptr) → has b (xs ++ ((p, v) ∷ [])) ≡ false
      → redirect (put_cell m.cells p (some (cell v null))) xs p b ≡ none
  unfolding put_cell
  only-put_behind xs p v m only b out =
      let not_old : has b xs ≡ false = ground (arith, has-append b xs ((p, v) ∷ [])) in
      let not_new : (b == p) ≡ false = ground (arith, has-append b xs ((p, v) ∷ [])) in
      redirect-other (put_cell m.cells p (some (cell v null))) xs p b not_old
      ∙ rw not_new (only b not_old)

  pub put_behind-IsLinkedList :
      (m : Memory V) (head tail : Ptr) (xs : List (Ptr × V)) (p : Ptr) (v : V)
      → IsLinkedList m head tail xs
      → p ≢ null
      → m.cells p ≡ none
      → IsLinkedList (put_behind xs p v m) (first_ptr xs p) p (xs ++ ((p, v) ∷ []))
  put_behind-IsLinkedList m head tail xs p v is ne free_lem =
      let out = has-none m.cells xs null p is.linked free_lem in
      let f = put_cell m.cells p (some (cell v null)) in
      let l = Linked-put_cell m.cells xs null p (some (cell v null)) out is.linked in
      record {
        linked =
            Linked-append (redirect f xs p) xs ((p, v) ∷ []) null
              (Linked-redirect f xs null p l is.distinct)
              (ne, redirect-other f xs p p out ∙ at_put m.cells p (some (cell v null)), tt);
        distinct = Distinct-snoc xs p v is.distinct out;
        head_lem = sym (first_ptr-append xs ((p, v) ∷ []) null);
        tail_lem = sym (last_ptr-append null xs ((p, v) ∷ []));
        only_lem = only-put_behind xs p v m is.only_lem;
      }

  -- With an unused address, the list gets a last node there.
  pub append_node-ends :
      (m : Memory V) (head tail : Ptr) (xs : List (Ptr × V)) (p : Ptr) (v : V)
      → IsLinkedList m head tail xs
      → p ≢ null
      → m.cells p ≡ none
      → append_node p v head tail m ≡ ends (first_ptr xs p, p) (put_behind xs p v m)
  unfolding append_node create_node redirect
  append_node-ends m head tail [] p v is ne free_lem =
      let on : (p == null) ≡ false = not_null p ne in rw (is.head_lem, on)
  append_node-ends m head tail ((q, w) ∷ xs) p v is ne free_lem =
      let on : (p == null) ≡ false = not_null p ne in
      let (ne', at) = at-last_ptr m.cells q w xs null is.linked in
      let on' : (q == null) ≡ false = not_null q is.linked.0 in
      let out = has-none m.cells ((q, w) ∷ xs) null p is.linked free_lem in
      let l = Linked-put_cell m.cells ((q, w) ∷ xs) null p (some (cell v null)) out is.linked in
      rw (
        is.head_lem,
        is.tail_lem,
        on,
        on',
        set_next-last_ptr (write p (some (cell v null)) m) q w xs null p l,
      )

  -- When `malloc` fails, an append to a linked list that is not empty ends: the head stays, and the tail
  -- becomes NULL, through which the next append writes.
  pub append_node-failed :
      (m : Memory V) (q : Ptr) (u : V) (xs : List (Ptr × V)) (v : V)
      → Linked m.cells ((q, u) ∷ xs) null
      → (m' : Memory V) × (append_node null v q (last_ptr q xs) m ≡ ends (q, null) m')
        × ((p : Ptr) (w : V) → append_node p w q null m' ≡ fault)
  unfolding append_node create_node
  append_node-failed m q u xs v linked =
      let on : (q == null) ≡ false = not_null q linked.0 in
      let wild : (r : Ptr) (m' : Memory V) → set_next null r m' ≡ fault =
        λ r m'. unfold set_next load in refl in
      (
        record m { cells = redirect m.cells ((q, u) ∷ xs) null },
        rw (on, set_next-last_ptr m q u xs null null linked) refl,
        λ p w. elim (Bool-cases (p == null)) [
          | inl failed ↦ rw (failed, on, wild)
          | inr got ↦ rw (got, on, wild)
        ],
      )
