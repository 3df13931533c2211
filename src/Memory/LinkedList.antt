-- ===== src/Memory/LinkedList.antt =====
-- A linked list in memory with its head and tail, and the steps by which a node is taken out of it.
use owner_based_ball_game.Base.{
  Bool-cases, List, [], ap, arith, false, if◌then◌else◌, inl, inr, none, refl, some, sym, true,
  ◌++◌, ◌==◌, ◌∙◌, ◌∷◌, ◌≡◌, ◌≢◌,
}
use owner_based_ball_game.Memory.{
  Cell, Memory, Ptr, cell, ends, free, load, null, put_cell, set_next, write,
}
use owner_based_ball_game.Memory.Chain.{
  Distinct, Distinct-right, Distinct-skip, Linked, Linked-right, apart, first_ptr, has, has-append,
  last_ptr, last_ptr-append,
}
use owner_based_ball_game.Memory.Cut.{
  Linked-without_node, at-last_ptr, has-last_ptr, redirect, redirect-other, without_node,
}

module _ {V : Type 0} where
  pub load-ends :
      (p : Ptr) (c : Cell V) (m : Memory V) → p ≢ null → m.cells p ≡ some c → load p m ≡ ends c m
  unfolding load
  load-ends p c m ne e = let not_null : (p == null) ≡ false = ground arith in rw (not_null, load, e)

  pub free-ends :
      (p : Ptr) (c : Cell V) (m : Memory V)
      → p ≢ null
      → m.cells p ≡ some c
      → free p m ≡ ends tt (write p none m)
  unfolding free
  free-ends p c m ne e = rw (load-ends p c m ne e)

  pub set_next-ends :
      (p q : Ptr) (c : Cell V) (m : Memory V)
      → p ≢ null
      → m.cells p ≡ some c
      → set_next p q m ≡ ends tt (write p (some (cell c.value q)) m)
  unfolding set_next
  set_next-ends p q c m ne e = rw (load-ends p c m ne e)

  last_ptr-ne :
      (a q : Ptr) (w : V) (ys : List (Ptr × V))
      → has a ((q, w) ∷ ys) ≡ false
      → (last_ptr q ys == a) ≡ false
  last_ptr-ne a q w ys out = elim (Bool-cases (last_ptr q ys == a)) [
    | inl eq ↦
        let same : last_ptr q ys ≡ a = ground arith in
        let clash : false ≡ true =
          sym out ∙ ap (λ b. has b ((q, w) ∷ ys)) (sym same) ∙ has-last_ptr q w ys in
        cc
    | inr ne ↦ ne
  ]

  new_tail :
      (a b : Ptr) (ys : List (Ptr × V))
      → has a ys ≡ false
      → (if last_ptr a ys == a then b else last_ptr a ys) ≡ last_ptr b ys
  new_tail a b [] out = ground arith
  new_tail a b ((q, w) ∷ ys) out = rw (last_ptr-ne a q w ys out)

  -- The list between the two pointers of a manager; nothing else is allocated.
  pub record IsLinkedList (m : Memory V) (head tail : Ptr) (xs : List (Ptr × V)) : Type 0 where
    pub linked : Linked m.cells xs null
    pub distinct : Distinct xs
    pub head_lem : head ≡ first_ptr xs null
    pub tail_lem : tail ≡ last_ptr null xs
    pub only_lem : (b : Ptr) → has b xs ≡ false → m.cells b ≡ none

  -- The memory when the node `a` between two parts of a list is taken out and freed.
  abbrev pub take_out : List (Ptr × V) → Ptr → List (Ptr × V) → Memory V → Memory V
  take_out xs a ys m = record m { cells = without_node m.cells xs a (first_ptr ys null) }

  module _ (m : Memory V) (head tail : Ptr) (xs : List (Ptr × V)) (a : Ptr) (v : V)
      (ys : List (Ptr × V)) (is : IsLinkedList m head tail (xs ++ ((a, v) ∷ ys))) where
    pub at_node : (a ≢ null) × (m.cells a ≡ some (cell v (first_ptr ys null)))
    at_node = let l = Linked-right m.cells xs ((a, v) ∷ ys) null is.linked in (l.0, l.1)

    pub not_in_front : has a xs ≡ false
    not_in_front = elim (Bool-cases (has a xs)) [
      | inl h ↦ ground (arith, apart a xs ((a, v) ∷ ys) is.distinct h)
      | inr e ↦ e
    ]

    not_behind : has a ys ≡ false
    not_behind = (Distinct-right xs ((a, v) ∷ ys) is.distinct).0

    -- the node is still there when the one in front of it has been led past it
    pub at_node_redirected :
        redirect m.cells xs (first_ptr ys null) a ≡ some (cell v (first_ptr ys null))
    at_node_redirected = redirect-other m.cells xs _ a not_in_front ∙ at_node.1

    pub tail-take_out : (if tail == a then last_ptr null xs else tail) ≡ last_ptr null (xs ++ ys)
    tail-take_out =
        rw (is.tail_lem, last_ptr-append null xs ((a, v) ∷ ys), last_ptr-append null xs ys)
          (new_tail a (last_ptr null xs) ys not_behind)

    only-take_out :
        (b : Ptr)
        → has b (xs ++ ys) ≡ false
        → without_node m.cells xs a (first_ptr ys null) b ≡ none
    unfolding put_cell
    only-take_out b out = elim (Bool-cases (b == a)) [
      | inl gone ↦ rw gone refl
      | inr kept ↦
          let other =
            redirect-other m.cells xs (first_ptr ys null) b (ground (arith, has-append b xs ys)) in
          let free_lem =
            is.only_lem b (ground (arith, has-append b xs ys, has-append b xs ((a, v) ∷ ys))) in
          rw (kept, other, free_lem) refl
    ]

    pub take_out-IsLinkedList :
        IsLinkedList
          (take_out xs a ys m)
          (first_ptr (xs ++ ys) null)
          (last_ptr null (xs ++ ys))
          (xs ++ ys)
    take_out-IsLinkedList = record {
      linked = Linked-without_node m.cells xs a v ys is.linked is.distinct;
      distinct = Distinct-skip xs (a, v) ys is.distinct;
      head_lem = refl;
      tail_lem = refl;
      only_lem = only-take_out;
    }

  -- `p->next = q` at the last node of a list
  pub set_next-last_ptr :
      (m : Memory V) (p : Ptr) (v : V) (xs : List (Ptr × V)) (s t : Ptr)
      → Linked m.cells ((p, v) ∷ xs) s
      → set_next (last_ptr p xs) t m
        ≡ ends tt (record m { cells = redirect m.cells ((p, v) ∷ xs) t })
  unfolding redirect
  set_next-last_ptr m p v xs s t l =
      let (ne, e) = at-last_ptr m.cells p v xs s l in set_next-ends (last_ptr p xs) t _ m ne e
