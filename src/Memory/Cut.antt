-- ===== src/Memory/Cut.antt =====
-- A node is taken out of a linked list in memory: the node in front of it is led past it, and it is
-- freed.
use owner_based_ball_game.Base.{
  Bool-cases, List, Option, [], ap, arith, false, inl, inr, none, refl, some, sym, true, ◌++◌, ◌==◌,
  ◌∙◌, ◌∷◌, ◌≡◌, ◌≢◌,
}
use owner_based_ball_game.Memory.{Cell, Ptr, cell, null, put_cell}
use owner_based_ball_game.Memory.Chain.{
  Distinct, Distinct-left, Distinct-right, Linked, Linked-append, Linked-left, Linked-put_cell,
  Linked-right, apart, first_ptr, has, has-append, last_ptr,
}

module _ {V : Type 0} where
  abbrev pub last_value : V → List (Ptr × V) → V
  last_value before [] = before
  last_value before ((p, v) ∷ xs) = last_value v xs

  pub has-last_ptr :
      (p : Ptr) (v : V) (xs : List (Ptr × V)) → has (last_ptr p xs) ((p, v) ∷ xs) ≡ true
  has-last_ptr p v [] = ground arith
  has-last_ptr p v ((q, w) ∷ xs) = ground (arith, has-last_ptr q w xs)

  -- the last node of a list leads to `next`, if there is a node
  unfoldable pub redirect : (Ptr → Option (Cell V)) → List (Ptr × V) → Ptr → Ptr → Option (Cell V)
  redirect f [] next = f
  redirect f ((p, v) ∷ xs) next = put_cell f (last_ptr p xs) (some (cell (last_value v xs) next))

  pub at-last_ptr :
      (f : Ptr → Option (Cell V)) (p : Ptr) (v : V) (xs : List (Ptr × V)) (s : Ptr)
      → Linked f ((p, v) ∷ xs) s
      → (last_ptr p xs ≢ null) × (f (last_ptr p xs) ≡ some (cell (last_value v xs) s))
  at-last_ptr f p v [] s l = (l.0, l.1)
  at-last_ptr f p v ((q, w) ∷ xs) s l = at-last_ptr f q w xs s l.2

  pub redirect-other :
      (f : Ptr → Option (Cell V)) (xs : List (Ptr × V)) (t a : Ptr)
      → has a xs ≡ false
      → redirect f xs t a ≡ f a
  unfolding redirect put_cell
  redirect-other f [] t a out = refl
  redirect-other f ((p, v) ∷ xs) t a out = elim (Bool-cases (a == last_ptr p xs)) [
    | inl eq ↦
        let same : a ≡ last_ptr p xs = ground arith in
        let clash : false ≡ true =
          sym out ∙ ap (λ b. has b ((p, v) ∷ xs)) same ∙ has-last_ptr p v xs in
        cc
    | inr ne ↦ rw ne
  ]

  pub Linked-redirect :
      (f : Ptr → Option (Cell V)) (xs : List (Ptr × V)) (s t : Ptr)
      → Linked f xs s
      → Distinct xs
      → Linked (redirect f xs t) xs t
  unfolding redirect put_cell
  Linked-redirect f [] s t l d = tt
  Linked-redirect f ((p, v) ∷ []) s t l d = (l.0, ground arith, tt)
  Linked-redirect f ((p, v) ∷ (q, w) ∷ xs) s t l d = (
    l.0,
    redirect-other f ((q, w) ∷ xs) t p d.0 ∙ l.1,
    Linked-redirect f ((q, w) ∷ xs) s t l.2 d.1,
  )

  Linked-redirect_other :
      (f : Ptr → Option (Cell V)) (ys xs : List (Ptr × V)) (s t : Ptr)
      → Linked f xs s
      → ((a : Ptr) → has a ys ≡ true → has a xs ≡ false)
      → Linked (redirect f ys t) xs s
  unfolding redirect
  Linked-redirect_other f [] xs s t l out = l
  Linked-redirect_other f ((p, v) ∷ ys) xs s t l out =
      Linked-put_cell f xs s (last_ptr p ys) _ (out (last_ptr p ys) (has-last_ptr p v ys)) l

  -- The cells when the node `a` behind the list `xs` is taken out.
  abbrev pub without_node :
      (Ptr → Option (Cell V)) → List (Ptr × V) → Ptr → Ptr → Ptr → Option (Cell V)
  without_node f xs a next = put_cell (redirect f xs next) a none

  pub Linked-without_node :
      (f : Ptr → Option (Cell V)) (xs : List (Ptr × V)) (a : Ptr) (v : V) (ys : List (Ptr × V))
      → Linked f (xs ++ ((a, v) ∷ ys)) null
      → Distinct (xs ++ ((a, v) ∷ ys))
      → Linked (without_node f xs a (first_ptr ys null)) (xs ++ ys) null
  Linked-without_node f xs a v ys l d =
      let d_tail = Distinct-right xs ((a, v) ∷ ys) d in
      let l_tail = Linked-right f xs ((a, v) ∷ ys) null l in
      let l_xs = Linked-left f xs ((a, v) ∷ ys) null l in
      let out_xs : has a xs ≡ false = elim (Bool-cases (has a xs)) [
        | inl h ↦ ground (arith, apart a xs ((a, v) ∷ ys) d h)
        | inr e ↦ e
      ] in
      Linked-put_cell (redirect f xs (first_ptr ys null)) (xs ++ ys) null a none
        (ground (arith, has-append a xs ys))
        (Linked-append (redirect f xs (first_ptr ys null)) xs ys null
          (Linked-redirect f xs a (first_ptr ys null) l_xs (Distinct-left xs _ d))
          (Linked-redirect_other f xs ys null _ l_tail.2
            λ b h. ground (arith, apart b xs ((a, v) ∷ ys) d)))
