-- ===== src/Memory/Chain.antt =====
-- What a linked list in memory stands for: its nodes in order, each with its address.
use owner_based_ball_game.Base.{
  Bool, Bool-cases, List, Option, [], ap, arith, false, inl, inr, none, refl, some, sym, true, ◌++◌,
  ◌==◌, ◌||◌, ◌∙◌, ◌∷◌, ◌≡◌, ◌≢◌,
}
use owner_based_ball_game.Memory.{Cell, Ptr, cell, null, put_cell}

pub not_null : (p : Ptr) → p ≢ null → (p == null) ≡ false
not_null p ne = ground arith

module _ {V : Type 0} where
  abbrev pub has : Ptr → List (Ptr × V) → Bool
  has a [] = false
  has a ((p, v) ∷ xs) = a == p || has a xs

  -- the address at which a list begins, if behind it comes `stop`
  abbrev pub first_ptr : List (Ptr × V) → Ptr → Ptr
  first_ptr [] stop = stop
  first_ptr ((p, v) ∷ xs) stop = p

  -- the address of the last node, `before` if there is none
  abbrev pub last_ptr : Ptr → List (Ptr × V) → Ptr
  last_ptr before [] = before
  last_ptr before ((p, v) ∷ xs) = last_ptr p xs

  abbrev pub Distinct : List (Ptr × V) → Type 0
  Distinct [] = Unit
  Distinct ((p, v) ∷ xs) = (has p xs ≡ false) × Distinct xs

  -- The nodes are allocated, and each leads to the next one, the last to `stop`.
  abbrev pub Linked : (Ptr → Option (Cell V)) → List (Ptr × V) → Ptr → Type 0
  Linked f [] stop = Unit
  Linked f ((p, v) ∷ xs) stop =
      (p ≢ null) × (f p ≡ some (cell v (first_ptr xs stop))) × Linked f xs stop

  pub has-append : (a : Ptr) (xs ys : List (Ptr × V)) → has a (xs ++ ys) ≡ (has a xs || has a ys)
  has-append a [] ys = refl
  has-append a ((p, v) ∷ xs) ys = rw (has-append a xs ys) (ground arith)

  pub last_ptr-append :
      (b : Ptr) (xs ys : List (Ptr × V)) → last_ptr b (xs ++ ys) ≡ last_ptr (last_ptr b xs) ys
  last_ptr-append b [] ys = refl
  last_ptr-append b ((p, v) ∷ xs) ys = last_ptr-append p xs ys

  pub first_ptr-append :
      (xs ys : List (Ptr × V)) (s : Ptr) → first_ptr (xs ++ ys) s ≡ first_ptr xs (first_ptr ys s)
  first_ptr-append [] ys s = refl
  first_ptr-append ((p, v) ∷ xs) ys s = refl

  -- Nodes apart from one another stay so when a middle part is left out.
  pub Distinct-right : (xs ys : List (Ptr × V)) → Distinct (xs ++ ys) → Distinct ys
  Distinct-right [] ys d = d
  Distinct-right (x ∷ xs) ys d = Distinct-right xs ys d.1

  pub Distinct-left : (xs ys : List (Ptr × V)) → Distinct (xs ++ ys) → Distinct xs
  Distinct-left [] ys d = tt
  Distinct-left ((p, v) ∷ xs) ys d = (ground (arith, has-append p xs ys), Distinct-left xs ys d.1)

  pub apart :
      (a : Ptr) (xs ys : List (Ptr × V)) → Distinct (xs ++ ys) → has a xs ≡ true → has a ys ≡ false
  apart a [] ys d h = cc
  apart a ((p, v) ∷ xs) ys d h = elim (Bool-cases (a == p)) [
    | inl eq ↦ let same : a ≡ p = ground arith in rw same (ground (arith, has-append p xs ys))
    | inr ne ↦ apart a xs ys d.1 (ground arith)
  ]

  pub Distinct-skip :
      (xs : List (Ptr × V)) (y : Ptr × V) (ys : List (Ptr × V))
      → Distinct (xs ++ (y ∷ ys))
      → Distinct (xs ++ ys)
  Distinct-skip [] y ys d = d.1
  Distinct-skip ((p, v) ∷ xs) y ys d =
      (ground (arith, has-append p xs (y ∷ ys), has-append p xs ys), Distinct-skip xs y ys d.1)

  pub Linked-right :
      (f : Ptr → Option (Cell V)) (xs ys : List (Ptr × V)) (s : Ptr)
      → Linked f (xs ++ ys) s
      → Linked f ys s
  Linked-right f [] ys s l = l
  Linked-right f (x ∷ xs) ys s l = Linked-right f xs ys s l.2

  pub Linked-left :
      (f : Ptr → Option (Cell V)) (xs ys : List (Ptr × V)) (s : Ptr)
      → Linked f (xs ++ ys) s
      → Linked f xs (first_ptr ys s)
  Linked-left f [] ys s l = tt
  Linked-left f ((p, v) ∷ xs) ys s (ne, here_lem, l) =
      (ne, rw (← first_ptr-append xs ys s) here_lem, Linked-left f xs ys s l)

  pub Linked-append :
      (f : Ptr → Option (Cell V)) (xs ys : List (Ptr × V)) (s : Ptr)
      → Linked f xs (first_ptr ys s)
      → Linked f ys s
      → Linked f (xs ++ ys) s
  Linked-append f [] ys s l k = k
  Linked-append f ((p, v) ∷ xs) ys s (ne, here_lem, l) k =
      (ne, rw (first_ptr-append xs ys s) here_lem, Linked-append f xs ys s l k)

  -- A write elsewhere leaves a list as it is.
  pub Linked-put_cell :
      (f : Ptr → Option (Cell V)) (xs : List (Ptr × V)) (s a : Ptr) (c : Option (Cell V))
      → has a xs ≡ false
      → Linked f xs s
      → Linked (put_cell f a c) xs s
  unfolding put_cell
  Linked-put_cell f [] s a c out l = tt
  Linked-put_cell f ((p, v) ∷ xs) s a c out (ne, here_lem, l) =
      (ne, ground arith, Linked-put_cell f xs s a c (ground arith) l)

  -- An address that is not allocated is that of no node.
  pub has-none :
      (f : Ptr → Option (Cell V)) (xs : List (Ptr × V)) (s a : Ptr)
      → Linked f xs s
      → f a ≡ none
      → has a xs ≡ false
  has-none f [] s a l e = refl
  has-none f ((p, v) ∷ xs) s a (ne, at, l) e = elim (Bool-cases (a == p)) [
    | inl eq ↦
        let same : a ≡ p = ground arith in
        let clash : none ≡ some (cell v (first_ptr xs s)) = sym e ∙ ap f same ∙ at in cc
    | inr other ↦ rw other (has-none f xs s a l e)
  ]

  pub Distinct-snoc :
      (xs : List (Ptr × V)) (p : Ptr) (v : V)
      → Distinct xs
      → has p xs ≡ false
      → Distinct (xs ++ ((p, v) ∷ []))
  Distinct-snoc [] p v d out = (refl, tt)
  Distinct-snoc ((q, w) ∷ xs) p v d out =
      (ground (arith, has-append q xs ((p, v) ∷ [])), Distinct-snoc xs p v d.1 (ground arith))
