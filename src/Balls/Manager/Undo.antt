-- ===== src/Balls/Manager/Undo.antt =====
-- `delete_ball` of src/server/localballmanager.c behind `add_ball`.
use owner_based_ball_game.Balls.{HasSpots, LogicalBall, Machine}
use owner_based_ball_game.Balls.Manager.{BallListManager, Round, add_ball, delete_ball}
use owner_based_ball_game.Balls.Manager.Add.{AreNew, FreshRounds, add_ball-AreNew}
use owner_based_ball_game.Balls.Manager.Delete.{
  delete_ball-keep_first, keep_first, left_out, owned_count,
}
use owner_based_ball_game.Balls.Manager.IsList.{EndsWith, IsList}
use owner_based_ball_game.Base.{
  Bool-cases, List, [], ap, arith, false, inl, inr, length, length-append, refl, suc, true, zero, ℕ,
  ℤ, ◌++◌, ◌+◌, ◌-◌, ◌<◌, ◌==◌, ◌∙◌, ◌∷◌, ◌≡◌, ◌≤◌,
}
use owner_based_ball_game.Memory.{Memory, Ptr, and_then}

module _ (machine : Machine) (owner : ℕ) where
  pub AreNew-owned :
      (k : ℕ) (rs : List Round) (ys : List (Ptr × LogicalBall machine))
      → AreNew machine k owner rs ys
      → owned_count machine owner ys ≡ length rs
  unfolding owned_count
  AreNew-owned k [] [] new = refl
  AreNew-owned k [] (_ ∷ ys) new = elim new [ ]
  AreNew-owned k (r ∷ rs) [] new = elim new [ ]
  AreNew-owned k (r ∷ rs) ((p, b) ∷ ys) (_, _, own, new) =
      ground (arith, AreNew-owned (suc k) rs ys new)

  AreNew-length :
      (k : ℕ) (rs : List Round) (ys : List (Ptr × LogicalBall machine))
      → AreNew machine k owner rs ys
      → length ys ≡ length rs
  AreNew-length k [] [] new = refl
  AreNew-length k [] (_ ∷ ys) new = elim new [ ]
  AreNew-length k (r ∷ rs) [] new = elim new [ ]
  AreNew-length k (r ∷ rs) ((p, b) ∷ ys) (_, _, own, new) =
      omega (arith, AreNew-length (suc k) rs ys new)

  pub owned_count-append :
      (xs ys : List (Ptr × LogicalBall machine))
      → owned_count machine owner (xs ++ ys)
        ≡ owned_count machine owner xs + owned_count machine owner ys
  unfolding owned_count
  owned_count-append [] ys = omega arith
  owned_count-append ((p, b) ∷ xs) ys = ground (arith, owned_count-append xs ys)

  pub keep_first-new :
      (k : ℕ) (rs : List Round) (ys : List (Ptr × LogicalBall machine))
      → AreNew machine k owner rs ys
      → keep_first machine owner 0 ys ≡ []
  unfolding keep_first
  keep_first-new k [] [] new = refl
  keep_first-new k [] (_ ∷ ys) new = elim new [ ]
  keep_first-new k (r ∷ rs) [] new = elim new [ ]
  keep_first-new k (r ∷ rs) ((p, b) ∷ ys) (_, _, own, new) =
      ground (arith, keep_first-new (suc k) rs ys new)

  keep_first-other :
      (k : ℕ) (p : Ptr) (b : LogicalBall machine) (xs : List (Ptr × LogicalBall machine))
      → (b.owner_id == owner) ≡ false
      → keep_first machine owner k ((p, b) ∷ xs) ≡ (p, b) ∷ keep_first machine owner k xs
  unfolding keep_first
  keep_first-other zero p b xs other = rw other refl
  keep_first-other (suc k) p b xs other = rw other refl

  keep_first-own :
      (k : ℕ) (p : Ptr) (b : LogicalBall machine) (xs : List (Ptr × LogicalBall machine))
      → (b.owner_id == owner) ≡ true
      → keep_first machine owner (suc k) ((p, b) ∷ xs) ≡ (p, b) ∷ keep_first machine owner k xs
  unfolding keep_first
  keep_first-own k p b xs own = rw own refl

  keep_first-owned :
      (xs ys : List (Ptr × LogicalBall machine))
      → keep_first machine owner 0 ys ≡ []
      → keep_first machine owner (owned_count machine owner xs) (xs ++ ys) ≡ xs
  unfolding keep_first owned_count
  keep_first-owned [] ys gone = gone
  keep_first-owned ((p, b) ∷ xs) ys gone = elim (Bool-cases (b.owner_id == owner)) [
    | inl own ↦ rw own (
        keep_first-own (owned_count machine owner xs) p b (xs ++ ys) own
        ∙ ap (λ zs. (p, b) ∷ zs) (keep_first-owned xs ys gone))
    | inr other ↦ rw other (
        keep_first-other (owned_count machine owner xs) p b (xs ++ ys) other
        ∙ ap (λ zs. (p, b) ∷ zs) (keep_first-owned xs ys gone))
  ]

  -- In a memory that holds a list and nothing else, with unused addresses, a radius whose divisor is not 0, at least one round and no more than the stack of `delete_ball` holds, and enough fuel: `delete_ball` with
  -- the count and the owner of an `add_ball` before it ends with the list that was there before.
  pub delete_ball-add_ball :
      (rs : List Round) (radius : ℤ) (fuel : ℕ) (xs : List (Ptr × LogicalBall machine))
      (m : Memory (LogicalBall machine)) (manager : BallListManager)
      → IsList machine m manager xs
      → HasSpots radius
      → FreshRounds machine m rs
      → 1 ≤ length rs
      → length rs ≤ machine.vla_room
      → length xs + length rs < fuel
      → (stale : List Ptr) × EndsWith machine
          (and_then
            (add_ball machine rs radius owner manager m)
            (delete_ball machine fuel (length rs) owner))
          xs
          stale
  delete_ball-add_ball rs radius fuel xs m manager is small fresh some_balls room enough =
      let (ys, new, h) = add_ball-AreNew machine rs radius owner xs m manager is small fresh in
      let counted_lem : owned_count machine owner (xs ++ ys) - length rs
          ≡ owned_count machine owner xs =
        omega (arith, owned_count-append xs ys, AreNew-owned (length xs) rs ys new) in
      let fuel_lem : length (xs ++ ys) < fuel =
        omega (arith, length-append xs ys, AreNew-length (length xs) rs ys new) in
      let gone = keep_first-owned xs ys (keep_first-new (length xs) rs ys new) in
      (
        left_out machine owner (owned_count machine owner xs) (xs ++ ys) ++ h.memory.stale_reads,
        rw h.run_lem (
            rw (counted_lem, gone) at
              (delete_ball-keep_first machine owner fuel (length rs) (xs ++ ys) h.memory h.manager
                h.list_lem some_balls room fuel_lem)),
      )
