-- ===== src/Balls/Manager/Add.antt =====
-- `add_ball` of src/server/localballmanager.c, against the list of the balls.
use owner_based_ball_game.Balls.{HasSpots, LogicalBall, Machine, create_logical_ball}
use owner_based_ball_game.Balls.Dispatch.Others.{others}
use owner_based_ball_game.Balls.Manager.{BallListManager, Round, add_ball, add_one}
use owner_based_ball_game.Balls.Manager.IsList.{EndsWith, IsList}
use owner_based_ball_game.Balls.Place.{create_logical_ball-some}
use owner_based_ball_game.Base.{
  All, List, [], append-nil, append_assoc, arith, false, length, length-append, none, refl, some,
  suc, ℕ, ℤ, ◌++◌, ◌+◌, ◌==◌, ◌∙◌, ◌∷◌, ◌≡◌, ◌≢◌,
}
use owner_based_ball_game.Memory.{Memory, Ptr, ends, null, put_cell}
use owner_based_ball_game.Memory.Append.{append_node-ends, put_behind, put_behind-IsLinkedList}
use owner_based_ball_game.Memory.Chain.{Linked, first_ptr, has-none}
use owner_based_ball_game.Memory.Cut.{redirect-other}

module _ (machine : Machine) where
  -- What `malloc` gives the rounds: addresses that are not allocated, each another one.
  abbrev pub FreshRounds : Memory (LogicalBall machine) → List Round → Type 0
  FreshRounds m [] = Unit
  FreshRounds m (r ∷ rs) =
      (r.address ≢ null)
      × (m.cells r.address ≡ none)
      × All (λ (s : Round). (s.address == r.address) ≡ false) rs
      × FreshRounds m rs

  -- The balls that a number of rounds makes: ids from `k` on, one owner, at the new addresses.
  abbrev pub AreNew : ℕ → ℕ → List Round → List (Ptr × LogicalBall machine) → Type 0
  AreNew k owner [] [] = Unit
  AreNew k owner (r ∷ rs) ((p, b) ∷ ys) =
      (p ≡ r.address) × (b.id ≡ k) × (b.owner_id ≡ owner) × AreNew (suc k) owner rs ys
  AreNew k owner _ _ = ⊥

  stay_fresh :
      (m : Memory (LogicalBall machine)) (xs : List (Ptr × LogicalBall machine)) (p : Ptr)
      (b : LogicalBall machine) (s : Ptr) (rs : List Round)
      → Linked m.cells xs s
      → All (λ (r : Round). (r.address == p) ≡ false) rs
      → FreshRounds m rs
      → FreshRounds (put_behind xs p b m) rs
  stay_fresh m xs p b s [] l apart_lem h = tt
  stay_fresh m xs p b s (r ∷ rs) l (ne, apart_lem) (on, free_lem, others, h) = (
    on,
    redirect-other _ xs p r.address (has-none m.cells xs s r.address l free_lem)
        ∙ unfold put_cell in rw ne free_lem,
    others,
    stay_fresh m xs p b s rs l apart_lem h,
  )

  -- the manager behind one round that took the address `p`
  abbrev counted : List (Ptr × LogicalBall machine) → Ptr → ℕ → BallListManager
  counted xs p k = record { head = first_ptr xs p; tail = p; total_count = k + 1 }

  -- What the rounds `rs` have added behind a list.
  abbrev pub Added :
      List Round
      → ℤ
      → ℕ
      → List (Ptr × LogicalBall machine)
      → Memory (LogicalBall machine)
      → BallListManager
      → Type 0
  Added rs radius owner xs m manager =
      (ys : List (Ptr × LogicalBall machine)) × AreNew (length xs) owner rs ys
      × EndsWith machine (add_ball machine rs radius owner manager m) (xs ++ ys) m.stale_reads

  length-snoc :
      (xs : List (Ptr × LogicalBall machine)) (p : Ptr) (b : LogicalBall machine)
      → length (xs ++ ((p, b) ∷ [])) ≡ suc (length xs)
  length-snoc xs p b = omega (arith, length-append xs ((p, b) ∷ []))

  counted-IsList :
      (xs : List (Ptr × LogicalBall machine)) (m : Memory (LogicalBall machine))
      (manager : BallListManager) (p : Ptr) (b : LogicalBall machine)
      → IsList machine m manager xs
      → p ≢ null
      → m.cells p ≡ none
      → IsList machine
          (put_behind xs p b m)
          (counted xs p manager.total_count)
          (xs ++ ((p, b) ∷ []))
  counted-IsList xs m manager p b is ne free_lem = record {
    list = put_behind-IsLinkedList m manager.head manager.tail xs p b is.list ne free_lem;
    count = omega (arith, is.count, length-snoc xs p b);
  }

  add_one-ends :
      (r : Round) (radius : ℤ) (owner : ℕ) (xs : List (Ptr × LogicalBall machine))
      (m : Memory (LogicalBall machine)) (manager : BallListManager) (b : LogicalBall machine)
      → IsList machine m manager xs
      → r.address ≢ null
      → m.cells r.address ≡ none
      → create_logical_ball machine r.rands manager.total_count radius owner ≡ some b
      → add_one machine r radius owner manager m
        ≡ ends (counted xs r.address manager.total_count) (put_behind xs r.address b m)
  unfolding add_one
  add_one-ends r radius owner xs m manager b is ne free_lem made =
      let e = append_node-ends m manager.head manager.tail xs r.address b is.list ne free_lem in
      rw (add_one, made, e) refl

  Added-more :
      (r : Round) (rs : List Round) (radius : ℤ) (owner : ℕ) (xs : List (Ptr × LogicalBall machine))
      (m : Memory (LogicalBall machine)) (manager : BallListManager) (b : LogicalBall machine)
      → IsList machine m manager xs
      → r.address ≢ null
      → m.cells r.address ≡ none
      → create_logical_ball machine r.rands manager.total_count radius owner ≡ some b
      → b.id ≡ manager.total_count
      → b.owner_id ≡ owner
      → Added rs radius owner
          (xs ++ ((r.address, b) ∷ []))
          (put_behind xs r.address b m)
          (counted xs r.address manager.total_count)
      → Added (r ∷ rs) radius owner xs m manager
  unfolding add_ball
  Added-more r rs radius owner xs m manager b is ne free_lem made id_lem owner_lem (ys, new, run) =
      let e = add_one-ends r radius owner xs m manager b is ne free_lem made in
      (
        (r.address, b) ∷ ys,
        (refl, id_lem ∙ is.count, owner_lem, rw (length-snoc xs r.address b) at new),
        rw (add_ball, e) (rw (append_assoc xs ((r.address, b) ∷ []) ys) at run),
      )

  -- With fresh addresses and a radius whose divisor is not 0, `add_ball` puts as many balls of the owner
  -- behind the list as it has rounds, at those addresses and with the ids from the old count on.
  pub add_ball-AreNew :
      (rs : List Round) (radius : ℤ) (owner : ℕ) (xs : List (Ptr × LogicalBall machine))
      (m : Memory (LogicalBall machine)) (manager : BallListManager)
      → IsList machine m manager xs
      → HasSpots radius
      → FreshRounds m rs
      → Added rs radius owner xs m manager
  unfolding add_ball
  add_ball-AreNew [] radius owner xs m manager is small fresh = (
    [],
    tt,
    record {
      manager = manager;
      memory = m;
      run_lem = refl;
      list_lem = rw append-nil is;
      stale_lem = refl;
    },
  )
  add_ball-AreNew (r ∷ rs) radius owner xs m manager is small (ne, free_lem, others, fresh) =
      let (r_x, r_y, r_dx, r_dy) = r.rands in
      let (b, made, id_lem, owner_lem) =
        create_logical_ball-some machine r_x r_y r_dx r_dy manager.total_count radius owner small in
      Added-more r rs radius owner xs m manager b is ne free_lem made id_lem owner_lem (
        add_ball-AreNew rs radius owner (xs ++ ((r.address, b) ∷ [])) (put_behind xs r.address b m)
          (counted xs r.address manager.total_count)
          (counted-IsList xs m manager r.address b is ne free_lem) small
          (stay_fresh m xs r.address b null rs is.list.linked others fresh))
