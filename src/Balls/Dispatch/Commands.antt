-- ===== src/Balls/Dispatch/Commands.antt =====
-- The command of a player in memory, `dispatch_command` of src/server/localballmanager.c, against
-- the list of the balls.
use owner_based_ball_game.Balls.{HasSpots, LogicalBall, Machine, speed_down_ball, speed_up_ball}
use owner_based_ball_game.Balls.Dispatch.{
  Supply, at_least_one, dispatch_command, handle_add, handle_delete, rounds, speed_down_balls,
  speed_up_balls,
}
use owner_based_ball_game.Balls.Dispatch.Others.{
  OnlyOwn, at_least_one-positive, count_behind, length-rounds, map_nodes-others, others,
  others-append, others-keep_first, speed_down_ball-OnlyOwn, speed_up_ball-OnlyOwn,
}
use owner_based_ball_game.Balls.Manager.{BallListManager}
use owner_based_ball_game.Balls.Manager.Add.{FreshRounds, add_ball-AreNew}
use owner_based_ball_game.Balls.Manager.Count.{owned_count-keep_first}
use owner_based_ball_game.Balls.Manager.Delete.{delete_ball-keep_first, keep_first, owned_count}
use owner_based_ball_game.Balls.Manager.IsList.{EndsWith, IsList}
use owner_based_ball_game.Balls.Manager.Undo.{AreNew-owned, keep_first-new, owned_count-append}
use owner_based_ball_game.Base.{
  Bool-cases, List, ap, arith, inl, inr, length, refl, sym, ℕ, ℤ, ◌++◌, ◌+◌, ◌-◌, ◌<◌, ◌==◌, ◌∙◌,
  ◌≡◌, ◌≤◌,
}
use owner_based_ball_game.Memory.{Memory, Ptr, Run, and_then, each_node, ends, pure}
use owner_based_ball_game.Memory.Values.{each_node-IsLinkedList, length-map_nodes, map_nodes}

module _ (machine : Machine) where
  -- A loop over the balls ends with the list of the changed balls.
  pub each_node-EndsWith :
      (fuel : ℕ) (f : LogicalBall machine → LogicalBall machine)
      (xs : List (Ptr × LogicalBall machine)) (m : Memory (LogicalBall machine))
      (manager : BallListManager)
      → IsList machine m manager xs
      → length xs < fuel
      → EndsWith machine
          (and_then (each_node fuel f manager.head m) λ _. pure manager)
          (map_nodes f xs)
          m.stale_reads
  each_node-EndsWith fuel f xs m manager is enough =
      let (m', run, list, stale, _) =
        each_node-IsLinkedList f fuel manager.head manager.tail xs m is.list enough in
      record {
        manager = manager;
        memory = m';
        run_lem = rw run;
        list_lem = record { list = list; count = is.count ∙ sym (length-map_nodes f xs) };
        stale_lem = stale;
      }

  module _ (owner : ℕ) where
    -- The run has ended with a list in which the balls of the other players are as they were, and with
    -- the number of the player's balls that the command makes.
    abbrev pub OthersKept :
        ℕ
        → ℤ
        → Run (LogicalBall machine) BallListManager
        → List (Ptr × LogicalBall machine)
        → Type 0
    OthersKept cmd count run xs =
        (zs : List (Ptr × LogicalBall machine)) × (stale : List Ptr) × EndsWith machine run zs stale
        × (others machine owner zs ≡ others machine owner xs)
        × (owned_count machine owner zs ≡ count_behind cmd count (owned_count machine owner xs))

    -- What `malloc` has to give to an `a`, and the radius that it may ask for; the count that the arrays of
    -- a `d` can hold.
    abbrev pub IsAllowed : ℕ → ℤ → ℤ → Supply → Memory (LogicalBall machine) → Type 0
    IsAllowed cmd count radius supply m =
        (cmd ≡ 97 → HasSpots radius × FreshRounds machine m (rounds (at_least_one count) supply))
        × (cmd ≡ 100 → at_least_one count ≤ machine.vla_room)

    module _ (fuel : ℕ) (radius : ℤ) (supply : Supply) (count : ℤ)
        (xs : List (Ptr × LogicalBall machine)) (m : Memory (LogicalBall machine))
        (manager : BallListManager) (is : IsList machine m manager xs) where
      handle_add-OthersKept :
          HasSpots radius
          → FreshRounds machine m (rounds (at_least_one count) supply)
          → OthersKept 97 count (handle_add machine supply count radius owner manager m) xs
      unfolding handle_add count_behind
      handle_add-OthersKept small fresh =
          let rs = rounds (at_least_one count) supply in
          let (ys, new, h) = add_ball-AreNew machine rs radius owner xs m manager is small fresh in
          (
            xs ++ ys,
            m.stale_reads,
            h,
            others-append machine owner xs ys (keep_first-new machine owner (length xs) rs ys new),
            owned_count-append machine owner xs ys
                ∙ ap (λ c. owned_count machine owner xs + c)
                    (AreNew-owned machine owner (length xs) rs ys new ∙ length-rounds _ supply),
          )

      handle_delete-OthersKept :
          length xs < fuel
          → at_least_one count ≤ machine.vla_room
          → OthersKept 100 count (handle_delete machine fuel count owner manager m) xs
      unfolding handle_delete count_behind
      handle_delete-OthersKept enough room =
          let c = at_least_one count in
          let k = owned_count machine owner xs - c in
          (
            keep_first machine owner k xs,
            _,
            delete_ball-keep_first machine owner fuel c xs m manager is
                (at_least_one-positive count) room enough,
            others-keep_first machine owner k xs,
            owned_count-keep_first machine owner k xs (omega arith),
          )

      change-OthersKept :
          (cmd : ℕ) (f : LogicalBall machine → LogicalBall machine)
          → OnlyOwn machine owner f
          → length xs < fuel
          → count_behind cmd count (owned_count machine owner xs) ≡ owned_count machine owner xs
          → OthersKept cmd count (and_then (each_node fuel f manager.head m) λ _. pure manager) xs
      change-OthersKept cmd f only enough same =
          let (kept, counted_lem) = map_nodes-others machine owner f xs only in
          (
            map_nodes f xs,
            m.stale_reads,
            each_node-EndsWith fuel f xs m manager is enough,
            kept,
            counted_lem ∙ sym same,
          )

      unchanged : EndsWith machine (ends manager m) xs m.stale_reads
      unchanged = record {
        manager = manager;
        memory = m;
        run_lem = refl;
        list_lem = is;
        stale_lem = refl;
      }

      -- In a memory that holds a list and nothing else, with fuel for its balls, for `a` with fresh addresses and a radius
      -- whose divisor is not 0, and for `d` with a count whose arrays fit the stack:
      -- a command ends with a list in which the balls of all other players are as they were, in their
      -- order; `a` adds `count` balls to those of the player and `d` deletes as many as there are of
      -- them, at least 1 each, and no other command changes their number.
      pub dispatch_command-OthersKept :
          (cmd : ℕ)
          → IsAllowed cmd count radius supply m
          → length xs < fuel
          → OthersKept cmd count
              (dispatch_command machine fuel supply cmd count radius owner manager m)
              xs
      unfolding dispatch_command speed_up_balls speed_down_balls count_behind
      dispatch_command-OthersKept cmd allowed enough = elim (Bool-cases (cmd == 97)) [
        | inl is_a ↦
            let e : cmd ≡ 97 = ground arith in
            let (small, fresh) = allowed.0 e in rw e (handle_add-OthersKept small fresh)
        | inr not_a ↦ elim (Bool-cases (cmd == 100)) [
          | inl is_d ↦
              let e : cmd ≡ 100 = ground arith in
              rw e (handle_delete-OthersKept enough (allowed.1 e))
          | inr not_d ↦ elim (Bool-cases (cmd == 119)) [
            | inl is_w ↦
                let e : cmd ≡ 119 = ground arith in
                rw e (
                  change-OthersKept 119 (speed_up_ball machine owner)
                    (speed_up_ball-OnlyOwn machine owner) enough refl)
            | inr not_w ↦ elim (Bool-cases (cmd == 115)) [
              | inl is_s ↦
                  let e : cmd ≡ 115 = ground arith in
                  rw e (
                    change-OthersKept 115 (speed_down_ball machine owner)
                      (speed_down_ball-OnlyOwn machine owner) enough refl)
              | inr not_s ↦
                  rw (not_a, not_d, not_w, not_s) (xs, m.stale_reads, unchanged, refl, refl)
            ]
          ]
        ]
      ]
