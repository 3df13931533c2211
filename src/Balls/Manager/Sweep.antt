-- ===== src/Balls/Manager/Sweep.antt =====
-- `delete_ball_by_socket` of src/server/localballmanager.c, against the list of the balls.
use owner_based_ball_game.Balls.{Machine, LogicalBall}
use owner_based_ball_game.Balls.Manager.{BallListManager, delete_ball_by_socket, sweep}
use owner_based_ball_game.Balls.Manager.Delete.{keep_first}
use owner_based_ball_game.Balls.Manager.IsList.{
  EndsWith, IsList, eq-manager_of, manager_of, sweep_ball-ends, take_out-IsList,
}
use owner_based_ball_game.Base.{
  Bool-cases, List, [], append_assoc, arith, false, inl, inr, length, refl, suc, zero, ℕ, ◌++◌, ◌<◌,
  ◌==◌, ◌∷◌, ◌≡◌,
}
use owner_based_ball_game.Memory.{Memory, Ptr, null}
use owner_based_ball_game.Memory.Chain.{first_ptr, last_ptr, last_ptr-append}
use owner_based_ball_game.Memory.LinkedList.{at_node, load-ends, take_out}

module _ (machine : Machine) (socket_fd : ℕ) where
  sweep-ends :
      (k : ℕ) (pre xs : List (Ptr × LogicalBall machine)) (m : Memory (LogicalBall machine))
      (manager : BallListManager)
      → IsList machine m manager (pre ++ xs)
      → length xs < k
      → EndsWith machine
          (sweep machine k socket_fd (last_ptr null pre) (first_ptr xs null) manager m)
          (pre ++ keep_first machine socket_fd zero xs)
          m.stale_reads
  unfolding sweep keep_first
  sweep-ends zero pre xs m manager is enough = absurd (omega arith)
  sweep-ends (suc k) pre [] m manager is enough = record {
    manager = manager;
    memory = m;
    run_lem = refl;
    list_lem = is;
    stale_lem = refl;
  }
  sweep-ends (suc k) pre ((p, b) ∷ xs) m manager is enough =
      let (ne, e) = at_node m manager.head manager.tail pre p b xs is.list in
      let on : (p == null) ≡ false = ground arith in
      rw (on, load-ends p _ m ne e)
        (elim (Bool-cases (b.owner_id == socket_fd)) [
          | inl own ↦
              rw (own, sweep_ball-ends machine m manager pre p b xs is)
                (sweep-ends k pre xs (take_out pre p xs m) (manager_of machine (pre ++ xs))
                  (take_out-IsList machine m manager pre p b xs is) (omega arith))
          | inr other ↦ rw other (
              rw (last_ptr-append null pre ((p, b) ∷ []), append_assoc) at
                (sweep-ends k (pre ++ ((p, b) ∷ [])) xs m manager
                  (rw (append_assoc pre ((p, b) ∷ []) xs) is) (omega arith)))
        ])

  -- In a memory that holds a list and nothing else, and with fuel for its balls: `delete_ball_by_socket`
  -- ends with the list without the balls of the socket and nothing else, and reads no freed node.
  pub delete_ball_by_socket-keep_first :
      (fuel : ℕ) (xs : List (Ptr × LogicalBall machine)) (m : Memory (LogicalBall machine))
      (manager : BallListManager)
      → IsList machine m manager xs
      → length xs < fuel
      → EndsWith machine
          (delete_ball_by_socket machine fuel socket_fd manager m)
          (keep_first machine socket_fd zero xs)
          m.stale_reads
  unfolding delete_ball_by_socket
  delete_ball_by_socket-keep_first fuel xs m manager is enough =
      let e = eq-manager_of machine m manager xs is in
      rw e (sweep-ends fuel [] xs m (manager_of machine xs) (rw e at is) enough)
