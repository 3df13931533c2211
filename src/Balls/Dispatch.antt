-- ===== src/Balls/Dispatch.antt =====
-- The commands of the players, on the list of balls in memory: `dispatch_command` and its handlers of
-- src/server/localballmanager.c, and the loops of src/server/localball_list.c. A command is the code
-- of its letter; the entries of the log are left out.
pub mod Others
pub mod Commands
use owner_based_ball_game.Balls.{
  Machine, LogicalBall, move_logical_ball, speed_down_ball, speed_up_ball,
}
use owner_based_ball_game.Balls.Manager.{BallListManager, Round, add_ball, delete_ball}
use owner_based_ball_game.Base.{List, [], if◌then◌else◌, negsuc, pos, suc, zero, ℕ, ℤ, ◌==◌, ◌∷◌}
use owner_based_ball_game.Memory.{Cmd, Ptr, each_node, pure, ◌>>=◌, ◌>>◌}

-- What `malloc` and `rand` give to the rounds of `add_ball`, one after the other.
abbrev pub Supply : Type 0
Supply = ℕ → Round

unfoldable pub rounds : ℕ → Supply → List Round
rounds zero supply = []
rounds (suc k) supply = supply 0 ∷ rounds k (λ i. supply (suc i))

-- `if (count <= 0) count = 1`
unfoldable pub at_least_one : ℤ → ℕ
at_least_one (pos n) = if n == 0 then 1 else n
at_least_one (negsuc n) = 1

module _ (machine : Machine) where
  -- `moveBallList`
  unfoldable pub move_ball_list : ℕ → Ptr → Cmd (LogicalBall machine) (Unit {0})
  move_ball_list fuel head = each_node fuel (move_logical_ball machine) head

  -- `speedUpBalls`
  unfoldable pub speed_up_balls : ℕ → Ptr → ℕ → Cmd (LogicalBall machine) (Unit {0})
  speed_up_balls fuel head owner_id = each_node fuel (speed_up_ball machine owner_id) head

  -- `speedDownBalls`
  unfoldable pub speed_down_balls : ℕ → Ptr → ℕ → Cmd (LogicalBall machine) (Unit {0})
  speed_down_balls fuel head owner_id = each_node fuel (speed_down_ball machine owner_id) head

  -- `handle_add`
  unfoldable pub handle_add :
      Supply → ℤ → ℤ → ℕ → BallListManager → Cmd (LogicalBall machine) BallListManager
  unfolding rounds at_least_one
  handle_add supply count radius owner_id manager =
      add_ball machine (rounds (at_least_one count) supply) radius owner_id manager

  -- `handle_delete`
  unfoldable pub handle_delete :
      ℕ → ℤ → ℕ → BallListManager → Cmd (LogicalBall machine) BallListManager
  unfolding at_least_one
  handle_delete fuel count owner_id manager =
      delete_ball machine fuel (at_least_one count) owner_id manager

  -- `dispatch_command`, with the table of the handlers
  unfoldable pub dispatch_command :
      ℕ → Supply → ℕ → ℤ → ℤ → ℕ → BallListManager → Cmd (LogicalBall machine) BallListManager
  unfolding handle_add handle_delete speed_up_balls speed_down_balls
  dispatch_command fuel supply cmd count radius owner_id manager =
      if cmd == 97
      then handle_add supply count radius owner_id manager
      else if cmd == 100
      then handle_delete fuel count owner_id manager
      else if cmd == 119
      then (speed_up_balls fuel manager.head owner_id >> pure manager)
      else if cmd == 115
      then (speed_down_balls fuel manager.head owner_id >> pure manager)
      else pure manager
