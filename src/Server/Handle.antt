-- ===== src/Server/Handle.antt =====
-- The events of the server of src/server/main.c and src/server/server.c: each is what a thread does between two
-- waits, as one step, with the broadcast at its end.
use owner_based_ball_game.Balls.{Machine}
use owner_based_ball_game.Balls.Dispatch.{Supply}
use owner_based_ball_game.Base.{List, Option, [], none, some, ℕ, ℤ, ◌∷◌}
use owner_based_ball_game.Memory.{Ptr}
use owner_based_ball_game.Server.{Server, connect, disconnect, move_all_ball, run_task}
use owner_based_ball_game.Server.Broadcast.{broadcast_ball_state, broadcast_ball_state_all}
use owner_based_ball_game.Text.{Text}

module _ (Address : Type 0) (machine : Machine) where
  -- A client connects, with the node that it gets and what its first balls are made of; a client goes
  -- (`x`, or the end of its connection); a client's command is taken from the queue; the balls move.
  pub data ServerEvent : Type 0 where
    connects : Ptr → ℕ → Address → Supply → ServerEvent
    goes : ℕ → ServerEvent
    commands : ℕ → ℕ → ℤ → ℤ → Supply → ServerEvent
    moves : ServerEvent

  -- A command and the broadcast behind it: the server, and what has been sent to which socket.
  abbrev pub sent_behind :
      (Server Address machine → Option (List (ℕ × Text)))
      → Option (Server Address machine)
      → Option (Server Address machine × List (ℕ × Text))
  sent_behind broadcast none = none
  sent_behind broadcast (some s) = elim (broadcast s) [ none ↦ none | some sent ↦ some (s, sent) ]

  -- A worker with a command of the table, to the end of its round.
  unfoldable pub task_round :
      ℕ
      → ℕ
      → ℤ
      → ℤ
      → Supply
      → Server Address machine
      → Option (Server Address machine × List (ℕ × Text))
  unfolding run_task broadcast_ball_state
  task_round fd cmd count radius supply s =
      sent_behind (broadcast_ball_state Address machine)
        (run_task Address machine fd cmd count radius supply s)

  -- A round of `cycle_broadcast_ball_state`.
  unfoldable pub cycle_round :
      Server Address machine → Option (Server Address machine × List (ℕ × Text))
  unfolding move_all_ball broadcast_ball_state_all
  cycle_round s =
      sent_behind (broadcast_ball_state_all Address machine) (move_all_ball Address machine s)

  abbrev pub without_sent :
      Option (Server Address machine × List (ℕ × Text)) → Option (Server Address machine)
  without_sent none = none
  without_sent (some (s, sent)) = some s

  -- There is no result if the code uses memory that is not allocated or does not exist.
  unfoldable pub handle : ServerEvent → Server Address machine → Option (Server Address machine)
  unfolding connect disconnect task_round cycle_round
  handle (connects p csock cliaddr supply) s = connect Address machine p csock cliaddr supply s
  handle (goes fd) s = disconnect Address machine fd s
  handle (commands fd cmd count radius supply) s =
      without_sent (task_round fd cmd count radius supply s)
  handle moves s = without_sent (cycle_round s)

  -- a sequence of events
  unfoldable pub handle_all :
      List ServerEvent → Server Address machine → Option (Server Address machine)
  unfolding handle
  handle_all [] s = some s
  handle_all (e ∷ es) s = elim (handle e s) [ none ↦ none | some s' ↦ handle_all es s' ]
