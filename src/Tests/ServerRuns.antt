-- ===== src/Tests/ServerRuns.antt =====
-- The server from the messages of its clients to its end.
use owner_based_ball_game.Base.{List, [], arith, some, ℕ, ◌∷◌, ◌≡◌}
use owner_based_ball_game.Server.{Server}
use owner_based_ball_game.Server.Broadcast.{broadcast_ball_state, broadcast_ball_state_all}
use owner_based_ball_game.Server.Broadcast.Sent.{
  balls_text, broadcast_ball_state-live, broadcast_ball_state_all-live,
}
use owner_based_ball_game.Server.Handle.{ServerEvent, goes, moves}
use owner_based_ball_game.Server.Pipeline.Drained.{Drained}
use owner_based_ball_game.Server.Pipeline.Received.{Message}
use owner_based_ball_game.Tests.BallCommands.{whole}
use owner_based_ball_game.Tests.BallList.{round_at}
use owner_based_ball_game.Tests.ServerEvents.{two_IsRunning, two_players}
use owner_based_ball_game.Text.{txt}

-- A text that is refused, and then a command that adds two balls, both from the socket 6.
abbrev two_messages : List Message
two_messages = ((6, txt "go"), round_at) ∷ ((6, txt "a:2:30"), round_at) ∷ []

-- The thread of the broadcasts ends its round, and a worker one in which a client goes.
abbrev last_rounds : List (ServerEvent ℕ whole)
last_rounds = moves ∷ goes 6 ∷ []

broadcast_ball_state_all-live_example :
    broadcast_ball_state_all ℕ whole two_players ≡ some ((5, txt "0|0|") ∷ (6, txt "0|0|") ∷ [])
unfolding balls_text two_IsRunning
broadcast_ball_state_all-live_example =
    broadcast_ball_state_all-live (5 ∷ 6 ∷ []) two_players two_IsRunning

broadcast_ball_state-live_example :
    broadcast_ball_state ℕ whole two_players ≡ some ((5, txt "5|") ∷ (6, txt "6|") ∷ [])
unfolding balls_text two_IsRunning
broadcast_ball_state-live_example =
    broadcast_ball_state-live (5 ∷ 6 ∷ []) two_players two_IsRunning
      (omega arith, (omega arith, tt))
