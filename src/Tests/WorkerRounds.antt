-- ===== src/Tests/WorkerRounds.antt =====
-- A worker of the server with texts that clients have sent.
use owner_based_ball_game.Balls.Dispatch.{at_least_one, rounds}
use owner_based_ball_game.Base.{[], arith, if◌then◌else◌, none, pos, refl, some, ℕ, ◌∷◌, ◌≡◌}
use owner_based_ball_game.Server.Connected.{is_open}
use owner_based_ball_game.Server.Worker.{Scanf, parse_command, worker_round}
use owner_based_ball_game.Server.Worker.Texts.{OnlyOwnBalls, worker_round-OnlyOwnBalls}
use owner_based_ball_game.Tests.BallCommands.{whole}
use owner_based_ball_game.Tests.BallList.{fresh_rounds, round_at, thirty}
use owner_based_ball_game.Tests.ServerEvents.{two_IsRunning, two_players}
use owner_based_ball_game.Text.{text_eq, txt}

-- A `sscanf` that knows two texts.
abbrev pub two_texts : Scanf
two_texts = record {
  letter_and_two = λ s. if text_eq s (txt "a:2:30") then some (97, pos 2, pos 30) else none;
  letter_and_one = λ s. if text_eq s (txt "d:1") then some (100, pos 1) else none;
}

worker_round-OnlyOwnBalls_example :
    OnlyOwnBalls 5
      (5 ∷ 6 ∷ [])
      (worker_round ℕ whole two_texts 5 round_at (txt "a:2:30") two_players)
      two_IsRunning.ball_nodes
unfolding parse_command text_eq is_open at_least_one rounds
worker_round-OnlyOwnBalls_example =
    worker_round-OnlyOwnBalls two_texts 5 round_at (txt "a:2:30") (5 ∷ 6 ∷ []) two_players
      two_IsRunning refl
      (λ _. ((λ _. (thirty, fresh_rounds), λ e. absurd (omega arith)), omega arith))

-- `d:1` has the radius of the first balls, a single letter has no count, and other texts are refused.
parsed :
    (parse_command two_texts (txt "d:1") ≡ some (100, pos 1, pos 20))
    × (parse_command two_texts (txt "w") ≡ some (119, pos 0, pos 20))
    × (parse_command two_texts (txt "go") ≡ none)
unfolding parse_command text_eq
parsed = (refl, refl, refl)
