-- ===== src/Server/Worker/Texts.antt =====
-- Whatever text a client sends, a worker of src/server/server.c leaves the balls of the others.
use owner_based_ball_game.Balls.{LogicalBall, Machine}
use owner_based_ball_game.Balls.Dispatch.{Supply, at_least_one}
use owner_based_ball_game.Balls.Dispatch.Commands.{IsAllowed}
use owner_based_ball_game.Balls.Dispatch.Others.{added}
use owner_based_ball_game.Base.{
  Bool-cases, List, Option, if◌then◌else◌, inl, inr, none, pos, refl, some, true, ℕ, ℤ, ◌+◌, ◌==◌,
  ◌≡◌, ◌≤◌,
}
use owner_based_ball_game.Memory.{Ptr}
use owner_based_ball_game.Server.{Server}
use owner_based_ball_game.Server.Connected.{close_socket, is_open}
use owner_based_ball_game.Server.Events.{IsRunning}
use owner_based_ball_game.Server.Steps.{OthersStay, commands-IsRunning, goes-IsRunning}
use owner_based_ball_game.Server.Worker.{
  Reply, Scanf, done_reply, invalid_format, is_handled, no_reply, parse_command, run_command_of,
  unknown_command, worker_round,
}
use owner_based_ball_game.Text.{Text}

-- The sockets that are open behind a command: `x` closes that of the client.
abbrev pub open_behind : ℕ → Option (ℕ × ℤ × ℤ) → List ℕ → List ℕ
open_behind fd none live = live
open_behind fd (some (cmd, count, radius)) live = if cmd == 120 then close_socket fd live else live

module _ {Address : Type 0} {machine : Machine} where
  -- What a worker leaves: it has ended, the server runs with these sockets, and only the balls of `fd`
  -- may have changed.
  abbrev pub OnlyOwnBalls :
      ℕ
      → List ℕ
      → Option (Server Address machine × Reply)
      → List (Ptr × LogicalBall machine)
      → Type 0
  OnlyOwnBalls fd live r xs =
      (s : Server Address machine) × (reply : Reply) × (r ≡ some (s, reply))
      × OthersStay fd live s xs

  -- what is asked of a command that has been read
  abbrev pub IsReadAllowed : ℕ → Supply → Server Address machine → Option (ℕ × ℤ × ℤ) → Type 0
  IsReadAllowed fd supply s none = Unit
  IsReadAllowed fd supply s (some (cmd, count, radius)) =
      is_handled cmd ≡ true
      → IsAllowed machine fd cmd (pos (at_least_one count)) radius supply s.ball_memory
        × (s.balls.total_count + added cmd (pos (at_least_one count)) ≤ 32)

  run_command_of-OnlyOwnBalls :
      (fd : ℕ) (supply : Supply) (parsed : Option (ℕ × ℤ × ℤ)) (live : List ℕ)
      (s : Server Address machine) (h : IsRunning live s)
      → is_open fd live ≡ true
      → IsReadAllowed fd supply s parsed
      → OnlyOwnBalls fd
          (open_behind fd parsed live)
          (run_command_of Address machine fd supply parsed s)
          h.ball_nodes
  unfolding run_command_of
  run_command_of-OnlyOwnBalls fd supply none live s h o allowed =
      (s, invalid_format, refl, (h, refl))
  run_command_of-OnlyOwnBalls fd supply (some (cmd, count, radius)) live s h o allowed =
      elim (Bool-cases (cmd == 120)) [
        | inl is_x ↦
            let (s', run, stay) = goes-IsRunning fd live s h in
            (s', no_reply, rw (is_x, run) refl, rw is_x stay)
        | inr not_x ↦ elim (Bool-cases (is_handled cmd)) [
          | inl handled ↦
              let (made, few) = allowed handled in
              let (s', sent, run, stay) =
                commands-IsRunning fd cmd count radius supply live s h (o, made, few) in
              (
                s',
                done_reply cmd (at_least_one count) sent,
                rw (not_x, handled, run) refl,
                rw not_x stay,
              )
          | inr strange ↦ (s, unknown_command, rw (not_x, strange) refl, rw not_x (h, refl))
        ]
      ]

  -- Whatever text a client of an open socket sends: the worker ends with a server that still runs, and
  -- the balls of all other clients are as they were, in their order and at their addresses. If the text
  -- is read as a command to add balls, the divisor of its radius is not 0 and `malloc` gives unused
  -- addresses; if it is read as one to delete balls, its count fits the stack; and for any command of the
  -- table there are at most 32 balls, with those that it adds, whose text fits the buffer of the broadcast.
  pub worker_round-OnlyOwnBalls :
      (scanf : Scanf) (fd : ℕ) (supply : Supply) (text : Text) (live : List ℕ)
      (s : Server Address machine) (h : IsRunning live s)
      → is_open fd live ≡ true
      → IsReadAllowed fd supply s (parse_command scanf text)
      → OnlyOwnBalls fd
          (open_behind fd (parse_command scanf text) live)
          (worker_round Address machine scanf fd supply text s)
          h.ball_nodes
  unfolding worker_round
  worker_round-OnlyOwnBalls scanf fd supply text live s h o allowed =
      run_command_of-OnlyOwnBalls fd supply (parse_command scanf text) live s h o allowed
