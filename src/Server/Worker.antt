-- ===== src/Server/Worker.antt =====
-- A worker of src/server/server.c with the text of a task: `parseCommand`, and what the loop of
-- `worker_thread` does with the command.
pub mod Texts
use owner_based_ball_game.Balls.{Machine}
use owner_based_ball_game.Balls.Dispatch.{Supply, at_least_one}
use owner_based_ball_game.Base.{
  Bool, List, Option, [], if◌then◌else◌, none, pos, some, ℕ, ℤ, ◌==◌, ◌||◌, ◌∷◌,
}
use owner_based_ball_game.Server.{Server, disconnect, start_ball_radius}
use owner_based_ball_game.Server.Handle.{task_round}
use owner_based_ball_game.Text.{Text}

-- `sscanf` of the C library on a text: the letter and the numbers, if it returns 3 for "%c:%d:%d" and
-- 2 for "%c:%d".
pub record Scanf : Type 0 where
  pub letter_and_two : Text → Option (ℕ × ℤ × ℤ)
  pub letter_and_one : Text → Option (ℕ × ℤ)

abbrev single_letter : Text → Option (ℕ × ℤ × ℤ)
single_letter (c ∷ []) = some (c, pos 0, start_ball_radius)
single_letter _ = none

-- `parseCommand`: the command, the count and the radius; `none` where it returns 0.
unfoldable pub parse_command : Scanf → Text → Option (ℕ × ℤ × ℤ)
parse_command scanf s = elim (scanf.letter_and_two s) [
  | some found ↦ some found
  | none ↦ elim (scanf.letter_and_one s) [
    | some (op, n) ↦ some (op, n, start_ball_radius)
    | none ↦ single_letter s
  ]
]

-- What the worker sends back to the client, and what it broadcasts behind that.
pub data Reply : Type 0 where
  invalid_format unknown_command no_reply : Reply
  done_reply : ℕ → ℕ → List (ℕ × Text) → Reply

-- the commands with a handler
abbrev pub is_handled : ℕ → Bool
is_handled cmd = cmd == 97 || cmd == 100 || cmd == 119 || cmd == 115

module _ (Address : Type 0) (machine : Machine) where
  abbrev with_reply :
      Option (Server Address machine) → Reply → Option (Server Address machine × Reply)
  with_reply none reply = none
  with_reply (some s) reply = some (s, reply)

  abbrev done_with :
      ℕ
      → ℕ
      → Option (Server Address machine × List (ℕ × Text))
      → Option (Server Address machine × Reply)
  done_with cmd count none = none
  done_with cmd count (some (s, sent)) = some (s, done_reply cmd count sent)

  -- the worker behind the parsing
  unfoldable pub run_command_of :
      ℕ
      → Supply
      → Option (ℕ × ℤ × ℤ)
      → Server Address machine
      → Option (Server Address machine × Reply)
  unfolding at_least_one disconnect task_round
  run_command_of fd supply none s = some (s, invalid_format)
  run_command_of fd supply (some (cmd, count, radius)) s =
      if cmd == 120
      then with_reply (disconnect Address machine fd s) no_reply
      else if is_handled cmd
      then done_with cmd (at_least_one count)
          (task_round Address machine fd cmd count radius supply s)
      else some (s, unknown_command)

  -- A round of `worker_thread`, from the task that it has taken on.
  unfoldable pub worker_round :
      Scanf → ℕ → Supply → Text → Server Address machine → Option (Server Address machine × Reply)
  unfolding parse_command run_command_of
  worker_round scanf fd supply text s = run_command_of fd supply (parse_command scanf text) s
