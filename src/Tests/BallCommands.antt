-- ===== src/Tests/BallCommands.antt =====
-- The balls of the server at concrete numbers, with integers for the machine.
use owner_based_ball_game.Balls.{
  LogicalBall, Machine, create_logical_ball, faster, get_color_by_owner, move, move_logical_ball,
  run_commands, slower, spot_size, turn_back, wrap_int,
}
use owner_based_ball_game.Balls.Place.{
  HasNoSpots, IsInside, create_logical_ball-IsInside, create_logical_ball-none,
}
use owner_based_ball_game.Balls.Speed.{Moves, run_commands-Moves, speed_of}
use owner_based_ball_game.Base.{
  All, Bool, List, [], arith, false, negsuc, none, pos, refl, some, true, ℕ, ℤ, ◌+ℤ◌, ◌+◌, ◌-ℤ◌,
  ◌↔◌, ◌∷◌, ◌≡◌, ◌≤◌,
}

abbrev is_nonneg : ℤ → Bool
is_nonneg (pos n) = true
is_nonneg (negsuc n) = false

-- Coordinates are integers, a ball is written as its first number, a character, and a bar, and the stack
-- holds arrays of 1000.
abbrev pub whole : Machine
whole = record {
  Coord = ℤ;
  of_int = λ n. n;
  add_int = ◌+ℤ◌;
  at_low_edge = λ c n. is_nonneg (n -ℤ c);
  at_high_edge = λ c n. is_nonneg (c -ℤ (pos 1000 -ℤ n));
  format_ball = λ n x y dx dy radius color. (48 + n) ∷ b'|' ∷ [];
  vla_room = 1000;
}

abbrev pub ball_of : ℕ → ℤ → ℤ → LogicalBall whole
ball_of owner dx dy = record {
  id = 0;
  x = pos 30;
  y = pos 500;
  dx = dx;
  dy = dy;
  radius = pos 20;
  owner_id = owner;
  color = get_color_by_owner owner;
}

-- A ball that goes 12 to the left from 30 meets the edge at 20.
move_example :
    move_logical_ball whole (ball_of 5 (negsuc 11) (pos 2))
    ≡ record (ball_of 5 (pos 12) (pos 2)) { y = pos 502 }
unfolding move_logical_ball turn_back ◌+ℤ◌ ◌-ℤ◌
move_example = refl

abbrev balls : List (LogicalBall whole)
balls = ball_of 5 (pos 2) (negsuc 1) ∷ ball_of 6 (pos 2) (pos 2) ∷ []

slow : (1 ≤ 2) × (2 ≤ 4000)
slow = (omega arith, omega arith)

run_commands-Moves_example :
    All (Moves whole) (run_commands whole (faster 5 ∷ move ∷ slower 6 ∷ []) balls)
run_commands-Moves_example =
    run_commands-Moves whole (faster 5 ∷ move ∷ slower 6 ∷ []) balls
      ((slow, slow), ((slow, slow), tt))

create_logical_ball-IsInside_example :
    (b : LogicalBall whole) × (create_logical_ball whole (1966, 7, 4, 5) 3 (pos 20) 6 ≡ some b)
    × IsInside whole 20 b.x
    × IsInside whole 20 b.y
    × (speed_of b.dx ≡ 2)
    × (speed_of b.dy ≡ 2)
    × (b.id ≡ 3)
    × (b.owner_id ≡ 6)
create_logical_ball-IsInside_example =
    create_logical_ball-IsInside whole 1966 7 4 5 3 20 6 (omega arith)

create_logical_ball-none_example :
    (create_logical_ball whole (1966, 7, 4, 5) 3 (negsuc 2147483147) 6 ≡ none)
    ↔ HasNoSpots (negsuc 2147483147)
create_logical_ball-none_example =
    create_logical_ball-none whole 1966 7 4 5 3 (negsuc 2147483147) 6 (omega arith)

-- 1000 - 2 * -2147483148 wraps around to 0, and 1000 - 2 * 2147483647 to 1002.
wrapped : (spot_size (negsuc 2147483147) ≡ 0) × (spot_size (pos 2147483647) ≡ 1002)
unfolding spot_size wrap_int ◌+ℤ◌ ◌-ℤ◌
wrapped = (refl, refl)
