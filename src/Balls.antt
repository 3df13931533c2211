-- ===== src/Balls.antt =====
-- The balls of the server: src/server/loaclball.c, and the walks over the list of balls in
-- src/server/localball_list.c. Velocities are integers; coordinates are machine, whose arithmetic is a
-- parameter.
pub mod Speed
pub mod Manager
pub mod Dispatch
pub mod Place
use owner_based_ball_game.Base.{
  Bool, List, Option, [], if◌then◌else◌, ltb, map, neg_part, negsuc, none, pos, pos_part, some, suc,
  zero, ℕ, ℤ, ◌%◌, ◌*◌, ◌+ℤ◌, ◌+◌, ◌-ℤ◌, ◌-◌, ◌/◌, ◌==◌, ◌||◌, ◌∷◌, ◌≢◌,
}

pub record RgbColor : Type 0 where
  pub red : ℕ
  pub green : ℕ
  pub blue : ℕ

-- What the machine and its C library give: the type float, with a conversion, `c += n`, `c <= n` and
-- `c >= 1000.0f - n` for an integer n; `snprintf` with the format "%d,%.2f,%.2f,%d,%d,%d,%hhu,%hhu,%hhu|"; and the
-- greatest `count` for which the stack of a worker holds two arrays of `count` pointers. Nothing is
-- assumed of them.
pub record Machine : Type 1 where
  pub Coord : Type 0
  pub of_int : ℤ → Coord
  pub add_int : Coord → ℤ → Coord
  pub at_low_edge : Coord → ℤ → Bool
  pub at_high_edge : Coord → ℤ → Bool
  pub format_ball : ℕ → Coord → Coord → ℤ → ℤ → ℤ → RgbColor → List ℕ
  pub vla_room : ℕ

-- `LogicalBall`; an owner is the socket of a client.
pub record LogicalBall (machine : Machine) : Type 0 where
  pub id : ℕ
  pub x : machine.Coord
  pub y : machine.Coord
  pub dx : ℤ
  pub dy : ℤ
  pub radius : ℤ
  pub owner_id : ℕ
  pub color : RgbColor

abbrev rgb : ℕ → ℕ → ℕ → RgbColor
rgb r g b = record { red = r; green = g; blue = b }

-- `switch (owner_id % 5)`
abbrev color_case : ℕ → RgbColor
color_case k =
    if k == 0
    then rgb 255 0 0
    else if k == 1
    then rgb 0 255 0
    else if k == 2
    then rgb 0 0 255
    else if k == 3
    then rgb 255 255 0
    else if k == 4
    then rgb 255 0 255
    else rgb 128 128 128

unfoldable pub get_color_by_owner : ℕ → RgbColor
get_color_by_owner owner_id = color_case (owner_id % 5)

-- An int of 32 bits, which wraps around as in two's complement.
unfoldable pub wrap_int : ℤ → ℤ
wrap_int (pos n) =
    let k = n % 4294967296 in if ltb k 2147483648 then pos k else negsuc (4294967295 - k)
wrap_int (negsuc n) =
    let k = n % 4294967296 in if ltb k 2147483648 then negsuc k else pos (4294967295 - k)

-- The size of the divisor `1000 - 2 * radius`. C leaves an overflow of the int undefined; as it is
-- compiled here, the int wraps around, and once for the whole is the same as once for each operation.
unfoldable pub spot_size : ℤ → ℕ
unfolding wrap_int ◌+ℤ◌ ◌-ℤ◌
spot_size radius = let d = wrap_int (pos 1000 -ℤ (radius +ℤ radius)) in pos_part d + neg_part d

-- The divisor is not 0.
abbrev pub HasSpots : ℤ → Type 0
HasSpots radius = spot_size radius ≢ 0

-- `rand() % (1000 - 2 * radius) + radius`, where `rand()` gave `r`. The remainder of a number that is
-- not negative does not depend on the divisor's sign; there is none by 0, which is `none`.
unfoldable pub random_spot : ℕ → ℤ → Option ℤ
unfolding spot_size wrap_int ◌+ℤ◌
random_spot r radius =
    let size = spot_size radius in
    if size == 0 then none else some (wrap_int (pos (r % size) +ℤ radius))

-- `(r % 2 == 0) ? -2.5f : 2.5f`, stored in an int
unfoldable pub start_speed : ℕ → ℤ
start_speed r = if r % 2 == 0 then negsuc 1 else pos 2

-- an increase and a decrease of one component
unfoldable pub speed_up : ℤ → ℤ
speed_up (pos zero) = pos zero
speed_up (pos (suc n)) = if ltb 2000 (suc n) then pos 2000 else pos (suc n * 2)
speed_up (negsuc n) = if ltb 2000 (suc n) then negsuc 1999 else negsuc (suc n * 2 - 1)

unfoldable pub speed_down : ℤ → ℤ
speed_down (pos zero) = pos zero
speed_down (pos (suc n)) = if ltb 1 (suc n) then pos (suc n / 2) else pos 1
speed_down (negsuc n) = if ltb 1 (suc n) then negsuc (suc n / 2 - 1) else negsuc 0

-- `dx *= -1`
unfoldable pub turn_back : ℤ → ℤ
turn_back (pos zero) = pos zero
turn_back (pos (suc n)) = negsuc n
turn_back (negsuc n) = pos (suc n)

module _ (machine : Machine) where
  -- `create_logical_ball`, on the four numbers that `rand` gives
  unfoldable pub create_logical_ball : (ℕ × ℕ × ℕ × ℕ) → ℕ → ℤ → ℕ → Option (LogicalBall machine)
  unfolding random_spot start_speed get_color_by_owner
  create_logical_ball (r_x, r_y, r_dx, r_dy) id radius owner_id = elim (random_spot r_x radius) [
    | none ↦ none
    | some x ↦ elim (random_spot r_y radius) [
      | none ↦ none
      | some y ↦ some (record {
        id = id;
        x = machine.of_int x;
        y = machine.of_int y;
        dx = start_speed r_dx;
        dy = start_speed r_dy;
        radius = radius;
        owner_id = owner_id;
        color = get_color_by_owner owner_id;
      })
    ]
  ]

  -- One axis of `move_logical_ball`: coordinate and velocity.
  unfoldable pub move_axis : ℤ → machine.Coord → ℤ → machine.Coord × ℤ
  unfolding turn_back
  move_axis radius c d =
      let c' = machine.add_int c d in
      if machine.at_low_edge c' radius || machine.at_high_edge c' radius
      then (machine.add_int c' (turn_back d), turn_back d)
      else (c', d)

  unfoldable pub move_logical_ball : LogicalBall machine → LogicalBall machine
  unfolding move_axis
  move_logical_ball b =
      let (x, dx) = move_axis b.radius b.x b.dx in
      let (y, dy) = move_axis b.radius b.y b.dy in record b { x = x; y = y; dx = dx; dy = dy }

  -- one round of the loops over the list
  unfoldable pub speed_up_ball : ℕ → LogicalBall machine → LogicalBall machine
  unfolding speed_up
  speed_up_ball owner b =
      if b.owner_id == owner then record b { dx = speed_up b.dx; dy = speed_up b.dy } else b

  unfoldable pub speed_down_ball : ℕ → LogicalBall machine → LogicalBall machine
  unfolding speed_down
  speed_down_ball owner b =
      if b.owner_id == owner then record b { dx = speed_down b.dx; dy = speed_down b.dy } else b

-- What the server does to the balls of a list: `speedUpBalls`, `speedDownBalls`, `moveBallList`.
pub data BallCommand : Type 0 where
  faster slower : ℕ → BallCommand
  move : BallCommand

unfoldable pub run_command :
    (machine : Machine) → BallCommand → List (LogicalBall machine) → List (LogicalBall machine)
unfolding speed_up_ball speed_down_ball move_logical_ball
run_command machine (faster owner) bs = map (speed_up_ball machine owner) bs
run_command machine (slower owner) bs = map (speed_down_ball machine owner) bs
run_command machine move bs = map (move_logical_ball machine) bs

unfoldable pub run_commands :
    (machine : Machine) → List BallCommand → List (LogicalBall machine) → List (LogicalBall machine)
unfolding run_command
run_commands machine [] bs = bs
run_commands machine (c ∷ cs) bs = run_commands machine cs (run_command machine c bs)
