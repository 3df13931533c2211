-- ===== src/Balls/Place.antt =====
-- Where `create_logical_ball` of src/server/loaclball.c puts a ball, and when it cannot.
use native.Mathlib.Nat.{mod-lt}
use owner_based_ball_game.Balls.{
  HasSpots, LogicalBall, Machine, create_logical_ball, get_color_by_owner, random_spot, spot_size,
  start_speed, wrap_int,
}
use owner_based_ball_game.Balls.Speed.{speed_of}
use owner_based_ball_game.Base.{
  Bool-cases, ap, arith, false, inl, inr, ltb, lt→ltb, negsuc, none, pos, refl, some, true, ℕ, ℤ,
  ◌%◌, ◌+ℤ◌, ◌+◌, ◌-ℤ◌, ◌-◌, ◌<◌, ◌==◌, ◌↔◌, ◌≡◌, ◌≤◌, ◌⊎◌,
}

wrap_int-pos : (n : ℕ) → n < 2147483648 → wrap_int (pos n) ≡ pos n
unfolding wrap_int
wrap_int-pos n h =
    let small : n % 4294967296 ≡ n = omega arith in
    let below : ltb n 2147483648 ≡ true = lt→ltb n 2147483648 h in rw (small, below) refl

spot_size-pos : (n : ℕ) → n < 500 → spot_size (pos n) ≡ 1000 - (n + n)
unfolding spot_size ◌+ℤ◌ ◌-ℤ◌
spot_size-pos n h =
    let d : pos 1000 -ℤ (pos n +ℤ pos n) ≡ pos (1000 - (n + n)) = ground arith in
    rw (d, wrap_int-pos (1000 - (n + n)) (omega arith)) (omega arith)

-- The radii of an int for which the divisor is 0.
abbrev pub HasNoSpots : ℤ → Type 0
HasNoSpots radius = (radius ≡ pos 500) ⊎ (radius ≡ negsuc 2147483147)

-- An int of 32 bits.
abbrev pub IsInt : ℤ → Type 0
IsInt (pos n) = n < 2147483648
IsInt (negsuc n) = n < 2147483648

spot_size-zero : (radius : ℤ) → IsInt radius → (spot_size radius ≡ 0) ↔ HasNoSpots radius
unfolding spot_size wrap_int ◌+ℤ◌ ◌-ℤ◌
spot_size-zero (pos n) small = (
  λ h. inl (ap pos (ground arith)),
  λ e. elim e [ inl at_500 ↦ ap spot_size at_500 | inr other ↦ absurd (cc (other)) ],
)
spot_size-zero (negsuc n) small = (
  λ h. inr (ap negsuc (ground arith)),
  λ e. elim e [ inl at_500 ↦ absurd (cc (at_500)) | inr other ↦ ap spot_size other ],
)

+ℤ-pos : (a b : ℕ) → pos a +ℤ pos b ≡ pos (a + b)
unfolding ◌+ℤ◌
+ℤ-pos a b = ground arith

random_spot-inside :
    (r n : ℕ)
    → n < 500
    → (s : ℕ) × (random_spot r (pos n) ≡ some (pos s)) × (n ≤ s) × (s + n < 1000)
unfolding random_spot
random_spot-inside r n h =
    let size : ℕ = 1000 - (n + n) in
    let some_room : (size == 0) ≡ false = ground arith in
    (
      r % size + n,
      rw
          (
            spot_size-pos n h,
            some_room,
            +ℤ-pos (r % size) n,
            wrap_int-pos (r % size + n) (omega (arith, mod-lt r {m = size} (omega arith))),
          )
          refl,
      omega arith,
      omega (arith, mod-lt r {m = size} (omega arith)),
    )

random_spot-some :
    (r : ℕ) (radius : ℤ)
    → HasSpots radius
    → random_spot r radius ≡ some (wrap_int (pos (r % spot_size radius) +ℤ radius))
unfolding random_spot
random_spot-some r radius ne = elim (Bool-cases (spot_size radius == 0)) [
  | inl zero_size ↦ absurd (ne (ground arith))
  | inr sized ↦ rw sized refl
]

start_speed-two : (r : ℕ) → speed_of (start_speed r) ≡ 2
unfolding start_speed
start_speed-two r = ground arith

module _ (machine : Machine) where
  -- The coordinate is that of a number as far from both edges as the radius.
  abbrev pub IsInside : ℕ → machine.Coord → Type 0
  IsInside n c = (s : ℕ) × (c ≡ machine.of_int (pos s)) × (n ≤ s) × (s + n < 1000)

  -- With a radius from 0 to 499, `create_logical_ball` makes a ball of the given id and owner that is
  -- inside along both axes, by its radius, and moves by 2 along both.
  pub create_logical_ball-IsInside :
      (r_x r_y r_dx r_dy id n owner_id : ℕ)
      → n < 500
      → (b : LogicalBall machine) × (create_logical_ball machine
            (r_x, r_y, r_dx, r_dy)
            id
            (pos n)
            owner_id
          ≡ some b)
        × IsInside n b.x
        × IsInside n b.y
        × (speed_of b.dx ≡ 2)
        × (speed_of b.dy ≡ 2)
        × (b.id ≡ id)
        × (b.owner_id ≡ owner_id)
  unfolding create_logical_ball
  create_logical_ball-IsInside r_x r_y r_dx r_dy id n owner_id h =
      let (s_x, x_lem, x_low, x_high) = random_spot-inside r_x n h in
      let (s_y, y_lem, y_low, y_high) = random_spot-inside r_y n h in
      (
        record {
          id = id;
          x = machine.of_int (pos s_x);
          y = machine.of_int (pos s_y);
          dx = start_speed r_dx;
          dy = start_speed r_dy;
          radius = pos n;
          owner_id = owner_id;
          color = get_color_by_owner owner_id;
        },
        rw (x_lem, create_logical_ball, y_lem) refl,
        (s_x, refl, x_low, x_high),
        (s_y, refl, y_low, y_high),
        start_speed-two r_dx,
        start_speed-two r_dy,
        refl,
        refl,
      )

  -- With a radius whose divisor is not 0 there is a ball, of the given id and owner.
  pub create_logical_ball-some :
      (r_x r_y r_dx r_dy id : ℕ) (radius : ℤ) (owner_id : ℕ)
      → HasSpots radius
      → (b : LogicalBall machine) × (create_logical_ball machine
            (r_x, r_y, r_dx, r_dy)
            id
            radius
            owner_id
          ≡ some b)
        × (b.id ≡ id)
        × (b.owner_id ≡ owner_id)
  unfolding create_logical_ball
  create_logical_ball-some r_x r_y r_dx r_dy id radius owner_id ne = (
    record {
      id = id;
      x = machine.of_int (wrap_int (pos (r_x % spot_size radius) +ℤ radius));
      y = machine.of_int (wrap_int (pos (r_y % spot_size radius) +ℤ radius));
      dx = start_speed r_dx;
      dy = start_speed r_dy;
      radius = radius;
      owner_id = owner_id;
      color = get_color_by_owner owner_id;
    },
    rw (random_spot-some r_x radius ne, create_logical_ball, random_spot-some r_y radius ne) refl,
    refl,
    refl,
  )

  -- With an int as the radius: `create_logical_ball` divides by 0 exactly if the radius is 500 or
  -- -2147483148, for which 1000 - 2 * radius wraps around to 0.
  pub create_logical_ball-none :
      (r_x r_y r_dx r_dy id : ℕ) (radius : ℤ) (owner_id : ℕ)
      → IsInt radius
      → (create_logical_ball machine (r_x, r_y, r_dx, r_dy) id radius owner_id ≡ none)
        ↔ HasNoSpots radius
  unfolding create_logical_ball random_spot
  create_logical_ball-none r_x r_y r_dx r_dy id radius owner_id small =
      let zeros = spot_size-zero radius small in
      elim (Bool-cases (spot_size radius == 0)) [
        | inl zero_size ↦
            rw (create_logical_ball, zero_size) ((λ e. zeros.0 (ground arith)), (λ e. refl))
        | inr sized ↦
            rw (create_logical_ball, sized) ((λ e. cc), (λ e. absurd (ground (arith, zeros.1 e))))
      ]
