-- ===== src/Balls/Speed.antt =====
-- What the commands of a game do to the velocities of the balls.
use owner_based_ball_game.Balls.{
  BallCommand, Machine, LogicalBall, faster, move, move_axis, move_logical_ball, run_command,
  run_commands, slower, speed_down, speed_down_ball, speed_up, speed_up_ball, turn_back,
}
use owner_based_ball_game.Base.{
  All, Bool-cases, List, [], arith, false, if◌then◌else◌, inl, inr, ltb, map, neg_part, negsuc, pos,
  pos_part, refl, suc, zero, ℕ, ℤ, ◌*◌, ◌+◌, ◌<◌, ◌==◌, ◌||◌, ◌∷◌, ◌≡◌, ◌≢◌, ◌≤◌,
}

abbrev pub speed_of : ℤ → ℕ
speed_of d = pos_part d + neg_part d

-- A ball that moves along both axes, at most at twice MAX_SPEED.
abbrev IsMoving : ℤ → Type 0
IsMoving d = (1 ≤ speed_of d) × (speed_of d ≤ 4000)

speed_up-IsMoving : (d : ℤ) → IsMoving d → IsMoving (speed_up d)
unfolding speed_up
speed_up-IsMoving (pos zero) h = h
speed_up-IsMoving (pos (suc n)) h = ground arith
speed_up-IsMoving (negsuc n) h = ground arith

speed_down-IsMoving : (d : ℤ) → IsMoving d → IsMoving (speed_down d)
unfolding speed_down
speed_down-IsMoving (pos zero) h = h
speed_down-IsMoving (pos (suc n)) h = ground arith
speed_down-IsMoving (negsuc n) h = ground arith

turn_back-IsMoving : (d : ℤ) → IsMoving d → IsMoving (turn_back d)
unfolding turn_back
turn_back-IsMoving (pos zero) h = h
turn_back-IsMoving (pos (suc n)) h = ground arith
turn_back-IsMoving (negsuc n) h = ground arith

All-map {ℓ κ} :
    {A : Type ℓ} {P : A → Type κ} (f : A → A) (xs : List A)
    → ((x : A) → P x → P (f x))
    → All P xs
    → All P (map f xs)
All-map f [] keep h = tt
All-map f (x ∷ xs) keep (h, hs) = (keep x h, All-map f xs keep hs)

module _ (machine : Machine) where
  abbrev pub Moves : LogicalBall machine → Type 0
  Moves b = IsMoving b.dx × IsMoving b.dy

  -- the balls of one owner
  abbrev pub owned : ℕ → List (LogicalBall machine) → List (LogicalBall machine)
  owned owner [] = []
  owned owner (b ∷ bs) = let rest = owned owner bs in if b.owner_id == owner then b ∷ rest else rest

  move_axis-IsMoving :
      (radius : ℤ) (c : machine.Coord) (d : ℤ)
      → IsMoving d
      → IsMoving (move_axis machine radius c d).1
  unfolding move_axis
  move_axis-IsMoving radius c d h =
      let c' = machine.add_int c d in
      elim (Bool-cases (machine.at_low_edge c' radius || machine.at_high_edge c' radius)) [
        | inl edge ↦ rw edge (turn_back-IsMoving d h)
        | inr clear ↦ rw clear h
      ]

  run_command-Moves :
      (c : BallCommand) (bs : List (LogicalBall machine))
      → All Moves bs
      → All Moves (run_command machine c bs)
  unfolding run_command speed_up_ball speed_down_ball move_logical_ball
  run_command-Moves (faster owner) bs = All-map {P = Moves} (speed_up_ball machine owner) bs λ b h.
      elim (Bool-cases (b.owner_id == owner)) [
        | inl own ↦ rw own (speed_up-IsMoving b.dx h.0, speed_up-IsMoving b.dy h.1)
        | inr other ↦ rw other h
      ]
  run_command-Moves (slower owner) bs =
      All-map {P = Moves} (speed_down_ball machine owner) bs λ b h.
        elim (Bool-cases (b.owner_id == owner)) [
          | inl own ↦ rw own (speed_down-IsMoving b.dx h.0, speed_down-IsMoving b.dy h.1)
          | inr other ↦ rw other h
        ]
  run_command-Moves move bs =
      All-map {P = Moves} (move_logical_ball machine) bs
        λ b h. (move_axis-IsMoving b.radius b.x b.dx h.0, move_axis-IsMoving b.radius b.y b.dy h.1)

  -- Whatever the players command and however often the balls move: a ball that moves along both
  -- axes, by at most 4000, goes on to do so; it never stops, and it gets no faster than that.
  pub run_commands-Moves :
      (cs : List BallCommand) (bs : List (LogicalBall machine))
      → All Moves bs
      → All Moves (run_commands machine cs bs)
  unfolding run_commands
  run_commands-Moves [] bs h = h
  run_commands-Moves (c ∷ cs) bs h =
      run_commands-Moves cs (run_command machine c bs) (run_command-Moves c bs h)

  owned-map :
      (owner : ℕ) (f : LogicalBall machine → LogicalBall machine) (bs : List (LogicalBall machine))
      → ((b : LogicalBall machine) → (f b).owner_id ≡ b.owner_id)
      → ((b : LogicalBall machine) → b.owner_id ≡ owner → f b ≡ b)
      → owned owner (map f bs) ≡ owned owner bs
  owned-map owner f [] owners same = refl
  owned-map owner f (b ∷ bs) owners same = elim (Bool-cases (b.owner_id == owner)) [
    | inl own ↦ rw (owners b, own, same b (ground arith), owned-map owner f bs owners same)
    | inr other ↦ rw (owners b, other, owned-map owner f bs owners same)
  ]

  -- A player's commands leave the balls of every other player as they are, in their order.
  pub run_command-owned :
      (o owner : ℕ) (bs : List (LogicalBall machine))
      → o ≢ owner
      → (owned owner (run_command machine (faster o) bs) ≡ owned owner bs)
        × (owned owner (run_command machine (slower o) bs) ≡ owned owner bs)
  unfolding run_command speed_up_ball speed_down_ball
  run_command-owned o owner bs ne = (
    owned-map owner (speed_up_ball machine o) bs
        (λ b. elim (Bool-cases (b.owner_id == o)) [ inl own ↦ rw own | inr other ↦ rw other ])
        (λ b mine. let other : (b.owner_id == o) ≡ false = ground arith in rw other),
    owned-map owner (speed_down_ball machine o) bs
        (λ b. elim (Bool-cases (b.owner_id == o)) [ inl own ↦ rw own | inr other ↦ rw other ])
        (λ b mine. let other : (b.owner_id == o) ≡ false = ground arith in rw other),
  )

speed_of-speed_up :
    (d : ℤ) → speed_of (speed_up d) ≡ (if ltb 2000 (speed_of d) then 2000 else speed_of d * 2)
unfolding speed_up
speed_of-speed_up (pos zero) = refl
speed_of-speed_up (pos (suc n)) = ground arith
speed_of-speed_up (negsuc n) = ground arith

-- From more than half of MAX_SPEED on, one increase takes a velocity beyond MAX_SPEED; the next one
-- takes it back to MAX_SPEED.
pub speed_up-past_max :
    (d : ℤ)
    → 1000 < speed_of d
    → speed_of d ≤ 2000
    → (2000 < speed_of (speed_up d)) × (speed_of (speed_up (speed_up d)) ≡ 2000)
speed_up-past_max d low high = ground (arith, speed_of-speed_up d, speed_of-speed_up (speed_up d))
