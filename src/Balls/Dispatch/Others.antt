-- ===== src/Balls/Dispatch/Others.antt =====
-- What the command of a player does to the list of balls: it leaves those of the others.
use owner_based_ball_game.Balls.{LogicalBall, Machine, speed_down_ball, speed_up_ball}
use owner_based_ball_game.Balls.Dispatch.{Supply, at_least_one, rounds}
use owner_based_ball_game.Balls.Manager.Delete.{keep_first, owned_count}
use owner_based_ball_game.Base.{
  Bool-cases, List, [], ap, arith, false, if◌then◌else◌, inl, inr, length, negsuc, pos, refl, suc,
  zero, ℕ, ℤ, ◌++◌, ◌+◌, ◌-◌, ◌==◌, ◌∷◌, ◌≡◌, ◌≤◌,
}
use owner_based_ball_game.Memory.{Ptr}
use owner_based_ball_game.Memory.Values.{map_nodes}

pub length-rounds : (k : ℕ) (supply : Supply) → length (rounds k supply) ≡ k
unfolding rounds
length-rounds zero supply = refl
length-rounds (suc k) supply = ap suc (length-rounds k (λ i. supply (suc i)))

pub at_least_one-positive : (count : ℤ) → 1 ≤ at_least_one count
unfolding at_least_one
at_least_one-positive (pos n) = ground arith
at_least_one-positive (negsuc n) = omega arith

-- The number of a player's balls behind a command.
unfoldable pub count_behind : ℕ → ℤ → ℕ → ℕ
count_behind cmd count k =
    if cmd == 97 then k + at_least_one count else if cmd == 100 then k - at_least_one count else k

-- how many balls a command adds at most
abbrev pub added : ℕ → ℤ → ℕ
added cmd count = if cmd == 97 then at_least_one count else 0

module _ (machine : Machine) (owner : ℕ) where
  -- the nodes of the other players
  abbrev pub others : List (Ptr × LogicalBall machine) → List (Ptr × LogicalBall machine)
  others xs = keep_first machine owner 0 xs

  pub others-keep_first :
      (k : ℕ) (xs : List (Ptr × LogicalBall machine))
      → others (keep_first machine owner k xs) ≡ others xs
  unfolding keep_first
  others-keep_first k [] = refl
  others-keep_first zero ((p, b) ∷ xs) = elim (Bool-cases (b.owner_id == owner)) [
    | inl own ↦ rw own (others-keep_first zero xs)
    | inr other ↦ rw (other, other) (ap (λ ys. (p, b) ∷ ys) (others-keep_first zero xs))
  ]
  others-keep_first (suc k) ((p, b) ∷ xs) = elim (Bool-cases (b.owner_id == owner)) [
    | inl own ↦ rw own (others-keep_first k xs)
    | inr other ↦ rw other (ap (λ ys. (p, b) ∷ ys) (others-keep_first (suc k) xs))
  ]

  length-others :
      (xs : List (Ptr × LogicalBall machine))
      → length xs ≡ owned_count machine owner xs + length (others xs)
  unfolding keep_first owned_count
  length-others [] = refl
  length-others ((p, b) ∷ xs) = ground (arith, length-others xs)

  -- The length of the list behind a command.
  pub length-behind :
      (cmd : ℕ) (count : ℤ) (xs zs : List (Ptr × LogicalBall machine))
      → others zs ≡ others xs
      → owned_count machine owner zs ≡ count_behind cmd count (owned_count machine owner xs)
      → length zs ≤ length xs + added cmd count
  unfolding count_behind
  length-behind cmd count xs zs kept counted_lem =
      ground (arith, length-others xs, length-others zs, ap length kept)

  pub others-append :
      (xs ys : List (Ptr × LogicalBall machine)) → others ys ≡ [] → others (xs ++ ys) ≡ others xs
  unfolding keep_first
  others-append [] ys gone = gone
  others-append ((p, b) ∷ xs) ys gone = rw (others-append xs ys gone)

  -- A change of the velocities of the player's balls.
  abbrev pub OnlyOwn : (LogicalBall machine → LogicalBall machine) → Type 0
  OnlyOwn f =
      (b : LogicalBall machine)
      → ((f b).owner_id ≡ b.owner_id) × ((b.owner_id == owner) ≡ false → f b ≡ b)

  pub map_nodes-others :
      (f : LogicalBall machine → LogicalBall machine) (xs : List (Ptr × LogicalBall machine))
      → OnlyOwn f
      → (others (map_nodes f xs) ≡ others xs)
        × (owned_count machine owner (map_nodes f xs) ≡ owned_count machine owner xs)
  unfolding map_nodes keep_first owned_count
  map_nodes-others f [] only = (refl, refl)
  map_nodes-others f ((p, b) ∷ xs) only =
      let (kept, counted_lem) = map_nodes-others f xs only in
      let (same, other_same) = only b in
      elim (Bool-cases (b.owner_id == owner)) [
        | inl own ↦ (rw (same, own) kept, rw (same, own) (ap suc counted_lem))
        | inr other ↦ (
          rw (other_same other, other) (ap (λ ys. (p, b) ∷ ys) kept),
          rw (other_same other, other) counted_lem,
        )
      ]

  pub speed_up_ball-OnlyOwn : OnlyOwn (speed_up_ball machine owner)
  unfolding speed_up_ball
  speed_up_ball-OnlyOwn b = elim (Bool-cases (b.owner_id == owner)) [
    | inl own ↦ (rw own refl, λ other. ground arith)
    | inr other ↦ (rw other refl, λ other'. rw other refl)
  ]

  pub speed_down_ball-OnlyOwn : OnlyOwn (speed_down_ball machine owner)
  unfolding speed_down_ball
  speed_down_ball-OnlyOwn b = elim (Bool-cases (b.owner_id == owner)) [
    | inl own ↦ (rw own refl, λ other. ground arith)
    | inr other ↦ (rw other refl, λ other'. rw other refl)
  ]
