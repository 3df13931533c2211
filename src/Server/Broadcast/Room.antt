-- ===== src/Server/Broadcast/Room.antt =====
-- The length of what the serialisation of src/server/localballmanager.c writes, against its buffer.
use owner_based_ball_game.Balls.{LogicalBall, Machine}
use owner_based_ball_game.Base.{
  All, Bool, Bool-cases, List, [], arith, if◌then◌else◌, inl, inr, length, length-append, lt→ltb,
  map, refl, some, suc, take, zero, ℕ, ◌*◌, ◌<◌, ◌∙◌, ◌∷◌, ◌≡◌, ◌≤◌,
}
use owner_based_ball_game.Memory.{Ptr}
use owner_based_ball_game.Server.{Server}
use owner_based_ball_game.Server.Broadcast.{
  ball_text, broadcast_ball_state, broadcast_ball_state_all,
}
use owner_based_ball_game.Server.Broadcast.Sent.{
  balls_text, broadcast_ball_state-sent, broadcast_ball_state_all-sent, own_text, own_texts,
  whole_text,
}
use owner_based_ball_game.Server.Events.{HasLists}
use owner_based_ball_game.Text.{Text}

length-take : (k : ℕ) (t : Text) → length (take k t) ≤ k
length-take zero t = omega arith
length-take (suc k) [] = omega arith
length-take (suc k) (c ∷ t) = omega (arith, length-take k t)

module _ {machine : Machine} where
  length-balls_text :
      (takes : LogicalBall machine → Bool) (number : LogicalBall machine → ℕ)
      (xs : List (Ptr × LogicalBall machine))
      → length (balls_text takes number xs) ≤ 255 * length xs
  unfolding balls_text
  length-balls_text takes number [] = omega arith
  length-balls_text takes number ((p, b) ∷ xs) =
      let rest = length-balls_text takes number xs in
      let one : Text = if takes b then take 255 (ball_text machine (number b) b) else [] in
      let short : length one ≤ 255 = elim (Bool-cases (takes b)) [
        | inl taken ↦ rw taken (length-take 255 (ball_text machine (number b) b))
        | inr left ↦ rw left (omega arith)
      ] in
      omega (arith, rest, short, length-append one (balls_text takes number xs))

  text_fits :
      (takes : LogicalBall machine → Bool) (number : LogicalBall machine → ℕ)
      (xs : List (Ptr × LogicalBall machine))
      → length xs ≤ 32
      → length (balls_text takes number xs) < 8192
  text_fits takes number xs few = omega (arith, length-balls_text takes number xs)

  texts_fit :
      (xs : List (Ptr × LogicalBall machine)) (fds : List ℕ)
      → length xs ≤ 32
      → All (λ fd. length (own_text fd xs) < 8192) fds
  texts_fit xs [] few = tt
  texts_fit xs (fd ∷ fds) few = (text_fits _ _ xs few, texts_fit xs fds few)

module _ {Address : Type 0} {machine : Machine} (live : List ℕ) (s : Server Address machine)
    (h : HasLists live s) (few : s.balls.total_count ≤ 32) where
  few_nodes : length h.ball_nodes ≤ 32
  few_nodes = omega (arith, few, h.balls_lem.count)

  -- With at most 32 balls, neither broadcast writes past its buffer.
  pub broadcast_ball_state-some :
      broadcast_ball_state Address machine s ≡ some (own_texts h.ball_nodes live)
  broadcast_ball_state-some =
      broadcast_ball_state-sent live s h (texts_fit h.ball_nodes live few_nodes)

  pub broadcast_ball_state_all-some :
      broadcast_ball_state_all Address machine s
      ≡ some (map (λ fd. (fd, whole_text h.ball_nodes)) live)
  broadcast_ball_state_all-some =
      broadcast_ball_state_all-sent live s h
      ∙ (let fits =
            lt→ltb (length (whole_text h.ball_nodes)) 8192 (text_fits _ _ h.ball_nodes few_nodes) in
          rw fits refl)
