-- ===== src/Balls/Manager/Count.antt =====
-- `count_ball_by_owner` of src/server/localballmanager.c, which the log of a deletion calls.
use owner_based_ball_game.Balls.{LogicalBall, Machine}
use owner_based_ball_game.Balls.Manager.{BallListManager, count_ball_by_owner, delete_ball}
use owner_based_ball_game.Balls.Manager.Delete.{delete_ball-keep_first, keep_first, owned_count}
use owner_based_ball_game.Balls.Manager.IsList.{IsList}
use owner_based_ball_game.Base.{
  Bool-cases, List, [], ap, arith, false, if◌then◌else◌, inl, inr, length, refl, suc, zero, ℕ, ◌-◌,
  ◌<◌, ◌==◌, ◌∙◌, ◌∷◌, ◌≡◌, ◌≤◌,
}
use owner_based_ball_game.Memory.{Memory, Ptr, and_then, ends, null}
use owner_based_ball_game.Memory.Chain.{Linked, first_ptr}
use owner_based_ball_game.Memory.LinkedList.{load-ends}

module _ (machine : Machine) (owner : ℕ) where
  count_ball_by_owner-ends :
      (k : ℕ) (xs : List (Ptr × LogicalBall machine)) (m : Memory (LogicalBall machine))
      → Linked m.cells xs null
      → length xs < k
      → count_ball_by_owner machine k (first_ptr xs null) owner m
        ≡ ends (owned_count machine owner xs) m
  unfolding count_ball_by_owner owned_count
  count_ball_by_owner-ends zero xs m l enough = absurd (omega arith)
  count_ball_by_owner-ends (suc k) [] m l enough = refl
  count_ball_by_owner-ends (suc k) ((p, b) ∷ xs) m (ne, e, l) enough =
      let on : (p == null) ≡ false = ground arith in
      rw (on, load-ends p _ m ne e, count_ball_by_owner-ends k xs m l (omega arith))
        (elim (Bool-cases (b.owner_id == owner)) [
          | inl own ↦ rw own (ap (λ (c : ℕ). ends c m) (omega arith))
          | inr other ↦ rw other (ap (λ (c : ℕ). ends c m) (omega arith))
        ])

  pub owned_count-keep_first :
      (k : ℕ) (xs : List (Ptr × LogicalBall machine))
      → k ≤ owned_count machine owner xs
      → owned_count machine owner (keep_first machine owner k xs) ≡ k
  unfolding owned_count keep_first
  owned_count-keep_first k [] le = omega arith
  owned_count-keep_first zero ((p, b) ∷ xs) le =
      ground (arith, owned_count-keep_first zero xs (omega arith))
  owned_count-keep_first (suc k) ((p, b) ∷ xs) le = elim (Bool-cases (b.owner_id == owner)) [
    | inl own ↦ rw own (ap suc (owned_count-keep_first k xs (omega (arith, rw own at le))))
    | inr other ↦ rw other (owned_count-keep_first (suc k) xs (rw other at le))
  ]

  length-keep_first :
      (k : ℕ) (xs : List (Ptr × LogicalBall machine))
      → length (keep_first machine owner k xs) ≤ length xs
  unfolding keep_first
  length-keep_first k [] = omega arith
  length-keep_first zero ((p, b) ∷ xs) = ground (arith, length-keep_first zero xs)
  length-keep_first (suc k) ((p, b) ∷ xs) =
      let shorter = length-keep_first (if b.owner_id == owner then k else suc k) xs in omega arith

  -- Behind `delete_ball`, `count_ball_by_owner` finds as many balls of the owner as there were, less
  -- the number that was to be deleted, or none.
  pub count_ball_by_owner-delete_ball :
      (fuel count : ℕ) (xs : List (Ptr × LogicalBall machine)) (m : Memory (LogicalBall machine))
      (manager : BallListManager)
      → IsList machine m manager xs
      → 1 ≤ count
      → count ≤ machine.vla_room
      → length xs < fuel
      → (m' : Memory (LogicalBall machine)) × (and_then
            (delete_ball machine fuel count owner manager m)
            (λ manager'. count_ball_by_owner machine fuel manager'.head owner)
          ≡ ends (owned_count machine owner xs - count) m')
  count_ball_by_owner-delete_ball fuel count xs m manager is some_balls room enough =
      let h =
        delete_ball-keep_first machine owner fuel count xs m manager is some_balls room enough in
      let k = owned_count machine owner xs - count in
      let shorter = length-keep_first k xs in
      (
        h.memory,
        rw (h.run_lem, h.list_lem.list.head_lem)
            (count_ball_by_owner-ends fuel (keep_first machine owner k xs) h.memory
                h.list_lem.list.linked (omega arith)
              ∙ ap (λ (c : ℕ). ends c h.memory) (owned_count-keep_first k xs (omega arith))),
      )
