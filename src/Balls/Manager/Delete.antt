-- ===== src/Balls/Manager/Delete.antt =====
-- `delete_ball` of src/server/localballmanager.c, against the list of the balls.
use owner_based_ball_game.Balls.{LogicalBall, Machine}
use owner_based_ball_game.Balls.Manager.{
  BallListManager, Candidate, delete_ball, find_balls, is_linked, keep_last, unlink_ball,
  unlink_balls,
}
use owner_based_ball_game.Balls.Manager.IsList.{
  EndsWith, IsList, eq-manager_of, is_linked-ends, manager_of, take_out-IsList, take_out_and_print,
  unlink_ball-ends,
}
use owner_based_ball_game.Balls.Manager.LastOf.{keep_all, keep_all-last_of, last_of}
use owner_based_ball_game.Base.{
  Bool-cases, List, [], ap, append_assoc, arith, drop, false, if◌then◌else◌, inl, inr, leb, length,
  refl, suc, sym, true, zero, ℕ, ◌++◌, ◌-◌, ◌<◌, ◌==◌, ◌∙◌, ◌∷◌, ◌≡◌, ◌≤◌,
}
use owner_based_ball_game.Memory.{Memory, Ptr, Run, and_then, ends, null, pure}
use owner_based_ball_game.Memory.Chain.{Linked, first_ptr, last_ptr, last_ptr-append}
use owner_based_ball_game.Memory.LinkedList.{load-ends}

module _ (machine : Machine) (owner : ℕ) where
  -- The list without the balls of the owner, but for the first `k` of them.
  unfoldable pub keep_first :
      ℕ → List (Ptr × LogicalBall machine) → List (Ptr × LogicalBall machine)
  keep_first k [] = []
  keep_first zero ((p, b) ∷ xs) =
      let rest = keep_first zero xs in if b.owner_id == owner then rest else (p, b) ∷ rest
  keep_first (suc k) ((p, b) ∷ xs) =
      (p, b) ∷ keep_first (if b.owner_id == owner then k else suc k) xs

  unfoldable pub owned_count : List (Ptr × LogicalBall machine) → ℕ
  owned_count [] = 0
  owned_count ((p, b) ∷ xs) =
      let rest = owned_count xs in if b.owner_id == owner then suc rest else rest

  -- the addresses of the balls that `keep_first` leaves out
  unfoldable pub left_out : ℕ → List (Ptr × LogicalBall machine) → List Ptr
  left_out k [] = []
  left_out zero ((p, b) ∷ xs) =
      let rest = left_out zero xs in if b.owner_id == owner then p ∷ rest else rest
  left_out (suc k) ((p, b) ∷ xs) = left_out (if b.owner_id == owner then k else suc k) xs

  -- all candidates of a list, behind the node `prev`
  unfoldable pub candidates : Ptr → List (Ptr × LogicalBall machine) → List Candidate
  candidates prev [] = []
  candidates prev ((p, b) ∷ xs) =
      let rest = candidates p xs in if b.owner_id == owner then (p, prev) ∷ rest else rest

  length-candidates :
      (prev : Ptr) (xs : List (Ptr × LogicalBall machine))
      → length (candidates prev xs) ≡ owned_count xs
  unfolding candidates owned_count
  length-candidates prev [] = refl
  length-candidates prev ((p, b) ∷ xs) = ground (arith, length-candidates p xs)

  find_balls-ends :
      (k count : ℕ) (prev : Ptr) (xs : List (Ptr × LogicalBall machine)) (found : List Candidate)
      (m : Memory (LogicalBall machine))
      → Linked m.cells xs null
      → length xs < k
      → find_balls machine k count owner prev (first_ptr xs null) found m
        ≡ ends (keep_all count found (candidates prev xs)) m
  unfolding find_balls candidates
  find_balls-ends zero count prev xs found m l fuel = absurd (omega arith)
  find_balls-ends (suc k) count prev [] found m l fuel = refl
  find_balls-ends (suc k) count prev ((p, b) ∷ xs) found m (ne, e, l) fuel =
      let not_null : (p == null) ≡ false = ground arith in
      rw (not_null, load-ends p _ m ne e)
        (elim (Bool-cases (b.owner_id == owner)) [
          | inl own ↦
              rw own
                (find_balls-ends k count p xs (keep_last count found (p, prev)) m l (omega arith))
          | inr other ↦ rw other (find_balls-ends k count p xs found m l (omega arith))
        ])

  drop-nil : (k : ℕ) → ◌≡◌ {A = List Candidate} (drop k []) []
  drop-nil zero = refl
  drop-nil (suc k) = refl

  -- a round of the second loop, behind the rounds of the later candidates
  unlink_one :
      (run : Run (LogicalBall machine) BallListManager) (pre : List (Ptr × LogicalBall machine))
      (p : Ptr) (b : LogicalBall machine) (zs : List (Ptr × LogicalBall machine)) (stale : List Ptr)
      → EndsWith machine run (pre ++ ((p, b) ∷ zs)) stale
      → EndsWith machine
          (and_then run λ manager' m'.
            and_then (is_linked machine (p, last_ptr null pre) m') λ linked.
              if linked then unlink_ball machine (p, last_ptr null pre) manager' else pure manager')
          (pre ++ zs)
          (p ∷ stale)
  unlink_one run pre p b zs stale h =
      let is = take_out-IsList machine h.memory h.manager pre p b zs h.list_lem in
      record {
        manager = manager_of machine (pre ++ zs);
        memory = take_out_and_print machine pre p zs h.memory;
        run_lem = rw (
          h.run_lem,
          is_linked-ends machine h.memory h.manager pre p b zs h.list_lem,
          unlink_ball-ends machine h.memory h.manager pre p b zs h.list_lem,
        );
        list_lem = record {
          list = record {
            linked = is.list.linked;
            distinct = is.list.distinct;
            head_lem = refl;
            tail_lem = refl;
            only_lem = is.list.only_lem;
          };
          count = refl;
        };
        stale_lem = ap (λ (ps : List Ptr). p ∷ ps) h.stale_lem;
      }

  unlink_balls-ends :
      (k : ℕ) (pre xs : List (Ptr × LogicalBall machine)) (m : Memory (LogicalBall machine))
      (manager : BallListManager)
      → IsList machine m manager (pre ++ xs)
      → EndsWith machine
          (unlink_balls machine (drop k (candidates (last_ptr null pre) xs)) manager m)
          (pre ++ keep_first k xs)
          (left_out k xs ++ m.stale_reads)
  unfolding unlink_balls candidates keep_first left_out
  unlink_balls-ends k pre [] m manager is =
      rw (drop-nil k)
        (record { manager = manager; memory = m; run_lem = refl; list_lem = is; stale_lem = refl })
  unlink_balls-ends zero pre ((p, b) ∷ xs) m manager is =
      let ih =
        rw (last_ptr-append null pre ((p, b) ∷ []), append_assoc) at
          (unlink_balls-ends zero (pre ++ ((p, b) ∷ [])) xs m manager
            (rw (append_assoc pre ((p, b) ∷ []) xs) is)) in
      elim (Bool-cases (b.owner_id == owner)) [
        | inl own ↦ rw own (unlink_one _ pre p b (keep_first zero xs) _ ih)
        | inr other ↦ rw other ih
      ]
  unlink_balls-ends (suc k) pre ((p, b) ∷ xs) m manager is =
      let ih = λ (j : ℕ).
        rw (last_ptr-append null pre ((p, b) ∷ []), append_assoc) at
          (unlink_balls-ends j (pre ++ ((p, b) ∷ [])) xs m manager
            (rw (append_assoc pre ((p, b) ∷ []) xs) is)) in
      elim (Bool-cases (b.owner_id == owner)) [
        | inl own ↦ rw own (ih k)
        | inr other ↦ rw other (ih (suc k))
      ]

  -- In a memory that holds a list and nothing else, with a `count` of at least 1 whose arrays fit the
  -- stack, and with fuel for the balls: `delete_ball` ends with the list without the last `count` balls of the owner, or without all of them if there are not more,
  -- and nothing else; their nodes are printed behind the end of their lives.
  pub delete_ball-keep_first :
      (fuel count : ℕ) (xs : List (Ptr × LogicalBall machine)) (m : Memory (LogicalBall machine))
      (manager : BallListManager)
      → IsList machine m manager xs
      → 1 ≤ count
      → count ≤ machine.vla_room
      → length xs < fuel
      → EndsWith machine
          (delete_ball machine fuel count owner manager m)
          (keep_first (owned_count xs - count) xs)
          (left_out (owned_count xs - count) xs ++ m.stale_reads)
  unfolding delete_ball
  delete_ball-keep_first fuel count xs m manager is some_balls room enough =
      let fits : leb count machine.vla_room ≡ true = ground arith in
      let e = eq-manager_of machine m manager xs is in
      let last : keep_all count [] (candidates null xs) ≡ last_of count (candidates null xs) =
        ap (λ found. keep_all count found (candidates null xs)) (sym (drop-nil (0 - count)))
        ∙ keep_all-last_of count [] (candidates null xs) some_balls in
      rw
        (
          fits,
          e,
          find_balls-ends fuel count null xs [] m is.list.linked enough,
          last,
          length-candidates null xs,
        )
        (unlink_balls-ends (owned_count xs - count) [] xs m (manager_of machine xs) (rw e at is))
