-- ===== src/Balls/Manager.antt =====
-- The server's list of balls in memory: src/server/localballmanager.c. A manager is updated in place, so a function returns
-- the new one. What goes to the terminal or the log is left out, but for the read in `delete_ball`.
pub mod IsList
pub mod LastOf
pub mod Delete
pub mod Sweep
pub mod Add
pub mod Undo
pub mod Count
use owner_based_ball_game.Balls.{LogicalBall, Machine, create_logical_ball}
use owner_based_ball_game.Base.{
  Bool, List, [], drop, if◌then◌else◌, leb, length, ltb, none, some, suc, true, zero, ℕ, ℤ, ◌++◌,
  ◌+◌, ◌-◌, ◌==◌, ◌∷◌,
}
use owner_based_ball_game.Memory.{
  Cmd, Ptr, append_node, crash, free, free_nodes, load, no_fuel, null, print_node, pure, set_next,
  ◌>>=◌, ◌>>◌,
}

-- `BallListManager`; the counter goes down only with a node that it has counted.
pub record BallListManager : Type 0 where
  pub head : Ptr
  pub tail : Ptr
  pub total_count : ℕ

-- `ball_manager_init`
abbrev pub ball_manager_init : BallListManager
ball_manager_init = record { head = null; tail = null; total_count = 0 }

-- What one round of `add_ball` is given: four numbers by `rand`, an address by `malloc`.
pub record Round : Type 0 where
  pub rands : ℕ × ℕ × ℕ × ℕ
  pub address : Ptr

-- A ball that `delete_ball` may delete, and the node in front of it.
abbrev pub Candidate : Type 0
Candidate = Ptr × Ptr

-- The arrays of `delete_ball`, which keep the last `count` candidates.
unfoldable pub keep_last : ℕ → List Candidate → Candidate → List Candidate
keep_last count found c =
    if ltb (length found) count then found ++ (c ∷ []) else drop 1 found ++ (c ∷ [])

module _ (machine : Machine) where
  -- one round of `add_ball`
  unfoldable pub add_one :
      Round → ℤ → ℕ → BallListManager → Cmd (LogicalBall machine) BallListManager
  unfolding create_logical_ball
  add_one r radius owner_id manager =
      elim (create_logical_ball machine r.rands manager.total_count radius owner_id) [
        | none ↦ crash
        | some b ↦ do
          (head, tail) ← append_node r.address b manager.head manager.tail
          pure (record { head = head; tail = tail; total_count = manager.total_count + 1 })
      ]

  -- `add_ball`, whose `count` is the number of rounds
  unfoldable pub add_ball :
      List Round → ℤ → ℕ → BallListManager → Cmd (LogicalBall machine) BallListManager
  unfolding add_one
  add_ball [] radius owner_id manager = pure manager
  add_ball (r ∷ rs) radius owner_id manager = do
    manager' ← add_one r radius owner_id manager
    add_ball rs radius owner_id manager'

  -- The first loop of `delete_ball`.
  unfoldable pub find_balls :
      ℕ → ℕ → ℕ → Ptr → Ptr → List Candidate → Cmd (LogicalBall machine) (List Candidate)
  unfolding keep_last
  find_balls zero count owner_id prev cur found = λ m. no_fuel
  find_balls (suc k) count owner_id prev cur found = if cur == null then pure found else do
    n ← load cur
    find_balls k count owner_id cur n.next
        (if n.value.owner_id == owner_id then keep_last count found (cur, prev) else found)

  -- `!target_prev || target_prev->next == target`
  unfoldable pub is_linked : Candidate → Cmd (LogicalBall machine) Bool
  is_linked (target, prev) =
      if prev == null then pure true else do p ← load prev; pure (p.next == target)

  -- The rest of a round of the second loop, which prints the ball that it has freed.
  unfoldable pub unlink_ball :
      Candidate → BallListManager → Cmd (LogicalBall machine) BallListManager
  unlink_ball (target, prev) manager = do
    head ← if manager.head == target then (do t ← load target; pure t.next) else pure manager.head
    if prev == null then pure tt else (do t ← load target; set_next prev t.next)
    free target
    print_node target
    pure (record {
      head = head;
      tail = if manager.tail == target then prev else manager.tail;
      total_count = manager.total_count - 1;
    })

  -- The second loop, from the last candidate to the first.
  unfoldable pub unlink_balls :
      List Candidate → BallListManager → Cmd (LogicalBall machine) BallListManager
  unfolding is_linked unlink_ball
  unlink_balls [] manager = pure manager
  unlink_balls (c ∷ cs) manager = do
    manager' ← unlink_balls cs manager
    linked ← is_linked c
    if linked then unlink_ball c manager' else pure manager'

  -- `delete_ball`; its arrays need a `count` of at least 1, as the callers give it, and have to fit the
  -- stack.
  unfoldable pub delete_ball :
      ℕ → ℕ → ℕ → BallListManager → Cmd (LogicalBall machine) BallListManager
  unfolding find_balls unlink_balls
  delete_ball fuel count owner_id manager =
      if leb count machine.vla_room
      then (do
        found ← find_balls fuel count owner_id null manager.head []
        unlink_balls found manager)
      else crash

  -- what `delete_ball_by_socket` does with a ball of the socket
  unfoldable pub sweep_ball :
      Ptr → Ptr → Ptr → BallListManager → Cmd (LogicalBall machine) BallListManager
  sweep_ball prev cur next_ptr manager = do
    head ← if prev == null then pure next_ptr else (set_next prev next_ptr >> pure manager.head)
    free cur
    pure (record {
      head = head;
      tail = if manager.tail == cur then prev else manager.tail;
      total_count = manager.total_count - 1;
    })

  -- The loop of `delete_ball_by_socket`.
  unfoldable pub sweep :
      ℕ → ℕ → Ptr → Ptr → BallListManager → Cmd (LogicalBall machine) BallListManager
  unfolding sweep_ball
  sweep zero socket_fd prev cur manager = λ m. no_fuel
  sweep (suc k) socket_fd prev cur manager = if cur == null then pure manager else do
    n ← load cur
    (manager', prev') ←
        if n.value.owner_id == socket_fd
        then (do manager' ← sweep_ball prev cur n.next manager; pure (manager', prev))
        else pure (manager, cur)
    sweep k socket_fd prev' n.next manager'

  unfoldable pub delete_ball_by_socket :
      ℕ → ℕ → BallListManager → Cmd (LogicalBall machine) BallListManager
  unfolding sweep
  delete_ball_by_socket fuel socket_fd manager = sweep fuel socket_fd null manager.head manager

  -- `count_ball_by_owner`
  unfoldable pub count_ball_by_owner : ℕ → Ptr → ℕ → Cmd (LogicalBall machine) ℕ
  count_ball_by_owner zero head owner_id = λ m. no_fuel
  count_ball_by_owner (suc k) head owner_id = if head == null then pure 0 else do
    n ← load head
    c ← count_ball_by_owner k n.next owner_id
    pure ((if n.value.owner_id == owner_id then 1 else 0) + c)

  -- `ball_manager_destroy`, with `freeBallList`
  unfoldable pub ball_manager_destroy :
      ℕ → BallListManager → Cmd (LogicalBall machine) BallListManager
  ball_manager_destroy fuel manager = do
    _ ← free_nodes (λ b. []) fuel manager.head
    pure (record { head = null; tail = manager.tail; total_count = manager.total_count })
