-- ===== src/Balls/Manager/IsList.antt =====
-- What a manager of balls stands for, and one step of its deletions.
use owner_based_ball_game.Balls.{Machine, LogicalBall}
use owner_based_ball_game.Balls.Manager.{BallListManager, is_linked, sweep_ball, unlink_ball}
use owner_based_ball_game.Base.{
  List, [], arith, false, length, length-append, none, refl, true, ◌++◌, ◌-◌, ◌==◌, ◌∷◌, ◌≡◌,
}
use owner_based_ball_game.Memory.{Memory, Ptr, Run, ends, null, print_node, put_cell, write}
use owner_based_ball_game.Memory.Chain.{Linked-left, first_ptr, has, last_ptr, not_null}
use owner_based_ball_game.Memory.Cut.{at-last_ptr, redirect}
use owner_based_ball_game.Memory.LinkedList.{
  IsLinkedList, at_node, at_node_redirected, free-ends, load-ends, not_in_front, set_next-last_ptr,
  tail-take_out, take_out, take_out-IsLinkedList,
}

module _ (machine : Machine) where
  -- The manager holds these balls, at these addresses and in this order, and has counted them.
  pub record IsList (m : Memory (LogicalBall machine)) (manager : BallListManager)
      (xs : List (Ptr × LogicalBall machine)) : Type 0 where
    pub list : IsLinkedList m manager.head manager.tail xs
    pub count : manager.total_count ≡ length xs

  -- the manager of a list of nodes
  abbrev pub manager_of : List (Ptr × LogicalBall machine) → BallListManager
  manager_of xs = record {
    head = first_ptr xs null;
    tail = last_ptr null xs;
    total_count = length xs;
  }

  pub eq-manager_of :
      (m : Memory (LogicalBall machine)) (manager : BallListManager)
      (xs : List (Ptr × LogicalBall machine))
      → IsList m manager xs
      → manager ≡ manager_of xs
  eq-manager_of m manager xs is = ground (arith, is.list.head_lem, is.list.tail_lem)

  -- the memory behind a deletion, with the freed node that was printed
  abbrev pub take_out_and_print :
      List (Ptr × LogicalBall machine)
      → Ptr
      → List (Ptr × LogicalBall machine)
      → Memory (LogicalBall machine)
      → Memory (LogicalBall machine)
  take_out_and_print xs a ys m = record (take_out xs a ys m) { stale_reads = a ∷ m.stale_reads }

  module _ (m : Memory (LogicalBall machine)) (manager : BallListManager)
      (xs : List (Ptr × LogicalBall machine)) (a : Ptr) (b : LogicalBall machine)
      (ys : List (Ptr × LogicalBall machine)) (is : IsList m manager (xs ++ ((a, b) ∷ ys))) where
    pub take_out-IsList : IsList (take_out xs a ys m) (manager_of (xs ++ ys)) (xs ++ ys)
    take_out-IsList = record {
      list = take_out-IsLinkedList m manager.head manager.tail xs a b ys is.list;
      count = refl;
    }

    count_down : manager.total_count - 1 ≡ length (xs ++ ys)
    count_down = omega (arith, is.count, length-append xs ys, length-append xs ((a, b) ∷ ys))

  first-ne :
      (a p : Ptr) (c : LogicalBall machine) (xs : List (Ptr × LogicalBall machine))
      → has a ((p, c) ∷ xs) ≡ false
      → (p == a) ≡ false
  first-ne a p c xs out = ground arith

  pub is_linked-ends :
      (m : Memory (LogicalBall machine)) (manager : BallListManager)
      (xs : List (Ptr × LogicalBall machine)) (a : Ptr) (b : LogicalBall machine)
      (ys : List (Ptr × LogicalBall machine))
      → IsList m manager (xs ++ ((a, b) ∷ ys))
      → is_linked machine (a, last_ptr null xs) m ≡ ends true m
  unfolding is_linked
  is_linked-ends m manager [] a b ys is = refl
  is_linked-ends m manager ((p, c) ∷ xs) a b ys is =
      let (ne, e) =
        at-last_ptr m.cells p c xs a (Linked-left m.cells ((p, c) ∷ xs) _ null is.list.linked) in
      rw (not_null (last_ptr p xs) ne, load-ends _ _ m ne e) (ground arith)

  pub sweep_ball-ends :
      (m : Memory (LogicalBall machine)) (manager : BallListManager)
      (xs : List (Ptr × LogicalBall machine)) (a : Ptr) (b : LogicalBall machine)
      (ys : List (Ptr × LogicalBall machine))
      → IsList m manager (xs ++ ((a, b) ∷ ys))
      → sweep_ball machine (last_ptr null xs) a (first_ptr ys null) manager m
        ≡ ends (manager_of (xs ++ ys)) (take_out xs a ys m)
  unfolding sweep_ball redirect
  sweep_ball-ends m manager [] a b ys is =
      let (ne, e) = at_node m manager.head manager.tail [] a b ys is.list in
      rw (
        free-ends a _ m ne e,
        tail-take_out m manager.head manager.tail [] a b ys is.list,
        count_down m manager [] a b ys is,
      )
  sweep_ball-ends m manager ((p, c) ∷ xs) a b ys is =
      let (ne, e) = at_node m manager.head manager.tail ((p, c) ∷ xs) a b ys is.list in
      let l = Linked-left m.cells ((p, c) ∷ xs) _ null is.list.linked in
      let (ne', e') = at-last_ptr m.cells p c xs a l in
      let past : Memory (LogicalBall machine) = record m {
        cells = redirect m.cells ((p, c) ∷ xs) (first_ptr ys null);
      } in
      let still = at_node_redirected m manager.head manager.tail ((p, c) ∷ xs) a b ys is.list in
      rw (
        not_null (last_ptr p xs) ne',
        set_next-last_ptr m p c xs a (first_ptr ys null) l,
        free-ends a _ past ne still,
        tail-take_out m manager.head manager.tail ((p, c) ∷ xs) a b ys is.list,
        count_down m manager ((p, c) ∷ xs) a b ys is,
        is.list.head_lem,
      )

  print_freed :
      (a : Ptr) (m : Memory (LogicalBall machine))
      → print_node a (write a none m)
        ≡ ends tt (record (write a none m) { stale_reads = a ∷ m.stale_reads })
  unfolding print_node put_cell
  print_freed a m = let self : (a == a) ≡ true = ground arith in rw (print_node, self)

  pub unlink_ball-ends :
      (m : Memory (LogicalBall machine)) (manager : BallListManager)
      (xs : List (Ptr × LogicalBall machine)) (a : Ptr) (b : LogicalBall machine)
      (ys : List (Ptr × LogicalBall machine))
      → IsList m manager (xs ++ ((a, b) ∷ ys))
      → unlink_ball machine (a, last_ptr null xs) manager m
        ≡ ends (manager_of (xs ++ ys)) (take_out_and_print xs a ys m)
  unfolding unlink_ball redirect
  unlink_ball-ends m manager [] a b ys is =
      let (ne, e) = at_node m manager.head manager.tail [] a b ys is.list in
      let self : (a == a) ≡ true = ground arith in
      rw (
        is.list.head_lem,
        self,
        load-ends a _ m ne e,
        free-ends a _ m ne e,
        print_freed a m,
        tail-take_out m manager.head manager.tail [] a b ys is.list,
        count_down m manager [] a b ys is,
      )
  unlink_ball-ends m manager ((p, c) ∷ xs) a b ys is =
      let (ne, e) = at_node m manager.head manager.tail ((p, c) ∷ xs) a b ys is.list in
      let l = Linked-left m.cells ((p, c) ∷ xs) _ null is.list.linked in
      let (ne', e') = at-last_ptr m.cells p c xs a l in
      let past : Memory (LogicalBall machine) = record m {
        cells = redirect m.cells ((p, c) ∷ xs) (first_ptr ys null);
      } in
      let still = at_node_redirected m manager.head manager.tail ((p, c) ∷ xs) a b ys is.list in
      let out = not_in_front m manager.head manager.tail ((p, c) ∷ xs) a b ys is.list in
      let other = first-ne a p c xs out in
      rw (
        is.list.head_lem,
        other,
        not_null (last_ptr p xs) ne',
        load-ends a _ m ne e,
        set_next-last_ptr m p c xs a (first_ptr ys null) l,
        free-ends a _ past ne still,
        print_freed a past,
        tail-take_out m manager.head manager.tail ((p, c) ∷ xs) a b ys is.list,
        count_down m manager ((p, c) ∷ xs) a b ys is,
      )

  -- The run has ended with a manager that holds the list, and has printed these freed nodes.
  pub record EndsWith (run : Run (LogicalBall machine) BallListManager)
      (zs : List (Ptr × LogicalBall machine)) (stale : List Ptr) : Type 0 where
    pub manager : BallListManager
    pub memory : Memory (LogicalBall machine)
    pub run_lem : run ≡ ends manager memory
    pub list_lem : IsList memory manager zs
    pub stale_lem : memory.stale_reads ≡ stale
