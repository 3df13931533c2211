-- ===== src/Tests/BallList.antt =====
-- The server's lists in memory at concrete nodes, with integers for the machine.
use owner_based_ball_game.Balls.{HasSpots, LogicalBall, spot_size, wrap_int}
use owner_based_ball_game.Balls.Dispatch.{at_least_one, dispatch_command, rounds}
use owner_based_ball_game.Balls.Dispatch.Commands.{OthersKept, dispatch_command-OthersKept}
use owner_based_ball_game.Balls.Manager.{
  BallListManager, Round, add_ball, delete_ball, delete_ball_by_socket,
}
use owner_based_ball_game.Balls.Manager.Add.{FreshRounds}
use owner_based_ball_game.Balls.Manager.Delete.{
  delete_ball-keep_first, keep_first, left_out, owned_count,
}
use owner_based_ball_game.Balls.Manager.IsList.{EndsWith, IsList}
use owner_based_ball_game.Balls.Manager.Sweep.{delete_ball_by_socket-keep_first}
use owner_based_ball_game.Balls.Manager.Undo.{delete_ball-add_ball}
use owner_based_ball_game.Base.{
  List, [], arith, if◌then◌else◌, none, pos, refl, some, ℕ, ◌++◌, ◌+ℤ◌, ◌+◌, ◌-ℤ◌, ◌-◌, ◌==◌, ◌∷◌,
  ◌≡◌,
}
use owner_based_ball_game.Clients.{ClientListManager, SocketContext, create_client, drop_client}
use owner_based_ball_game.Clients.Leaving.{
  EndsWithClients, IsClientList, closed_socket, drop_client-without_client, without_client,
}
use owner_based_ball_game.Memory.{Memory, Ptr, and_then, append_node, cell, ends, fault, null}
use owner_based_ball_game.Memory.Append.{append_node-failed}
use owner_based_ball_game.Memory.LinkedList.{IsLinkedList}
use owner_based_ball_game.Tests.BallCommands.{ball_of, whole}

abbrev pub two_balls : List (Ptr × LogicalBall whole)
two_balls = (10, ball_of 5 (pos 2) (pos 2)) ∷ (11, ball_of 6 (pos 2) (pos 2)) ∷ []

abbrev pub two_nodes : Memory (LogicalBall whole)
two_nodes = record {
  cells = λ p.
      if p == 10
      then some (cell (ball_of 5 (pos 2) (pos 2)) 11)
      else if p == 11
      then some (cell (ball_of 6 (pos 2) (pos 2)) null)
      else none;
  stale_reads = [];
}

abbrev pub two_manager : BallListManager
two_manager = record { head = 10; tail = 11; total_count = 2 }

two_linked : IsLinkedList two_nodes 10 11 two_balls
two_linked = record {
  linked = (omega arith, refl, (omega arith, refl, tt));
  distinct = (refl, (refl, tt));
  head_lem = refl;
  tail_lem = refl;
  only_lem = λ b out. ground arith;
}

pub two_IsList : IsList whole two_nodes two_manager two_balls
two_IsList = record { list = two_linked; count = refl }

abbrev pub round_at : ℕ → Round
round_at k = record { rands = (7, 8, 4, 5); address = 100 + k }

append_node-failed_example :
    (m : Memory (LogicalBall whole)) × (append_node null (ball_of 5 (pos 2) (pos 2)) 10 11 two_nodes
      ≡ ends (10, null) m)
    × ((p : Ptr) (w : LogicalBall whole) → append_node p w 10 null m ≡ fault)
append_node-failed_example =
    append_node-failed two_nodes 10 (ball_of 5 (pos 2) (pos 2))
      ((11, ball_of 6 (pos 2) (pos 2)) ∷ []) (ball_of 5 (pos 2) (pos 2)) two_linked.linked

delete_ball-keep_first_example :
    EndsWith whole
      (delete_ball whole 3 1 5 two_manager two_nodes)
      (keep_first whole 5 (owned_count whole 5 two_balls - 1) two_balls)
      (left_out whole 5 (owned_count whole 5 two_balls - 1) two_balls ++ [])
delete_ball-keep_first_example =
    delete_ball-keep_first whole 5 3 1 two_balls two_nodes two_manager two_IsList (omega arith)
      (omega arith) (omega arith)

-- The ball at 10 goes, and is printed once it is freed.
deleted_example :
    (keep_first whole 5 (owned_count whole 5 two_balls - 1) two_balls
      ≡ (11, ball_of 6 (pos 2) (pos 2)) ∷ [])
    × (left_out whole 5 (owned_count whole 5 two_balls - 1) two_balls ≡ 10 ∷ [])
unfolding keep_first owned_count left_out
deleted_example = (refl, refl)

delete_ball_by_socket-keep_first_example :
    EndsWith whole
      (delete_ball_by_socket whole 3 6 two_manager two_nodes)
      (keep_first whole 6 0 two_balls)
      []
delete_ball_by_socket-keep_first_example =
    delete_ball_by_socket-keep_first whole 6 3 two_balls two_nodes two_manager two_IsList
      (omega arith)

pub thirty : HasSpots (pos 30)
unfolding spot_size wrap_int ◌+ℤ◌ ◌-ℤ◌
thirty = λ e. absurd (omega (arith, e))

pub fresh_rounds : FreshRounds whole two_nodes (round_at 0 ∷ round_at 1 ∷ [])
fresh_rounds = (omega arith, refl, (refl, tt), (omega arith, refl, tt, tt))

delete_ball-add_ball_example :
    (stale : List Ptr) × EndsWith whole
      (and_then
        (add_ball whole (round_at 0 ∷ round_at 1 ∷ []) (pos 30) 5 two_manager two_nodes)
        (delete_ball whole 5 2 5))
      two_balls
      stale
delete_ball-add_ball_example =
    delete_ball-add_ball whole 5 (round_at 0 ∷ round_at 1 ∷ []) (pos 30) 5 two_balls two_nodes
      two_manager two_IsList thirty fresh_rounds (omega arith) (omega arith) (omega arith)

dispatch_command-OthersKept_example :
    OthersKept whole 5 97
      (pos 2)
      (dispatch_command whole 3 round_at 97 (pos 2) (pos 30) 5 two_manager two_nodes)
      two_balls
unfolding rounds at_least_one
dispatch_command-OthersKept_example =
    dispatch_command-OthersKept whole 5 3 (pos 30) round_at (pos 2) two_balls two_nodes two_manager
      two_IsList 97 (λ _. (thirty, fresh_rounds), λ e. absurd (omega arith)) (omega arith)

abbrev pub two_clients : List (Ptr × SocketContext ℕ)
two_clients = (20, create_client 5 1) ∷ (21, create_client 6 1) ∷ []

abbrev pub client_nodes : Memory (SocketContext ℕ)
client_nodes = record {
  cells = λ p.
      if p == 20
      then some (cell (create_client 5 1) 21)
      else if p == 21
      then some (cell (create_client 6 1) null)
      else none;
  stale_reads = [];
}

abbrev pub client_manager : ClientListManager
client_manager = record { head = 20; tail = 21; client_count = 2 }

pub clients_IsClientList : IsClientList client_nodes client_manager two_clients
clients_IsClientList = record {
  list = record {
    linked = (omega arith, refl, (omega arith, refl, tt));
    distinct = (refl, (refl, tt));
    head_lem = refl;
    tail_lem = refl;
    only_lem = λ b out. ground arith;
  };
  count = refl;
}

drop_client-without_client_example :
    EndsWithClients
      (drop_client 3 6 client_manager client_nodes)
      (closed_socket 6 two_clients)
      (without_client 6 two_clients)
drop_client-without_client_example =
    drop_client-without_client 3 6 two_clients client_nodes client_manager clients_IsClientList
      (omega arith)
