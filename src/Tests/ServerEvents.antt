-- ===== src/Tests/ServerEvents.antt =====
-- The events of the server at concrete nodes.
use owner_based_ball_game.Balls.{
  LogicalBall, create_logical_ball, get_color_by_owner, move_axis, move_logical_ball, random_spot,
  spot_size, start_speed, turn_back,
}
use owner_based_ball_game.Balls.Dispatch.{
  at_least_one, dispatch_command, handle_add, move_ball_list, rounds,
}
use owner_based_ball_game.Balls.Manager.{
  Round, add_ball, add_one, delete_ball_by_socket, sweep, sweep_ball,
}
use owner_based_ball_game.Balls.Manager.Delete.{owned_count}
use owner_based_ball_game.Balls.Manager.IsList.{IsList}
use owner_based_ball_game.Base.{List, [], arith, pos, refl, some, ℕ, ◌+ℤ◌, ◌+◌, ◌-ℤ◌, ◌∷◌, ◌≡◌, ◌≤◌}
use owner_based_ball_game.Clients.{
  accept_client, add_client, drop_client, release_client, remove_client_by_socket, remove_from,
  unlink_client,
}
use owner_based_ball_game.Memory.{
  Ptr, append_node, create_node, each_node, free, load, put_cell, set_next, set_value,
}
use owner_based_ball_game.Server.{Server, manager_init}
use owner_based_ball_game.Server.Connected.{close_socket, is_open}
use owner_based_ball_game.Server.Events.{AllAllowed, IsRunning, behind_all}
use owner_based_ball_game.Server.Handle.{
  ServerEvent, commands, connects, goes, handle, handle_all, moves,
}
use owner_based_ball_game.Server.Histories.{commands-orphaned, manager_init-IsRunning}
use owner_based_ball_game.Tests.BallCommands.{whole}
use owner_based_ball_game.Tests.BallList.{
  client_manager, client_nodes, clients_IsClientList, fresh_rounds, round_at, thirty, two_IsList,
  two_balls, two_clients, two_manager, two_nodes,
}

abbrev pub two_players : Server ℕ whole
two_players = record {
  clients = client_manager;
  client_memory = client_nodes;
  balls = two_manager;
  ball_memory = two_nodes;
}

unfoldable pub two_IsRunning : IsRunning (5 ∷ 6 ∷ []) two_players
unfolding is_open
two_IsRunning = record {
  client_nodes = two_clients;
  ball_nodes = two_balls;
  clients_lem = clients_IsClientList;
  balls_lem = two_IsList;
  sockets_lem = refl;
  owners_lem = (refl, (refl, tt));
}

commands-orphaned_example :
    (s' : Server ℕ whole) × (handle ℕ whole (commands 7 97 (pos 2) (pos 30) round_at) two_players
      ≡ some s')
    × (zs : List (Ptr × LogicalBall whole)) × IsList whole s'.ball_memory s'.balls zs
    × (1 ≤ owned_count whole 7 zs)
unfolding rounds at_least_one is_open
commands-orphaned_example =
    commands-orphaned 7 (pos 2) (pos 30) round_at (5 ∷ 6 ∷ []) two_players two_IsRunning refl thirty
      fresh_rounds (omega arith)

abbrev late : ℕ → Round
late k = round_at (10 + k)

abbrev history : List (ServerEvent ℕ whole)
history = connects 7 5 1 round_at ∷ commands 5 97 (pos 1) (pos 30) late ∷ moves ∷ goes 5 ∷ []

allowed : AllAllowed history [] (manager_init ℕ whole)
unfolding handle accept_client add_client append_node create_node set_next load put_cell add_ball
    add_one create_logical_ball random_spot spot_size start_speed get_color_by_owner ◌+ℤ◌ ◌-ℤ◌
    rounds dispatch_command handle_add at_least_one move_ball_list each_node set_value
    move_logical_ball move_axis turn_back drop_client remove_client_by_socket remove_from
    unlink_client release_client free delete_ball_by_socket sweep sweep_ball is_open close_socket
allowed = (
  (
    omega arith,
    refl,
    (
      omega arith,
      refl,
      (refl, (refl, (refl, (refl, tt)))),
      (
        omega arith,
        refl,
        (refl, (refl, (refl, tt))),
        (
          omega arith,
          refl,
          (refl, (refl, tt)),
          (omega arith, refl, (refl, tt), (omega arith, refl, tt, tt)),
        ),
      ),
    ),
  ),
  (
    (refl, (λ _. (thirty, (omega arith, refl, tt, tt)), λ e. absurd (omega arith)), omega arith),
    (omega arith, (tt, tt)),
  ),
)

manager_init-IsRunning_example :
    (s : Server ℕ whole) × (handle_all ℕ whole history (manager_init ℕ whole) ≡ some s)
    × IsRunning (behind_all history []) s
manager_init-IsRunning_example = manager_init-IsRunning history allowed
