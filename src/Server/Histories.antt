-- ===== src/Server/Histories.antt =====
-- The server of src/server/main.c and src/server/server.c from its start on.
use owner_based_ball_game.Balls.{HasSpots, LogicalBall, Machine}
use owner_based_ball_game.Balls.Dispatch.{Supply, at_least_one, rounds}
use owner_based_ball_game.Balls.Dispatch.Commands.{dispatch_command-OthersKept}
use owner_based_ball_game.Balls.Dispatch.Others.{at_least_one-positive, count_behind, length-behind}
use owner_based_ball_game.Balls.Manager.Add.{FreshRounds}
use owner_based_ball_game.Balls.Manager.Delete.{owned_count}
use owner_based_ball_game.Balls.Manager.IsList.{IsList}
use owner_based_ball_game.Base.{
  List, [], ap, arith, false, pos, refl, some, ℕ, ℤ, ◌+◌, ◌∷◌, ◌≡◌, ◌≤◌,
}
use owner_based_ball_game.Memory.{Ptr}
use owner_based_ball_game.Server.{Server, ball_fuel, manager_init, run_task}
use owner_based_ball_game.Server.Broadcast.Room.{broadcast_ball_state-some}
use owner_based_ball_game.Server.Connected.{is_open}
use owner_based_ball_game.Server.Events.{
  AllAllowed, Allowed, HasLists, IsRunning, behind, behind_all,
}
use owner_based_ball_game.Server.Handle.{
  ServerEvent, commands, connects, goes, handle, handle_all, moves, task_round, without_sent,
}
use owner_based_ball_game.Server.Steps.{
  commands-IsRunning, connects-IsRunning, goes-IsRunning, moves-IsRunning, sent_behind-some,
}

module _ {Address : Type 0} {machine : Machine} where
  handle-IsRunning :
      (event : ServerEvent Address machine) (live : List ℕ) (s : Server Address machine)
      → IsRunning live s
      → Allowed event live s
      → (s' : Server Address machine) × (handle Address machine event s ≡ some s')
        × IsRunning (behind event live) s'
  unfolding handle
  handle-IsRunning (connects p csock cliaddr supply) live s h allowed =
      connects-IsRunning p csock cliaddr supply live s h allowed
  handle-IsRunning (goes fd) live s h allowed =
      let (s', run, (h', _)) = goes-IsRunning fd live s h in (s', run, h')
  handle-IsRunning (commands fd cmd count radius supply) live s h allowed =
      let (s', sent, run, (h', _)) =
        commands-IsRunning fd cmd count radius supply live s h allowed in
      (s', ap (without_sent Address machine) run, h')
  handle-IsRunning moves live s h allowed = moves-IsRunning live s h allowed

  handle_all-more :
      (e : ServerEvent Address machine) (es : List (ServerEvent Address machine))
      (s s' s'' : Server Address machine)
      → handle Address machine e s ≡ some s'
      → handle_all Address machine es s' ≡ some s''
      → handle_all Address machine (e ∷ es) s ≡ some s''
  unfolding handle_all
  handle_all-more e es s s' s'' run run' = rw (handle_all, run) run'

  pub handle_all-IsRunning :
      (es : List (ServerEvent Address machine)) (live : List ℕ) (s : Server Address machine)
      → IsRunning live s
      → AllAllowed es live s
      → (s' : Server Address machine) × (handle_all Address machine es s ≡ some s')
        × IsRunning (behind_all es live) s'
  unfolding handle_all
  handle_all-IsRunning [] live s h allowed = (s, refl, h)
  handle_all-IsRunning (e ∷ es) live s h (allowed, later) =
      let (s', run, h') = handle-IsRunning e live s h allowed in
      let (s'', run', h'') = handle_all-IsRunning es (behind e live) s' h' (rw run at later) in
      (s'', handle_all-more e es s s' s'' run run', h'')

  -- Whatever events a new server handles, as long as each is allowed, and with the broadcasts behind
  -- them: no memory is used that is not allocated, but for the printing of deleted balls, and nothing is
  -- written past the buffer of a broadcast; the memory holds both lists and nothing else, their
  -- counters stay right, the clients are those of the open sockets, and every ball belongs to an open socket.
  pub manager_init-IsRunning :
      (es : List (ServerEvent Address machine))
      → AllAllowed es [] (manager_init Address machine)
      → (s : Server Address machine) × (handle_all Address machine es (manager_init Address machine)
          ≡ some s)
        × IsRunning (behind_all es []) s
  manager_init-IsRunning es allowed =
      handle_all-IsRunning es [] (manager_init Address machine) new allowed
    where
      new : IsRunning [] (manager_init Address machine)
      new = record {
        client_nodes = [];
        ball_nodes = [];
        clients_lem = record {
          list = record {
            linked = tt;
            distinct = tt;
            head_lem = refl;
            tail_lem = refl;
            only_lem = λ b out. refl;
          };
          count = refl;
        };
        balls_lem = record {
          list = record {
            linked = tt;
            distinct = tt;
            head_lem = refl;
            tail_lem = refl;
            only_lem = λ b out. refl;
          };
          count = refl;
        };
        sockets_lem = refl;
        owners_lem = tt;
      }

  -- With unused addresses, a radius whose divisor is not 0, and at most 32 balls behind it: a command
  -- `a` of a client that has gone, which was still in the queue: its balls come into the game, although
  -- their socket is not open.
  pub commands-orphaned :
      (fd : ℕ) (count radius : ℤ) (supply : Supply) (live : List ℕ) (s : Server Address machine)
      → IsRunning live s
      → is_open fd live ≡ false
      → HasSpots radius
      → FreshRounds machine s.ball_memory (rounds (at_least_one (pos (at_least_one count))) supply)
      → s.balls.total_count + at_least_one (pos (at_least_one count)) ≤ 32
      → (s' : Server Address machine) × (handle Address machine
            (commands fd 97 count radius supply)
            s
          ≡ some s')
        × (zs : List (Ptr × LogicalBall machine)) × IsList machine s'.ball_memory s'.balls zs
        × (1 ≤ owned_count machine fd zs)
  unfolding handle task_round count_behind
  commands-orphaned fd count radius supply live s h gone spots fresh few =
      let c = pos (at_least_one count) in
      let (zs, _, ended, kept, counted_lem) =
        dispatch_command-OthersKept machine fd (ball_fuel Address machine s) radius supply c
          h.ball_nodes s.ball_memory s.balls h.balls_lem 97
          (λ _. (spots, fresh), λ e. absurd (omega arith)) (omega (arith, h.balls_lem.count)) in
      let s' : Server Address machine = record s {
        balls = ended.manager;
        ball_memory = ended.memory;
      } in
      let lists : HasLists live s' = record {
        client_nodes = h.client_nodes;
        ball_nodes = zs;
        clients_lem = h.clients_lem;
        balls_lem = ended.list_lem;
        sockets_lem = h.sockets_lem;
      } in
      let run : run_task Address machine fd 97 count radius supply s ≡ some s' =
        unfold run_task in rw ended.run_lem refl in
      let behind_lem = length-behind machine fd 97 c h.ball_nodes zs kept counted_lem in
      let few' : s'.balls.total_count ≤ 32 =
        omega (arith, few, behind_lem, h.balls_lem.count, ended.list_lem.count) in
      (
        s',
        ap (without_sent Address machine)
            (sent_behind-some _ _ s' _ run (broadcast_ball_state-some live s' lists few')),
        zs,
        ended.list_lem,
        omega (arith, counted_lem, at_least_one-positive c),
      )
