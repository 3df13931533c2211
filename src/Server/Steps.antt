-- ===== src/Server/Steps.antt =====
-- Each kind of event that the server of src/server/main.c and src/server/server.c handles.
use owner_based_ball_game.Balls.{LogicalBall, Machine, move_logical_ball, spot_size}
use owner_based_ball_game.Balls.Dispatch.{Supply, at_least_one, move_ball_list, rounds}
use owner_based_ball_game.Balls.Dispatch.Commands.{dispatch_command-OthersKept}
use owner_based_ball_game.Balls.Dispatch.Others.{added, length-behind, others, others-keep_first}
use owner_based_ball_game.Balls.Manager.Add.{add_ball-AreNew}
use owner_based_ball_game.Balls.Manager.Sweep.{delete_ball_by_socket-keep_first}
use owner_based_ball_game.Base.{
  List, Option, [], ap, arith, length, pos, refl, some, sym, ℕ, ℤ, ◌++◌, ◌∙◌, ◌∷◌, ◌≡◌, ◌≤◌,
}
use owner_based_ball_game.Clients.Leaving.{accept_client-ends, drop_client-without_client}
use owner_based_ball_game.Memory.{Ptr}
use owner_based_ball_game.Memory.Values.{each_node-IsLinkedList, length-map_nodes, map_nodes}
use owner_based_ball_game.Server.{
  Server, ball_fuel, client_fuel, disconnect, move_all_ball, run_task, start_ball_count,
  start_ball_radius,
}
use owner_based_ball_game.Server.Broadcast.Room.{
  broadcast_ball_state-some, broadcast_ball_state_all-some,
}
use owner_based_ball_game.Server.Broadcast.Sent.{own_texts}
use owner_based_ball_game.Server.Connected.{
  AllOpen-added, AllOpen-closed, AllOpen-map_nodes, AllOpen-others, close_socket, sockets-append,
  sockets-without_client,
}
use owner_based_ball_game.Server.Events.{Allowed, IsRunning, lists_of}
use owner_based_ball_game.Server.Handle.{
  commands, connects, cycle_round, handle, moves, sent_behind, task_round, without_sent,
}
use owner_based_ball_game.Text.{Text}

module _ {Address : Type 0} {machine : Machine} where
  pub sent_behind-some :
      (broadcast : Server Address machine → Option (List (ℕ × Text)))
      (r : Option (Server Address machine)) (s : Server Address machine) (sent : List (ℕ × Text))
      → r ≡ some s
      → broadcast s ≡ some sent
      → sent_behind Address machine broadcast r ≡ some (s, sent)
  sent_behind-some broadcast r s sent e f = rw (e, sent_behind, f) refl

  pub connects-IsRunning :
      (p : Ptr) (csock : ℕ) (cliaddr : Address) (supply : Supply) (live : List ℕ)
      (s : Server Address machine)
      → IsRunning live s
      → Allowed (connects p csock cliaddr supply) live s
      → (s' : Server Address machine) × (handle Address machine (connects p csock cliaddr supply) s
          ≡ some s')
        × IsRunning (live ++ (csock ∷ [])) s'
  unfolding handle
  connects-IsRunning p csock cliaddr supply live s h (ne, free_lem, fresh) =
      let rs = rounds start_ball_count supply in
      let (clients, run, list) =
        accept_client-ends p csock cliaddr h.client_nodes s.client_memory s.clients h.clients_lem ne
          free_lem in
      let (ys, new, added) =
        add_ball-AreNew machine rs start_ball_radius csock h.ball_nodes s.ball_memory s.balls
          h.balls_lem (unfold spot_size in λ e. cc) fresh in
      (
        _,
        rw (run, added.run_lem) refl,
        record {
          client_nodes = _;
          ball_nodes = _;
          clients_lem = list;
          balls_lem = added.list_lem;
          sockets_lem =
              sockets-append h.client_nodes _ ∙ ap (λ ss. ss ++ (csock ∷ [])) h.sockets_lem;
          owners_lem =
              AllOpen-added machine live (length h.ball_nodes) csock rs h.ball_nodes ys h.owners_lem
                new;
        },
      )

  -- The server still runs, and the balls of the clients other than `fd` are as they were.
  abbrev pub OthersStay :
      ℕ → List ℕ → Server Address machine → List (Ptr × LogicalBall machine) → Type 0
  OthersStay fd live s xs =
      (h : IsRunning live s) × (others machine fd h.ball_nodes ≡ others machine fd xs)

  pub goes-IsRunning :
      (fd : ℕ) (live : List ℕ) (s : Server Address machine) (h : IsRunning live s)
      → (s' : Server Address machine) × (disconnect Address machine fd s ≡ some s')
        × OthersStay fd (close_socket fd live) s' h.ball_nodes
  unfolding disconnect
  goes-IsRunning fd live s h =
      let gone =
        drop_client-without_client (client_fuel Address machine s) fd h.client_nodes s.client_memory
          s.clients h.clients_lem (omega (arith, h.clients_lem.count)) in
      let swept =
        delete_ball_by_socket-keep_first machine fd (ball_fuel Address machine s) h.ball_nodes
          s.ball_memory s.balls h.balls_lem (omega (arith, h.balls_lem.count)) in
      (
        _,
        rw (gone.run_lem, swept.run_lem) refl,
        (
          record {
            client_nodes = _;
            ball_nodes = _;
            clients_lem = gone.list_lem;
            balls_lem = swept.list_lem;
            sockets_lem =
                sockets-without_client fd h.client_nodes ∙ ap (close_socket fd) h.sockets_lem;
            owners_lem = AllOpen-closed machine live fd h.ball_nodes h.owners_lem;
          },
          others-keep_first machine fd 0 h.ball_nodes,
        ),
      )

  pub commands-IsRunning :
      (fd cmd : ℕ) (count radius : ℤ) (supply : Supply) (live : List ℕ) (s : Server Address machine)
      (h : IsRunning live s)
      → Allowed (commands fd cmd count radius supply) live s
      → (s' : Server Address machine) × (sent : List (ℕ × Text)) × (task_round Address machine fd
            cmd count radius supply s
          ≡ some (s', sent))
        × OthersStay fd live s' h.ball_nodes
  unfolding task_round
  commands-IsRunning fd cmd count radius supply live s h (o, allowed, few) =
      let (zs, _, ended, kept, counted_lem) =
        dispatch_command-OthersKept machine fd (ball_fuel Address machine s) radius supply
          (pos (at_least_one count)) h.ball_nodes s.ball_memory s.balls h.balls_lem cmd allowed
          (omega (arith, h.balls_lem.count)) in
      let theirs = (AllOpen-others machine live fd h.ball_nodes o).1 h.owners_lem in
      let s' : Server Address machine = record s {
        balls = ended.manager;
        ball_memory = ended.memory;
      } in
      let h' : IsRunning live s' = record {
        client_nodes = h.client_nodes;
        ball_nodes = zs;
        clients_lem = h.clients_lem;
        balls_lem = ended.list_lem;
        sockets_lem = h.sockets_lem;
        owners_lem = (AllOpen-others machine live fd zs o).0 (rw kept theirs);
      } in
      let behind_lem =
        length-behind machine fd cmd (pos (at_least_one count)) h.ball_nodes zs kept counted_lem in
      let run : run_task Address machine fd cmd count radius supply s ≡ some s' =
        unfold run_task in rw ended.run_lem refl in
      let few' : s'.balls.total_count ≤ 32 =
        omega (arith, few, behind_lem, h.balls_lem.count, ended.list_lem.count) in
      let broadcast = broadcast_ball_state-some live s' (lists_of live s' h') few' in
      (s', own_texts zs live, sent_behind-some _ _ s' _ run broadcast, (h', kept))

  pub moves-IsRunning :
      (live : List ℕ) (s : Server Address machine)
      → IsRunning live s
      → s.balls.total_count ≤ 32
      → (s' : Server Address machine) × (handle Address machine moves s ≡ some s')
        × IsRunning live s'
  unfolding handle cycle_round
  moves-IsRunning live s h few =
      let (m, run, list, _, _) =
        each_node-IsLinkedList (move_logical_ball machine) (ball_fuel Address machine s)
          s.balls.head s.balls.tail h.ball_nodes s.ball_memory h.balls_lem.list
          (omega (arith, h.balls_lem.count)) in
      let s' : Server Address machine = record s { ball_memory = m } in
      let h' : IsRunning live s' = record {
        client_nodes = h.client_nodes;
        ball_nodes = map_nodes (move_logical_ball machine) h.ball_nodes;
        clients_lem = h.clients_lem;
        balls_lem = record {
          list = list;
          count =
              h.balls_lem.count ∙ sym (length-map_nodes (move_logical_ball machine) h.ball_nodes);
        };
        sockets_lem = h.sockets_lem;
        owners_lem = AllOpen-map_nodes machine live h.ball_nodes h.owners_lem;
      } in
      let moved : move_all_ball Address machine s ≡ some s' =
        unfold move_all_ball in unfold move_ball_list in rw run refl in
      let broadcast = broadcast_ball_state_all-some live s' (lists_of live s' h') few in
      (s', ap (without_sent Address machine) (sent_behind-some _ _ s' _ moved broadcast), h')
