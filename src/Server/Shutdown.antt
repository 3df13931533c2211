-- ===== src/Server/Shutdown.antt =====
-- The end of the server of src/server/main.c: the main thread closes the sockets that are left, the other
-- threads end, and `manager_destroy` of src/server/server.c frees the two lists.
use owner_based_ball_game.Balls.{Machine}
use owner_based_ball_game.Balls.Manager.{ball_manager_destroy}
use owner_based_ball_game.Base.{List, Option, [], if◌then◌else◌, ltb, none, some, ℕ, ◌++◌, ◌∷◌, ◌≡◌}
use owner_based_ball_game.Clients.{client_list_manager_destroy, close_clients}
use owner_based_ball_game.Memory.{Memory, Ptr, null}
use owner_based_ball_game.Memory.Freed.{without_nodes}
use owner_based_ball_game.Server.{Server, after, ball_fuel, client_fuel}
use owner_based_ball_game.Server.Events.{IsRunning}
use owner_based_ball_game.Server.Handle.{ServerEvent, handle_all}

module _ (Address : Type 0) (machine : Machine) where
  -- `manager_destroy`, on the two lists: what it closes, and what it leaves
  unfoldable pub manager_destroy : Server Address machine → Option (List ℕ × Server Address machine)
  unfolding ball_manager_destroy client_list_manager_destroy
  manager_destroy s =
      after (ball_manager_destroy machine (ball_fuel Address machine s) s.balls s.ball_memory)
        λ balls ball_memory.
          after
            (client_list_manager_destroy (client_fuel Address machine s) s.clients s.client_memory)
            λ (closed, clients) client_memory. some (
              closed,
              record {
                clients = clients;
                client_memory = client_memory;
                balls = balls;
                ball_memory = ball_memory;
              },
            )

  -- what has been closed in front of something
  abbrev closed_first :
      List ℕ → Option (List ℕ × Server Address machine) → Option (List ℕ × Server Address machine)
  closed_first closed none = none
  closed_first closed (some (again, s)) = some (closed ++ again, s)

  -- `manager_destroy` behind the last rounds
  abbrev destroy_joined :
      List ℕ → Option (Server Address machine) → Option (List ℕ × Server Address machine)
  destroy_joined closed none = none
  destroy_joined closed (some s) = closed_first closed (manager_destroy s)

  -- The end of `main`: the sockets that the main thread closes, in this order. Between the closing of the
  -- sockets and `manager_destroy` it joins the threads, which end their last rounds: these events.
  unfoldable pub shut_down :
      List (ServerEvent Address machine)
      → Server Address machine
      → Option (List ℕ × Server Address machine)
  unfolding manager_destroy handle_all
  shut_down last_rounds s =
      after (close_clients (client_fuel Address machine s) s.clients.head s.client_memory)
        λ closed client_memory.
          destroy_joined closed
            (handle_all Address machine last_rounds (record s { client_memory = client_memory }))

-- the sockets that `free_client_list` closes, among these
abbrev pub positive_sockets : List ℕ → List ℕ
positive_sockets [] = []
positive_sockets (fd ∷ fds) = (if ltb 0 fd then fd ∷ [] else []) ++ positive_sockets fds

-- Nothing is allocated any more, and no freed node has been read on the way from another memory.
abbrev pub IsReleased : {V : Type 0} → Memory V → Memory V → Type 0
IsReleased before m = ((a : Ptr) → m.cells a ≡ none) × (m.stale_reads ≡ before.stale_reads)

-- What is left of a server.
abbrev emptied :
    {Address : Type 0} {machine : Machine} (live : List ℕ) (s : Server Address machine)
    → IsRunning live s
    → Server Address machine
emptied live s h = record {
  clients = record { head = null; tail = s.clients.tail; client_count = s.clients.client_count };
  client_memory = record s.client_memory {
    cells = without_nodes s.client_memory.cells h.client_nodes;
  };
  balls = record { head = null; tail = s.balls.tail; total_count = s.balls.total_count };
  ball_memory = record s.ball_memory { cells = without_nodes s.ball_memory.cells h.ball_nodes };
}
