-- ===== src/Server.antt =====
-- The server's two lists together, as its threads change them (src/server/main.c, src/server/server.c):
-- the code that runs under the mutexes, as one step. The system calls and the log are left out.
pub mod Connected
pub mod Handle
pub mod Events
pub mod Steps
pub mod Histories
pub mod Worker
pub mod Shutdown
pub mod Pipeline
pub mod Broadcast
use owner_based_ball_game.Balls.{LogicalBall, Machine}
use owner_based_ball_game.Balls.Dispatch.{
  Supply, at_least_one, dispatch_command, move_ball_list, rounds,
}
use owner_based_ball_game.Balls.Manager.{
  BallListManager, add_ball, ball_manager_init, delete_ball_by_socket,
}
use owner_based_ball_game.Base.{Option, [], none, pos, some, suc, ℕ, ℤ}
use owner_based_ball_game.Clients.{
  ClientListManager, SocketContext, accept_client, client_list_manager_init, drop_client,
}
use owner_based_ball_game.Memory.{Memory, Ptr, Run, ends, fault, no_fuel}

abbrev pub start_ball_count : ℕ
start_ball_count = 5

abbrev pub start_ball_radius : ℤ
start_ball_radius = pos 20

-- A command, and what comes behind it once it has ended.
abbrev pub after : {V A S : Type 0} → Run V A → (A → Memory V → Option S) → Option S
after (ends a m) k = k a m
after fault k = none
after no_fuel k = none

module _ (Address : Type 0) (machine : Machine) where
  -- What `SharedContext` holds of the two lists, with their memory.
  pub record Server : Type 0 where
    pub clients : ClientListManager
    pub client_memory : Memory (SocketContext Address)
    pub balls : BallListManager
    pub ball_memory : Memory (LogicalBall machine)

  -- `manager_init`
  abbrev pub manager_init : Server
  manager_init = record {
    clients = client_list_manager_init;
    client_memory = record { cells = λ p. none; stale_reads = [] };
    balls = ball_manager_init;
    ball_memory = record { cells = λ p. none; stale_reads = [] };
  }

  -- the fuel for the clients and for the balls that are counted
  abbrev pub client_fuel : Server → ℕ
  client_fuel s = suc s.clients.client_count

  abbrev pub ball_fuel : Server → ℕ
  ball_fuel s = suc s.balls.total_count

  -- The functions below have no result if the code uses memory that is not allocated.

  -- The main thread behind `accept`; `count` of the first balls is START_BALL_COUNT.
  unfoldable pub connect : Ptr → ℕ → Address → Supply → Server → Option Server
  connect p csock cliaddr supply s =
      after (accept_client p csock cliaddr s.clients s.client_memory) λ clients client_memory.
        after
          (add_ball machine (rounds start_ball_count supply) start_ball_radius csock s.balls
            s.ball_memory)
          λ balls ball_memory. some (record {
            clients = clients;
            client_memory = client_memory;
            balls = balls;
            ball_memory = ball_memory;
          })

  -- A client goes: by the command `x`, or as its connection ends, which runs the same code.
  unfoldable pub disconnect : ℕ → Server → Option Server
  disconnect fd s =
      after (drop_client (client_fuel s) fd s.clients s.client_memory)
        λ (closed, clients) client_memory.
          after (delete_ball_by_socket machine (ball_fuel s) fd s.balls s.ball_memory)
            λ balls ball_memory. some (record {
              clients = clients;
              client_memory = client_memory;
              balls = balls;
              ball_memory = ball_memory;
            })

  -- A worker with any other command, under the mutex of the balls.
  unfoldable pub run_task : ℕ → ℕ → ℤ → ℤ → Supply → Server → Option Server
  run_task fd cmd count radius supply s =
      after
        (dispatch_command machine (ball_fuel s) supply cmd (pos (at_least_one count)) radius fd
          s.balls s.ball_memory)
        λ balls ball_memory. some (record s { balls = balls; ball_memory = ball_memory })

  -- `move_all_ball`
  unfoldable pub move_all_ball : Server → Option Server
  move_all_ball s =
      after (move_ball_list machine (ball_fuel s) s.balls.head s.ball_memory)
        λ _ ball_memory. some (record s { ball_memory = ball_memory })
