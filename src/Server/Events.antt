-- ===== src/Server/Events.antt =====
-- The server of src/server/main.c and src/server/server.c through any sequence of events.
use owner_based_ball_game.Balls.{LogicalBall, Machine}
use owner_based_ball_game.Balls.Dispatch.{at_least_one, rounds}
use owner_based_ball_game.Balls.Dispatch.Commands.{IsAllowed}
use owner_based_ball_game.Balls.Dispatch.Others.{added}
use owner_based_ball_game.Balls.Manager.Add.{FreshRounds}
use owner_based_ball_game.Balls.Manager.IsList.{IsList}
use owner_based_ball_game.Base.{
  List, Option, [], none, pos, some, true, ℕ, ◌++◌, ◌+◌, ◌∷◌, ◌≡◌, ◌≢◌, ◌≤◌,
}
use owner_based_ball_game.Clients.{SocketContext}
use owner_based_ball_game.Clients.Leaving.{IsClientList}
use owner_based_ball_game.Memory.{Ptr, null}
use owner_based_ball_game.Server.{Server, start_ball_count}
use owner_based_ball_game.Server.Connected.{AllOpen, close_socket, is_open, sockets}
use owner_based_ball_game.Server.Handle.{ServerEvent, commands, connects, goes, handle, moves}

module _ {Address : Type 0} {machine : Machine} where
  -- The lists that the server's memory holds: the clients are those of the open sockets, in this order,
  -- and each ball belongs to one of them.
  pub record IsRunning (live : List ℕ) (s : Server Address machine) : Type 0 where
    pub client_nodes : List (Ptr × SocketContext Address)
    pub ball_nodes : List (Ptr × LogicalBall machine)
    pub clients_lem : IsClientList s.client_memory s.clients client_nodes
    pub balls_lem : IsList machine s.ball_memory s.balls ball_nodes
    pub sockets_lem : sockets client_nodes ≡ live
    pub owners_lem : AllOpen machine live ball_nodes

  -- The same, whoever the balls belong to.
  pub record HasLists (live : List ℕ) (s : Server Address machine) : Type 0 where
    pub client_nodes : List (Ptr × SocketContext Address)
    pub ball_nodes : List (Ptr × LogicalBall machine)
    pub clients_lem : IsClientList s.client_memory s.clients client_nodes
    pub balls_lem : IsList machine s.ball_memory s.balls ball_nodes
    pub sockets_lem : sockets client_nodes ≡ live

  abbrev pub lists_of :
      (live : List ℕ) (s : Server Address machine) → IsRunning live s → HasLists live s
  lists_of live s h = record {
    client_nodes = h.client_nodes;
    ball_nodes = h.ball_nodes;
    clients_lem = h.clients_lem;
    balls_lem = h.balls_lem;
    sockets_lem = h.sockets_lem;
  }

  -- the sockets that are open behind an event
  abbrev pub behind : ServerEvent Address machine → List ℕ → List ℕ
  behind (connects p csock cliaddr supply) live = live ++ (csock ∷ [])
  behind (goes fd) live = close_socket fd live
  behind (commands fd cmd count radius supply) live = live
  behind moves live = live

  abbrev pub behind_all : List (ServerEvent Address machine) → List ℕ → List ℕ
  behind_all [] live = live
  behind_all (e ∷ es) live = behind_all es (behind e live)

  -- What is asked of an event: `malloc` gives addresses that are not allocated; a command comes from a
  -- socket that is open, with a radius whose divisor is not 0 if it adds balls, and a count that fits the
  -- stack if it deletes some; and where it ends in a broadcast, there are at most 32 balls, with
  -- those that it adds.
  abbrev pub Allowed : ServerEvent Address machine → List ℕ → Server Address machine → Type 0
  Allowed (connects p csock cliaddr supply) live s =
      (p ≢ null)
      × (s.client_memory.cells p ≡ none)
      × FreshRounds machine s.ball_memory (rounds start_ball_count supply)
  Allowed (goes fd) live s = Unit
  Allowed (commands fd cmd count radius supply) live s =
      (is_open fd live ≡ true)
      × IsAllowed machine fd cmd (pos (at_least_one count)) radius supply s.ball_memory
      × (s.balls.total_count + added cmd (pos (at_least_one count)) ≤ 32)
  Allowed moves live s = s.balls.total_count ≤ 32

  abbrev pub IfSome : Option (Server Address machine) → (Server Address machine → Type 0) → Type 0
  IfSome none P = Unit
  IfSome (some s) P = P s

  -- Each event is allowed when its turn comes.
  abbrev pub AllAllowed :
      List (ServerEvent Address machine) → List ℕ → Server Address machine → Type 0
  AllAllowed [] live s = Unit
  AllAllowed (e ∷ es) live s =
      Allowed e live s × IfSome (handle Address machine e s) λ s'. AllAllowed es (behind e live) s'
