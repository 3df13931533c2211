-- ===== src/Clients.antt =====
-- The server's list of clients in memory: src/server/client_list_manager.c, and what the threads do
-- with it when a client comes or goes (src/server/main.c, src/server/server.c). A manager is updated
-- in place, so a function returns the new one; messages and log entries are left out.
pub mod Leaving
use owner_based_ball_game.Base.{List, [], if◌then◌else◌, ltb, suc, zero, ℕ, ◌+◌, ◌-◌, ◌==◌, ◌∷◌}
use owner_based_ball_game.Memory.{
  Cmd, Ptr, append_node, free, free_nodes, load, no_fuel, null, pure, set_next, ◌>>=◌, ◌>>◌,
}

-- `SocketContext`; an address is what `accept` gives.
pub record SocketContext (Address : Type 0) : Type 0 where
  pub csock : ℕ
  pub cliaddr : Address

-- `ClientListManager`; the counter goes down only with a node that it has counted.
pub record ClientListManager : Type 0 where
  pub head : Ptr
  pub tail : Ptr
  pub client_count : ℕ

abbrev pub client_list_manager_init : ClientListManager
client_list_manager_init = record { head = null; tail = null; client_count = 0 }

module _ {Address : Type 0} where
  abbrev pub create_client : ℕ → Address → SocketContext Address
  create_client csock cliaddr = record { csock = csock; cliaddr = cliaddr }

  -- `add_client`, when `malloc` gives `address`
  unfoldable pub add_client :
      Ptr → ℕ → Address → ClientListManager → Cmd (SocketContext Address) ClientListManager
  add_client address csock cliaddr manager = do
    (head, tail) ← append_node address (create_client csock cliaddr) manager.head manager.tail
    pure (record { head = head; tail = tail; client_count = manager.client_count })

  -- `add_client` and `client_count++`, as the main thread accepts a connection
  unfoldable pub accept_client :
      Ptr → ℕ → Address → ClientListManager → Cmd (SocketContext Address) ClientListManager
  unfolding add_client
  accept_client address csock cliaddr manager = do
    manager' ← add_client address csock cliaddr manager
    pure (record {
      head = manager'.head;
      tail = manager'.tail;
      client_count = manager'.client_count + 1;
    })

  -- What `remove_client_by_socket` does with the node it has found; `prev` is NULL at the head.
  unfoldable pub unlink_client :
      Ptr → Ptr → ClientListManager → Cmd (SocketContext Address) ClientListManager
  unlink_client prev cur manager = do
    n ← load cur
    head ← if prev == null then pure n.next else (set_next prev n.next >> pure manager.head)
    pure (record {
      head = head;
      tail = if manager.tail == cur then prev else manager.tail;
      client_count = manager.client_count;
    })

  -- The loop of `remove_client_by_socket`; it returns the node, NULL if there is none.
  unfoldable pub remove_from :
      ℕ → ℕ → Ptr → Ptr → ClientListManager → Cmd (SocketContext Address) (Ptr × ClientListManager)
  unfolding unlink_client
  remove_from zero socket_fd prev cur manager = λ m. no_fuel
  remove_from (suc k) socket_fd prev cur manager = if cur == null then pure (null, manager) else do
    n ← load cur
    let rest = remove_from k socket_fd cur n.next manager in
        if n.value.csock == socket_fd
        then (do manager' ← unlink_client prev cur manager; pure (cur, manager'))
        else rest

  unfoldable pub remove_client_by_socket :
      ℕ → ℕ → ClientListManager → Cmd (SocketContext Address) (Ptr × ClientListManager)
  unfolding remove_from
  remove_client_by_socket fuel socket_fd manager =
      remove_from fuel socket_fd null manager.head manager

  -- The `if (removed)` of the threads, with the sockets that it closes.
  unfoldable pub release_client :
      Ptr → ClientListManager → Cmd (SocketContext Address) (List ℕ × ClientListManager)
  release_client removed manager = if removed == null then pure ([], manager) else do
    n ← load removed
    free removed
    pure (
      n.value.csock ∷ [],
      record { head = manager.head; tail = manager.tail; client_count = manager.client_count - 1 },
    )

  -- A client goes: the threads' code under `mutex_client`.
  unfoldable pub drop_client :
      ℕ → ℕ → ClientListManager → Cmd (SocketContext Address) (List ℕ × ClientListManager)
  unfolding remove_client_by_socket release_client
  drop_client fuel fd manager = do
    (removed, manager') ← remove_client_by_socket fuel fd manager
    release_client removed manager'

  -- The sockets that `free_client_list` closes.
  unfoldable pub freed_socket : SocketContext Address → List ℕ
  freed_socket ctx = if ltb 0 ctx.csock then ctx.csock ∷ [] else []

  -- `client_list_manager_destroy`, with `free_client_list` and the sockets that it closes
  unfoldable pub client_list_manager_destroy :
      ℕ → ClientListManager → Cmd (SocketContext Address) (List ℕ × ClientListManager)
  unfolding freed_socket
  client_list_manager_destroy fuel manager = do
    closed ← free_nodes freed_socket fuel manager.head
    pure (closed, record { head = null; tail = manager.tail; client_count = manager.client_count })

  -- The loop of the main thread that closes the sockets of the clients that are left.
  unfoldable pub close_clients : ℕ → Ptr → Cmd (SocketContext Address) (List ℕ)
  close_clients zero curr = λ m. no_fuel
  close_clients (suc k) curr =
      if curr == null
      then pure []
      else do n ← load curr; closed ← close_clients k n.next; pure (n.value.csock ∷ closed)
