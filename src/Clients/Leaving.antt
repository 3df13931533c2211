-- ===== src/Clients/Leaving.antt =====
-- Clients that come and go (src/server/client_list_manager.c), against the list of the clients.
use owner_based_ball_game.Base.{
  Bool-cases, List, [], ap, append_assoc, arith, false, if◌then◌else◌, inl, inr, length,
  length-append, none, refl, suc, true, zero, ℕ, ◌++◌, ◌+◌, ◌-◌, ◌<◌, ◌==◌, ◌∙◌, ◌∷◌, ◌≡◌, ◌≢◌,
}
use owner_based_ball_game.Clients.{
  ClientListManager, SocketContext, accept_client, add_client, create_client, drop_client,
  release_client, remove_client_by_socket, remove_from, unlink_client,
}
use owner_based_ball_game.Memory.{Memory, Ptr, Run, and_then, ends, fault, no_fuel, null, pure}
use owner_based_ball_game.Memory.Append.{append_node-ends, put_behind, put_behind-IsLinkedList}
use owner_based_ball_game.Memory.Chain.{Linked-left, first_ptr, last_ptr, last_ptr-append, not_null}
use owner_based_ball_game.Memory.Cut.{at-last_ptr, redirect}
use owner_based_ball_game.Memory.LinkedList.{
  IsLinkedList, at_node, at_node_redirected, free-ends, load-ends, set_next-last_ptr, tail-take_out,
  take_out, take_out-IsLinkedList,
}

module _ {Address : Type 0} where
  -- The manager holds these clients, at these addresses and in this order, and has counted them.
  pub record IsClientList (m : Memory (SocketContext Address)) (manager : ClientListManager)
      (xs : List (Ptr × SocketContext Address)) : Type 0 where
    pub list : IsLinkedList m manager.head manager.tail xs
    pub count : manager.client_count ≡ length xs

  -- The list without the first client of a socket.
  unfoldable pub without_client :
      ℕ → List (Ptr × SocketContext Address) → List (Ptr × SocketContext Address)
  without_client fd [] = []
  without_client fd ((p, c) ∷ xs) =
      let rest = without_client fd xs in if c.csock == fd then xs else (p, c) ∷ rest

  -- the socket itself, if a client has it
  unfoldable pub closed_socket : ℕ → List (Ptr × SocketContext Address) → List ℕ
  closed_socket fd [] = []
  closed_socket fd ((p, c) ∷ xs) =
      let rest = closed_socket fd xs in if c.csock == fd then fd ∷ [] else rest

  -- The run has ended with these sockets closed and a manager that holds the list.
  pub record EndsWithClients (run : Run (SocketContext Address) (List ℕ × ClientListManager))
      (closed : List ℕ) (zs : List (Ptr × SocketContext Address)) : Type 0 where
    pub manager : ClientListManager
    pub memory : Memory (SocketContext Address)
    pub run_lem : run ≡ ends (closed, manager) memory
    pub list_lem : IsClientList memory manager zs

  -- the manager of a list of nodes
  abbrev clients_of : List (Ptr × SocketContext Address) → ClientListManager
  clients_of xs = record {
    head = first_ptr xs null;
    tail = last_ptr null xs;
    client_count = length xs;
  }

  eq-clients_of :
      (m : Memory (SocketContext Address)) (manager : ClientListManager)
      (xs : List (Ptr × SocketContext Address))
      → IsClientList m manager xs
      → manager ≡ clients_of xs
  eq-clients_of m manager xs is = ground (arith, is.list.head_lem, is.list.tail_lem)

  module _ (m : Memory (SocketContext Address)) (manager : ClientListManager)
      (xs : List (Ptr × SocketContext Address)) (a : Ptr) (c : SocketContext Address)
      (ys : List (Ptr × SocketContext Address))
      (is : IsClientList m manager (xs ++ ((a, c) ∷ ys))) where
    take_out-IsClientList : IsClientList (take_out xs a ys m) (clients_of (xs ++ ys)) (xs ++ ys)
    take_out-IsClientList = record {
      list = take_out-IsLinkedList m manager.head manager.tail xs a c ys is.list;
      count = refl;
    }

    count_down : manager.client_count - 1 ≡ length (xs ++ ys)
    count_down = omega (arith, is.count, length-append xs ys, length-append xs ((a, c) ∷ ys))

  found-ends :
      (m : Memory (SocketContext Address)) (manager : ClientListManager)
      (xs : List (Ptr × SocketContext Address)) (a : Ptr) (c : SocketContext Address)
      (ys : List (Ptr × SocketContext Address))
      → IsClientList m manager (xs ++ ((a, c) ∷ ys))
      → and_then (unlink_client (last_ptr null xs) a manager m) (release_client a)
        ≡ ends (c.csock ∷ [], clients_of (xs ++ ys)) (take_out xs a ys m)
  unfolding unlink_client release_client redirect
  found-ends m manager [] a c ys is =
      let (ne, e) = at_node m manager.head manager.tail [] a c ys is.list in
      let on : (a == null) ≡ false = ground arith in
      rw (
        load-ends a _ m ne e,
        on,
        load-ends a _ m ne e,
        free-ends a _ m ne e,
        tail-take_out m manager.head manager.tail [] a c ys is.list,
        count_down m manager [] a c ys is,
      )
  found-ends m manager ((p, d) ∷ xs) a c ys is =
      let (ne, e) = at_node m manager.head manager.tail ((p, d) ∷ xs) a c ys is.list in
      let on : (a == null) ≡ false = ground arith in
      let l = Linked-left m.cells ((p, d) ∷ xs) _ null is.list.linked in
      let (ne', e') = at-last_ptr m.cells p d xs a l in
      let past : Memory (SocketContext Address) = record m {
        cells = redirect m.cells ((p, d) ∷ xs) (first_ptr ys null);
      } in
      let still = at_node_redirected m manager.head manager.tail ((p, d) ∷ xs) a c ys is.list in
      rw (
        load-ends a _ m ne e,
        not_null (last_ptr p xs) ne',
        set_next-last_ptr m p d xs a (first_ptr ys null) l,
        on,
        load-ends a _ past ne still,
        free-ends a _ past ne still,
        tail-take_out m manager.head manager.tail ((p, d) ∷ xs) a c ys is.list,
        count_down m manager ((p, d) ∷ xs) a c ys is,
        is.list.head_lem,
      )

  release_found :
      (r : Run (SocketContext Address) ClientListManager) (a : Ptr)
      → and_then
          (and_then r λ manager'. pure (a, manager'))
          (λ (removed, manager'). release_client removed manager')
        ≡ and_then r (release_client a)
  release_found (ends manager m) a = refl
  release_found fault a = refl
  release_found no_fuel a = refl

  eq-closed : (c : SocketContext Address) (fd : ℕ) → (c.csock == fd) ≡ true → c.csock ≡ fd
  eq-closed c fd own = ground arith

  drop_from-ends :
      (k fd : ℕ) (pre xs : List (Ptr × SocketContext Address)) (m : Memory (SocketContext Address))
      (manager : ClientListManager)
      → IsClientList m manager (pre ++ xs)
      → length xs < k
      → EndsWithClients
          (and_then
            (remove_from k fd (last_ptr null pre) (first_ptr xs null) manager m)
            λ (removed, manager'). release_client removed manager')
          (closed_socket fd xs)
          (pre ++ without_client fd xs)
  unfolding remove_from closed_socket without_client
  drop_from-ends zero fd pre xs m manager is enough = absurd (omega arith)
  drop_from-ends (suc k) fd pre [] m manager is enough = record {
    manager = manager;
    memory = m;
    run_lem = unfold release_client in refl;
    list_lem = is;
  }
  drop_from-ends (suc k) fd pre ((p, c) ∷ xs) m manager is enough =
      let (ne, e) = at_node m manager.head manager.tail pre p c xs is.list in
      let on : (p == null) ≡ false = ground arith in
      rw (on, load-ends p _ m ne e)
        (elim (Bool-cases (c.csock == fd)) [
          | inl own ↦ rw own (record {
            manager = clients_of (pre ++ xs);
            memory = take_out pre p xs m;
            run_lem =
                release_found (unlink_client (last_ptr null pre) p manager m) p
                ∙ found-ends m manager pre p c xs is
                ∙ ap (λ (s : ℕ). ends (s ∷ [], clients_of (pre ++ xs)) (take_out pre p xs m))
                    (eq-closed c fd own);
            list_lem = take_out-IsClientList m manager pre p c xs is;
          })
          | inr other ↦ rw other (
              rw (last_ptr-append null pre ((p, c) ∷ []), append_assoc) at
                (drop_from-ends k fd (pre ++ ((p, c) ∷ [])) xs m manager
                  (rw (append_assoc pre ((p, c) ∷ []) xs) is) (omega arith)))
        ])

  -- In a memory that holds a list and nothing else, and with fuel for its clients: a client that goes is
  -- the first of its socket. The memory then holds the list without it, all others in their order, and
  -- nothing else; that socket is closed. Without such a client nothing happens.
  pub drop_client-without_client :
      (fuel fd : ℕ) (xs : List (Ptr × SocketContext Address)) (m : Memory (SocketContext Address))
      (manager : ClientListManager)
      → IsClientList m manager xs
      → length xs < fuel
      → EndsWithClients (drop_client fuel fd manager m) (closed_socket fd xs) (without_client fd xs)
  unfolding drop_client remove_client_by_socket
  drop_client-without_client fuel fd xs m manager is enough =
      let e = eq-clients_of m manager xs is in
      rw e (drop_from-ends fuel fd [] xs m (clients_of xs) (rw e at is) enough)

  -- A client that is accepted at an unused address is the last of the list.
  pub accept_client-ends :
      (p : Ptr) (csock : ℕ) (cliaddr : Address) (xs : List (Ptr × SocketContext Address))
      (m : Memory (SocketContext Address)) (manager : ClientListManager)
      → IsClientList m manager xs
      → p ≢ null
      → m.cells p ≡ none
      → (manager' : ClientListManager) × (accept_client p csock cliaddr manager m
          ≡ ends manager' (put_behind xs p (create_client csock cliaddr) m))
        × IsClientList
            (put_behind xs p (create_client csock cliaddr) m)
            manager'
            (xs ++ ((p, create_client csock cliaddr) ∷ []))
  unfolding accept_client add_client
  accept_client-ends p csock cliaddr xs m manager is ne free_lem =
      let c = create_client csock cliaddr in
      (
        record { head = first_ptr xs p; tail = p; client_count = manager.client_count + 1 },
        rw (append_node-ends m manager.head manager.tail xs p c is.list ne free_lem),
        record {
          list = put_behind-IsLinkedList m manager.head manager.tail xs p c is.list ne free_lem;
          count = omega (arith, is.count, length-append xs ((p, c) ∷ []));
        },
      )
