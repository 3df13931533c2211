-- ===== src/Server/Broadcast/Sent.antt =====
-- Which text the server sends to which socket, and when it does not fit.
use owner_based_ball_game.Balls.{LogicalBall, Machine}
use owner_based_ball_game.Base.{
  All, Bool, Bool-cases, List, [], ap, append-nil, append_assoc, arith, false, if◌then◌else◌, inl,
  inr, length, length-append, ltb, lt→ltb, map, none, refl, some, suc, take, true, zero, ℕ, ◌++◌,
  ◌<◌, ◌==◌, ◌∙◌, ◌∷◌, ◌≡◌,
}
use owner_based_ball_game.Clients.{SocketContext}
use owner_based_ball_game.Memory.{Memory, Ptr, ends, fault, null}
use owner_based_ball_game.Memory.Chain.{Linked, first_ptr, not_null}
use owner_based_ball_game.Memory.LinkedList.{load-ends}
use owner_based_ball_game.Server.{Server, ball_fuel, client_fuel}
use owner_based_ball_game.Server.Broadcast.{
  append_text, ball_text, broadcast_ball_state, broadcast_ball_state_all, send_own, send_to_all,
  serialize,
}
use owner_based_ball_game.Server.Connected.{sockets}
use owner_based_ball_game.Server.Events.{HasLists, IsRunning, lists_of}
use owner_based_ball_game.Text.{Text}

-- More text does not fit if the beginning does not.
too_long : (s t : Text) → ltb (length s) 8192 ≡ false → ltb (length (s ++ t)) 8192 ≡ false
too_long s t h = rw (length-append s t) (ground arith)

module _ {machine : Machine} where
  -- the text of the balls that are taken, in their order
  unfoldable pub balls_text :
      (LogicalBall machine → Bool)
      → (LogicalBall machine → ℕ)
      → List (Ptr × LogicalBall machine)
      → Text
  balls_text takes number [] = []
  balls_text takes number ((p, b) ∷ xs) =
      (if takes b then take 255 (ball_text machine (number b) b) else [])
      ++ balls_text takes number xs

  -- What one ball that is taken adds.
  append_text-fits :
      (buffer temp : Text) (m : Memory (LogicalBall machine))
      → append_text machine buffer temp m
        ≡ (if ltb (length (buffer ++ temp)) 8192 then ends (buffer ++ temp) m else fault)
  unfolding append_text
  append_text-fits buffer temp m = rw (length-append buffer temp) (ground arith)

  serialize-ends :
      (takes : LogicalBall machine → Bool) (number : LogicalBall machine → ℕ) (k : ℕ)
      (xs : List (Ptr × LogicalBall machine)) (buffer : Text) (m : Memory (LogicalBall machine))
      → Linked m.cells xs null
      → length xs < k
      → length buffer < 8192
      → serialize machine takes number k (first_ptr xs null) buffer m ≡ (
          if ltb (length (buffer ++ balls_text takes number xs)) 8192
          then ends (buffer ++ balls_text takes number xs) m
          else fault)
  unfolding serialize balls_text
  serialize-ends takes number zero xs buffer m l enough fits = absurd (omega arith)
  serialize-ends takes number (suc k) [] buffer m l enough fits =
      let end : buffer ++ [] ≡ buffer = append-nil buffer in
      let room : ltb (length buffer) 8192 ≡ true = lt→ltb (length buffer) 8192 fits in
      rw (end, room) refl
  serialize-ends takes number (suc k) ((p, b) ∷ xs) buffer m (ne, e, l) enough fits =
      let on : (p == null) ≡ false = not_null p ne in
      elim (Bool-cases (takes b)) [
        | inl taken ↦
            let temp = take 255 (ball_text machine (number b) b) in
            let one = append_text-fits buffer temp m in
            elim (Bool-cases (ltb (length (buffer ++ temp)) 8192)) [
              | inl room ↦
                  let rest =
                    serialize-ends takes number k xs (buffer ++ temp) m l (omega arith)
                      (ground arith) in
                  rw
                    (
                      on,
                      load-ends p _ m ne e,
                      taken,
                      one,
                      room,
                      rest,
                      append_assoc buffer temp (balls_text takes number xs),
                    )
                    refl
              | inr full ↦
                  let past = too_long (buffer ++ temp) (balls_text takes number xs) full in
                  let moved = append_assoc buffer temp (balls_text takes number xs) in
                  rw (on, load-ends p _ m ne e, taken, one, full, ← moved, past) refl
            ]
        | inr left ↦
            let rest = serialize-ends takes number k xs buffer m l (omega arith) fits in
            rw (on, load-ends p _ m ne e, left, rest) refl
      ]

  -- the balls of a player, as they are sent
  abbrev pub own_text : ℕ → List (Ptr × LogicalBall machine) → Text
  own_text fd xs = balls_text (λ b. b.owner_id == fd) (λ b. b.owner_id) xs

  -- all balls, as they are sent
  abbrev pub whole_text : List (Ptr × LogicalBall machine) → Text
  whole_text xs = balls_text (λ b. true) (λ b. b.id) xs

  -- what is sent of these balls to these sockets, each its own
  abbrev pub own_texts : List (Ptr × LogicalBall machine) → List ℕ → List (ℕ × Text)
  own_texts xs [] = []
  own_texts xs (fd ∷ fds) =
      if ltb 0 (length (own_text fd xs))
      then (fd, own_text fd xs) ∷ own_texts xs fds
      else own_texts xs fds

send_to_all-ends :
    {Address : Type 0} (machine : Machine) (k : ℕ) (buffer : Text)
    (xs : List (Ptr × SocketContext Address)) (m : Memory (SocketContext Address))
    → Linked m.cells xs null
    → length xs < k
    → send_to_all Address machine k buffer (first_ptr xs null) m
      ≡ ends (map (λ fd. (fd, buffer)) (sockets xs)) m
unfolding send_to_all
send_to_all-ends machine zero buffer xs m l enough = absurd (omega arith)
send_to_all-ends machine (suc k) buffer [] m l enough = refl
send_to_all-ends machine (suc k) buffer ((p, c) ∷ xs) m (ne, e, l) enough =
    let on : (p == null) ≡ false = not_null p ne in
    rw (on, load-ends p _ m ne e, send_to_all-ends machine k buffer xs m l (omega arith)) refl

module _ {Address : Type 0} {machine : Machine} where
  module _ (live : List ℕ) (s : Server Address machine) (h : HasLists live s) where
    serialized :
        (takes : LogicalBall machine → Bool) (number : LogicalBall machine → ℕ)
        → serialize machine takes number (ball_fuel Address machine s) s.balls.head [] s.ball_memory
          ≡ (if ltb (length (balls_text takes number h.ball_nodes)) 8192
              then ends (balls_text takes number h.ball_nodes) s.ball_memory
              else fault)
    serialized takes number =
        ap (λ q. serialize machine takes number (ball_fuel Address machine s) q [] s.ball_memory)
          h.balls_lem.list.head_lem
        ∙ serialize-ends takes number (ball_fuel Address machine s) h.ball_nodes [] s.ball_memory
            h.balls_lem.list.linked (omega (arith, h.balls_lem.count)) (omega arith)

    pub broadcast_ball_state_all-sent : broadcast_ball_state_all Address machine s ≡ (
        if ltb (length (whole_text h.ball_nodes)) 8192
        then some (map (λ fd. (fd, whole_text h.ball_nodes)) live)
        else none)
    unfolding broadcast_ball_state_all
    broadcast_ball_state_all-sent =
        let clients = h.clients_lem.list in
        let text = whole_text h.ball_nodes in
        let fuel = client_fuel Address machine s in
        let sent =
          ap (λ q. send_to_all Address machine fuel text q s.client_memory) clients.head_lem
          ∙ send_to_all-ends machine fuel text h.client_nodes s.client_memory clients.linked
              (omega (arith, h.clients_lem.count)) in
        elim (Bool-cases (ltb (length text) 8192)) [
          | inl fits ↦ rw (serialized (λ b. true) (λ b. b.id), fits, sent, h.sockets_lem) refl
          | inr long ↦ rw (serialized (λ b. true) (λ b. b.id), long) refl
        ]

    send_own-ends :
        (k : ℕ) (xs : List (Ptr × SocketContext Address)) (m : Memory (SocketContext Address))
        → Linked m.cells xs null
        → length xs < k
        → All (λ fd. length (own_text fd h.ball_nodes) < 8192) (sockets xs)
        → send_own Address machine s k (first_ptr xs null) m
          ≡ ends (own_texts h.ball_nodes (sockets xs)) m
    unfolding send_own
    send_own-ends zero xs m l enough fit = absurd (omega arith)
    send_own-ends (suc k) [] m l enough fit = refl
    send_own-ends (suc k) ((p, c) ∷ xs) m (ne, e, l) enough (fits, fit) =
        let on : (p == null) ≡ false = not_null p ne in
        let room = lt→ltb (length (own_text c.csock h.ball_nodes)) 8192 fits in
        rw
          (
            on,
            load-ends p _ m ne e,
            serialized (λ b. b.owner_id == c.csock) (λ b. b.owner_id),
            room,
            send_own-ends k xs m l (omega arith) fit,
          )
          refl

    pub broadcast_ball_state-sent :
        All (λ fd. length (own_text fd h.ball_nodes) < 8192) live
        → broadcast_ball_state Address machine s ≡ some (own_texts h.ball_nodes live)
    unfolding broadcast_ball_state
    broadcast_ball_state-sent fit =
        let clients = h.clients_lem.list in
        let fuel = client_fuel Address machine s in
        let sent =
          ap (λ q. send_own Address machine s fuel q s.client_memory) clients.head_lem
          ∙ send_own-ends fuel h.client_nodes s.client_memory clients.linked
              (omega (arith, h.clients_lem.count)) (rw h.sockets_lem fit) in
        rw (sent, h.sockets_lem) refl

  module _ (live : List ℕ) (s : Server Address machine) (h : IsRunning live s) where
    -- While the server runs, `broadcast_ball_state_all` sends the text of all balls, in the order of the list, to
    -- each open socket, if the text has less than 8192 characters; if it has more, the code writes past the end of
    -- its buffer.
    pub broadcast_ball_state_all-live : broadcast_ball_state_all Address machine s ≡ (
        if ltb (length (whole_text h.ball_nodes)) 8192
        then some (map (λ fd. (fd, whole_text h.ball_nodes)) live)
        else none)
    broadcast_ball_state_all-live = broadcast_ball_state_all-sent live s (lists_of live s h)

    -- While the server runs, and the balls of each open socket fit the buffer: `broadcast_ball_state` sends the
    -- text of its own balls, in the order of the list, to each open socket for which it is not empty, and nothing else.
    pub broadcast_ball_state-live :
        All (λ fd. length (own_text fd h.ball_nodes) < 8192) live
        → broadcast_ball_state Address machine s ≡ some (own_texts h.ball_nodes live)
    broadcast_ball_state-live fit = broadcast_ball_state-sent live s (lists_of live s h) fit
