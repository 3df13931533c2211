-- ===== src/Server/Broadcast.antt =====
-- What the server sends of its balls: `broadcast_ball_state` and `broadcast_ball_state_all` of
-- src/server/server.c, with the serialisation of src/server/localballmanager.c.
pub mod Sent
pub mod Room
use owner_based_ball_game.Balls.{LogicalBall, Machine}
use owner_based_ball_game.Base.{
  Bool, List, Option, [], if◌then◌else◌, length, ltb, some, suc, take, true, zero, ℕ, ◌++◌, ◌+◌,
  ◌-◌, ◌==◌, ◌∷◌,
}
use owner_based_ball_game.Clients.{SocketContext}
use owner_based_ball_game.Memory.{
  Cmd, Ptr, Run, crash, ends, fault, load, no_fuel, null, pure, ◌>>=◌, ◌>>◌,
}
use owner_based_ball_game.Server.{Server, after, ball_fuel, client_fuel}
use owner_based_ball_game.Text.{Text}

-- what `snprintf` writes of a ball, with its first number
abbrev pub ball_text : (machine : Machine) → ℕ → LogicalBall machine → Text
ball_text machine n b = machine.format_ball n b.x b.y b.dx b.dy b.radius b.color

-- the bytes of `buffer` and of `temp`, with the 0 at their end
abbrev pub buffer_size : ℕ
buffer_size = 8192

abbrev pub temp_size : ℕ
temp_size = 256

module _ (machine : Machine) where
  -- `strcat(buffer, temp)`, which must not write past the end of the buffer
  unfoldable pub append_text : Text → Text → Cmd (LogicalBall machine) Text
  append_text buffer temp =
      if ltb (length buffer + length temp) buffer_size then pure (buffer ++ temp) else crash

  -- The loop of the serialisation, over the balls that it takes and with the number that it writes first.
  unfoldable pub serialize :
      (LogicalBall machine → Bool)
      → (LogicalBall machine → ℕ)
      → ℕ
      → Ptr
      → Text
      → Cmd (LogicalBall machine) Text
  unfolding append_text
  serialize takes number zero cur buffer = λ m. no_fuel
  serialize takes number (suc k) cur buffer = if cur == null then pure buffer else do
    n ← load cur
    buffer' ←
        if takes n.value
        then append_text buffer (take (temp_size - 1) (ball_text machine (number n.value) n.value))
        else pure buffer
    serialize takes number k n.next buffer'

  -- `serialize_ball_list`
  abbrev pub serialize_ball_list : ℕ → Ptr → ℕ → Cmd (LogicalBall machine) Text
  serialize_ball_list fuel head owner_id =
      serialize (λ b. b.owner_id == owner_id) (λ b. b.owner_id) fuel head []

  -- `serialize_ball_list_all`
  abbrev pub serialize_ball_list_all : ℕ → Ptr → Cmd (LogicalBall machine) Text
  serialize_ball_list_all fuel head = serialize (λ b. true) (λ b. b.id) fuel head []

module _ (Address : Type 0) (machine : Machine) where
  -- The loop of `broadcast_ball_state_all`: what is sent to which socket.
  unfoldable pub send_to_all : ℕ → Text → Ptr → Cmd (SocketContext Address) (List (ℕ × Text))
  send_to_all zero buffer curr = λ m. no_fuel
  send_to_all (suc k) buffer curr = if curr == null then pure [] else do
    n ← load curr
    sent ← send_to_all k buffer n.next
    pure ((n.value.csock, buffer) ∷ sent)

  -- There is no result if the code writes past the end of its buffer.
  unfoldable pub broadcast_ball_state_all : Server Address machine → Option (List (ℕ × Text))
  unfolding serialize send_to_all
  broadcast_ball_state_all s =
      after
        (serialize_ball_list_all machine (ball_fuel Address machine s) s.balls.head s.ball_memory)
        λ buffer ball_memory.
          after (send_to_all (client_fuel Address machine s) buffer s.clients.head s.client_memory)
            λ sent client_memory. some sent

  -- The serialisation within the loop over the clients.
  abbrev then_send :
      Run (LogicalBall machine) Text
      → (Text → Cmd (SocketContext Address) (List (ℕ × Text)))
      → Cmd (SocketContext Address) (List (ℕ × Text))
  then_send (ends data_text ball_memory) k = k data_text
  then_send fault k = crash
  then_send no_fuel k = λ m. no_fuel

  -- The loop of `broadcast_ball_state`: each client is sent its own balls, if it has any.
  unfoldable pub send_own :
      Server Address machine → ℕ → Ptr → Cmd (SocketContext Address) (List (ℕ × Text))
  unfolding serialize
  send_own s zero curr = λ m. no_fuel
  send_own s (suc k) curr = if curr == null then pure [] else do
    n ← load curr
    then_send
        (serialize_ball_list machine (ball_fuel Address machine s) s.balls.head n.value.csock
          s.ball_memory)
        λ data_text. do
          sent ← send_own s k n.next
          pure (if ltb 0 (length data_text) then (n.value.csock, data_text) ∷ sent else sent)

  unfoldable pub broadcast_ball_state : Server Address machine → Option (List (ℕ × Text))
  unfolding send_own
  broadcast_ball_state s =
      after (send_own s (client_fuel Address machine s) s.clients.head s.client_memory)
        λ sent client_memory. some sent
