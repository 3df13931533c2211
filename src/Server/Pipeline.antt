-- ===== src/Server/Pipeline.antt =====
-- A task on its way through the server: the main thread of src/server/main.c pushes it onto the queue, a
-- worker of src/server/server.c pops it and runs its command.
pub mod Drained
pub mod Received
use owner_based_ball_game.Balls.{Machine}
use owner_based_ball_game.Balls.Dispatch.{Supply}
use owner_based_ball_game.Base.{
  Bool, List, Option, [], false, if◌then◌else◌, length, ltb, none, some, take, true, ℕ, ◌&&◌, ◌==◌,
  ◌∷◌,
}
use owner_based_ball_game.Queue.{Task, TaskQueue, returns, task_queue_pop, task_queue_push, waits}
use owner_based_ball_game.Server.{Server}
use owner_based_ball_game.Server.Worker.{Reply, Scanf, worker_round}
use owner_based_ball_game.Text.{Text}

-- The task that the main thread makes of what it has received; `receive_all` makes it only of a message that
-- fits the buffers.
abbrev pub received : ℕ → List ℕ → Task
received fd buf = record { fd = fd; data_bytes = buf; data_length = length buf }

-- A character array as a string of C: up to the first 0.
unfoldable pub c_string : List ℕ → Text
c_string [] = []
c_string (c ∷ s) = let rest = c_string s in if c == 0 then [] else c ∷ rest

-- The text that the worker reads, once it has put a 0 behind the data.
abbrev pub task_text : Task → Text
task_text task = c_string (take task.data_length task.data_bytes)

-- BUFSIZ of the C library, the bytes of `buf` and of `task.data`
abbrev pub buffer_bytes : ℕ
buffer_bytes = 8192

-- `recv` has given something, and the 0 that the main thread and the worker put behind it is within the
-- buffer.
abbrev pub fits_buffer : List ℕ → Bool
fits_buffer buf = ltb 0 (length buf) && ltb (length buf) buffer_bytes

-- The loop of the main thread over what it receives, as long as no push waits. There is no result for a
-- message that fills the buffer, behind whose end the code writes, or for an empty one, which ends a
-- connection.
unfoldable pub receive_all : List (ℕ × List ℕ) → TaskQueue → Option TaskQueue
receive_all [] queue = some queue
receive_all ((fd, buf) ∷ rest) queue = elim (fits_buffer buf) [
  | false ↦ none
  | true ↦ elim (task_queue_push (received fd buf) queue) [
    | waits ↦ none
    | returns _ queue' ↦ receive_all rest queue'
  ]
]

module _ (Address : Type 0) (machine : Machine) (scanf : Scanf) where
  -- What `SharedContext` holds: the queue and the two lists.
  pub record Shared : Type 0 where
    pub queue : TaskQueue
    pub server : Server Address machine

  -- What a round of a worker comes to: it waits for a task, it uses memory that is not allocated, or it has
  -- handled a task.
  pub data Turn : Type 0 where
    idle crashed : Turn
    served : Reply → Shared → Turn

  abbrev served_with : TaskQueue → Option (Server Address machine × Reply) → Turn
  served_with queue none = crashed
  served_with queue (some (server, reply)) =
      served reply (record { queue = queue; server = server })

  -- A round of `worker_thread` while the server runs.
  unfoldable pub worker_turn : Supply → Shared → Turn
  unfolding c_string
  worker_turn supply shared = elim (task_queue_pop true shared.queue) [
    | waits ↦ idle
    | returns task queue ↦
        served_with queue
          (worker_round Address machine scanf task.fd supply (task_text task) shared.server)
  ]

  -- a reply in front of those of the later rounds
  abbrev noted : Reply → Option (Shared × List Reply) → Option (Shared × List Reply)
  noted reply none = none
  noted reply (some (shared, replies)) = some (shared, reply ∷ replies)

  -- The loop of `worker_thread` for as many rounds as there are supplies: the state behind it, and the replies.
  -- There is none if a round waits or fails.
  unfoldable pub worker_loop : List Supply → Shared → Option (Shared × List Reply)
  unfolding worker_turn
  worker_loop [] shared = some (shared, [])
  worker_loop (supply ∷ supplies) shared = elim (worker_turn supply shared) [
    | idle ↦ none
    | crashed ↦ none
    | served reply shared' ↦ noted reply (worker_loop supplies shared')
  ]
