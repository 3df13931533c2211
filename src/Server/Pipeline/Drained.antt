-- ===== src/Server/Pipeline/Drained.antt =====
-- What the main thread of src/server/main.c pushes is handled: a worker of src/server/server.c works through
-- the queue, and the players who have sent nothing keep their balls.
use owner_based_ball_game.Balls.{LogicalBall, Machine}
use owner_based_ball_game.Balls.Dispatch.{Supply}
use owner_based_ball_game.Balls.Dispatch.Others.{others}
use owner_based_ball_game.Balls.Manager.Delete.{keep_first}
use owner_based_ball_game.Base.{
  Bool, Bool-cases, List, Option, [], ap, arith, false, if◌then◌else◌, inl, inr, length, none, refl,
  some, suc, sym, true, ℕ, ◌==◌, ◌||◌, ◌∙◌, ◌∷◌, ◌≡◌,
}
use owner_based_ball_game.Directory.{turn}
use owner_based_ball_game.Memory.{Ptr}
use owner_based_ball_game.Queue.{Task, TaskQueue, returns, task_queue_pop, waits}
use owner_based_ball_game.Queue.Fifo.{Holds, Refines-returns, Refines-waits, fifo_pop, pop-Refines}
use owner_based_ball_game.Server.{Server}
use owner_based_ball_game.Server.Connected.{is_open}
use owner_based_ball_game.Server.Events.{IsRunning}
use owner_based_ball_game.Server.Pipeline.{
  Shared, idle, served, task_text, worker_loop, worker_turn,
}
use owner_based_ball_game.Server.Worker.{Reply, Scanf, parse_command, worker_round}
use owner_based_ball_game.Server.Worker.Texts.{
  IsReadAllowed, open_behind, worker_round-OnlyOwnBalls,
}

-- a task, with what `rand` and `malloc` give its worker
abbrev pub Job : Type 0
Job = Task × Supply

abbrev pub tasks_of : List Job → List Task
tasks_of [] = []
tasks_of ((task, supply) ∷ jobs) = task ∷ tasks_of jobs

abbrev pub supplies_of : List Job → List Supply
supplies_of [] = []
supplies_of ((task, supply) ∷ jobs) = supply ∷ supplies_of jobs

-- whether a socket has sent one of the tasks
abbrev pub has_sent : ℕ → List Job → Bool
has_sent fd [] = false
has_sent fd ((task, supply) ∷ jobs) = fd == task.fd || has_sent fd jobs

-- the sockets that are open behind the tasks
abbrev pub open_behind_all : Scanf → List Job → List ℕ → List ℕ
open_behind_all scanf [] live = live
open_behind_all scanf ((task, supply) ∷ jobs) live =
    open_behind_all scanf jobs (open_behind task.fd (parse_command scanf (task_text task)) live)

module _ (machine : Machine) where
  -- the nodes of a player's balls
  unfoldable pub own_nodes : ℕ → List (Ptr × LogicalBall machine) → List (Ptr × LogicalBall machine)
  own_nodes fd [] = []
  own_nodes fd ((p, b) ∷ xs) =
      let rest = own_nodes fd xs in if b.owner_id == fd then (p, b) ∷ rest else rest

  own_nodes-others :
      (fd owner : ℕ) (xs : List (Ptr × LogicalBall machine))
      → (fd == owner) ≡ false
      → own_nodes fd (others machine owner xs) ≡ own_nodes fd xs
  unfolding own_nodes keep_first
  own_nodes-others fd owner [] ne = refl
  own_nodes-others fd owner ((p, b) ∷ xs) ne = elim (Bool-cases (b.owner_id == owner)) [
    | inl own ↦
        let not_fd : (b.owner_id == fd) ≡ false = ground arith in
        rw (own, not_fd) (own_nodes-others fd owner xs ne)
    | inr other ↦ rw (other, own_nodes-others fd owner xs ne) refl
  ]

  -- The balls of a player are as they were if those of all but another player are.
  own_nodes-kept :
      (fd owner : ℕ) (xs ys : List (Ptr × LogicalBall machine))
      → (fd == owner) ≡ false
      → others machine owner xs ≡ others machine owner ys
      → own_nodes fd xs ≡ own_nodes fd ys
  own_nodes-kept fd owner xs ys ne kept =
      sym (own_nodes-others fd owner xs ne)
      ∙ ap (own_nodes fd) kept
      ∙ own_nodes-others fd owner ys ne

module _ {Address : Type 0} {machine : Machine} (scanf : Scanf) where
  abbrev pub IfServed :
      Option (Server Address machine × Reply) → (Server Address machine → Type 0) → Type 0
  IfServed none P = Unit
  IfServed (some (s, reply)) P = P s

  -- Each task is of a socket that is open when its turn comes, and its command is one that the worker can
  -- run.
  abbrev pub JobsAllowed : List Job → List ℕ → Server Address machine → Type 0
  JobsAllowed [] live s = Unit
  JobsAllowed ((task, supply) ∷ jobs) live s =
      (is_open task.fd live ≡ true)
      × IsReadAllowed task.fd supply s (parse_command scanf (task_text task))
      × IfServed (worker_round Address machine scanf task.fd supply (task_text task) s) λ s'.
        JobsAllowed jobs (open_behind task.fd (parse_command scanf (task_text task)) live) s'

  -- All tasks have been handled: the queue is empty, a further round waits, there is a reply to each task, the
  -- server runs, and the players that have sent none have the balls that they had.
  pub record Drained (jobs : List Job) (live : List ℕ) (xs : List (Ptr × LogicalBall machine))
      (result : Option (Shared Address machine scanf × List Reply)) : Type 0 where
    pub shared : Shared Address machine scanf
    pub replies : List Reply
    pub ended_lem : result ≡ some (shared, replies)
    pub empty_lem : Holds shared.queue []
    pub idle_lem : (supply : Supply) → worker_turn Address machine scanf supply shared ≡ idle
    pub replies_lem : length replies ≡ length jobs
    pub running : IsRunning (open_behind_all scanf jobs live) shared.server
    pub kept_lem :
        (fd : ℕ)
        → has_sent fd jobs ≡ false
        → own_nodes machine fd running.ball_nodes ≡ own_nodes machine fd xs

  worker_turn-served :
      (task : Task) (supply : Supply) (q q' : TaskQueue) (s s' : Server Address machine)
      (reply : Reply)
      → task_queue_pop true q ≡ returns task q'
      → worker_round Address machine scanf task.fd supply (task_text task) s ≡ some (s', reply)
      → worker_turn Address machine scanf supply (record { queue = q; server = s })
        ≡ served reply (record { queue = q'; server = s' })
  unfolding worker_turn
  worker_turn-served task supply q q' s s' reply pop run = rw (pop, worker_turn) (rw run refl)

  worker_loop-more :
      (supply : Supply) (supplies : List Supply) (first second last : Shared Address machine scanf)
      (reply : Reply) (replies : List Reply)
      → worker_turn Address machine scanf supply first ≡ served reply second
      → worker_loop Address machine scanf supplies second ≡ some (last, replies)
      → worker_loop Address machine scanf (supply ∷ supplies) first ≡ some (last, reply ∷ replies)
  unfolding worker_loop
  worker_loop-more supply supplies first second last reply replies turn rest =
      rw (turn, worker_loop) (rw rest refl)

  worker_turn-idle :
      (supply : Supply) (q : TaskQueue) (s : Server Address machine)
      → task_queue_pop true q ≡ waits
      → worker_turn Address machine scanf supply (record { queue = q; server = s }) ≡ idle
  unfolding worker_turn
  worker_turn-idle supply q s pop = rw (pop, worker_turn) refl

  pub worker_loop-Drained :
      (jobs : List Job) (live : List ℕ) (q : TaskQueue) (s : Server Address machine)
      (h : IsRunning live s)
      → Holds q (tasks_of jobs)
      → JobsAllowed jobs live s
      → Drained jobs live h.ball_nodes
          (worker_loop Address machine scanf (supplies_of jobs) (record { queue = q; server = s }))
  unfolding worker_loop fifo_pop
  worker_loop-Drained [] live q s h held allowed = record {
    shared = record { queue = q; server = s };
    replies = [];
    ended_lem = refl;
    empty_lem = held;
    idle_lem = λ supply.
        worker_turn-idle supply q s (Refines-waits (task_queue_pop true q) (pop-Refines q [] held));
    replies_lem = refl;
    running = h;
    kept_lem = λ fd not_sent. refl;
  }
  worker_loop-Drained ((task, supply) ∷ jobs) live q s h held (o, read, later) =
      let (q', pop, held') =
        Refines-returns (task_queue_pop true q) task (tasks_of jobs)
          (pop-Refines q (task ∷ tasks_of jobs) held) in
      let (s', reply, run, (h', kept)) =
        worker_round-OnlyOwnBalls scanf task.fd supply (task_text task) live s h o read in
      let rest =
        worker_loop-Drained jobs (open_behind task.fd (parse_command scanf (task_text task)) live)
          q' s' h' held' (rw run at later) in
      record {
        shared = rest.shared;
        replies = reply ∷ rest.replies;
        ended_lem =
            worker_loop-more supply (supplies_of jobs) (record { queue = q; server = s }) _ _ reply
              _ (worker_turn-served task supply q q' s s' reply pop run) rest.ended_lem;
        empty_lem = rest.empty_lem;
        idle_lem = rest.idle_lem;
        replies_lem = ap suc rest.replies_lem;
        running = rest.running;
        kept_lem = λ fd not_sent.
            rest.kept_lem fd (ground arith)
            ∙ own_nodes-kept machine fd task.fd h'.ball_nodes h.ball_nodes (ground arith) kept;
      }
