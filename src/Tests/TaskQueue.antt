-- ===== src/Tests/TaskQueue.antt =====
-- The task queue of src/server/task.c at concrete tasks.
use owner_based_ball_game.Base.{
  List, [], arith, false, negsuc, pos, refl, true, ◌+ℤ◌, ◌-ℤ◌, ◌∷◌, ◌≡◌,
}
use owner_based_ball_game.Queue.{
  Task, TaskQueue, returns, slot_at, take_front, task_queue_init, task_queue_pop, task_queue_push,
  unlock_error, unlocked, zeroed,
}
use owner_based_ball_game.Queue.Delivery.{
  Event, Run, delivered, done, pop-stopped, pop_step, popped, push_step, pushed,
  task_queue_init-Holds,
}
use owner_based_ball_game.Queue.Fifo.{
  Holds, Refines, fifo_pop, fifo_push, pop-Refines, push-Refines, window,
}
use owner_based_ball_game.Text.{txt}

abbrev first_task : Task
first_task = record { fd = 5; data_bytes = txt "add 3"; data_length = 5 }

abbrev second_task : Task
second_task = record { fd = 7; data_bytes = txt "up"; data_length = 2 }

-- Both tasks are pushed, then the first is popped.
abbrev events : List Event
events = pushed first_task ∷ pushed second_task ∷ popped first_task ∷ []

abbrev one_waiting : TaskQueue
one_waiting = record task_queue_init { slots = first_task ∷ zeroed 127; rear = 1; count = pos 1 }

one_waiting-Holds : Holds one_waiting (first_task ∷ [])
unfolding task_queue_init window zeroed
one_waiting-Holds = record {
  slots_lem = refl;
  front_lem = omega arith;
  rear_lem = refl;
  count_lem = refl;
  room = omega arith;
  tasks_lem = refl;
  mutex_lem = refl;
}

push-Refines_example :
    Refines (task_queue_push second_task one_waiting) (fifo_push (first_task ∷ []) second_task)
push-Refines_example = push-Refines one_waiting (first_task ∷ []) second_task one_waiting-Holds

one_popped : Refines (task_queue_pop true one_waiting) (fifo_pop (first_task ∷ []))
one_popped = pop-Refines one_waiting (first_task ∷ []) one_waiting-Holds

abbrev after_events : TaskQueue
after_events = record {
  slots = first_task ∷ second_task ∷ zeroed 126;
  front = 1;
  rear = 2;
  count = pos 1;
  mutex = unlocked;
}

events-Run : Run task_queue_init events after_events
unfolding task_queue_init task_queue_push task_queue_pop take_front zeroed ◌+ℤ◌ ◌-ℤ◌
events-Run = push_step first_task refl (push_step second_task refl (pop_step first_task refl done))

delivered_example :
    (rest : List Task) × Holds after_events rest
    × (first_task ∷ second_task ∷ [] ≡ first_task ∷ rest)
delivered_example = delivered tt events-Run

pop-stopped_example :
    (r : TaskQueue) × (task_queue_pop false task_queue_init
      ≡ returns (slot_at task_queue_init.slots task_queue_init.front) r)
    × (r.count ≡ negsuc 0)
    × (r.mutex ≡ unlock_error)
pop-stopped_example = pop-stopped task_queue_init-Holds
