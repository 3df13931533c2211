-- ===== src/Queue/Delivery.antt =====
-- The calls that the threads make on one queue of src/server/task.c, in the order in which they
-- hold its mutex, and what a call does once the server stops.
use owner_based_ball_game.Base.{
  Bool-cases, List, [], ap, append-nil, append_assoc, arith, false, inl, inr, length, negsuc, pos,
  refl, sym, true, ◌%◌, ◌++◌, ◌+◌, ◌-ℤ◌, ◌==◌, ◌∙◌, ◌∷◌, ◌≡◌,
}
use owner_based_ball_game.Queue.{
  Task, TaskQueue, returns, slot_at, take_front, task_queue_init, task_queue_pop, task_queue_push,
  unlock_error, waits, zeroed,
}
use owner_based_ball_game.Queue.Fifo.{
  Holds, fifo_pop, fifo_push, is_int-Holds, pop-Refines, push-Refines, window,
}

pub data Event : Type 0 where
  pushed popped : Task → Event
  popped_late : Task → Event

abbrev pub pushes : List Event → List Task
pushes [] = []
pushes (pushed t ∷ es) = t ∷ pushes es
pushes (popped t ∷ es) = pushes es
pushes (popped_late t ∷ es) = pushes es

abbrev pub pops : List Event → List Task
pops [] = []
pops (pushed t ∷ es) = pops es
pops (popped t ∷ es) = t ∷ pops es
pops (popped_late t ∷ es) = t ∷ pops es

-- No pop comes behind the stop of the server.
abbrev pub IsBeforeStop : List Event → Type 0
IsBeforeStop [] = Unit
IsBeforeStop (pushed t ∷ es) = IsBeforeStop es
IsBeforeStop (popped t ∷ es) = IsBeforeStop es
IsBeforeStop (popped_late t ∷ es) = ⊥

-- A call that waits leaves the queue as it is, so only the calls that return are steps; a late pop is
-- one that finds `keep_running` cleared.
pub data Run : TaskQueue → List Event → TaskQueue → Type 0 where
  done : {q : TaskQueue} → Run q [] q
  push_step :
      {q r s : TaskQueue} {es : List Event} (t : Task)
      → task_queue_push t q ≡ returns tt r
      → Run r es s
      → Run q (pushed t ∷ es) s
  pop_step :
      {q r s : TaskQueue} {es : List Event} (t : Task)
      → task_queue_pop true q ≡ returns t r
      → Run r es s
      → Run q (popped t ∷ es) s
  late_step :
      {q r s : TaskQueue} {es : List Event} (t : Task)
      → task_queue_pop false q ≡ returns t r
      → Run r es s
      → Run q (popped_late t ∷ es) s

pub task_queue_init-Holds : Holds task_queue_init []
unfolding task_queue_init window zeroed
task_queue_init-Holds = record {
  slots_lem = refl;
  front_lem = omega arith;
  rear_lem = refl;
  count_lem = refl;
  room = omega arith;
  tasks_lem = refl;
  mutex_lem = refl;
}

-- What a push or a pop that returned has done to the tasks.
push_returned :
    {q r : TaskQueue} {tasks : List Task} (t : Task)
    → Holds q tasks
    → task_queue_push t q ≡ returns tt r
    → Holds r (tasks ++ (t ∷ []))
unfolding fifo_push
push_returned {q} {r} {tasks} t h e = elim (Bool-cases (length tasks == 128)) [
  | inl full ↦ absurd (rw (e, full) at (push-Refines q tasks t h))
  | inr space ↦ (rw (e, space) at (push-Refines q tasks t h)).1
]

pop_returned :
    {q r : TaskQueue} (tasks : List Task) (t : Task)
    → Holds q tasks
    → task_queue_pop true q ≡ returns t r
    → (rest : List Task) × (tasks ≡ t ∷ rest) × Holds r rest
unfolding fifo_pop
pop_returned {q} [] t h e = absurd (rw e at (pop-Refines q [] h))
pop_returned {q} (x ∷ tasks) t h e =
    let (same, left) = rw e at (pop-Refines q (x ∷ tasks) h) in
    (tasks, ap (λ y. y ∷ tasks) (sym same), left)

Run-Holds :
    {q s : TaskQueue} {es : List Event} (tasks : List Task)
    → Holds q tasks
    → IsBeforeStop es
    → Run q es s
    → (rest : List Task) × Holds s rest × (tasks ++ pushes es ≡ pops es ++ rest)
Run-Holds tasks h before done = (tasks, h, append-nil tasks)
Run-Holds tasks h before (push_step {es = es} t e steps) =
    let (rest, held, order) = Run-Holds (tasks ++ (t ∷ [])) (push_returned t h e) before steps in
    (rest, held, sym (append_assoc tasks (t ∷ []) (pushes es)) ∙ order)
Run-Holds tasks h before (pop_step {es = es} t e steps) =
    let (left, first, kept) = pop_returned tasks t h e in
    let (rest, held, order) = Run-Holds left kept before steps in
    (rest, held, ap (λ ts. ts ++ pushes es) first ∙ ap (λ ts. t ∷ ts) order)
Run-Holds tasks h before (late_step t e steps) = elim before [ ]

-- Whatever calls the threads make on a new queue, in whatever order, as long as no pop comes behind the
-- stop of the server: the tasks popped, followed by
-- those that the queue then holds, are the tasks pushed, in their order and each once, and no more
-- than 128 wait.
pub delivered :
    {s : TaskQueue} {es : List Event}
    → IsBeforeStop es
    → Run task_queue_init es s
    → (rest : List Task) × Holds s rest × (pushes es ≡ pops es ++ rest)
delivered before steps = Run-Holds [] task_queue_init-Holds before steps

-- A queue never makes both the thread that pushes and a thread that pops wait.
pub not_both_wait :
    {q : TaskQueue} {tasks : List Task} (t : Task)
    → Holds q tasks
    → ¬ ((task_queue_push t q ≡ waits) × (task_queue_pop true q ≡ waits))
unfolding fifo_push fifo_pop
not_both_wait {q} {tasks = []} t h (push, pop) = absurd (rw push at (push-Refines q [] t h))
not_both_wait {q} {tasks = x ∷ tasks} t h (push, pop) =
    absurd (rw pop at (pop-Refines q (x ∷ tasks) h))

-- Once the server stops, a pop from an empty queue does not wait. It returns what is left in the
-- front slot, makes the counter -1, and unlocks the mutex a second time.
pub pop-stopped :
    {q : TaskQueue}
    → Holds q []
    → (r : TaskQueue) × (task_queue_pop false q ≡ returns (slot_at q.slots q.front) r)
      × (r.count ≡ negsuc 0)
      × (r.mutex ≡ unlock_error)
unfolding task_queue_pop take_front ◌-ℤ◌
pop-stopped {q} h = (
  record q { front = (q.front + 1) % 128; count = q.count -ℤ pos 1; mutex = unlock_error },
  rw (is_int-Holds 0 h) refl,
  rw h.count_lem refl,
  refl,
)
