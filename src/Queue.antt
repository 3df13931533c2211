-- ===== src/Queue.antt =====
-- `TaskQueue` of src/server/task.c and include/server/task.h: the tasks that the main thread hands
-- to the workers. A call is one critical section, from the lock of the mutex to its unlock.
pub mod Fifo
pub mod Delivery
use owner_based_ball_game.Base.{
  Bool, List, [], false, if◌then◌else◌, negsuc, not, pos, set, suc, zero, ℕ, ℤ, ◌%◌, ◌&&◌, ◌+ℤ◌,
  ◌+◌, ◌-ℤ◌, ◌==◌, ◌∷◌,
}

-- `Task`: the socket of the client, what it sent, and how long that is.
pub record Task : Type 0 where
  pub fd : ℕ
  pub data_bytes : List ℕ
  pub data_length : ℕ

abbrev pub capacity : ℕ
capacity = 128

-- `pthread_mutex_t`; to unlock a mutex that nobody holds is an error, without a defined result.
pub data Mutex : Type 0 where
  unlocked locked unlock_error : Mutex

abbrev pub unlock : Mutex → Mutex
unlock locked = unlocked
unlock m = unlock_error

-- The counter is an `int`. The condition variable is a part of `Call` below.
pub record TaskQueue : Type 0 where
  pub slots : List Task
  pub front : ℕ
  pub rear : ℕ
  pub count : ℤ
  pub mutex : Mutex

-- A call waits on the condition until another thread signals it, or it returns.
pub data Call {ℓ} (A : Type ℓ) : Type ℓ where
  waits : Call A
  returns : A → TaskQueue → Call A

abbrev pub zero_task : Task
zero_task = record { fd = 0; data_bytes = []; data_length = 0 }

unfoldable pub zeroed : ℕ → List Task
zeroed zero = []
zeroed (suc n) = zero_task ∷ zeroed n

-- `task_queue_init`
unfoldable pub task_queue_init : TaskQueue
unfolding zeroed
task_queue_init = record {
  slots = zeroed capacity;
  front = 0;
  rear = 0;
  count = pos 0;
  mutex = unlocked;
}

abbrev pub slot_at : List Task → ℕ → Task
slot_at [] i = zero_task
slot_at (t ∷ ts) zero = t
slot_at (t ∷ ts) (suc i) = slot_at ts i

abbrev pub is_int : ℤ → ℕ → Bool
is_int (pos n) k = n == k
is_int (negsuc n) k = false

-- pthread_mutex_lock; the call goes on only if no other thread holds the mutex
abbrev pub lock : TaskQueue → TaskQueue
lock q = record q { mutex = locked }

abbrev pub release : TaskQueue → TaskQueue
release q = record q { mutex = unlock q.mutex }

-- `task_queue_push`
unfoldable pub task_queue_push : Task → TaskQueue → Call (Unit {0})
unfolding ◌+ℤ◌
task_queue_push task q =
    if is_int q.count capacity
    then waits
    else let held = lock q in
      returns tt (
        release (record held {
          slots = set held.slots held.rear task;
          rear = (held.rear + 1) % capacity;
          count = held.count +ℤ pos 1;
        }))

-- The end of `task_queue_pop`, whether or not the thread still holds the mutex.
unfoldable pub take_front : TaskQueue → Call Task
unfolding ◌-ℤ◌
take_front q =
    returns (slot_at q.slots q.front)
      (release (record q { front = (q.front + 1) % capacity; count = q.count -ℤ pos 1 }))

-- `task_queue_pop`, on the flag `keep_running`
unfoldable pub task_queue_pop : Bool → TaskQueue → Call Task
unfolding take_front
task_queue_pop keep_running q =
    if is_int q.count 0 && keep_running
    then waits
    else take_front (if not keep_running then release (lock q) else lock q)
