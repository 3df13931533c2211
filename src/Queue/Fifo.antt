-- ===== src/Queue/Fifo.antt =====
-- A queue of src/server/task.c as the list of the tasks that wait in it, oldest first.
use owner_based_ball_game.Base.{
  Bool-cases, List, Option, [], ap, ap₂, arith, drop, false, if◌then◌else◌, inl, inr, length,
  length-append, none, pos, refl, set, some, suc, true, zero, ℕ, ◌%◌, ◌++◌, ◌+ℤ◌, ◌+◌, ◌-ℤ◌, ◌-◌,
  ◌<◌, ◌==◌, ◌∙◌, ◌∷◌, ◌≡◌, ◌≢◌, ◌≤◌,
}
use owner_based_ball_game.Queue.{
  Call, Task, TaskQueue, is_int, returns, slot_at, take_front, task_queue_pop, task_queue_push,
  unlocked, waits,
}

-- The tasks from the ticket `h` on: ticket `h` is in slot h % 128.
unfoldable pub window : List Task → ℕ → ℕ → List Task
window slots h zero = []
window slots h (suc n) = slot_at slots (h % 128) ∷ window slots (suc h) n

window_mod : (s : List Task) (h k n : ℕ) → h % 128 ≡ k % 128 → window s h n ≡ window s k n
unfolding window
window_mod s h k zero e = refl
window_mod s h k (suc n) e = rw (e, window_mod s (suc h) (suc k) n (omega arith))

window-snoc :
    (s : List Task) (h n : ℕ)
    → window s h (suc n) ≡ window s h n ++ (slot_at s ((h + n) % 128) ∷ [])
unfolding window
window-snoc s h zero = ap (λ i. slot_at s (i % 128) ∷ []) (omega arith)
window-snoc s h (suc n) =
    ap (λ ts. slot_at s (h % 128) ∷ ts)
      (window-snoc s (suc h) n
        ∙ ap (λ i. window s (suc h) n ++ (slot_at s (i % 128) ∷ [])) (omega arith))

slot_at-set : (s : List Task) (i : ℕ) (t : Task) → i < length s → slot_at (set s i t) i ≡ t
slot_at-set [] i t h = absurd (omega arith)
slot_at-set (x ∷ s) zero t h = refl
slot_at-set (x ∷ s) (suc i) t h = slot_at-set s i t (omega arith)

slot_at-set_ne : (s : List Task) (i j : ℕ) (t : Task) → i ≢ j → slot_at (set s i t) j ≡ slot_at s j
slot_at-set_ne [] i j t ne = refl
slot_at-set_ne (x ∷ s) zero zero t ne = absurd (ne refl)
slot_at-set_ne (x ∷ s) zero (suc j) t ne = refl
slot_at-set_ne (x ∷ s) (suc i) zero t ne = refl
slot_at-set_ne (x ∷ s) (suc i) (suc j) t ne = slot_at-set_ne s i j t (λ e. ne (ap suc e))

length-set : (s : List Task) (i : ℕ) (t : Task) → length (set s i t) ≡ length s
length-set [] i t = refl
length-set (x ∷ s) zero t = refl
length-set (x ∷ s) (suc i) t = ap suc (length-set s i t)

-- A write to a later ticket, less than one round away, is not seen.
window-set :
    (s : List Task) (t : Task) (h n m : ℕ)
    → n ≤ m
    → m < 128
    → window (set s ((h + m) % 128) t) h n ≡ window s h n
unfolding window
window-set s t h zero m le lt = refl
window-set s t h (suc n) m le lt = ap₂ ◌∷◌ (slot_at-set_ne s _ _ t (omega arith)) (
    ap (λ i. window (set s (i % 128) t) (suc h) n) (omega arith)
    ∙ window-set s t (suc h) n (m - 1) (omega arith) (omega arith))

-- The queue holds these tasks, and no thread is in a call.
pub record Holds (q : TaskQueue) (tasks : List Task) : Type 0 where
  pub slots_lem : length q.slots ≡ 128
  pub front_lem : q.front < 128
  pub rear_lem : q.rear ≡ (q.front + length tasks) % 128
  pub count_lem : q.count ≡ pos (length tasks)
  pub room : length tasks ≤ 128
  pub tasks_lem : window q.slots q.front (length tasks) ≡ tasks
  pub mutex_lem : q.mutex ≡ unlocked

-- A call on the queue does what the call on the list does, and leaves a queue that holds the rest.
abbrev pub Refines : {A : Type 0} → Call A → Option (A × List Task) → Type 0
Refines waits none = Unit
Refines waits (some r) = ⊥
Refines (returns a q) none = ⊥
Refines (returns a q) (some (b, tasks)) = (a ≡ b) × Holds q tasks

-- A list of at most 128 tasks, first in, first out; `none` is a call that waits.
unfoldable pub fifo_push : List Task → Task → Option (Unit {0} × List Task)
fifo_push tasks t = if length tasks == 128 then none else some (tt, tasks ++ (t ∷ []))

unfoldable pub fifo_pop : List Task → Option (Task × List Task)
fifo_pop [] = none
fifo_pop (t ∷ tasks) = some (t, tasks)

-- Writing at the end of a window that is not full adds the task to it.
window-append :
    (s : List Task) (t : Task) (h n : ℕ)
    → length s ≡ 128
    → n < 128
    → window (set s ((h + n) % 128) t) h (suc n) ≡ window s h n ++ (t ∷ [])
window-append s t h n len lt =
    window-snoc (set s ((h + n) % 128) t) h n
    ∙ ap₂ (λ ts x. ts ++ (x ∷ [])) (window-set s t h n n (omega arith) lt)
        (slot_at-set s _ t (omega arith))

Holds-push :
    {q : TaskQueue} {tasks : List Task} (t : Task)
    → Holds q tasks
    → length tasks < 128
    → Holds
        (record q {
          slots = set q.slots q.rear t;
          rear = (q.rear + 1) % 128;
          count = q.count +ℤ pos 1;
          mutex = unlocked;
        })
        (tasks ++ (t ∷ []))
unfolding ◌+ℤ◌
Holds-push {q} {tasks} t h lt =
    let len : length (tasks ++ (t ∷ [])) ≡ suc (length tasks) =
      omega (arith, length-append tasks (t ∷ [])) in
    record {
      slots_lem = length-set q.slots q.rear t ∙ h.slots_lem;
      front_lem = h.front_lem;
      rear_lem = omega (arith, h.rear_lem, len);
      count_lem = rw (h.count_lem, len) (ground arith);
      room = omega (arith, len);
      tasks_lem =
          rw (len, h.rear_lem)
            (window-append q.slots t q.front (length tasks) h.slots_lem lt
              ∙ ap (λ ts. ts ++ (t ∷ [])) h.tasks_lem);
      mutex_lem = refl;
    }

Holds-pop :
    {q : TaskQueue} {tasks : List Task} (t : Task)
    → Holds q (t ∷ tasks)
    → (slot_at q.slots q.front ≡ t)
      × Holds
          (record q { front = (q.front + 1) % 128; count = q.count -ℤ pos 1; mutex = unlocked })
          tasks
unfolding ◌-ℤ◌ window
Holds-pop {q} {tasks} t h = (
  ap (λ i. slot_at q.slots i) (omega arith) ∙ ap (λ ts. slot_at ts 0) h.tasks_lem,
  record {
    slots_lem = h.slots_lem;
    front_lem = omega arith;
    rear_lem = omega (arith, h.rear_lem);
    count_lem = rw h.count_lem (ground arith);
    room = omega (arith, h.room);
    tasks_lem =
        window_mod q.slots _ (suc q.front) (length tasks) (omega arith) ∙ ap (drop 1) h.tasks_lem;
    mutex_lem = refl;
  },
)

pub is_int-Holds :
    {q : TaskQueue} {tasks : List Task} (k : ℕ)
    → Holds q tasks
    → is_int q.count k ≡ (length tasks == k)
is_int-Holds k h = rw h.count_lem

-- On a queue that holds a list of tasks, `task_queue_push` waits exactly if the list has 128, and
-- otherwise leaves a queue that holds the list with the task at its end.
pub push-Refines :
    (q : TaskQueue) (tasks : List Task) (t : Task)
    → Holds q tasks
    → Refines (task_queue_push t q) (fifo_push tasks t)
unfolding task_queue_push fifo_push
push-Refines q tasks t h = elim (Bool-cases (length tasks == 128)) [
  | inl full ↦ rw (is_int-Holds 128 h, full) tt
  | inr space ↦ rw (is_int-Holds 128 h, space) (refl, Holds-push t h (ground arith))
]

-- While the server runs, `task_queue_pop` on a queue that holds a list of tasks waits exactly if the
-- list is empty, and otherwise returns the first task and leaves a queue that holds the rest.
pub pop-Refines :
    (q : TaskQueue) (tasks : List Task)
    → Holds q tasks
    → Refines (task_queue_pop true q) (fifo_pop tasks)
unfolding task_queue_pop take_front fifo_pop
pop-Refines q [] h = rw (is_int-Holds 0 h) tt
pop-Refines q (t ∷ tasks) h =
    let some_left : (length (t ∷ tasks) == 0) ≡ false = ground arith in
    rw (is_int-Holds 0 h, some_left) (Holds-pop t h)

pub Refines-waits : {A : Type 0} (call : Call A) → Refines call none → call ≡ waits
Refines-waits waits h = refl
Refines-waits (returns a q) h = elim h [ ]

pub Refines-returns :
    {A : Type 0} (call : Call A) (a : A) (tasks : List Task)
    → Refines call (some (a, tasks))
    → (q : TaskQueue) × (call ≡ returns a q) × Holds q tasks
Refines-returns waits a tasks h = elim h [ ]
Refines-returns (returns b q) a tasks (same, held) = (q, ap (λ x. returns x q) same, held)
