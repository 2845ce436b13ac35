-- ===== src/ThreadPool.antt =====
-- threadpool.h and threadpool.cpp: the pool as a transition system. A step is what one thread does
-- from taking the pool's mutex to giving it back or to waiting on a condition, which gives it back:
-- the mutex lets no two such stretches overlap. A task is a number. `notify` wakes one waiting
-- thread, `notifyAll` all of them, and a thread may also wake up unasked; a woken thread goes on
-- once it has the mutex again.
pub mod Callers
pub mod Invariant
pub mod Liveness
pub mod Threads
pub mod Statements
pub mod Queue
use httpd_cpp.Base.{
  ℕ, zero, suc, ◌+◌, ◌-◌, ◌<◌, ◌≡◌, Bool, true, false, ◌&&◌, List, [], ◌∷◌, ◌++◌, length, ltb, leb,
  ◌==◌, if◌then◌else◌,
}

-- `max_queue_size` is 0 for no limit. `workers` is the number of threads that `start` made: each is
-- busy (on its way to `take`, or in a task), waits on `notEmpty_`, was woken from there, or has
-- left its loop. Threads in `run` wait on `notFull_`, or were woken from there. `accepted` and
-- `taken` are histories: the tasks that were queued, and those that workers took, oldest first.
pub record ThreadPool : Type 0 where
  pub queue : List ℕ
  pub max_queue_size : ℕ
  pub running : Bool
  pub workers : ℕ
  pub busy : ℕ
  pub waiting : ℕ
  pub woken : ℕ
  pub exited : ℕ
  pub full_waiting : ℕ
  pub full_woken : ℕ
  pub accepted : List ℕ
  pub taken : List ℕ

unfoldable pub new : ThreadPool
new = record {
  queue = [];
  max_queue_size = 0;
  running = false;
  workers = 0;
  busy = 0;
  waiting = 0;
  woken = 0;
  exited = 0;
  full_waiting = 0;
  full_woken = 0;
  accepted = [];
  taken = [];
}

unfoldable pub set_max_queue_size : ℕ → ThreadPool → ThreadPool
set_max_queue_size max_size p = record p { max_queue_size = max_size }

unfoldable pub start : ℕ → ThreadPool → ThreadPool
start num_threads p = record p { running = true; workers = num_threads; busy = num_threads }

unfoldable pub is_full : ThreadPool → Bool
is_full p = ltb 0 p.max_queue_size && leb p.max_queue_size (length p.queue)

unfoldable pub queue_size : ThreadPool → ℕ
queue_size p = length p.queue

-- `notEmpty_.notify()` and `notFull_.notify()`.
unfoldable pub notify_not_empty : ThreadPool → ThreadPool
notify_not_empty p =
    if p.waiting == 0 then p else record p { waiting = p.waiting - 1; woken = p.woken + 1 }

notify_not_full : ThreadPool → ThreadPool
notify_not_full p =
    if p.full_waiting == 0
    then p
    else record p { full_waiting = p.full_waiting - 1; full_woken = p.full_woken + 1 }

-- `run` of a pool with threads, once it has the mutex.
unfoldable pub put : ℕ → ThreadPool → ThreadPool
unfolding is_full notify_not_empty
put task p =
    if is_full p
    then record p { full_waiting = p.full_waiting + 1 }
    else notify_not_empty
        (record p { queue = p.queue ++ (task ∷ []); accepted = p.accepted ++ (task ∷ []) })

-- `take`, once a busy worker has the mutex. With an empty queue and no waiting it returns an empty
-- task, and the worker is back at the test of its loop.
take_from : List ℕ → ThreadPool → ThreadPool
unfolding notify_not_full
take_from [] p = if p.running then record p { busy = p.busy - 1; waiting = p.waiting + 1 } else p
take_from (task ∷ queue) p =
    let p' : ThreadPool = record p { queue = queue; taken = p.taken ++ (task ∷ []) } in
    if ltb 0 p.max_queue_size then notify_not_full p' else p'

unfoldable pub take : ThreadPool → ThreadPool
unfolding take_from
take p = take_from p.queue p

-- The part of `stop` under the mutex; it then joins the threads.
unfoldable pub stop : ThreadPool → ThreadPool
stop p = record p { running = false; woken = p.woken + p.waiting; waiting = 0 }

-- The destructor.
unfoldable pub destroy : ThreadPool → ThreadPool
destroy p = if p.running then stop p else p

-- What can happen next. `run` of a pool without threads runs the task at once and leaves the pool
-- as it is.
pub data Step (p : ThreadPool) : ThreadPool → Type 0 where
  run : (task : ℕ) → 0 < p.workers → Step p (put task p)
  resume_run :
      (task : ℕ) → 0 < p.full_woken → Step p (put task (record p { full_woken = p.full_woken - 1 }))
  call_take : 0 < p.busy → Step p (take p)
  resume_take : 0 < p.woken → Step p (take (record p { woken = p.woken - 1; busy = p.busy + 1 }))
  wake_worker : 0 < p.waiting → Step p (record p { waiting = p.waiting - 1; woken = p.woken + 1 })
  wake_caller :
      0 < p.full_waiting
      → Step p (record p { full_waiting = p.full_waiting - 1; full_woken = p.full_woken + 1 })
  stopped : Step p (stop p)
  leave_loop :
      0 < p.busy
      → p.running ≡ false
      → Step p (record p { busy = p.busy - 1; exited = p.exited + 1 })

pub data Reach (p : ThreadPool) : ThreadPool → Type 0 where
  here : Reach p p
  next : {q r : ThreadPool} → Reach p q → Step q r → Reach p r
