-- ===== src/ThreadPool/Invariant.antt =====
-- What holds of the pool after every step: first in, first out; the bound; no lost wake-up.
use httpd_cpp.Base.{
  ℕ, ◌+◌, ◌-◌, ◌≤◌, ◌<◌, ◌≡◌, refl, true, false, List, [], ◌∷◌, ◌++◌, length, length-append,
  append_assoc, arith,
}
use httpd_cpp.ThreadPool.{
  ThreadPool, new, set_max_queue_size, start, put, take, take_from, stop, Step, run, resume_run,
  call_take, resume_take, wake_worker, wake_caller, stopped, leave_loop, Reach, here, next,
}

-- The tasks that were taken and those in the queue are the accepted ones, in the order in which
-- they came. The queue keeps to its limit. While a worker waits, a woken worker is on its way for
-- each queued task; while a caller of `run` waits, a woken caller for each free place. Callers wait only if
-- there is a limit, workers leave only after `stop`, and after it no worker waits.
pub record Inv (p : ThreadPool) : Type 0 where
  pub fifo : p.accepted ≡ p.taken ++ p.queue
  pub bounded : 0 < p.max_queue_size → length p.queue ≤ p.max_queue_size
  pub counted : p.workers ≡ p.busy + p.waiting + p.woken + p.exited
  pub task_awake : 0 < p.waiting → length p.queue ≤ p.woken
  pub place_awake : 0 < p.full_waiting → p.max_queue_size ≤ length p.queue + p.full_woken
  pub limited : 0 < p.full_waiting + p.full_woken → 0 < p.max_queue_size
  pub none_left : p.running ≡ true → p.exited ≡ 0
  pub none_waits : p.running ≡ false → p.waiting ≡ 0

pub start-Inv :
    (max_size num_threads : ℕ) → Inv (start num_threads (set_max_queue_size max_size new))
unfolding start set_max_queue_size new
start-Inv max_size num_threads = ground arith

put-Inv : (task : ℕ) (p : ThreadPool) → Inv p → Inv (put task p)
unfolding put
put-Inv task p v =
    ground (arith, length-append p.queue (task ∷ []), append_assoc p.taken p.queue (task ∷ []))

take_from-Inv :
    (q : List ℕ) (p : ThreadPool) → p.queue ≡ q → 0 < p.busy → Inv p → Inv (take_from q p)
unfolding take_from
take_from-Inv [] p e h v = ground arith
take_from-Inv (t ∷ q) p e h v = ground (arith, append_assoc p.taken (t ∷ []) q)

-- A woken thread is counted as woken until it goes on.
resume_put-Inv :
    (task : ℕ) (p : ThreadPool)
    → 0 < p.full_woken
    → Inv p
    → Inv (put task (record p { full_woken = p.full_woken - 1 }))
unfolding put
resume_put-Inv task p h v =
    ground (arith, length-append p.queue (task ∷ []), append_assoc p.taken p.queue (task ∷ []))

resume_take_from-Inv :
    (q : List ℕ) (p : ThreadPool)
    → p.queue ≡ q
    → 0 < p.woken
    → Inv p
    → Inv (take_from q (record p { woken = p.woken - 1; busy = p.busy + 1 }))
unfolding take_from
resume_take_from-Inv [] p e h v = ground arith
resume_take_from-Inv (t ∷ q) p e h v = ground (arith, append_assoc p.taken (t ∷ []) q)

-- Every step keeps the invariant, whichever thread makes it.
pub Step-Inv : {p q : ThreadPool} → Step p q → Inv p → Inv q
unfolding take stop
Step-Inv {p} (run task h) v = put-Inv task p v
Step-Inv {p} (resume_run task h) v = resume_put-Inv task p h v
Step-Inv {p} (call_take h) v = take_from-Inv p.queue p refl h v
Step-Inv {p} (resume_take h) v = resume_take_from-Inv p.queue p refl h v
Step-Inv {p} (wake_worker h) v = ground arith
Step-Inv {p} (wake_caller h) v = ground arith
Step-Inv {p} stopped v = ground arith
Step-Inv {p} (leave_loop h e) v = ground arith

Reach-Inv : {p q : ThreadPool} → Inv p → Reach p q → Inv q
Reach-Inv v here = v
Reach-Inv v (next r s) = Step-Inv s (Reach-Inv v r)

-- After any steps of a started pool: the tasks taken and those in the queue are the accepted ones
-- in the order in which they came; the queue keeps to its limit; every worker is counted; while a
-- worker waits, a woken worker is on its way for each queued task; while a caller of `run` waits,
-- a woken caller for each free place; callers wait only if there is a limit, workers leave only
-- after `stop`, and after it no worker waits.
pub started-Inv :
    {p : ThreadPool} (max_size num_threads : ℕ)
    → Reach (start num_threads (set_max_queue_size max_size new)) p
    → Inv p
started-Inv max_size num_threads r = Reach-Inv (start-Inv max_size num_threads) r
