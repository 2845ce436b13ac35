-- ===== src/ThreadPool/Liveness.antt =====
-- Who can go on: no queued task is left to sleeping workers while the pool runs, and what `stop`
-- leaves behind.
use httpd_cpp.Base.{ℕ, ◌+◌, ◌-◌, ◌≤◌, ◌<◌, ◌≡◌, refl, ◌∙◌, ◌⊎◌, true, false, length, arith}
use httpd_cpp.ThreadPool.{
  ThreadPool, new, set_max_queue_size, start, put, stop, Step, run, resume_run, call_take,
  resume_take, wake_worker, wake_caller, leave_loop, Reach, here, next,
}
use httpd_cpp.ThreadPool.Invariant.{started-Inv}

-- In a pool that runs with some worker, after any steps: if a task is queued, or a caller of `run`
-- waits for a place, then some thread has no wake-up to wait for: a worker that is busy or was
-- woken, or a caller that was woken.
pub no_deadlock :
    {p : ThreadPool} (max_size num_threads : ℕ)
    → Reach (start num_threads (set_max_queue_size max_size new)) p
    → p.running ≡ true
    → 0 < p.workers
    → (0 < length p.queue) ⊎ (0 < p.full_waiting)
    → 0 < p.busy + p.woken + p.full_woken
no_deadlock max_size num_threads r e w h =
    let v = started-Inv max_size num_threads r in ground (arith, v)

-- A pool that was stopped with a full queue, and whose workers have all left.
pub record Abandoned (p : ThreadPool) : Type 0 where
  pub stopped : p.running ≡ false
  pub no_busy : p.busy ≡ 0
  pub no_waiting : p.waiting ≡ 0
  pub no_woken : p.woken ≡ 0
  pub limited : 0 < p.max_queue_size
  pub full : p.max_queue_size ≤ length p.queue

put-Abandoned :
    (task : ℕ) (p : ThreadPool)
    → Abandoned p
    → Abandoned (put task p) × ((put task p).accepted ≡ p.accepted) × ((put task p).taken ≡ p.taken)
unfolding put
put-Abandoned task p a = ground arith

-- It stays so: `stop` wakes no caller of `run`, and one that wakes up by itself waits again. No
-- call of `run` ever queues its task, and no queued task is ever taken.
pub Step-Abandoned :
    {p q : ThreadPool}
    → Step p q
    → Abandoned p
    → Abandoned q × (q.accepted ≡ p.accepted) × (q.taken ≡ p.taken)
unfolding stop
Step-Abandoned {p} (run task h) a = put-Abandoned task p a
Step-Abandoned {p} (resume_run task h) a =
    put-Abandoned task (record p { full_woken = p.full_woken - 1 }) (ground arith)
Step-Abandoned {p} (call_take h) a = absurd (omega arith)
Step-Abandoned {p} (resume_take h) a = absurd (omega arith)
Step-Abandoned {p} (wake_worker h) a = absurd (omega arith)
Step-Abandoned {p} (wake_caller h) a = ground arith
Step-Abandoned {p} Step.stopped a = ground arith
Step-Abandoned {p} (leave_loop h e) a = absurd (omega arith)

-- A stopped pool with a limit, whose queue is full and whose workers have all left, stays so after
-- any steps: no task is accepted and none is taken any more, so what is queued never runs.
pub Reach-Abandoned :
    {p q : ThreadPool}
    → Reach p q
    → Abandoned p
    → Abandoned q × (q.accepted ≡ p.accepted) × (q.taken ≡ p.taken)
Reach-Abandoned here a = (a, refl, refl)
Reach-Abandoned (next r s) a =
    let (b, e, f) = Reach-Abandoned r a in let (c, g, h) = Step-Abandoned s b in (c, g ∙ e, h ∙ f)
