-- ===== src/ThreadPool/Statements/Refine.antt =====
-- The pool as statements of its threads does what the pool as whole calls does.
use httpd_cpp.Base.{
  ℕ, ◌+◌, ◌-◌, ◌<◌, ◌≡◌, subst, ◌==◌, List, [], ◌∷◌, ltb, if◌then◌else◌, arith, Bool-cases, inl,
  inr,
}
use httpd_cpp.Condition.{Condition, notify, notify_all}
use httpd_cpp.ThreadPool
use httpd_cpp.ThreadPool.{ThreadPool}
use httpd_cpp.ThreadPool.Statements
use httpd_cpp.ThreadPool.Statements.{Statements, Step, Reach, wait, regain, wake}
use httpd_cpp.ThreadPool.Statements.Exclusion.{Inv, Reach-Inv}

-- A condition, as it will stand once the notification that is due was given.
abbrev after_notify : ℕ → Condition → Condition
after_notify due c = if due == 0 then c else notify c

abbrev after_notify_all : ℕ → Condition → Condition
after_notify_all due c = if due == 0 then c else notify_all c

-- The pool that the threads make. A call has its effect where it pushes, pops, goes to sleep, or
-- writes `running_`, with the notifications that follow.
unfoldable pub pool : Statements → ThreadPool
pool s =
    let not_empty = after_notify_all s.ending (after_notify s.notifying s.not_empty) in
    let not_full = after_notify s.signalling s.not_full in
    record {
      queue = s.queue;
      max_queue_size = s.max_queue_size;
      running = s.running;
      workers = s.workers;
      busy = s.at_loop + s.taking + s.popping + s.signalling + s.took;
      waiting = not_empty.waiting;
      woken = not_empty.woken + s.retaking + s.repopping;
      exited = s.exited;
      full_waiting = not_full.waiting;
      full_woken = not_full.woken + s.reentering + s.repushing;
      accepted = s.accepted;
      taken = s.taken;
    }

-- A pool is told by its fields.
same_pool :
    {p q r : ThreadPool}
    → ThreadPool.Reach p q
    → (q.queue ≡ r.queue)
      × (q.max_queue_size ≡ r.max_queue_size)
      × (q.running ≡ r.running)
      × (q.workers ≡ r.workers)
      × (q.busy ≡ r.busy)
      × (q.waiting ≡ r.waiting)
      × (q.woken ≡ r.woken)
      × (q.exited ≡ r.exited)
      × (q.full_waiting ≡ r.full_waiting)
      × (q.full_woken ≡ r.full_woken)
      × (q.accepted ≡ r.accepted)
      × (q.taken ≡ r.taken)
    → ThreadPool.Reach p r
same_pool {p} reach (a, b, c, d, e, f, g, h, k, l, m, n) =
    subst (ThreadPool.Reach p)
      (λ i. record {
        queue = a i;
        max_queue_size = b i;
        running = c i;
        workers = d i;
        busy = e i;
        waiting = f i;
        woken = g i;
        exited = h i;
        full_waiting = k i;
        full_woken = l i;
        accepted = m i;
        taken = n i;
      })
      reach

popped_refines :
    {p : ThreadPool} (q : List ℕ) (s : Statements)
    → Inv (record s { queue = q })
    → 0 < s.popping
    → ThreadPool.Reach p (pool (record s { queue = q }))
    → ThreadPool.Reach p
        (pool (record (Statements.pop_from q (record s { queue = q })) { popping = s.popping - 1 }))
unfolding pool Statements.is_full Statements.is_idle Statements.pop_from notify ThreadPool.take
    ThreadPool.take_from ThreadPool.notify_not_full
popped_refines [] s v a r = same_pool r (ground arith)
popped_refines (task ∷ q) s v a r =
    same_pool (ThreadPool.next r (ThreadPool.call_take (ground arith))) (ground arith)

repopped_refines :
    {p : ThreadPool} (q : List ℕ) (s : Statements)
    → Inv (record s { queue = q })
    → 0 < s.repopping
    → ThreadPool.Reach p (pool (record s { queue = q }))
    → ThreadPool.Reach p (
        pool
          (record (Statements.pop_from q (record s { queue = q })) { repopping = s.repopping - 1 }))
unfolding pool Statements.is_full Statements.is_idle Statements.pop_from notify ThreadPool.take
    ThreadPool.take_from ThreadPool.notify_not_full
repopped_refines [] s v a r =
    same_pool (ThreadPool.next r (ThreadPool.resume_take (ground arith))) (ground arith)
repopped_refines (task ∷ q) s v a r =
    same_pool (ThreadPool.next r (ThreadPool.resume_take (ground arith))) (ground arith)

wake_worker_refines :
    {p : ThreadPool} (s : Statements)
    → 0 < s.not_empty.waiting
    → Inv s
    → ThreadPool.Reach p (pool s)
    → ThreadPool.Reach p (pool (record s { not_empty = wake s.not_empty }))
unfolding pool notify notify_all
wake_worker_refines s a v r = elim (Bool-cases (ltb 0 (pool s).waiting)) [
  | inl h ↦
      same_pool (ThreadPool.next r (ThreadPool.wake_worker (ground (arith, h)))) (ground (arith, h))
  | inr h ↦ same_pool r (ground (arith, h))
]

wake_caller_refines :
    {p : ThreadPool} (s : Statements)
    → 0 < s.not_full.waiting
    → Inv s
    → ThreadPool.Reach p (pool s)
    → ThreadPool.Reach p (pool (record s { not_full = wake s.not_full }))
unfolding pool notify notify_all
wake_caller_refines s a v r = elim (Bool-cases (ltb 0 (pool s).full_waiting)) [
  | inl h ↦
      same_pool (ThreadPool.next r (ThreadPool.wake_caller (ground (arith, h)))) (ground (arith, h))
  | inr h ↦ same_pool r (ground (arith, h))
]

Step-refines :
    {p : ThreadPool} {s t : Statements}
    → Step s t
    → Inv s
    → ThreadPool.Reach p (pool s)
    → ThreadPool.Reach p (pool t)
unfolding pool Statements.is_full Statements.is_idle Statements.push Statements.pop notify
    notify_all ThreadPool.put ThreadPool.take ThreadPool.take_from ThreadPool.stop
    ThreadPool.is_full ThreadPool.notify_not_empty ThreadPool.notify_not_full
Step-refines (Statements.lock_take a b) v r = same_pool r (ground arith)
Step-refines (Statements.take_waits a b) v r =
    same_pool (ThreadPool.next r (ThreadPool.call_take (ground arith))) (ground arith)
Step-refines (Statements.take_goes_on a b) v r = same_pool r (ground arith)
Step-refines (Statements.resume_take a b) v r = same_pool r (ground arith)
Step-refines (Statements.retake_waits a b) v r =
    same_pool (ThreadPool.next r (ThreadPool.resume_take (ground arith))) (ground arith)
Step-refines (Statements.retake_goes_on a b) v r = same_pool r (ground arith)
Step-refines {s = s} (Statements.pops a) v r = popped_refines s.queue s v a r
Step-refines {s = s} (Statements.repops a) v r = repopped_refines s.queue s v a r
Step-refines (Statements.signals a) v r = same_pool r (ground arith)
Step-refines (Statements.unlock_take a) v r = same_pool r (ground arith)
Step-refines (Statements.leave_loop a b) v r =
    same_pool (ThreadPool.next r (ThreadPool.leave_loop (ground arith) b)) (ground arith)
Step-refines (Statements.lock_run a b) v r = same_pool r (ground arith)
Step-refines (Statements.run_waits a b) v r =
    same_pool (ThreadPool.next r (ThreadPool.run 0 (ground arith))) (ground arith)
Step-refines (Statements.run_goes_on a b) v r = same_pool r (ground arith)
Step-refines (Statements.resume_run a b) v r = same_pool r (ground arith)
Step-refines (Statements.rerun_waits a b) v r =
    same_pool (ThreadPool.next r (ThreadPool.resume_run 0 (ground arith))) (ground arith)
Step-refines (Statements.rerun_goes_on a b) v r = same_pool r (ground arith)
Step-refines (Statements.pushes task a) v r =
    same_pool (ThreadPool.next r (ThreadPool.run task (ground arith))) (ground arith)
Step-refines (Statements.repushes task a) v r =
    same_pool (ThreadPool.next r (ThreadPool.resume_run task (ground arith))) (ground arith)
Step-refines (Statements.notifies a) v r = same_pool r (ground arith)
Step-refines (Statements.unlock_run a) v r = same_pool r (ground arith)
Step-refines (Statements.lock_stop a) v r = same_pool r (ground arith)
Step-refines (Statements.stops a) v r =
    same_pool (ThreadPool.next r (ThreadPool.stopped)) (ground arith)
Step-refines (Statements.notifies_all a) v r = same_pool r (ground arith)
Step-refines (Statements.unlock_stop a) v r = same_pool r (ground arith)
Step-refines {s = s} (Statements.wake_worker a) v r = wake_worker_refines s a v r
Step-refines {s = s} (Statements.wake_caller a) v r = wake_caller_refines s a v r

-- Any steps of workers and of callers of `run` and `stop`, statement by statement, with the mutex
-- taken and given back and with wake-ups that nobody asked for: the pool that they make, where a
-- call has its effect as it pushes, pops, goes to sleep or writes `running_`, with the
-- notifications that follow, is reached by whole calls.
pub statements_refine :
    (max_size num_threads : ℕ) {s : Statements}
    → Reach (Statements.started max_size num_threads) s
    → ThreadPool.Reach
        (ThreadPool.start num_threads (ThreadPool.set_max_queue_size max_size ThreadPool.new))
        (pool s)
unfolding pool Statements.started ThreadPool.start ThreadPool.set_max_queue_size ThreadPool.new
statements_refine max_size num_threads Statements.here = same_pool ThreadPool.here (ground arith)
statements_refine max_size num_threads (Statements.next r st) =
    Step-refines st (Reach-Inv max_size num_threads r) (statements_refine max_size num_threads r)
