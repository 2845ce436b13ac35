-- ===== src/ThreadPool/Callers.antt =====
-- Who is counted where: no step of the pool loses a worker, or a caller of `run` that waits.
use httpd_cpp.Base.{
  ℕ, ◌+◌, ◌-◌, ◌≤◌, ◌<◌, ◌≡◌, refl, ap, ◌∙◌, sym, inl, inr, List, [], ◌∷◌, length, length-append,
  Bool-cases, arith,
}
use httpd_cpp.ThreadPool.{
  ThreadPool, put, take, take_from, stop, is_full, notify_not_full, notify_not_empty, Step, run,
  resume_run, call_take, resume_take, wake_worker, wake_caller, stopped, leave_loop,
}
use httpd_cpp.ThreadPool.Queue.{put-full, put-room}

abbrev pub callers : ThreadPool → ℕ
callers p = p.full_waiting + p.full_woken

put-workers : (a : ℕ) (p : ThreadPool) → (put a p).workers ≡ p.workers
unfolding put notify_not_empty
put-workers a p = ground arith

pub put-running : (a : ℕ) (p : ThreadPool) → (put a p).running ≡ p.running
unfolding put notify_not_empty
put-running a p = ground arith

put-callers : (a : ℕ) (p : ThreadPool) → callers p ≤ callers (put a p)
unfolding put notify_not_empty
put-callers a p = ground arith

take_from-counts :
    (q : List ℕ) (p : ThreadPool)
    → ((take_from q p).workers ≡ p.workers) × (callers (take_from q p) ≡ callers p)
unfolding take_from notify_not_full
take_from-counts [] p = ground arith
take_from-counts (a ∷ q) p = ground arith

take_from-running : (q : List ℕ) (p : ThreadPool) → (take_from q p).running ≡ p.running
unfolding take_from notify_not_full
take_from-running [] p = ground arith
take_from-running (a ∷ q) p = ground arith

pub take-running : (p : ThreadPool) → (take p).running ≡ p.running
unfolding take
take-running p = take_from-running p.queue p

pub take-counts : (p : ThreadPool) → ((take p).workers ≡ p.workers) × (callers (take p) ≡ callers p)
unfolding take
take-counts p = take_from-counts p.queue p

pub Step-workers : {p q : ThreadPool} → Step p q → q.workers ≡ p.workers
unfolding stop
Step-workers {p} (run a h) = put-workers a p
Step-workers {p} (resume_run a h) = put-workers a (record p { full_woken = p.full_woken - 1 })
Step-workers {p} (call_take h) = (take-counts p).0
Step-workers {p} (resume_take h) =
    (take-counts (record p { woken = p.woken - 1; busy = p.busy + 1 })).0
Step-workers (wake_worker h) = refl
Step-workers (wake_caller h) = refl
Step-workers stopped = refl
Step-workers (leave_loop h e) = refl

-- A caller only leaves with its task in the queue.
resume_run-callers :
    (a : ℕ) (p : ThreadPool)
    → 0 < p.full_woken
    → (put a (record p { full_woken = p.full_woken - 1 })).queue ≡ p.queue
    → callers p ≤ callers (put a (record p { full_woken = p.full_woken - 1 }))
resume_run-callers a p h same =
    let p' : ThreadPool = record p { full_woken = p.full_woken - 1 } in
    elim (Bool-cases (is_full p')) [
      | inl f ↦ rw (put-full a p' f) (omega (arith, h))
      | inr f ↦ absurd (
          omega (arith, length-append p.queue (a ∷ []), ap length (sym (put-room a p' f).0 ∙ same)))
    ]

pub Step-callers : {p q : ThreadPool} → Step p q → q.queue ≡ p.queue → callers p ≤ callers q
unfolding stop
Step-callers {p} (run a h) e = put-callers a p
Step-callers {p} (resume_run a h) e = resume_run-callers a p h e
Step-callers {p} (call_take h) e = omega (arith, (take-counts p).1)
Step-callers {p} (resume_take h) e =
    omega (arith, (take-counts (record p { woken = p.woken - 1; busy = p.busy + 1 })).1)
Step-callers {p} (wake_worker h) e = omega arith
Step-callers {p} (wake_caller h) e = omega (arith, h)
Step-callers {p} stopped e = omega arith
Step-callers {p} (leave_loop h f) e = omega arith
