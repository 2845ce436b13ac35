-- ===== src/Tests/Queues.antt =====
-- Two timers and a pool of one worker, and the theorems at those.
use native.Mathlib.Nat.{le_refl}
use mathlib.Core.Logic.Or
use mathlib.Core.HLevel.{⊥_prop}
use mathlib.Core.List.{mem-cons, not-mem-nil}
use httpd_cpp.Base.{
  ap, sym, ◌∙◌, ℕ, ◌+◌, ◌≤◌, ◌<◌, ◌≡◌, ◌≢◌, refl, inl, false, [], ◌∷◌, none, some, arith,
}
use httpd_cpp.Timer
use httpd_cpp.Timer.{Timer, TimeVal, NotAfter, time_update_mono}
use httpd_cpp.HttpRequest
use httpd_cpp.HttpRequest.{HttpRequest}
use httpd_cpp.PriorityQueue.{TimerQueue, Sweep, del_timer, handle_expire_timers}
use httpd_cpp.PriorityQueue.Expire.{
  All, Handled, Swept, handle_expire_timers_lem, handle_expire_timers_stuck,
}
use httpd_cpp.PriorityQueue.Delete.{del_timer_not_fired}
use httpd_cpp.PriorityQueue.Heap.{list_heap}
use httpd_cpp.CountDownLatch
use httpd_cpp.CountDownLatch.{CountDownLatch, wait, count_down, next_wait, next_count_down}
use httpd_cpp.Condition.{notify_all}
use httpd_cpp.Base.{true}
use httpd_cpp.CountDownLatch.Threads
use httpd_cpp.CountDownLatch.Threads.{Threads}
use httpd_cpp.CountDownLatch.Threads.Refine.{latch, reach_refines}
use httpd_cpp.CountDownLatch.Liveness.{latch_opens}
use httpd_cpp.ThreadPool.{
  ThreadPool, new, set_max_queue_size, start, put, stop, run, Reach, here, next,
}
use httpd_cpp.ThreadPool.Invariant.{Inv, started-Inv}
use httpd_cpp.ThreadPool.Liveness.{Abandoned, no_deadlock, Reach-Abandoned}

abbrev early : Timer
early = record { address = 0; key = 500; deleted = false; handler = some 7; request = some 1 }

abbrev late : Timer
late = record { address = 1; key = 9000; deleted = false; handler = some 7; request = some 2 }

abbrev both : TimerQueue
both = record { timers = late ∷ early ∷ []; next_address = 2 }

-- One second after the epoch, at every reading.
abbrev pub one_second : ℕ → TimeVal
one_second n = record { sec = 1; usec = 0 }

pub some-handler : {h : ℕ} → some h ≢ none
some-handler e = cc

both_Handled : Handled list_heap one_second both.timers
both_Handled t m e =
    Or.elim ⊥_prop (mem-cons.0 m) (λ p. some-handler (ap (λ (u : Timer). u.handler) (sym p) ∙ e))
      (λ k.
        Or.elim ⊥_prop (mem-cons.0 k)
          (λ p. some-handler (ap (λ (u : Timer). u.handler) (sym p) ∙ e)) not-mem-nil)

handle_expire_timers_lem_example :
    (s : Sweep list_heap) × (handle_expire_timers list_heap 3 one_second both ≡ some s)
    × Swept list_heap one_second 0 both.timers s
handle_expire_timers_lem_example =
    handle_expire_timers_lem list_heap one_second (λ i j h. le_refl _) 3 both both_Handled
      (omega arith)

abbrev first : HttpRequest ℕ
first = record (HttpRequest.new 5) { timer = some 0 }

del_timer_not_fired_example :
    (s : Sweep list_heap) × (handle_expire_timers list_heap 3 one_second (del_timer first both)
      ≡ some s)
    × All (λ (t : Timer). t.address ≢ 0) s.fired
del_timer_not_fired_example =
    del_timer_not_fired list_heap one_second (λ i j h. le_refl _) 3 0 first both refl both_Handled
      (omega arith)

-- An expired timer with an empty function.
abbrev unhandled : Timer
unhandled = record early { handler = none }

handle_expire_timers_stuck_example :
    handle_expire_timers list_heap 50 one_second (record both { timers = unhandled ∷ [] }) ≡ none
unfolding list_heap Timer.time_update
handle_expire_timers_stuck_example =
    handle_expire_timers_stuck list_heap one_second 50 (record both { timers = unhandled ∷ [] })
      unhandled refl refl refl (λ i. omega arith)

-- A pool of one worker and at most one queued task, after a first task was queued.
abbrev started : ThreadPool
started = start 1 (set_max_queue_size 1 new)

one_queued : Reach started (put 5 started)
unfolding start set_max_queue_size new
one_queued = next here (run 5 (omega arith))

started-Inv_example : Inv (put 5 started)
started-Inv_example = started-Inv 1 1 one_queued

no_deadlock_example : 0 < (put 5 started).busy + (put 5 started).woken + (put 5 started).full_woken
unfolding put start set_max_queue_size new
no_deadlock_example = no_deadlock 1 1 one_queued refl (omega arith) (inl (omega arith))

-- `stop`, and the worker leaves its loop.
abbrev left_behind : ThreadPool
left_behind = record (stop (put 5 started)) { busy = 0; exited = 1 }

left_behind-Abandoned : Abandoned left_behind
unfolding stop put start set_max_queue_size new
left_behind-Abandoned = ground arith

Reach-Abandoned_example :
    Abandoned (put 6 left_behind)
    × ((put 6 left_behind).accepted ≡ left_behind.accepted)
    × ((put 6 left_behind).taken ≡ left_behind.taken)
unfolding put stop start set_max_queue_size new
Reach-Abandoned_example = Reach-Abandoned (next here (run 6 (omega arith))) left_behind-Abandoned

-- A latch of one, a thread that waits, and the count down.
latch_opens_example :
    let l = count_down (wait (CountDownLatch.new 1)) in
    (1 < 1 → l.passed ≡ 0) × (1 ≤ 1 → l.waiting ≡ 0)
latch_opens_example = latch_opens 1 (next_count_down (next_wait CountDownLatch.here))

-- A thread waits at the latch while another one counts it down and has notified.
abbrev notified : Threads
notified = record {
  count = 0;
  overdrawn = 0;
  locked = true;
  condition = record { waiting = 0; woken = 1 };
  testing = 0;
  retesting = 0;
  leaving = 0;
  passed = 0;
  counting = 0;
  notifying = 0;
  counted = 1;
}

reach_refines_example : CountDownLatch.Reach (CountDownLatch.new 1) 1 (latch notified)
unfolding Threads.at_rest Threads.decrement notify_all
reach_refines_example = reach_refines (
    Threads.notify
      (Threads.count_one
        (Threads.lock_count_down
          (Threads.first_test_waits (Threads.lock_wait Threads.here refl) (omega arith)
            (omega arith))
          refl)
        (omega arith))
      (omega arith))
