-- ===== src/PriorityQueue/Waiting.antt =====
-- A sweep that finds nothing to do.
use httpd_cpp.Base.{ℕ, suc, ◌≤◌, ◌≡◌, refl, false, [], none, some, le→leb}
use httpd_cpp.Timer.{Timer, TimeVal}
use httpd_cpp.PriorityQueue.{MinHeap, TimerQueue, verdict, sweep, handle_expire_timers}
use httpd_cpp.PriorityQueue.Expire.{now}

module _ (heap : MinHeap) (clock : ℕ → TimeVal) (fuel : ℕ) (q : TimerQueue) where
  pub handle_expire_timers_empty :
      heap.top q.timers ≡ none
      → handle_expire_timers heap (suc fuel) clock q
        ≡ some (record { fired = []; left = q.timers; readings = 0 })
  unfolding handle_expire_timers sweep
  handle_expire_timers_empty e = rw (e, sweep) refl

  -- The least timer is not due.
  pub handle_expire_timers_waits :
      (t : Timer)
      → heap.top q.timers ≡ some t
      → t.deleted ≡ false
      → now heap clock 0 ≤ t.key
      → handle_expire_timers heap (suc fuel) clock q
        ≡ some (record { fired = []; left = q.timers; readings = 1 })
  unfolding handle_expire_timers sweep verdict
  handle_expire_timers_waits t e d h = rw (e, sweep, d, le→leb (now heap clock 0) t.key h) refl
