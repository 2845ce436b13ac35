-- ===== src/CountDownLatch/Threads.antt =====
-- count_down_latch.cpp, statement by statement: what a thread does between two points where another
-- one may come in. The threads are counted by where they stand in `wait` and in `countDown`.
pub mod Refine
use httpd_cpp.Base.{ℕ, zero, suc, ◌+◌, ◌-◌, ◌<◌, ◌≡◌, Bool, true, false, ltb, if◌then◌else◌}
use httpd_cpp.Condition.{Condition, notify_all}

-- `locked` is whether some thread owns the mutex. In `wait`: `testing` threads own it and test the
-- count for the first time, `retesting` ones after a wake-up, and `leaving` ones have left the
-- loop; `passed` threads have returned. In `countDown`: `counting` threads own it and have not
-- counted yet, `notifying` ones have, and `counted` ones have notified too.
pub record Threads : Type 0 where
  pub count : ℕ
  pub overdrawn : ℕ
  pub locked : Bool
  pub condition : Condition
  pub testing : ℕ
  pub retesting : ℕ
  pub leaving : ℕ
  pub passed : ℕ
  pub counting : ℕ
  pub notifying : ℕ
  pub counted : ℕ

unfoldable pub at_rest : ℕ → Threads
at_rest count = record {
  count = count;
  overdrawn = 0;
  locked = false;
  condition = record { waiting = 0; woken = 0 };
  testing = 0;
  retesting = 0;
  leaving = 0;
  passed = 0;
  counting = 0;
  notifying = 0;
  counted = 0;
}

-- `--count_`.
unfoldable pub decrement : Threads → Threads
decrement s =
    if ltb 0 s.count
    then record s { count = s.count - 1 }
    else record s { overdrawn = s.overdrawn + 1 }

-- One statement of one thread, and how often the count was decremented. `pthread_cond_wait` gives the
-- mutex up and sleeps at once; a thread that was woken returns from it once it owns the mutex again.
pub data Reach (count : ℕ) : ℕ → Threads → Type 0 where
  here : Reach count 0 (at_rest count)
  lock_wait :
      {n : ℕ} {s : Threads}
      → Reach count n s
      → s.locked ≡ false
      → Reach count n (record s { locked = true; testing = s.testing + 1 })
  first_test_waits :
      {n : ℕ} {s : Threads}
      → Reach count n s
      → 0 < s.testing
      → 0 < s.count
      → Reach count n (record s {
        testing = s.testing - 1;
        locked = false;
        condition = record s.condition { waiting = s.condition.waiting + 1 };
      })
  first_test_leaves :
      {n : ℕ} {s : Threads}
      → Reach count n s
      → 0 < s.testing
      → s.count ≡ 0
      → Reach count n (record s { testing = s.testing - 1; leaving = s.leaving + 1 })
  wake :
      {n : ℕ} {s : Threads}
      → Reach count n s
      → 0 < s.condition.woken
      → s.locked ≡ false
      → Reach count n (record s {
        locked = true;
        condition = record s.condition { woken = s.condition.woken - 1 };
        retesting = s.retesting + 1;
      })
  next_test_waits :
      {n : ℕ} {s : Threads}
      → Reach count n s
      → 0 < s.retesting
      → 0 < s.count
      → Reach count n (record s {
        retesting = s.retesting - 1;
        locked = false;
        condition = record s.condition { waiting = s.condition.waiting + 1 };
      })
  next_test_leaves :
      {n : ℕ} {s : Threads}
      → Reach count n s
      → 0 < s.retesting
      → s.count ≡ 0
      → Reach count n (record s { retesting = s.retesting - 1; leaving = s.leaving + 1 })
  unlock_wait :
      {n : ℕ} {s : Threads}
      → Reach count n s
      → 0 < s.leaving
      → Reach count n (record s { leaving = s.leaving - 1; passed = s.passed + 1; locked = false })
  lock_count_down :
      {n : ℕ} {s : Threads}
      → Reach count n s
      → s.locked ≡ false
      → Reach count n (record s { locked = true; counting = s.counting + 1 })
  count_one :
      {n : ℕ} {s : Threads}
      → Reach count n s
      → 0 < s.counting
      → Reach count
          (suc n)
          (record (decrement s) { counting = s.counting - 1; notifying = s.notifying + 1 })
  notify :
      {n : ℕ} {s : Threads}
      → Reach count n s
      → 0 < s.notifying
      → Reach count n (record s {
        condition = notify_all s.condition;
        notifying = s.notifying - 1;
        counted = s.counted + 1;
      })
  unlock_count_down :
      {n : ℕ} {s : Threads}
      → Reach count n s
      → 0 < s.counted
      → Reach count n (record s { counted = s.counted - 1; locked = false })
  spurious :
      {n : ℕ} {s : Threads}
      → Reach count n s
      → 0 < s.condition.waiting
      → Reach count n (record s {
        condition = record { waiting = s.condition.waiting - 1; woken = s.condition.woken + 1 };
      })
