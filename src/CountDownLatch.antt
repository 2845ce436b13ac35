-- ===== src/CountDownLatch.antt =====
-- count_down_latch.h and count_down_latch.cpp. The threads that wait are counted: those that sleep
-- in `condition_.wait()`, those that were woken and will test the count again, and those that have
-- returned. The count is an `int` above or at zero, or `overdrawn` times counted down below it.
use httpd_cpp.Base.{ℕ, zero, suc, ◌+◌, ◌-◌, ◌<◌, ◌≤◌, ◌≡◌, ltb, if◌then◌else◌}
pub mod Liveness
pub mod Threads

pub record CountDownLatch : Type 0 where
  pub count : ℕ
  pub overdrawn : ℕ
  pub waiting : ℕ
  pub woken : ℕ
  pub passed : ℕ

unfoldable pub new : ℕ → CountDownLatch
new count = record { count = count; overdrawn = 0; waiting = 0; woken = 0; passed = 0 }

-- A turn of the loop of `wait`, under the mutex: a thread goes to sleep or returns.
unfoldable pub wait : CountDownLatch → CountDownLatch
wait l =
    if ltb 0 l.count
    then record l { waiting = l.waiting + 1 }
    else record l { passed = l.passed + 1 }

-- The empty statement ends the `if`, so every call notifies all.
unfoldable pub count_down : CountDownLatch → CountDownLatch
count_down l =
    let l' : CountDownLatch =
      if ltb 0 l.count
      then record l { count = l.count - 1 }
      else record l { overdrawn = l.overdrawn + 1 } in
    record l' { woken = l'.woken + l'.waiting; waiting = 0 }

-- What the threads can do to a latch, one after the other, and how often they counted down. A
-- wake-up can also be spurious.
pub data Reach (l : CountDownLatch) : ℕ → CountDownLatch → Type 0 where
  here : Reach l 0 l
  next_wait : {n : ℕ} {k : CountDownLatch} → Reach l n k → Reach l n (wait k)
  next_resume :
      {n : ℕ} {k : CountDownLatch}
      → Reach l n k
      → 0 < k.woken
      → Reach l n (wait (record k { woken = k.woken - 1 }))
  next_count_down : {n : ℕ} {k : CountDownLatch} → Reach l n k → Reach l (suc n) (count_down k)
  next_spurious :
      {n : ℕ} {k : CountDownLatch}
      → Reach l n k
      → 0 < k.waiting
      → Reach l n (record k { waiting = k.waiting - 1; woken = k.woken + 1 })
