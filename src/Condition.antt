-- ===== src/Condition.antt =====
-- condition.h and condition.cpp: what the calls do, and the deadline of `waitForSeconds`. How they
-- interleave is modelled in MutexLock and with the classes that wait.
use httpd_cpp.Base.{ℕ, ◌+◌, ◌-◌, if◌then◌else◌, ◌*◌, ◌/◌, ◌%◌, ◌^◌, ◌<◌, ◌≡◌, Bool, ◌==◌, arith}
use httpd_cpp.MutexLock.{MutexLock, unassign_holder, assign_holder, pthread_lock, pthread_unlock}

pub record TimeSpec : Type 0 where
  pub sec : ℕ
  pub nsec : ℕ

abbrev pub nano_seconds_per_second : ℕ
nano_seconds_per_second = 1000000000

-- `nanoseconds` is the `int64_t` of the seconds to wait, which are not negative.
unfoldable pub deadline : ℕ → TimeSpec → TimeSpec
deadline nanoseconds now = record {
  sec = now.sec + (now.nsec + nanoseconds) / nano_seconds_per_second;
  nsec = (now.nsec + nanoseconds) % nano_seconds_per_second;
}

abbrev pub etimedout : ℕ
etimedout = 110

-- `tid` waits; `timed_wait` is what `pthread_cond_timedwait` returns for the deadline. When it
-- returns, the thread owns the mutex again.
unfoldable pub wait_for_seconds : ℕ → (TimeSpec → ℕ) → ℕ → TimeSpec → MutexLock → Bool × MutexLock
unfolding deadline
wait_for_seconds tid timed_wait nanoseconds now l =
    let released = pthread_unlock (unassign_holder l) in
    let answer = timed_wait (deadline nanoseconds now) in
    (etimedout == answer, assign_holder tid (pthread_lock tid released))

-- The threads in `pthread_cond_wait`: those that wait, and those that were woken and have not got
-- the mutex back.
pub record Condition : Type 0 where
  pub waiting : ℕ
  pub woken : ℕ

unfoldable pub notify : Condition → Condition
notify c = if c.waiting == 0 then c else record { waiting = c.waiting - 1; woken = c.woken + 1 }

unfoldable pub notify_all : Condition → Condition
notify_all c = record { waiting = 0; woken = c.woken + c.waiting }

unfoldable pub wait : ℕ → MutexLock → MutexLock
wait tid l = assign_holder tid (pthread_lock tid (pthread_unlock (unassign_holder l)))

-- A time of day and a wait whose sum in nanoseconds is below 2 ^ 63: the deadline of
-- `waitForSeconds` is their sum, with its nanoseconds below one second and its seconds below 2 ^
-- 63.
pub deadline_lem :
    (nanoseconds : ℕ) (now : TimeSpec)
    → now.sec * 1000000000 + now.nsec + nanoseconds < 2 ^ 63
    → ((deadline nanoseconds now).nsec < 1000000000)
      × ((deadline nanoseconds now).sec < 2 ^ 63)
      × ((deadline nanoseconds now).sec * 1000000000 + (deadline nanoseconds now).nsec
          ≡ now.sec * 1000000000 + now.nsec + nanoseconds)
unfolding deadline
deadline_lem nanoseconds now h = omega arith
