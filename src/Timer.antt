-- ===== src/Timer.antt =====
-- timer.h and timer.cpp: the entry of a request in the timer queue, and the clock. Times are
-- milliseconds in a `size_t`. A method that takes the timer's mutex is one step.
use httpd_cpp.Base.{ℕ, ◌+◌, ◌*◌, ◌/◌, ◌%◌, ◌^◌, ◌≤◌, ◌<◌, Bool, false, Option, none, some, arith}

-- A timer has an address, by which a `weak_ptr` names it. `handler` is `none` for an empty function;
-- a handler and a request are named by their addresses.
pub record Timer : Type 0 where
  pub address : ℕ
  pub key : ℕ
  pub deleted : Bool
  pub handler : Option ℕ
  pub request : Option ℕ

unfoldable pub new : ℕ → Timer
new address = record { address = address; key = 0; deleted = false; handler = none; request = none }

unfoldable pub set_key : ℕ → Timer → Timer
set_key key t = record t { key = key }

unfoldable pub set_deleted : Bool → Timer → Timer
set_deleted deleted t = record t { deleted = deleted }

unfoldable pub set_handler : Option ℕ → Timer → Timer
set_handler func t = record t { handler = func }

unfoldable pub set_request : ℕ → Timer → Timer
set_request request t = record t { request = some request }

-- What `gettimeofday` fills in.
pub record TimeVal : Type 0 where
  pub sec : ℕ
  pub usec : ℕ

-- The new `current_msec`.
unfoldable pub time_update : TimeVal → ℕ
time_update tv = (tv.sec * 1000 + tv.usec / 1000) % 2 ^ 64

-- One reading of the clock is not after another.
pub record NotAfter (s t : TimeVal) : Type 0 where
  pub carried : s.sec * 1000000 + s.usec ≤ t.sec * 1000000 + t.usec
  pub small : t.sec < 2 ^ 53
  pub micro : t.usec < 1000000

-- A clock that does not go back, its seconds below 2 ^ 53 and its microseconds below a million,
-- does not make `current_msec` go back.
pub time_update_mono : (s t : TimeVal) → NotAfter s t → time_update s ≤ time_update t
unfolding time_update
time_update_mono s t h = omega arith
