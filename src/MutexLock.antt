-- ===== src/MutexLock.antt =====
-- mutex.h and condition.h: the lock that knows its holder, and the wait on a condition that gives it
-- up. The pthread mutex is owned by one thread or none; the system promises no more than that
-- `pthread_mutex_lock` returns to a thread once nobody owns it, that `pthread_cond_wait` gives it
-- up and owns it again when it returns, and that neither fails on a mutex used as here. Threads are
-- told by their numbers, which are positive. The asserts are compiled in.
use httpd_cpp.Base.{
  ℕ, ◌+◌, ◌<◌, ◌≡◌, ◌≢◌, Bool, true, false, Option, none, some, Result, ok, assert, ◌>>=◌, ◌>>◌,
  ◌==◌, if◌then◌else◌,
}
pub mod Exclusion

-- `owner` is the thread that owns the pthread mutex, `holder` the field `holder_`.
pub record MutexLock : Type 0 where
  pub owner : Option ℕ
  pub holder : ℕ

unfoldable pub new : MutexLock
new = record { owner = none; holder = 0 }

unfoldable pub is_locked_by_this_thread : ℕ → MutexLock → Bool
is_locked_by_this_thread tid l = l.holder == tid

unfoldable pub assert_locked : ℕ → MutexLock → Result (Unit {0})
assert_locked tid l = assert (is_locked_by_this_thread tid l)

unfoldable pub assign_holder : ℕ → MutexLock → MutexLock
assign_holder tid l = record l { holder = tid }

unfoldable pub unassign_holder : MutexLock → MutexLock
unassign_holder l = record l { holder = 0 }

-- What the calls of pthreads do where they return 0.
unfoldable pub pthread_lock : ℕ → MutexLock → MutexLock
pthread_lock tid l = record l { owner = some tid }

unfoldable pub pthread_unlock : MutexLock → MutexLock
pthread_unlock l = record l { owner = none }

-- The destructor.
unfoldable pub destroy : MutexLock → Result (Unit {0})
destroy l = assert (l.holder == 0)

-- Where a thread stands: outside; behind the first statement of `lock`; with the lock; behind the
-- first statement of `unlock`; behind the constructor of `UnassignGuard` in `Condition::wait`; in
-- `pthread_cond_wait`.
pub data Place : Type 0 where
  outside locked inside unlocking parting waiting : Place

pub record System : Type 0 where
  pub lock : MutexLock
  pub place : ℕ → Place

abbrev pub move : ℕ → Place → (ℕ → Place) → ℕ → Place
move i p place j = if i == j then p else place j

abbrev pub at_rest : System
at_rest = record { lock = record { owner = none; holder = 0 }; place = λ i. outside }

-- One statement of one thread. `lock` is `acquire` and `assign`, and `unlock` is `unassign` and
-- `release`; `Condition::wait` is `part`, `sleep`, `wake` and, in the guard's destructor, `assign`.
pub data Step (s : System) : System → Type 0 where
  acquire :
      (i : ℕ)
      → 0 < i
      → s.place i ≡ outside
      → s.lock.owner ≡ none
      → Step s (record { lock = pthread_lock i s.lock; place = move i locked s.place })
  assign :
      (i : ℕ)
      → s.place i ≡ locked
      → Step s (record { lock = assign_holder i s.lock; place = move i inside s.place })
  unassign :
      (i : ℕ)
      → s.place i ≡ inside
      → Step s (record { lock = unassign_holder s.lock; place = move i unlocking s.place })
  release :
      (i : ℕ)
      → s.place i ≡ unlocking
      → Step s (record { lock = pthread_unlock s.lock; place = move i outside s.place })
  part :
      (i : ℕ)
      → s.place i ≡ inside
      → Step s (record { lock = unassign_holder s.lock; place = move i parting s.place })
  sleep :
      (i : ℕ)
      → s.place i ≡ parting
      → Step s (record { lock = pthread_unlock s.lock; place = move i waiting s.place })
  wake :
      (i : ℕ)
      → s.place i ≡ waiting
      → s.lock.owner ≡ none
      → Step s (record { lock = pthread_lock i s.lock; place = move i locked s.place })

pub data Reach (s : System) : System → Type 0 where
  here : Reach s s
  next : {t u : System} → Reach s t → Step t u → Reach s u
