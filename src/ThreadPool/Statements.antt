-- ===== src/ThreadPool/Statements.antt =====
-- threadpool.cpp, statement by statement: what a thread does between two points where another one
-- may come in. The threads are counted by where they stand in `take`, `run` and `stop`.
pub mod Exclusion
pub mod Refine
use httpd_cpp.Base.{
  ℕ, ◌+◌, ◌-◌, ◌<◌, ◌≡◌, Bool, true, false, ◌&&◌, ◌==◌, List, [], ◌∷◌, ◌++◌, length, ltb, leb,
  if◌then◌else◌,
}
use httpd_cpp.Condition.{Condition, notify, notify_all}

-- `not_empty` and `not_full` are the two conditions, `locked` is whether some thread owns the mutex.
-- A worker is at the test of its loop or in a task (`at_loop`), has left (`exited`), or is in `take`:
-- it owns the mutex and tests the queue (`taking`), is past the loop (`popping`), has popped a task
-- and is to notify (`signalling`), or is to give the mutex back (`took`). A caller of `run` owns the
-- mutex and tests for room (`entering`), is past the loop (`pushing`), has pushed and is to notify
-- (`notifying`), or is to give the mutex back (`pushed`). `retaking`, `repopping`, `reentering` and
-- `repushing` are those that have waited before. A caller of `stop` owns the mutex (`stopping`), is
-- to notify all (`ending`), or is to give the mutex back (`ended`).
-- A worker tests `running_` without the mutex, so it may come into `take` after `stop` has written it.
pub record Statements : Type 0 where
  pub queue : List ℕ
  pub max_queue_size : ℕ
  pub running : Bool
  pub workers : ℕ
  pub accepted : List ℕ
  pub taken : List ℕ
  pub not_empty : Condition
  pub not_full : Condition
  pub locked : Bool
  pub at_loop : ℕ
  pub exited : ℕ
  pub taking : ℕ
  pub retaking : ℕ
  pub popping : ℕ
  pub repopping : ℕ
  pub signalling : ℕ
  pub took : ℕ
  pub entering : ℕ
  pub reentering : ℕ
  pub pushing : ℕ
  pub repushing : ℕ
  pub notifying : ℕ
  pub pushed : ℕ
  pub stopping : ℕ
  pub ending : ℕ
  pub ended : ℕ

-- A pool of so many workers, once `start` has run.
unfoldable pub started : ℕ → ℕ → Statements
started max_size num_threads = record {
  queue = [];
  max_queue_size = max_size;
  running = true;
  workers = num_threads;
  accepted = [];
  taken = [];
  not_empty = record { waiting = 0; woken = 0 };
  not_full = record { waiting = 0; woken = 0 };
  locked = false;
  at_loop = num_threads;
  exited = 0;
  taking = 0;
  retaking = 0;
  popping = 0;
  repopping = 0;
  signalling = 0;
  took = 0;
  entering = 0;
  reentering = 0;
  pushing = 0;
  repushing = 0;
  notifying = 0;
  pushed = 0;
  stopping = 0;
  ending = 0;
  ended = 0;
}

abbrev pub wait : Condition → Condition
wait c = record c { waiting = c.waiting + 1 }

abbrev pub regain : Condition → Condition
regain c = record c { woken = c.woken - 1 }

abbrev pub wake : Condition → Condition
wake c = record { waiting = c.waiting - 1; woken = c.woken + 1 }

-- The tests of the loops in `run` and in `take`.
unfoldable pub is_full : Statements → Bool
is_full s = ltb 0 s.max_queue_size && leb s.max_queue_size (length s.queue)

unfoldable pub is_idle : Statements → Bool
is_idle s = (length s.queue == 0) && s.running

unfoldable pub push : ℕ → Statements → Statements
push task s = record s {
  queue = s.queue ++ (task ∷ []);
  accepted = s.accepted ++ (task ∷ []);
  notifying = s.notifying + 1;
}

-- What `take` does behind its loop, up to `notify`.
pop_from : List ℕ → Statements → Statements
pop_from [] s = record s { took = s.took + 1 }
pop_from (task ∷ queue) s =
    let s' : Statements = record s { queue = queue; taken = s.taken ++ (task ∷ []) } in
    if ltb 0 s.max_queue_size
    then record s' { signalling = s.signalling + 1 }
    else record s' { took = s.took + 1 }

unfoldable pub pop : Statements → Statements
unfolding pop_from
pop s = pop_from s.queue s

-- One statement of one thread. A wait on a condition gives the mutex up and sleeps at once; a thread
-- that was woken returns from it once it owns the mutex again.
pub data Step (s : Statements) : Statements → Type 0 where
  lock_take :
      0 < s.at_loop
      → s.locked ≡ false
      → Step s (record s { locked = true; at_loop = s.at_loop - 1; taking = s.taking + 1 })
  take_waits :
      0 < s.taking
      → is_idle s ≡ true
      → Step s (record s { taking = s.taking - 1; locked = false; not_empty = wait s.not_empty })
  take_goes_on :
      0 < s.taking
      → is_idle s ≡ false
      → Step s (record s { taking = s.taking - 1; popping = s.popping + 1 })
  resume_take :
      0 < s.not_empty.woken
      → s.locked ≡ false
      → Step s
          (record s { locked = true; not_empty = regain s.not_empty; retaking = s.retaking + 1 })
  retake_waits :
      0 < s.retaking
      → is_idle s ≡ true
      → Step s
          (record s { retaking = s.retaking - 1; locked = false; not_empty = wait s.not_empty })
  retake_goes_on :
      0 < s.retaking
      → is_idle s ≡ false
      → Step s (record s { retaking = s.retaking - 1; repopping = s.repopping + 1 })
  pops : 0 < s.popping → Step s (record (pop s) { popping = s.popping - 1 })
  repops : 0 < s.repopping → Step s (record (pop s) { repopping = s.repopping - 1 })
  signals :
      0 < s.signalling
      → Step s (record s {
        signalling = s.signalling - 1;
        took = s.took + 1;
        not_full = notify s.not_full;
      })
  unlock_take :
      0 < s.took → Step s (record s { took = s.took - 1; locked = false; at_loop = s.at_loop + 1 })
  leave_loop :
      0 < s.at_loop
      → s.running ≡ false
      → Step s (record s { at_loop = s.at_loop - 1; exited = s.exited + 1 })
  lock_run :
      0 < s.workers
      → s.locked ≡ false
      → Step s (record s { locked = true; entering = s.entering + 1 })
  run_waits :
      0 < s.entering
      → is_full s ≡ true
      → Step s (record s { entering = s.entering - 1; locked = false; not_full = wait s.not_full })
  run_goes_on :
      0 < s.entering
      → is_full s ≡ false
      → Step s (record s { entering = s.entering - 1; pushing = s.pushing + 1 })
  resume_run :
      0 < s.not_full.woken
      → s.locked ≡ false
      → Step s
          (record s { locked = true; not_full = regain s.not_full; reentering = s.reentering + 1 })
  rerun_waits :
      0 < s.reentering
      → is_full s ≡ true
      → Step s
          (record s { reentering = s.reentering - 1; locked = false; not_full = wait s.not_full })
  rerun_goes_on :
      0 < s.reentering
      → is_full s ≡ false
      → Step s (record s { reentering = s.reentering - 1; repushing = s.repushing + 1 })
  pushes : (task : ℕ) → 0 < s.pushing → Step s (record (push task s) { pushing = s.pushing - 1 })
  repushes :
      (task : ℕ) → 0 < s.repushing → Step s (record (push task s) { repushing = s.repushing - 1 })
  notifies :
      0 < s.notifying
      → Step s (record s {
        notifying = s.notifying - 1;
        pushed = s.pushed + 1;
        not_empty = notify s.not_empty;
      })
  unlock_run : 0 < s.pushed → Step s (record s { pushed = s.pushed - 1; locked = false })
  lock_stop : s.locked ≡ false → Step s (record s { locked = true; stopping = s.stopping + 1 })
  stops :
      0 < s.stopping
      → Step s (record s { running = false; stopping = s.stopping - 1; ending = s.ending + 1 })
  notifies_all :
      0 < s.ending
      → Step s (record s {
        ending = s.ending - 1;
        ended = s.ended + 1;
        not_empty = notify_all s.not_empty;
      })
  unlock_stop : 0 < s.ended → Step s (record s { ended = s.ended - 1; locked = false })
  wake_worker : 0 < s.not_empty.waiting → Step s (record s { not_empty = wake s.not_empty })
  wake_caller : 0 < s.not_full.waiting → Step s (record s { not_full = wake s.not_full })

pub data Reach (s : Statements) : Statements → Type 0 where
  here : Reach s s
  next : {t u : Statements} → Reach s t → Step t u → Reach s u
