-- ===== src/Tests/Threads.antt =====
-- Threads, a lock and a deadline at concrete inputs.
use httpd_cpp.Base.{
  fail, assertion, Returns, ◌==◌, ◌+◌, ◌*◌, ◌^◌, ◌≤◌, ◌<◌, ◌≡◌, ◌↔◌, refl, true, [], ◌∷◌, arith,
}
use httpd_cpp.Bytes.{codes}
use httpd_cpp.CurrentThread
use httpd_cpp.CurrentThread.{asked, forked, live, tid, tid-live}
use httpd_cpp.Thread
use httpd_cpp.Thread.{Thread}
use httpd_cpp.Thread.Lifecycle.{start_call, join_call, call, calls, destroy-calls}
use httpd_cpp.ThreadPool.Threads.{start_threads, join_threads, unstarted_thread_stops}
use httpd_cpp.MutexLock.{
  at_rest, move, here, next, acquire, assign, is_locked_by_this_thread, inside, locked, System,
  assign_holder, pthread_lock,
}
use httpd_cpp.MutexLock.Exclusion.{is_locked_by_this_thread_iff}
use httpd_cpp.Condition.{deadline, deadline_lem}

deadline_lem_example :
    let d = deadline 3000000000 (record { sec = 10; nsec = 999999999 }) in
    (d.nsec < 1000000000)
    × (d.sec < 2 ^ 63)
    × (d.sec * 1000000000 + d.nsec ≡ 10 * 1000000000 + 999999999 + 3000000000)
deadline_lem_example = deadline_lem 3000000000 (record { sec = 10; nsec = 999999999 }) (omega arith)

-- A child that asks for its number.
tid-live_example :
    let (known, t) = live (asked ∷ forked 8 ∷ asked ∷ []) 5 CurrentThread.new in
    (tid known t).0 ≡ known
tid-live_example = tid-live (asked ∷ forked 8 ∷ asked ∷ []) 5 (omega arith, tt) (omega arith)

-- The second of three threads of a pool is not made.
unstarted_thread_stops_example :
    Returns
      (start_threads (λ k. k == 0) (codes "pool") 3 0 0)
      (λ p. join_threads p.0 ≡ fail assertion)
unstarted_thread_stops_example =
    unstarted_thread_stops (λ k. k == 0) (codes "pool") 3 0 1 (omega arith) refl

abbrev worker : Thread
worker = record {
  started = true;
  joined = true;
  tid = 0;
  func = 1;
  name = codes "w";
  created = 1;
  released = 1;
}

destroy-calls_example :
    ((Thread.destroy worker).released ≡ (Thread.destroy worker).created)
    × ((Thread.destroy worker).created ≤ 1)
unfolding calls call Thread.new Thread.set_default_name Thread.start Thread.join
destroy-calls_example = destroy-calls 1 (codes "w") 0 (start_call true ∷ join_call ∷ []) refl

-- Thread 1 has called `lock`.
abbrev taken : System
taken = record {
  lock = assign_holder 1 (pthread_lock 1 at_rest.lock);
  place = move 1 inside (move 1 locked at_rest.place);
}

is_locked_by_this_thread_iff_example :
    (is_locked_by_this_thread 1 taken.lock ≡ true) ↔ (taken.place 1 ≡ inside)
is_locked_by_this_thread_iff_example =
    is_locked_by_this_thread_iff 1
      (next (next here (acquire 1 (omega arith) refl refl)) (assign 1 refl)) (omega arith)
