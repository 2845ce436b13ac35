-- ===== src/ThreadPool/Statements/Exclusion.antt =====
-- Who owns the pool's mutex, and what that thread has tested.
use httpd_cpp.Base.{ℕ, ◌+◌, ◌-◌, ◌<◌, ◌≡◌, refl, false, List, [], ◌∷◌, if◌then◌else◌, arith}
use httpd_cpp.ThreadPool.Statements
use httpd_cpp.ThreadPool.Statements.{Statements, Step, Reach, wait, regain, wake}

-- One thread at most owns the mutex; callers enter a pool that has workers; what the loops have
-- tested still holds.
pub record Inv (s : Statements) : Type 0 where
  pub alone :
      s.taking + s.retaking + s.popping + s.repopping + s.signalling + s.took + s.entering
        + s.reentering + s.pushing + s.repushing + s.notifying + s.pushed + s.stopping + s.ending
        + s.ended
      ≡ (if s.locked then 1 else 0)
  pub guarded : 0 < s.entering + s.pushing → 0 < s.workers
  pub room : 0 < s.pushing + s.repushing → Statements.is_full s ≡ false
  pub some_task : 0 < s.popping + s.repopping → Statements.is_idle s ≡ false

popped-Inv :
    (q : List ℕ) (s : Statements)
    → Inv s
    → 0 < s.popping
    → Inv (record (Statements.pop_from q s) { popping = s.popping - 1 })
unfolding Statements.is_full Statements.is_idle Statements.pop_from
popped-Inv [] s v a = ground arith
popped-Inv (task ∷ q) s v a = ground arith

repopped-Inv :
    (q : List ℕ) (s : Statements)
    → Inv s
    → 0 < s.repopping
    → Inv (record (Statements.pop_from q s) { repopping = s.repopping - 1 })
unfolding Statements.is_full Statements.is_idle Statements.pop_from
repopped-Inv [] s v a = ground arith
repopped-Inv (task ∷ q) s v a = ground arith

Step-Inv : {s t : Statements} → Step s t → Inv s → Inv t
unfolding Statements.is_full Statements.is_idle Statements.push Statements.pop
Step-Inv (Statements.lock_take a b) v = ground arith
Step-Inv (Statements.take_waits a b) v = ground arith
Step-Inv (Statements.take_goes_on a b) v = ground arith
Step-Inv (Statements.resume_take a b) v = ground arith
Step-Inv (Statements.retake_waits a b) v = ground arith
Step-Inv (Statements.retake_goes_on a b) v = ground arith
Step-Inv {s} (Statements.pops a) v = popped-Inv s.queue s v a
Step-Inv {s} (Statements.repops a) v = repopped-Inv s.queue s v a
Step-Inv (Statements.signals a) v = ground arith
Step-Inv (Statements.unlock_take a) v = ground arith
Step-Inv (Statements.leave_loop a b) v = ground arith
Step-Inv (Statements.lock_run a b) v = ground arith
Step-Inv (Statements.run_waits a b) v = ground arith
Step-Inv (Statements.run_goes_on a b) v = ground arith
Step-Inv (Statements.resume_run a b) v = ground arith
Step-Inv (Statements.rerun_waits a b) v = ground arith
Step-Inv (Statements.rerun_goes_on a b) v = ground arith
Step-Inv (Statements.pushes task a) v = ground arith
Step-Inv (Statements.repushes task a) v = ground arith
Step-Inv (Statements.notifies a) v = ground arith
Step-Inv (Statements.unlock_run a) v = ground arith
Step-Inv (Statements.lock_stop a) v = ground arith
Step-Inv (Statements.stops a) v = ground arith
Step-Inv (Statements.notifies_all a) v = ground arith
Step-Inv (Statements.unlock_stop a) v = ground arith
Step-Inv (Statements.wake_worker a) v = ground arith
Step-Inv (Statements.wake_caller a) v = ground arith

pub Reach-Inv :
    (max_size num_threads : ℕ) {s : Statements}
    → Reach (Statements.started max_size num_threads) s
    → Inv s
unfolding Statements.started
Reach-Inv max_size num_threads Statements.here = record {
  alone = refl;
  guarded = λ h. absurd (omega (arith, h));
  room = λ h. absurd (omega (arith, h));
  some_task = λ h. absurd (omega (arith, h));
}
Reach-Inv max_size num_threads (Statements.next r st) =
    Step-Inv st (Reach-Inv max_size num_threads r)
