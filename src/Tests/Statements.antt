-- ===== src/Tests/Statements.antt =====
-- One worker that sleeps in `take`, and a task that is pushed for it.
use httpd_cpp.Base.{refl, true, [], ◌∷◌, arith}
use httpd_cpp.Condition.{notify}
use httpd_cpp.ThreadPool
use httpd_cpp.ThreadPool.Statements
use httpd_cpp.ThreadPool.Statements.{Statements, Reach, here, next}
use httpd_cpp.ThreadPool.Statements.Refine.{pool, statements_refine}

abbrev pushed_one : Statements
pushed_one = record {
  queue = 5 ∷ [];
  max_queue_size = 1;
  running = true;
  workers = 1;
  accepted = 5 ∷ [];
  taken = [];
  not_empty = record { waiting = 0; woken = 1 };
  not_full = record { waiting = 0; woken = 0 };
  locked = true;
  at_loop = 0;
  exited = 0;
  taking = 0;
  retaking = 0;
  popping = 0;
  repopping = 0;
  signalling = 0;
  took = 0;
  entering = 0;
  reentering = 0;
  pushing = 0;
  repushing = 0;
  notifying = 0;
  pushed = 1;
  stopping = 0;
  ending = 0;
  ended = 0;
}

pushed_one-reached : Reach (Statements.started 1 1) pushed_one
unfolding Statements.started Statements.is_idle Statements.is_full Statements.push notify
pushed_one-reached =
    next
      (next
        (next
          (next
            (next (next here (Statements.lock_take (omega arith) refl))
              (Statements.take_waits (omega arith) refl))
            (Statements.lock_run (omega arith) refl))
          (Statements.run_goes_on (omega arith) refl))
        (Statements.pushes 5 (omega arith)))
      (Statements.notifies (omega arith))

statements_refine_example :
    ThreadPool.Reach
      (ThreadPool.start 1 (ThreadPool.set_max_queue_size 1 ThreadPool.new))
      (pool pushed_one)
statements_refine_example = statements_refine 1 1 pushed_one-reached
