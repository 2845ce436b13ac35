-- ===== src/Drivers/Pool.antt =====
-- main_threadpool.cpp: one thread that hands a pool of three workers its tasks.
use httpd_cpp.Base.{ℕ, ◌+◌, List, [], ◌∷◌, ◌++◌, ltb, replicate, if◌then◌else◌}
use httpd_cpp.ThreadPool
use httpd_cpp.ThreadPool.{ThreadPool, put}

-- `print`, and `countDown` of the latch.
abbrev print : ℕ
print = 0

abbrev count_down_latch : ℕ
count_down_latch = 1

-- The calls of `run` one after the other, until one waits for a place: those behind it are left.
unfoldable pub run_all : List ℕ → ThreadPool → List ℕ × ThreadPool
run_all [] p = ([], p)
run_all (task ∷ tasks) p =
    if ltb 0 (p.full_waiting + p.full_woken) then (task ∷ tasks, p) else run_all tasks (put task p)

-- The calls of `test`, as far as they go before a worker takes a task; it then waits for the latch
-- and stops the pool.
unfoldable pub test : ℕ → List ℕ × ThreadPool
test max_size =
    run_all (replicate 12 print ++ (count_down_latch ∷ []))
      (ThreadPool.start 3 (ThreadPool.set_max_queue_size max_size ThreadPool.new))

unfoldable pub main : List ℕ × ThreadPool
unfolding test
main = test 7
