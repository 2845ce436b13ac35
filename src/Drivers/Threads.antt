-- ===== src/Drivers/Threads.antt =====
-- main_thread.cpp: six threads, of which four are joined. The functions that they run print, or
-- sleep; they are numbered in the order of the threads, with the fifth's twice.
use httpd_cpp.Base.{ℕ, Bool, List, [], Result, ok, ◌>>=◌}
use httpd_cpp.Bytes.{codes}
use httpd_cpp.Thread
use httpd_cpp.Thread.{Thread}

-- A thread that is made, started, joined and destroyed; `created` is whether `pthread_create`
-- succeeds. The counter of threads stands with it.
unfoldable pub joined : Bool → ℕ → List ℕ → ℕ → Result (Thread × ℕ)
joined created func name num_created = do
  let (t, num_created') = Thread.new func name num_created
  t' ← Thread.start created t
  t'' ← Thread.join t'
  ok (Thread.destroy t'', num_created')

-- A block with a thread that is made and started.
unfoldable pub left_running : Bool → ℕ → List ℕ → ℕ → Result (Thread × ℕ)
left_running created func name num_created = do
  let (t, num_created') = Thread.new func name num_created
  t' ← Thread.start created t
  ok (Thread.destroy t', num_created')

-- `created` answers for the n-th thread; the number that is printed at the end.
unfoldable pub main : (ℕ → Bool) → Result ℕ
main created = do
  t1 ← joined (created 1) 1 [] 0
  t2 ← joined (created 2) 2 (codes "thread for free function with argument") t1.1
  t3 ← joined (created 3) 3 (codes "thread for member function without argument") t2.1
  t4 ← joined (created 4) 4 [] t3.1
  t5 ← left_running (created 5) 5 [] t4.1
  t6 ← left_running (created 6) 5 [] t5.1
  ok t6.1
