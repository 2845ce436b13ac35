-- ===== src/Tests/Program.antt =====
-- A client connects, and sends something; a thread of the pool begins its task.
use native.Mathlib.Nat.{le_refl}
use httpd_cpp.Base.{ℕ, ◌≡◌, refl, ◌∙◌, true, false, [], ◌∷◌, ◌++◌, some, ok, arith}
use httpd_cpp.Timer
use httpd_cpp.Timer.{Timer, TimeVal}
use httpd_cpp.HttpRequest
use httpd_cpp.ThreadPool
use httpd_cpp.ThreadPool.{ThreadPool}
use httpd_cpp.RequestStore.{find}
use httpd_cpp.PriorityQueue
use httpd_cpp.PriorityQueue.Heap.{list_heap}
use httpd_cpp.PriorityQueue.Waiting.{handle_expire_timers_empty, handle_expire_timers_waits}
use httpd_cpp.HttpRequest.{HttpRequest}
use httpd_cpp.Callback.{HeaderFunc}
use httpd_cpp.PriorityQueue.{del_timer}
use httpd_cpp.Server
use httpd_cpp.Server.{Server, expire, handle_event, dispatch, erase}
use httpd_cpp.Server.Rounds.{woken}
use httpd_cpp.Server.Events.{connected, dispatched_eq, accept_connection-eq, listening_eq}
use httpd_cpp.Server.Program.{
  Reported, Program, at_start, times, left_waiting, front, Reach, here, next, wait_some, one_event,
  call_take, begin_task, Answers, LongEnough, Always,
}
use httpd_cpp.Server.Program.Alive.{Alive}
use httpd_cpp.Server.Program.Safety.{Reach-Alive}
use httpd_cpp.Server.Program.Serving.{Drained, pool_drains}
use httpd_cpp.Server.Program.Progress.{Served, Due, task, Succeeds, Reach-Succeeds}
use httpd_cpp.Callback.Reads.{fails}
use httpd_cpp.Buffer.Fd.{Received}
use httpd_cpp.Bytes.{codes}
use httpd_cpp.Tests.Service.{junk_world, junk_fits, page_mapped}
use httpd_cpp.Server.{run_task}
use httpd_cpp.Tests.Queues.{one_second}
use httpd_cpp.Tests.Rounds.{above, willing, willing-Works, readable}
use httpd_cpp.Tests.Reach.{calls, fresh_server, fresh_server_eq}

abbrev reported : Server
reported = woken list_heap (readable 100 ∷ []) fresh_server

abbrev joined_by_one : Server
joined_by_one = connected list_heap willing 7 reported

swept_empty : expire list_heap 1 one_second reported ≡ ok (some reported)
unfolding expire Server.run_handlers
swept_empty =
    rw (handle_expire_timers_empty list_heap one_second 0 reported.queue list_heap.top-nil, expire)
      refl

accepted_one : handle_event list_heap willing (readable 100) reported ≡ ok joined_by_one
unfolding find
accepted_one =
    listening_eq list_heap willing (readable 100) reported refl refl refl
    ∙ accept_connection-eq list_heap willing reported refl (λ c. refl)

abbrev ready_to_read : Server
ready_to_read = woken list_heap (readable 101 ∷ []) joined_by_one

abbrev first_timer : Timer
first_timer = record {
  address = 0;
  key = 1500;
  deleted = false;
  handler = some 0;
  request = some 101;
}

swept_one : expire list_heap 2 one_second ready_to_read ≡ ok (some ready_to_read)
unfolding expire Server.run_handlers list_heap above PriorityQueue.add_timer Timer.new Timer.set_key
    Timer.set_deleted Timer.set_handler Timer.set_request Timer.time_update
swept_one =
    rw
      (
        handle_expire_timers_waits list_heap one_second 1 ready_to_read.queue first_timer refl refl
            (omega arith),
        expire,
      )
      refl

dispatched_one :
    handle_event list_heap willing (readable 101) ready_to_read ≡ ok (dispatch 101 ready_to_read)
unfolding find above PriorityQueue.add_timer HttpRequest.set_fd HttpRequest.new
    HttpRequest.set_timer Server.is_broken
dispatched_one = dispatched_eq list_heap willing (readable 101) ready_to_read refl refl refl refl

abbrev tick : ℕ → ℕ → TimeVal
tick k = one_second

abbrev after_first_wait : Program
after_first_wait = record (at_start fresh_server) { server = reported; todo = readable 100 ∷ [] }

abbrev after_accept : Program
after_accept = record after_first_wait {
  server = joined_by_one;
  todo = [];
  blocked = left_waiting 100 reported.pool joined_by_one.pool;
}

abbrev after_second_wait : Program
after_second_wait = record after_accept { server = ready_to_read; todo = readable 101 ∷ [] }

abbrev after_dispatch : Program
after_dispatch = record after_second_wait {
  server = dispatch 101 ready_to_read;
  todo = [];
  blocked = left_waiting 101 ready_to_read.pool (dispatch 101 ready_to_read).pool;
}

abbrev after_take : Program
after_take = record after_dispatch {
  server = record after_dispatch.server { pool = ThreadPool.take after_dispatch.server.pool };
  taken = front after_dispatch.server.pool.queue ++ after_dispatch.taken;
}

abbrev client : HttpRequest HeaderFunc
client = record (HttpRequest.new 0) { fd = 7; timer = some 0 }

abbrev after_begin : Program
after_begin = record after_take {
  server = record after_take.server { queue = del_timer client after_take.server.queue };
  taken = erase 101 after_take.taken;
  running = 101 ∷ after_take.running;
}

unfoldable run_accept : Reach list_heap tick (at_start fresh_server) after_accept
run_accept =
    next
      (next here (
        wait_some 1 0 (λ n. some (readable 100 ∷ [])) _ _ refl refl refl (omega arith) swept_empty))
      (one_event willing refl refl accepted_one)

unfoldable run_dispatch : Reach list_heap tick (at_start fresh_server) after_dispatch
unfolding PriorityQueue.add_timer ThreadPool.start ThreadPool.set_max_queue_size ThreadPool.new
    list_heap
run_dispatch =
    next
      (next run_accept
        (wait_some 2 0 (λ n. some (readable 101 ∷ [])) _ _ refl refl refl (omega arith) swept_one))
      (one_event willing refl refl dispatched_one)

unfoldable run_begin : Reach list_heap tick (at_start fresh_server) after_begin
unfolding find above times dispatch ThreadPool.put ThreadPool.is_full ThreadPool.notify_not_empty
    ThreadPool.start ThreadPool.set_max_queue_size ThreadPool.new front PriorityQueue.add_timer
    HttpRequest.set_fd HttpRequest.new HttpRequest.set_timer
run_begin = next (next run_dispatch (call_take (omega arith))) (begin_task 101 (omega arith) refl)

first-Reported : Reported (readable 100 ∷ []) (at_start fresh_server)
unfolding times find ThreadPool.start ThreadPool.set_max_queue_size ThreadPool.new
first-Reported = record {
  once = λ a. ground arith;
  present = λ a n. ground (arith, n);
  armed = λ a n. refl;
}

second-Reported : Reported (readable 101 ∷ []) after_accept
unfolding times find above ThreadPool.start ThreadPool.set_max_queue_size ThreadPool.new
second-Reported = record {
  once = λ a. ground arith;
  present = λ a n. ground (arith, n);
  armed = λ a n. refl;
}

answers : Always list_heap tick (λ p q st. Answers list_heap tick st) run_begin
unfolding Always Answers run_accept run_dispatch run_begin
answers = ((((((tt, first-Reported), willing-Works 0), second-Reported), willing-Works 0), tt), tt)

long_enough : Always list_heap tick (λ p q st. LongEnough list_heap tick st) run_begin
unfolding Always LongEnough run_accept run_dispatch run_begin times ThreadPool.start
    ThreadPool.set_max_queue_size ThreadPool.new
long_enough = (
  (
    (
      (
        ((tt, λ t a i m e n. absurd (omega (arith, n))), tt),
        λ t a i m e n. absurd (omega (arith, n)),
      ),
      tt,
    ),
    tt,
  ),
  tt,
)

Reach-Alive_example : Alive after_begin
Reach-Alive_example =
    Reach-Alive list_heap tick calls 100 run_begin (λ k i j h. le_refl _) fresh_server_eq answers
      long_enough

junk_Served : Served 9 junk_world
junk_Served = record {
  parts = codes "??" ∷ [];
  last = Received.failed 11;
  again = true;
  final = fails 11;
  answers = ((λ e. cc), (λ space. refl), λ space. refl);
  enough = omega arith;
  small = omega arith;
  fits = junk_fits;
  maps = λ path s found r o. page_mapped found;
}

-- The task that runs, on bytes that are no request.
unfoldable due_task : Due after_begin
unfolding times
due_task = task 9 101 junk_world (omega arith) junk_Served

Reach-Succeeds_example :
    (s : Server) × (run_task list_heap 9 junk_world 101 after_begin.server ≡ ok (some s))
unfolding Succeeds due_task
Reach-Succeeds_example =
    Reach-Succeeds list_heap tick calls 100 run_begin (λ k i j h. le_refl _) fresh_server_eq answers
      long_enough due_task

-- With the task that runs, and nothing of the bytes understood.
pool_drains_example : Drained list_heap tick (λ a. junk_world) after_begin
unfolding ThreadPool.start ThreadPool.set_max_queue_size ThreadPool.new ThreadPool.put
    ThreadPool.is_full ThreadPool.notify_not_empty dispatch find above ThreadPool.take
pool_drains_example =
    pool_drains list_heap tick (λ k i j h. le_refl _) (λ a. junk_world) 9 (λ a. junk_Served) calls
      100 run_begin fresh_server_eq answers long_enough refl
