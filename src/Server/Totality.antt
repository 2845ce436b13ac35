-- ===== src/Server/Totality.antt =====
-- A task of a pool thread on whatever bytes its client sends.
use httpd_cpp.Base.{
  ℕ, ◌+◌, ◌<◌, ◌≤◌, ◌≡◌, ap, refl, ◌∙◌, Bool, List, length, none, some, ok, Option, if◌then◌else◌,
  Returns,
}
use httpd_cpp.Buffer.{cheap_prepend, initial_size, max_size}
use httpd_cpp.Buffer.Fd.{Received, Sent}
use httpd_cpp.RequestStore.{find}
use httpd_cpp.PriorityQueue.{MinHeap, del_timer}
use httpd_cpp.HttpRequest.{HttpRequest}
use httpd_cpp.HttpResponse.Render.{render}
use httpd_cpp.Callback.{World, HeaderFunc, Outcome, closed, with_message}
use httpd_cpp.Callback.Files.{Maps, answered}
use httpd_cpp.Callback.Reads.{Answers, Ends, joined}
use httpd_cpp.Callback.Total.{with_close, ended, request_total}
use httpd_cpp.Server.{Server, run_task}
use httpd_cpp.Server.Ownership.{Inv}
use httpd_cpp.Server.Tasks.{run_task-Inv}
use httpd_cpp.Server.Answering.{run_task-eq}

-- The requests, the timers and their handlers belong together, and the request of a task exists;
-- whatever bytes `readv` answers before the stream ends or an error comes, the fuel is above the
-- number of reads and bytes, the bytes and every response to a path each fit a new buffer's
-- vector, and where `stat` finds the file of a path regular and readable by its owner, there
-- `mmap` maps it and as many bytes can be read as `stat` counted: the task ends with no failed
-- assert and no read outside a mapping, and the requests, the timers and their handlers belong
-- together again.
pub run_task_total :
    (heap : MinHeap) (w : World) (s : Server) (a : ℕ) {re : HttpRequest HeaderFunc}
    {last : Received} {again : Bool} (fuel : ℕ) (cs : List (List ℕ))
    → Inv s.requests s.queue.timers
    → find a s.requests ≡ some re
    → Ends last again
    → Answers w.readv 0 cs last
    → length cs + length (joined cs) < fuel
    → cheap_prepend + initial_size + length (joined cs) ≤ max_size
    → ((path : List ℕ) (close : Bool)
        → cheap_prepend + length (render (with_message (answered w path (with_close close))))
          ≤ max_size)
    → ((path : List ℕ) → Maps w path)
    → Returns
        (run_task heap fuel w a s)
        (λ o. (s' : Server) × (o ≡ some s') × Inv s'.requests s'.queue.timers)
run_task_total heap w s a {re} {again = again} fuel cs v found d ans enough small fits maps =
    let (x, ran, (r, same)) =
      request_total heap w a re s.queue fuel cs d ans enough small fits maps in
    let p : Option Sent × Outcome =
      if again then ended heap w a re s.queue r else (none, closed (del_timer re s.queue)) in
    let done = run_task-eq heap w a fuel s p.1 found (ran ∙ ap ok same) in
    (_, done, (_, refl, run_task-Inv heap w a fuel s _ v done))
