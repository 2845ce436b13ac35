-- ===== src/Server/Races.antt =====
-- A request handed to the pool keeps its timer until a thread takes it up.
use mathlib.Core.List.{Mem, mem-append_right, mem-cons_self}
use httpd_cpp.Base.{
  inl, inr, Bool-cases, ◌==◌, ℕ, ◌<◌, ◌≤◌, ◌≡◌, refl, subst, sym, false, length, none, some, fail,
  dangling, Returns,
}
use httpd_cpp.RequestStore.{find}
use httpd_cpp.Timer.{Timer, TimeVal}
use httpd_cpp.PriorityQueue.{MinHeap}
use httpd_cpp.PriorityQueue.Expire.{live, now}
use httpd_cpp.ThreadPool.{ThreadPool, is_full, put, notify_not_empty}
use httpd_cpp.Callback.{World}
use httpd_cpp.Server.{Server, expire, dispatch, run_task}
use httpd_cpp.Server.Ownership.{Inv}
use httpd_cpp.Server.Sweeping.{absent_cases, expire-gone}

put-queued : (a : ℕ) (p : ThreadPool) → is_full p ≡ false → Mem a (put a p).queue
unfolding put notify_not_empty
put-queued a p h =
    rw (h, put, notify_not_empty)
      (elim (Bool-cases (p.waiting == 0)) [
        | inl w ↦ rw w (mem-append_right p.queue mem-cons_self)
        | inr w ↦ rw w (mem-append_right p.queue mem-cons_self)
      ])

pub run_task-absent :
    (heap : MinHeap) (fuel : ℕ) (w : World) (a : ℕ) (s : Server)
    → find a s.requests ≡ none
    → run_task heap fuel w a s ≡ fail dangling
unfolding run_task
run_task-absent heap fuel w a s e = rw (e, run_task) refl

-- Under the same invariant a request is handed to a pool that has room, while its timer is not
-- deleted and its key is before every reading of the clock: the next sweep ends with the request
-- deleted and its task still in the pool's queue, and whichever thread takes that task then reads
-- a deleted request.
pub expired_task_dangles :
    (heap : MinHeap) (fuel : ℕ) (clock : ℕ → TimeVal) (a : ℕ) (t : Timer) (s : Server)
    → ((i j : ℕ) → i ≤ j → now heap clock i ≤ now heap clock j)
    → Inv s.requests s.queue.timers
    → length s.queue.timers < fuel
    → is_full s.pool ≡ false
    → Mem t (live s.queue.timers)
    → t.request ≡ some a
    → ((i : ℕ) → t.key < now heap clock i)
    → Returns (expire heap fuel clock (dispatch a s)) (λ o.
      (s' : Server) × (o ≡ some s')
      × Mem a s'.pool.queue
      × ((fuel : ℕ) (w : World) → run_task heap fuel w a s' ≡ fail dangling))
unfolding dispatch
expired_task_dangles heap fuel clock a t s mono v enough room i named late =
    let (o, e, (s', f, pool, gone)) =
      expire-gone heap fuel clock mono (dispatch a s) v enough t a i named late in
    (
      o,
      e,
      (
        s',
        f,
        subst (λ (p : ThreadPool). Mem a p.queue) (sym pool) (put-queued a s.pool room),
        λ n w. run_task-absent heap n w a s' (absent_cases _ gone),
      ),
    )
