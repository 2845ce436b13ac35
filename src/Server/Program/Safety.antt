-- ===== src/Server/Program/Safety.antt =====
-- No task and no event is about a request that was deleted unnoticed.
use httpd_cpp.Base.{
  ℕ, ◌+◌, ◌≤◌, ◌<◌, ◌≡◌, refl, sym, ap, ◌∙◌, subst, false, List, ◌∷◌, some, ok, of_some, ◌==◌,
  ==_iff, Bool-cases, inl, inr, arith,
}
use httpd_cpp.RequestStore.{find, remove, find-remove}
use httpd_cpp.Timer.{TimeVal}
use httpd_cpp.PriorityQueue.{MinHeap, del_timer}
use httpd_cpp.PriorityQueue.Expire.{now}
use httpd_cpp.HttpRequest.{HttpRequest}
use httpd_cpp.ThreadPool
use httpd_cpp.ThreadPool.{ThreadPool, put}
use httpd_cpp.Callback.{World, HeaderFunc, Outcome}
use httpd_cpp.Server.{Server, erase, run_task}
use httpd_cpp.Server.Ownership.{del_timer-live, del_timer-Inv, del_timer-unnamed}
use httpd_cpp.Server.Program.{
  Program, at_start, times, events_for, front, caller_back, worker_back, Step, Reach, wait_none,
  wait_some, one_event, resume_run, call_take, resume_take, other_pool, begin_task, end_task, here,
  next, Answers, LongEnough, Always,
}
use httpd_cpp.Server.Program.Tasks.{times-append, times-erase, times-cons, times-put, times-take}
use httpd_cpp.Server.Program.Alive.{Alive, swept-Alive, event-Alive}
use httpd_cpp.Server.Program.Tasks.{times-erase_le, times-moved, times-other}
use httpd_cpp.Server.Program.Effects.{added-live}
use mathlib.Core.Bool.{false≢true}
use httpd_cpp.Base.{Option-cases}
use httpd_cpp.Server.{Setup, set_up}
use httpd_cpp.Server.SetUp.{set_up_cases}
use httpd_cpp.Server.Reachability.{set_up-Inv}
use httpd_cpp.Server.Races.{run_task-absent}
use httpd_cpp.Server.Tasks.{
  after, after-Inv, Ending, was_closed, was_kept, request-Ending, run_task-ran,
}

-- Tasks move between the lists.
moved-Alive :
    (p : Program) (q : ThreadPool) (blocked taken : List ℕ)
    → Alive p
    → ((a : ℕ)
        → times a q.queue + times a blocked + times a taken
          ≡ times a p.server.pool.queue + times a p.blocked + times a p.taken)
    → Alive (record p { server = record p.server { pool = q }; blocked = blocked; taken = taken })
moved-Alive p q blocked taken v same = record {
  inv = v.inv;
  once = λ a. omega (arith, v.once a, same a);
  present = λ a n. v.present a (omega (arith, n, same a));
  known = v.known;
  idle = v.idle;
}

begun-Alive :
    (p : Program) (a : ℕ) {r : HttpRequest HeaderFunc}
    → Alive p
    → 0 < times a p.taken
    → find a p.server.requests ≡ some r
    → Alive (record p {
      server = record p.server { queue = del_timer r p.server.queue };
      taken = erase a p.taken;
      running = a ∷ p.running;
    })
begun-Alive p a {r} v h f =
    let moved = λ (b : ℕ). times-moved a b p.taken h in
    let more = λ (b : ℕ). times-cons b a p.running in
    record {
      inv = del_timer-Inv r p.server.queue v.inv;
      once = λ b. omega (arith, v.once b, moved b, more b);
      present = λ b n. v.present b (omega (arith, n, moved b, more b));
      known = v.known;
      idle = λ t b i q n. elim (Bool-cases (a == b)) [
        | inl c ↦
            del_timer-unnamed a r p.server.queue v.inv f t i (q ∙ ap some (sym ((==_iff a b).0 c)))
        | inr c ↦
            v.idle t b (del_timer-live r p.server.queue i) q
              (omega (arith, n, more b, times-other b a c))
      ];
    }

-- A task that ends is the last one for its request.
module _ (heap : MinHeap) (w : World) (p : Program) (a : ℕ) {r : HttpRequest HeaderFunc}
    (v : Alive p) (h : 0 < times a p.running) (f : find a p.server.requests ≡ some r) where
  abbrev left_by : Outcome → Program
  left_by o = record p { server = after heap w a r p.server o; running = erase a p.running }

  other_task :
      (b : ℕ)
      → 0
        < times b p.server.pool.queue
          + times b p.blocked
          + times b p.taken
          + times b (erase a p.running)
          + events_for b p.todo
      → (a == b) ≡ false
  other_task b n = elim (Bool-cases (a == b)) [
    | inl c ↦
        (let same = (==_iff a b).0 c in
          absurd (
            ground (
              arith,
              n,
              c,
              h,
              v.once b,
              times-erase a b p.running,
              ap (λ k. times k p.running) same,
            )))
    | inr c ↦ c
  ]

  gone_other :
      (b : ℕ) → (a == b) ≡ false → find b (remove a p.server.requests) ≡ find b p.server.requests
  gone_other b c = find-remove a b p.server.requests ∙ rw c refl

  kept_other :
      (b : ℕ) (re : HttpRequest HeaderFunc)
      → (a == b) ≡ false
      → find b ((a, re) ∷ remove a p.server.requests) ≡ find b p.server.requests
  unfolding find
  kept_other b re c = rw c (gone_other b c)

  fewer : (b : ℕ) → times b (erase a p.running) ≤ times b p.running
  fewer b = times-erase_le a b p.running

  ended-Alive :
      {o : Outcome} → Ending heap w a r.fd (del_timer r p.server.queue) o → Alive (left_by o)
  ended-Alive was_closed = record {
    inv = after-Inv heap w a r p.server v.inv f was_closed;
    once = λ b. omega (arith, v.once b, fewer b);
    present = λ b n.
        rw (gone_other b (other_task b (omega (arith, n))))
          (v.present b (omega (arith, n, fewer b)));
    known = λ b n. rw (gone_other b (other_task b (omega (arith, n)))) (v.known b n);
    idle =
        λ t b i q n. v.idle t b (del_timer-live r p.server.queue i) q (omega (arith, n, fewer b));
  }
  ended-Alive (was_kept re same) = record {
    inv = after-Inv heap w a r p.server v.inv f (was_kept re same);
    once = λ b. omega (arith, v.once b, fewer b);
    present = λ b n.
        rw (kept_other b _ (other_task b (omega (arith, n))))
          (v.present b (omega (arith, n, fewer b)));
    known = λ b n. rw (kept_other b _ (other_task b (omega (arith, n)))) (v.known b n);
    idle = λ t b i q n.
        added-live heap (del_timer r p.server.queue) a re w.time i
          (λ c.
            false≢true
              (sym (other_task b (omega (arith, n))) ∙ (==_iff a b).1 (of_some (sym c ∙ q))))
          (λ j. v.idle t b (del_timer-live r p.server.queue j) q (omega (arith, n, fewer b)));
  }

module _ (heap : MinHeap) (clock : ℕ → ℕ → TimeVal)
    (mono : (k i j : ℕ) → i ≤ j → now heap (clock k) i ≤ now heap (clock k) j) where
  end_task-Alive :
      (p : Program) (fuel a : ℕ) (w : World) {s : Server}
      → Alive p
      → 0 < times a p.running
      → run_task heap fuel w a p.server ≡ ok (some s)
      → Alive (record p { server = s; running = erase a p.running })
  end_task-Alive p fuel a w v h e = elim (Option-cases (find a p.server.requests)) [
    | inl n ↦ (let d = run_task-absent heap fuel w a p.server n in cc)
    | inr (r, f) ↦
        (let (o, ran, left) = run_task-ran heap w a fuel p.server f e in
          subst (λ (s : Server). Alive (record p { server = s; running = erase a p.running })) left
            (ended-Alive heap w p a v h f (request-Ending heap w a fuel r p.server.queue ran)))
  ]

  pub Step-Alive :
      {p q : Program} (st : Step heap clock p q)
      → Answers heap clock st
      → LongEnough heap clock st
      → Alive p
      → Alive q
  unfolding Answers LongEnough times
  Step-Alive (wait_none system todo unblocked h) _ _ v = record {
    inv = v.inv;
    once = v.once;
    present = v.present;
    known = λ a n. absurd (omega (arith, n, ap (events_for a) todo));
    idle = v.idle;
  }
  Step-Alive {p} (wait_some fuel k system e es todo unblocked h enough ran) reported long v =
      swept-Alive heap clock mono p fuel k e es v unblocked enough ran reported long
  Step-Alive {p} (one_event io todo unblocked h) works _ v =
      event-Alive heap clock mono p io _ _ v todo unblocked works h
  Step-Alive {p} (resume_run {a} blocked h) _ _ v =
      moved-Alive p _ _ _ v
        λ b. omega (arith, times-put a b (caller_back p.server.pool), ap (times b) blocked)
  Step-Alive {p} (call_take h) _ _ v = moved-Alive p _ _ _ v λ b.
      omega (arith, times-take b p.server.pool, times-append b (front p.server.pool.queue) p.taken)
  Step-Alive {p} (resume_take h) _ _ v = moved-Alive p _ _ _ v λ b. omega (
    arith,
    times-take b (worker_back p.server.pool),
    times-append b (front p.server.pool.queue) p.taken,
  )
  Step-Alive {p} (other_pool step same) _ _ v =
      moved-Alive p _ _ _ v λ b. omega (arith, ap (times b) same)
  Step-Alive {p} (begin_task a h f) _ _ v = begun-Alive p a v h f
  Step-Alive {p} (end_task fuel a w h e) _ _ v = end_task-Alive p fuel a w v h e

pub at_start-Alive :
    (system : Setup) (address : ℕ) {s : Server} → set_up system address ≡ ok s → Alive (at_start s)
unfolding times ThreadPool.start ThreadPool.set_max_queue_size ThreadPool.new
at_start-Alive system address {s} h =
    let (poll, sockfd, same) = set_up_cases system address h in
    let v = set_up-Inv system address h in
    let empty : (a : ℕ) → times a s.pool.queue ≡ 0 =
      λ a. ap (λ (s : Server). times a s.pool.queue) (sym same) in
    record {
      inv = v;
      once = λ a. omega (arith, empty a);
      present = λ a n. absurd (omega (arith, n, empty a));
      known = λ a n. absurd (omega (arith, n));
      idle = λ t a i q n. omega (arith, n);
    }

-- A set-up succeeds, and then the main thread handles its events, and threads take, begin and end
-- tasks, in any order; the clocks of the sweeps do not go back; `epoll_wait` reports a request
-- once, while it exists and while there is no task for it; `accept4` and `epoll_ctl` succeed and
-- `new` gives an address that is not in use; and no sweep finds a timer run out whose request's
-- task was handed over and has not begun. Then every request in the pool's queue, waiting in
-- `run`, taken or being served exists, and has one task and no event; every event that is left is
-- for a request that exists or is known as deleted; and no timer runs for a task that has begun.
pub Reach-Alive :
    (heap : MinHeap) (clock : ℕ → ℕ → TimeVal) (system : Setup) (address : ℕ) {s : Server}
    {p : Program} (run : Reach heap clock (at_start s) p)
    → ((k i j : ℕ) → i ≤ j → now heap (clock k) i ≤ now heap (clock k) j)
    → set_up system address ≡ ok s
    → Always heap clock (λ q r st. Answers heap clock st) run
    → Always heap clock (λ q r st. LongEnough heap clock st) run
    → Alive p
unfolding Always
Reach-Alive heap clock system address here mono e answers long = at_start-Alive system address e
Reach-Alive heap clock system address (next run st) mono e (answers, a) (long, l) =
    Step-Alive heap clock mono st a l
      (Reach-Alive heap clock system address run mono e answers long)
