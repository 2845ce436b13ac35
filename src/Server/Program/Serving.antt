-- ===== src/Server/Program/Serving.antt =====
-- The threads of main_server.cpp's pool finish what was handed to them.
use httpd_cpp.Base.{
  ℕ, zero, suc, ◌+◌, ◌*◌, ◌≤◌, ◌<◌, ◌≡◌, ◌⊎◌, refl, sym, ap, ◌∙◌, subst, true, false, inl, inr,
  List, [], ◌∷◌, ◌++◌, length, ok, ltb, ltb→lt, ltb→le, Bool-cases, ◌==◌, arith,
}
use httpd_cpp.Timer.{TimeVal}
use httpd_cpp.PriorityQueue.{MinHeap}
use httpd_cpp.PriorityQueue.Expire.{now}
use httpd_cpp.ThreadPool
use httpd_cpp.ThreadPool.{ThreadPool, put, is_full}
use httpd_cpp.ThreadPool.Queue.{put-room, take-queue}
use httpd_cpp.ThreadPool.Callers.{take-running, put-running}
use httpd_cpp.Callback.{World}
use httpd_cpp.Server.{Server, Setup, set_up, erase}
use httpd_cpp.Server.Program.{
  Program, at_start, times, pending, left_waiting, front, caller_back, worker_back, Step, Reach,
  wait_none, wait_some, one_event, resume_run, call_take, resume_take, begin_task, end_task, here,
  next, Answers, LongEnough, Always,
}
use httpd_cpp.Server.Program.Tasks.{times-same, times-cons}
use httpd_cpp.Server.Program.Staffed.{Staffed}
use httpd_cpp.Server.Program.Progress.{Served, task_begins, task_ends}
use httpd_cpp.Server.Program.Working.{Working, run_task-pool, Step-Working, Reach-Working}

list_cases {ℓ} : {A : Type ℓ} (xs : List A) → (xs ≡ []) ⊎ ((x : A) × (ys : List A) × (xs ≡ x ∷ ys))
list_cases [] = inl refl
list_cases (x ∷ ys) = inr (x, ys, refl)

length-erase_le : (a : ℕ) (xs : List ℕ) → length (erase a xs) ≤ length xs
unfolding erase
length-erase_le a [] = omega arith
length-erase_le a (b ∷ xs) = ground (arith, length-erase_le a xs)

length-erase : (a : ℕ) (xs : List ℕ) → 0 < times a xs → length (erase a xs) < length xs
unfolding erase times
length-erase a [] h = absurd (omega (arith, h))
length-erase a (b ∷ xs) h = elim (Bool-cases (b == a)) [
  | inl c ↦ rw c (omega (arith, length-erase_le a xs))
  | inr c ↦ (let rest = length-erase a xs (rw c at h) in rw c (omega (arith, rest)))
]

times-length : (a : ℕ) (xs : List ℕ) → times a xs ≤ length xs
unfolding times
times-length a [] = omega arith
times-length a (b ∷ xs) = ground (arith, times-length a xs)

first_times : {a : ℕ} {xs ys : List ℕ} → xs ≡ a ∷ ys → 0 < times a xs
first_times {a} {ys = ys} e =
    subst (λ zs. 0 < times a zs) (sym e) (omega (arith, times-cons a a ys, times-same a a refl))

-- What is left for a thread that takes the first task.
taken-length :
    (p : ThreadPool) {a : ℕ} {q : List ℕ} (taken : List ℕ)
    → p.queue ≡ a ∷ q
    → (length (ThreadPool.take p).queue + 1 ≡ length p.queue)
      × (length (front p.queue ++ taken) ≡ length taken + 1)
unfolding front
taken-length p taken e = rw (take-queue p, e) (omega arith, omega arith)

-- While a task is queued some worker is busy or was woken.
worker_awake :
    {p : ThreadPool} {blocked : List ℕ} {a : ℕ} {q : List ℕ}
    → Staffed p blocked
    → p.running ≡ true
    → p.busy ≤ 0
    → p.queue ≡ a ∷ q
    → 0 < p.woken
worker_awake v on b e =
    let i = v.inv in let staff = v.workers in let queued = ap length e in grind arith

-- A caller that waits while no task is queued was woken, and finds a place.
caller_awake :
    {p : ThreadPool} {a : ℕ} {more : List ℕ}
    → Staffed p (a ∷ more)
    → p.queue ≡ []
    → (0 < p.full_woken) × (0 < p.max_queue_size) × (more ≡ [])
caller_awake {p} {a} {more} v e =
    let i = v.inv in
    let counted = v.counted in
    let one = v.one in
    let none_queued = ap length e in
    elim (list_cases more) [
      | inl n ↦ (grind arith, grind arith, n)
      | inr (b, bs, n) ↦ absurd (omega (arith, v.one, ap length n))
    ]

-- The caller's task is in the queue.
resume_run-moves :
    (p : ThreadPool) (a : ℕ)
    → 0 < p.max_queue_size
    → p.queue ≡ []
    → (length (put a (caller_back p)).queue ≡ 1)
      × (left_waiting a (caller_back p) (put a (caller_back p)) ≡ [])
unfolding is_full
resume_run-moves p a limited e =
    let none_queued = ap length e in
    let room : is_full (caller_back p) ≡ false = ground (arith, none_queued, limited) in
    let (queue, same) = put-room a (caller_back p) room in
    (rw (queue, e) refl, rw same (ground arith))

-- What is left to do, where a task that has come further counts less.
abbrev work : Program → ℕ
work p =
    4 * length p.blocked + 3 * length p.server.pool.queue + 2 * length p.taken + length p.running

nothing_left : (p : Program) → work p ≤ 0 → (a : ℕ) → pending a p ≡ 0
nothing_left p nothing a = omega (
  arith,
  nothing,
  times-length a p.blocked,
  times-length a p.server.pool.queue,
  times-length a p.taken,
  times-length a p.running,
)

module _ (heap : MinHeap) (clock : ℕ → ℕ → TimeVal) (world : ℕ → World) where
  -- A step of the pool's threads, or of the call of `run` that waits, that answers a request as
  -- `world` says.
  unfoldable pub Serves : {p q : Program} → Step heap clock p q → Type 0
  Serves (wait_none system a b c) = ⊥
  Serves (wait_some fuel k system e es a b c d f) = ⊥
  Serves (one_event io a b c) = ⊥
  Serves (end_task fuel a w h e) = w ≡ world a
  Serves _ = Unit {0}

  -- What such steps can lead to from `p`.
  abbrev pub Drained : Program → Type 0
  Drained p =
      (q : Program) × (more : Reach heap clock p q) × Always heap clock (λ q r st. Serves st) more
      × (q.todo ≡ p.todo)
      × ((a : ℕ) → pending a q ≡ 0)

  -- The next such step.
  record Serving (p : Program) : Type 0 where
    q : Program
    st : Step heap clock p q
    serves : Serves st
    answers : Answers heap clock st
    long : LongEnough heap clock st
    running : q.server.pool.running ≡ true
    less : work q < work p
    todo : q.todo ≡ p.todo

  module _ (fuel : ℕ) (served : (a : ℕ) → Served fuel (world a)) (p : Program) (v : Working p)
      (on : p.server.pool.running ≡ true) where
    end_one : (a : ℕ) → 0 < times a p.running → Serving p
    unfolding Serves Answers LongEnough
    end_one a h =
        let (s, ran) = task_ends heap p fuel a (world a) v.alive h (served a) in
        let same = run_task-pool heap (world a) fuel a p.server ran in
        record {
          q = _;
          st = end_task fuel a (world a) h ran;
          serves = refl;
          answers = tt;
          long = tt;
          running = ap (λ (l : ThreadPool). l.running) same ∙ on;
          less =
              omega
                (arith, length-erase a p.running h, ap (λ (l : ThreadPool). length l.queue) same);
          todo = refl;
        }

    begin_one : (a : ℕ) → 0 < times a p.taken → Serving p
    unfolding Serves Answers LongEnough
    begin_one a h =
        let (r, f) = task_begins p a v.alive h in
        record {
          q = _;
          st = begin_task a h f;
          serves = tt;
          answers = tt;
          long = tt;
          running = on;
          less = omega (arith, length-erase a p.taken h);
          todo = refl;
        }

    take_one : {a : ℕ} {q : List ℕ} → p.server.pool.queue ≡ a ∷ q → Serving p
    unfolding Serves Answers LongEnough
    take_one e = elim (Bool-cases (ltb 0 p.server.pool.busy)) [
      | inl b ↦ record {
        q = _;
        st = call_take (ltb→lt _ _ b);
        serves = tt;
        answers = tt;
        long = tt;
        running = take-running p.server.pool ∙ on;
        less = omega (arith, taken-length p.server.pool p.taken e);
        todo = refl;
      }
      | inr b ↦ record {
        q = _;
        st = resume_take (worker_awake v.staffed on (ltb→le _ _ b) e);
        serves = tt;
        answers = tt;
        long = tt;
        running = take-running (worker_back p.server.pool) ∙ on;
        less = omega (arith, taken-length (worker_back p.server.pool) p.taken e);
        todo = refl;
      }
    ]

    resume_one :
        {a : ℕ} {more : List ℕ} → p.blocked ≡ a ∷ more → p.server.pool.queue ≡ [] → Serving p
    unfolding Serves Answers LongEnough
    resume_one {a} {more} e none_queued =
        let (woken, limited, no_more) =
          caller_awake (subst (Staffed p.server.pool) e v.staffed) none_queued in
        let (queued, left) = resume_run-moves p.server.pool a limited none_queued in
        record {
          q = _;
          st = resume_run (e ∙ ap (λ l. a ∷ l) no_more) woken;
          serves = tt;
          answers = tt;
          long = tt;
          running = put-running a (caller_back p.server.pool) ∙ on;
          less = omega (arith, queued, ap length left, ap length e, ap length none_queued);
          todo = refl;
        }

    serve_one : 0 < work p → Serving p
    serve_one h = elim (list_cases p.running) [
      | inr (a, l, e) ↦ end_one a (first_times e)
      | inl r ↦ elim (list_cases p.taken) [
        | inr (a, l, e) ↦ begin_one a (first_times e)
        | inl t ↦ elim (list_cases p.server.pool.queue) [
          | inr (a, l, e) ↦ take_one e
          | inl q ↦ elim (list_cases p.blocked) [
            | inr (a, l, e) ↦ resume_one e q
            | inl b ↦ absurd (omega (arith, h, ap length r, ap length t, ap length q, ap length b))
          ]
        ]
      ]
    ]

module _ (heap : MinHeap) (clock : ℕ → ℕ → TimeVal)
    (mono : (k i j : ℕ) → i ≤ j → now heap (clock k) i ≤ now heap (clock k) j) (world : ℕ → World)
    (fuel : ℕ) (served : (a : ℕ) → Served fuel (world a)) where
  drain_rest :
      (n : ℕ) {p q : Program} (more : Reach heap clock p q)
      → Always heap clock (λ q r st. Serves heap clock world st) more
      → q.todo ≡ p.todo
      → Working q
      → q.server.pool.running ≡ true
      → work q ≤ n
      → Drained heap clock world p
  unfolding Always
  drain_rest zero {q = q} more so_far same v on small =
      (q, more, so_far, same, nothing_left q small)
  drain_rest (suc n) {q = q} more so_far same v on small = elim (Bool-cases (ltb 0 (work q))) [
    | inr done ↦ (q, more, so_far, same, nothing_left q (ltb→le _ _ done))
    | inl left ↦
        (let x = serve_one heap clock world fuel served q v on (ltb→lt _ _ left) in
          drain_rest n (next more x.st) (so_far, x.serves) (x.todo ∙ same)
            (Step-Working heap clock mono x.st x.answers x.long v) x.running
            (omega (arith, x.less, small)))
  ]

  -- A set-up succeeds, and then the main thread handles its events, and threads take, begin and
  -- end tasks, in any order; the clocks of the sweeps do not go back; `epoll_wait` reports a
  -- request once, while it exists and while there is no task for it; `accept4` and `epoll_ctl`
  -- succeed and `new` gives an address that is not in use; and no sweep finds a timer run out
  -- whose request's task was handed over and has not begun. While the pool runs, and if to the
  -- task of each request the system answers with any bytes before the stream ends or an error
  -- comes, with fuel above the number of reads and bytes, and where the bytes and every response
  -- to a path each fit a new buffer's vector, and where `stat` finds the file of a path regular
  -- and readable by its owner, there `mmap` maps it and as many bytes can be read as `stat`
  -- counted: steps of the pool's threads, and of the call of `run` that waits, lead on to a state
  -- in which no task is queued, waits in `run`, is taken or runs, and the events left are the
  -- same; no sweep and no event is needed for it.
  pub pool_drains :
      (system : Setup) (address : ℕ) {s : Server} {p : Program}
      (run : Reach heap clock (at_start s) p)
      → set_up system address ≡ ok s
      → Always heap clock (λ q r st. Answers heap clock st) run
      → Always heap clock (λ q r st. LongEnough heap clock st) run
      → p.server.pool.running ≡ true
      → Drained heap clock world p
  unfolding Always
  pool_drains system address {p = p} run e works long on =
      drain_rest (work p) here tt refl
        (Reach-Working heap clock mono system address run e works long) on (omega arith)
