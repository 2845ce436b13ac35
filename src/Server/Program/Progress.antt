-- ===== src/Server/Program/Progress.antt =====
-- What the threads of main_server.cpp are about to do succeeds, in every state that they reach.
use httpd_cpp.Base.{ℕ, ◌+◌, ◌≤◌, ◌<◌, ◌≡◌, Bool, ap, ◌∙◌, List, ◌∷◌, length, some, ok, arith}
use httpd_cpp.Buffer.{cheap_prepend, initial_size, max_size}
use httpd_cpp.Buffer.Fd.{Received}
use httpd_cpp.RequestStore.{find}
use httpd_cpp.Timer.{TimeVal}
use httpd_cpp.PriorityQueue.{MinHeap}
use httpd_cpp.PriorityQueue.Expire.{now}
use httpd_cpp.HttpRequest.{HttpRequest}
use httpd_cpp.HttpResponse.Render.{render}
use httpd_cpp.EPoll.{Event}
use httpd_cpp.Callback.{World, HeaderFunc, with_message}
use httpd_cpp.Callback.Files.{Maps, answered}
use httpd_cpp.Callback.Reads.{Ends, joined}
use httpd_cpp.Callback.Reads
use httpd_cpp.Callback.Total.{with_close}
use httpd_cpp.Server.{Server, Io, Setup, set_up, expire, handle_event, run_task}
use httpd_cpp.Server.Sweeping.{expire_lem}
use httpd_cpp.Server.Events.{Works, exists_cases, handle_event_lem}
use httpd_cpp.Server.Rounds.{woken}
use httpd_cpp.Server.Totality.{run_task_total}
use httpd_cpp.Server.Program.{Program, at_start, times, Reach, Answers, LongEnough, Always}
use httpd_cpp.Server.Program.Alive.{Alive}
use httpd_cpp.Server.Program.Safety.{Reach-Alive}
use httpd_cpp.Server.Program.Working.{next_known}

-- What the system answers to a task: any bytes, before the stream ends or an error comes. The fuel is
-- above the number of reads and bytes, the bytes and every response to a path each fit a new
-- buffer's vector, and files that `stat` finds readable can be mapped.
pub record Served (fuel : ℕ) (w : World) : Type 0 where
  pub parts : List (List ℕ)
  pub last : Received
  pub again : Bool
  pub final : Ends last again
  pub answers : Reads.Answers w.readv 0 parts last
  pub enough : length parts + length (joined parts) < fuel
  pub small : cheap_prepend + initial_size + length (joined parts) ≤ max_size
  pub fits :
      (path : List ℕ) (close : Bool)
      → cheap_prepend + length (render (with_message (answered w path (with_close close))))
        ≤ max_size
  pub maps : (path : List ℕ) → Maps w path

-- What a thread is about to do, with what the system will answer: the main thread sweeps the timers
-- or handles its next event; a thread of the pool begins a task that it has taken, or runs one.
pub data Due (p : Program) : Type 0 where
  expiry : (fuel k : ℕ) (e : Event) (es : List Event) → length p.server.queue.timers < fuel → Due p
  event : (io : Io) {e : Event} {es : List Event} → p.todo ≡ e ∷ es → Works io → Due p
  begin : (a : ℕ) → 0 < times a p.taken → Due p
  task : (fuel a : ℕ) (w : World) → 0 < times a p.running → Served fuel w → Due p

pub task_begins :
    (p : Program) (a : ℕ)
    → Alive p
    → 0 < times a p.taken
    → (r : HttpRequest HeaderFunc) × (find a p.server.requests ≡ some r)
task_begins p a v h = exists_cases _ (v.present a (omega (arith, h)))

pub task_ends :
    (heap : MinHeap) (p : Program) (fuel a : ℕ) (w : World)
    → Alive p
    → 0 < times a p.running
    → Served fuel w
    → (s : Server) × (run_task heap fuel w a p.server ≡ ok (some s))
task_ends heap p fuel a w v h y =
    let (r, found) = exists_cases _ (v.present a (omega (arith, h))) in
    let (o, ran, (s, same, x)) =
      run_task_total heap w p.server a fuel y.parts v.inv found y.final y.answers y.enough y.small
        y.fits y.maps in
    (s, ran ∙ ap ok same)

module _ (heap : MinHeap) (clock : ℕ → ℕ → TimeVal) where
  -- It ends, with no failed assert and no request read that does not exist.
  unfoldable pub Succeeds : {p : Program} → Due p → Type 0
  Succeeds {p} (expiry fuel k e es h) =
      (s : Server) × (expire heap fuel (clock k) (woken heap (e ∷ es) p.server) ≡ ok (some s))
  Succeeds {p} (event io {e} h w) = (s : Server) × (handle_event heap io e p.server ≡ ok s)
  Succeeds {p} (begin a h) = (r : HttpRequest HeaderFunc) × (find a p.server.requests ≡ some r)
  Succeeds {p} (task fuel a w h y) = (s : Server) × (run_task heap fuel w a p.server ≡ ok (some s))

  Alive-Succeeds :
      ((k i j : ℕ) → i ≤ j → now heap (clock k) i ≤ now heap (clock k) j)
      → (p : Program) → Alive p
      → (d : Due p) → Succeeds d
  unfolding Succeeds
  Alive-Succeeds mono p v (expiry fuel k e es h) =
      let (o, f, (s, same, x)) =
        expire_lem heap fuel (clock k) (mono k) (woken heap (e ∷ es) p.server) v.inv h in
      (s, f ∙ ap ok same)
  Alive-Succeeds mono p v (event io {e} {es} h w) =
      let (s, f, x) =
        handle_event_lem heap io e p.server w v.inv (v.known e.request (next_known p h)) in
      (s, f)
  Alive-Succeeds mono p v (begin a h) = task_begins p a v h
  Alive-Succeeds mono p v (task fuel a w h y) = task_ends heap p fuel a w v h y

-- A set-up succeeds, and then the main thread handles its events, and threads take, begin and end
-- tasks, in any order; the clocks of the sweeps do not go back; `epoll_wait` reports a request
-- once, while it exists and while there is no task for it; `accept4` and `epoll_ctl` succeed and
-- `new` gives an address that is not in use; and no sweep finds a timer run out whose request's
-- task was handed over and has not begun. Then what is due next ends, with no failed assert, no
-- deleted request read and no read outside a mapping: a sweep with fuel above the number of
-- timers; the next event of the round; the start of a task that a thread has taken; and the run of
-- a task that has begun, whatever bytes `readv` answers before the stream ends or an error comes,
-- with fuel above the number of reads and bytes, and where the bytes and every response to a path
-- each fit a new buffer's vector, and where `stat` finds the file of a path regular and readable
-- by its owner, there `mmap` maps it and as many bytes can be read as `stat` counted.
pub Reach-Succeeds :
    (heap : MinHeap) (clock : ℕ → ℕ → TimeVal) (system : Setup) (address : ℕ) {s : Server}
    {p : Program} (run : Reach heap clock (at_start s) p)
    → ((k i j : ℕ) → i ≤ j → now heap (clock k) i ≤ now heap (clock k) j)
    → set_up system address ≡ ok s
    → Always heap clock (λ q r st. Answers heap clock st) run
    → Always heap clock (λ q r st. LongEnough heap clock st) run
    → (d : Due p) → Succeeds heap clock d
Reach-Succeeds heap clock system address {p = p} run mono e answers long d =
    Alive-Succeeds heap clock mono p (Reach-Alive heap clock system address run mono e answers long)
      d
