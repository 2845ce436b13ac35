-- ===== src/Thread.antt =====
-- thread.h and thread.cpp: a thread object, and what its thread runs. The mutable state of the
-- program around them is the counter of created threads and each thread's own variables.
use httpd_cpp.Base.{
  ℕ, ◌+◌, ◌^◌, ◌≡◌, Bool, true, false, not, ◌&&◌, List, [], ◌∷◌, ◌++◌, take, Option, none, some,
  Result, ok, assert, ◌>>=◌, ◌>>◌, if◌then◌else◌,
}
use httpd_cpp.Bytes.{codes}
use httpd_cpp.Atomic
use httpd_cpp.Atomic.{increment_and_get}
use httpd_cpp.CurrentThread
use httpd_cpp.CurrentThread.{CurrentThread}
use httpd_cpp.HttpResponse.{decimal}
pub mod Lifecycle
pub mod Names

-- `tid` is what the shared cell holds: 0 until the thread has written its number. `created` and
-- `released` are histories: how many pthreads `pthread_create` made for the object, and how many
-- were given back by a join or a detach.
pub record Thread : Type 0 where
  pub started : Bool
  pub joined : Bool
  pub tid : ℕ
  pub func : ℕ
  pub name : List ℕ
  pub created : ℕ
  pub released : ℕ

-- The function that is run is a number; an empty name gets the number of the thread. With 31 places
-- the name is whole.
unfoldable pub set_default_name : ℕ → Thread → Thread × ℕ
set_default_name num_created t =
    let (num, num_created') = increment_and_get (2 ^ 32) num_created in
    (
      elim t.name [ [] ↦ record t { name = take 31 (codes "Thread" ++ decimal num) } | c ∷ cs ↦ t ],
      num_created',
    )

unfoldable pub new : ℕ → List ℕ → ℕ → Thread × ℕ
new func name num_created = set_default_name num_created (record {
  started = false;
  joined = false;
  tid = 0;
  func = func;
  name = name;
  created = 0;
  released = 0;
})

-- `created` is whether `pthread_create` succeeds.
unfoldable pub start : Bool → Thread → Result Thread
start created t = do
  assert (not t.started)
  ok (
      if created
      then record t { started = true; created = t.created + 1 }
      else record t { started = false })

-- `pthread_join` gives the pthread back.
unfoldable pub join : Thread → Result Thread
join t = do
  assert t.started
  assert (not t.joined)
  ok (record t { joined = true; released = t.released + 1 })

-- A thread that was started and not joined is detached.
unfoldable pub destroy : Thread → Thread
destroy t = if t.started && not t.joined then record t { released = t.released + 1 } else t

-- `Thread::numCreated`.
unfoldable pub num_created : ℕ → ℕ × ℕ
num_created counter = Atomic.get counter

-- What the new thread runs on, a copy: the function, the name, and a weak pointer to the cell.
pub record ThreadData : Type 0 where
  pub func : ℕ
  pub name : List ℕ

unfoldable pub thread_data : Thread → ThreadData
thread_data t = record { func = t.func; name = t.name }

-- `runInThread`, in a thread that the system numbers `gettid`. The cell is `none` where the thread
-- object is gone. `returns` is whether the function ends without an exception, which is dropped.
-- The thread's variables stand with the name that the function ran under.
unfoldable pub run_in_thread :
    ℕ → (ℕ → Bool) → ThreadData → Option ℕ → CurrentThread → Option ℕ × CurrentThread × List ℕ
run_in_thread gettid returns d cell c =
    let (tid, c') = CurrentThread.tid gettid c in
    let cell' : Option ℕ = elim cell [ none ↦ none | some old ↦ some tid ] in
    let name : List ℕ = elim d.name [ [] ↦ codes "Thread" | b ∷ bs ↦ b ∷ bs ] in
    let running : CurrentThread = record c' { thread_name = name } in
    (
      cell',
      if returns d.func then record running { thread_name = codes "finished" } else running,
      name,
    )
