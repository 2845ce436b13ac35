-- ===== src/CurrentThread.antt =====
-- current_thread.h, and its part of thread.cpp: what a thread caches of itself. A thread's number is
-- a `pid_t`, positive where the system gave it out.
use httpd_cpp.Base.{
  ℕ, ◌-◌, ◌<◌, ◌≡◌, ◌≢◌, ◌==◌, if◌then◌else◌, Bool, List, [], ◌∷◌, ◌++◌, length, take, replicate,
  arith,
}
use httpd_cpp.Bytes.{codes}
use httpd_cpp.HttpResponse.{decimal}

-- The thread-local variables.
pub record CurrentThread : Type 0 where
  pub cached_tid : ℕ
  pub tid_string : List ℕ
  pub tid_string_length : ℕ
  pub thread_name : List ℕ

unfoldable pub new : CurrentThread
new = record {
  cached_tid = 0;
  tid_string = replicate 32 0;
  tid_string_length = 6;
  thread_name = codes "unknown";
}

-- `%5d `: the number right-aligned in five places.
abbrev pub padded : ℕ → List ℕ
padded n = let digits = decimal n in replicate (5 - length digits) 32 ++ (digits ++ codes " ")

-- `gettid` is what the system answers to this thread.
unfoldable pub cache_tid : ℕ → CurrentThread → CurrentThread
cache_tid gettid t =
    if t.cached_tid == 0
    then record t {
      cached_tid = gettid;
      tid_string = take 31 (padded gettid);
      tid_string_length = length (padded gettid);
    }
    else t

unfoldable pub tid : ℕ → CurrentThread → ℕ × CurrentThread
unfolding cache_tid
tid gettid t = let t' = if t.cached_tid == 0 then cache_tid gettid t else t in (t'.cached_tid, t')

unfoldable pub is_main_thread : ℕ → ℕ → CurrentThread → Bool
is_main_thread getpid gettid t = (tid gettid t).0 == getpid

-- What `pthread_atfork` runs in the child, whose one thread has a new number.
unfoldable pub after_fork : ℕ → CurrentThread → CurrentThread
after_fork gettid t = (tid gettid (record t { cached_tid = 0; thread_name = codes "main" })).1

-- The object `init`, which is made before `main`.
unfoldable pub thread_name_initializer : ℕ → CurrentThread → CurrentThread
thread_name_initializer gettid t = (tid gettid (record t { thread_name = codes "main" })).1

-- The life of a thread, by what changes its variables.
pub data Event : Type 0 where
  asked : Event
  forked : ℕ → Event

-- The number that the system knows the thread by, and the thread's variables, after some events.
unfoldable pub live : List Event → ℕ → CurrentThread → ℕ × CurrentThread
live [] gettid t = (gettid, t)
live (asked ∷ es) gettid t = live es gettid (tid gettid t).1
live (forked child ∷ es) gettid t = live es child (after_fork child t)

abbrev Numbered : List Event → Type 0
Numbered [] = Unit
Numbered (asked ∷ es) = Numbered es
Numbered (forked child ∷ es) = (0 < child) × Numbered es

abbrev Caches : ℕ → CurrentThread → Type 0
Caches gettid t = (t.cached_tid ≢ 0 → t.cached_tid ≡ gettid) × (0 < gettid)

live-Caches :
    (es : List Event) (gettid : ℕ) (t : CurrentThread)
    → Numbered es
    → Caches gettid t
    → Caches (live es gettid t).0 (live es gettid t).1
unfolding live tid after_fork
live-Caches [] gettid t n c = c
live-Caches (asked ∷ es) gettid t n c = live-Caches es gettid (tid gettid t).1 n (ground arith)
live-Caches (forked child ∷ es) gettid t (p, n) c =
    live-Caches es child (after_fork child t) n (ground arith)

-- A thread has a positive number, and so has every child of a fork: after any calls of `tid`, and
-- forks after which the child has run `afterFork`, `tid` returns the number that the system knows
-- the thread by.
pub tid-live :
    (es : List Event) (gettid : ℕ)
    → Numbered es
    → 0 < gettid
    → let (known, t) = live es gettid new in (tid known t).0 ≡ known
unfolding new tid
tid-live es gettid n p = let c = live-Caches es gettid new n (ground arith) in ground arith
