-- ===== src/EPoll.antt =====
-- epoll.h and epoll.cpp. The system's interest list is not the object's: each call is handed to
-- `epoll_ctl` or `epoll_wait`, whose answers are parameters. A request is named by its address.
use httpd_cpp.Base.{
  ℕ, List, ◌++◌, length, drop, replicate, Option, none, some, Result, ok, fail, exception,
}

-- `struct epoll_event` with the pointer in it.
pub record Event : Type 0 where
  pub events : ℕ
  pub request : ℕ

pub data Control : Type 0 where
  add modify del : Control

pub record Ctl : Type 0 where
  pub op : Control
  pub fd : ℕ
  pub event : Event

-- `num_events` is `none` for -1.
pub record EPoll : Type 0 where
  pub fd : ℕ
  pub events : List Event
  pub num_events : Option ℕ

abbrev pub max_events : ℕ
max_events = 1024

abbrev no_event : Event
no_event = record { events = 0; request = 0 }

-- `created` is the answer of `epoll_create1`, `none` for -1.
unfoldable pub new : Option ℕ → Result EPoll
new none = fail exception
new (some fd) = ok (record { fd = fd; events = replicate max_events no_event; num_events = some 0 })

module _ {ℓ} {A : Type ℓ} (epoll_ctl : ℕ → Ctl → A) where
  unfoldable pub epoll_add : ℕ → ℕ → ℕ → EPoll → A
  epoll_add fd request events p =
      epoll_ctl p.fd
        (record { op = add; fd = fd; event = record { events = events; request = request } })

  unfoldable pub epoll_mod : ℕ → ℕ → ℕ → EPoll → A
  epoll_mod fd request events p =
      epoll_ctl p.fd
        (record { op = modify; fd = fd; event = record { events = events; request = request } })

  unfoldable pub epoll_del : ℕ → ℕ → ℕ → EPoll → A
  epoll_del fd request events p =
      epoll_ctl p.fd
        (record { op = del; fd = fd; event = record { events = events; request = request } })

-- The answer of `epoll_wait` for an array of so many events: the events it wrote, or -1. It is
-- handed the size of the array, and not the argument `max_events`.
unfoldable pub epoll_wait : (ℕ → Option (List Event)) → EPoll → Option ℕ × EPoll
epoll_wait system p = elim (system (length p.events)) [
  | none ↦ (none, record p { num_events = none })
  | some es ↦ (
    some (length es),
    record p { num_events = some (length es); events = es ++ drop (length es) p.events },
  )
]

unfoldable pub get_epoll_fd : EPoll → ℕ
get_epoll_fd p = p.fd

-- The destructor.
unfoldable pub destroy {ℓ} : {A : Type ℓ} → (ℕ → A) → EPoll → A
destroy close p = close p.fd

unfoldable pub get_epoll_num_events : EPoll → Option ℕ
get_epoll_num_events p = p.num_events

unfoldable pub get_epoll_events : EPoll → List Event
get_epoll_events p = p.events
