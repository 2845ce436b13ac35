-- ===== src/Drivers/Doc.antt =====
-- test.cpp: one descriptor, of a file, which a child closes while its parent waits for an event. What
-- goes to stderr is left out.
use httpd_cpp.Base.{
  ℕ, Bool, List, [], ◌∷◌, ◌++◌, Option, none, some, Result, ok, fail, assertion, assert, ◌>>=◌,
  ◌>>◌, ltb, if◌then◌else◌,
}
use httpd_cpp.Server.{bit, epollin}
use httpd_cpp.Server2.{epollhup}

-- Which side of `fork` the program is on; a `fork` that fails leaves it with the parent's code.
pub data Fork : Type 0 where
  child parent : Fork

-- What the system answers, `none` for -1; `events` are the flags in the parent's `event` after the
-- wait, also where the wait leaves it as it was.
pub record PollIo : Type 0 where
  pub epoll_create : Option ℕ
  pub opened : Option ℕ
  pub epoll_ctl : ℕ → ℕ → Bool
  pub fork : Fork
  pub epoll_wait : ℕ → Option ℕ
  pub events : ℕ

pub data Printed : Type 0 where
  ret : Bool → Printed
  num : Option ℕ → Printed
  epollin_line epollhup_line : Printed

-- `assert` on an answer that has to be positive.
positive : Option ℕ → Result ℕ
positive none = fail assertion
positive (some fd) = do assert (ltb 0 fd); ok fd

-- What is printed, and the descriptors that are closed.
unfoldable pub main : PollIo → Result (List Printed × List ℕ)
unfolding positive
main io = do
  event_fd ← positive io.epoll_create
  fd ← positive io.opened
  let ret_line = ret (io.epoll_ctl event_fd fd)
  ok (elim io.fork [
    | child ↦ (ret_line ∷ [], fd ∷ [])
    | parent ↦ (
      ret_line
          ∷ num (io.epoll_wait event_fd)
          ∷ ((if bit epollin io.events then epollin_line ∷ [] else [])
              ++ (if bit epollhup io.events then epollhup_line ∷ [] else [])),
      [],
    )
  ])
