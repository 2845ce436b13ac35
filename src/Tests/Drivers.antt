-- ===== src/Tests/Drivers.antt =====
-- What main_thread.cpp prints at its end, and what test.cpp does.
use httpd_cpp.Base.{◌≡◌, refl, true, [], ◌∷◌, some, ok}
use httpd_cpp.Atomic
use httpd_cpp.Thread
use httpd_cpp.Drivers.Threads
use httpd_cpp.Drivers.Doc
use httpd_cpp.Drivers.Doc.{PollIo, Fork, ret, num, epollin_line, epollhup_line}

six_threads : Threads.main (λ n. true) ≡ ok 6
unfolding Threads.main Threads.joined Threads.left_running Thread.new Thread.set_default_name
    Thread.start Thread.join Thread.destroy Atomic.increment_and_get
six_threads = refl

-- A system whose epoll is 3 and whose file is 4; the wait ends with EPOLLIN and EPOLLHUP.
abbrev polled : Fork → PollIo
polled side = record {
  epoll_create = some 3;
  opened = some 4;
  epoll_ctl = λ e fd. true;
  fork = side;
  epoll_wait = λ e. some 1;
  events = 17;
}

parent_prints :
    Doc.main (polled Fork.parent)
    ≡ ok (ret true ∷ num (some 1) ∷ epollin_line ∷ epollhup_line ∷ [], [])
unfolding Doc.main
parent_prints = refl

child_closes : Doc.main (polled Fork.child) ≡ ok (ret true ∷ [], 4 ∷ [])
unfolding Doc.main
child_closes = refl
