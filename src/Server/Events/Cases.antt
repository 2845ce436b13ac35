-- ===== src/Server/Events/Cases.antt =====
-- What one event can do.
use httpd_cpp.Base.{ℕ, ◌≡◌, true, inl, inr, some, Result, ok, ◌==◌, Bool-cases, arith}
use httpd_cpp.RequestStore.{find}
use httpd_cpp.PriorityQueue.{MinHeap}
use httpd_cpp.HttpRequest.{HttpRequest}
use httpd_cpp.EPoll.{Event}
use httpd_cpp.Callback.{HeaderFunc}
use httpd_cpp.Server.{
  Server, Io, contains, erase, is_broken, drop_connection, dispatch, handle_event,
}
use httpd_cpp.Server.Sweeping.{is_known}
use httpd_cpp.Server.Events.{
  Works, exists_cases, connected, accept_connection-eq, skipped_eq, listening_eq, dispatched_eq,
  dropped_eq,
}

module _ (heap : MinHeap) (io : Io) (e : Event) (s : Server) where
  pub data EventCases : Result Server → Type 0 where
    skipped : EventCases (ok (record s { ptr_set = erase e.request s.ptr_set }))
    accepted : (connfd : ℕ) → EventCases (ok (connected heap io connfd s))
    dropped :
        {r : HttpRequest HeaderFunc}
        → find e.request s.requests ≡ some r
        → EventCases (ok (drop_connection e.request r s))
    dispatched :
        {r : HttpRequest HeaderFunc}
        → find e.request s.requests ≡ some r
        → EventCases (ok (dispatch e.request s))

  pub event_cases : Works io → is_known s e.request ≡ true → EventCases (handle_event heap io e s)
  event_cases w k = elim (Bool-cases (contains e.request s.ptr_set)) [
    | inl c ↦ rw (skipped_eq heap io e s c) skipped
    | inr c ↦
        (let (r, f) = exists_cases (find e.request s.requests) (ground arith) in
          elim (Bool-cases (r.fd == s.sockfd)) [
            | inl l ↦
                (let (connfd, peer, a) = w.accepts s.sockfd in
                  rw
                    (
                      listening_eq heap io e s c f l,
                      accept_connection-eq heap io s a (w.adds s.epoll.fd),
                    )
                    (accepted connfd))
            | inr l ↦ elim (Bool-cases (is_broken e.events)) [
              | inl b ↦ rw (dropped_eq heap io e s c f l b) (dropped f)
              | inr b ↦ rw (dispatched_eq heap io e s c f l b) (dispatched f)
            ]
          ])
  ]
