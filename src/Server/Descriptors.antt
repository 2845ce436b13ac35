-- ===== src/Server/Descriptors.antt =====
-- The sockets of the requests: given out, closed, or held by a request that exists.
pub mod Reach
use mathlib.Core.List.{
  Perm, map, Nodup, Nodup-cons, Nodup-nil, not-mem-nil, perm_append_comm, perm_append_singleton,
}
use mathlib.Core.List.Perm
use httpd_cpp.Base.{
  ℕ, ◌+◌, ◌≡◌, refl, sym, ap, ◌∙◌, subst, Bool, true, false, inl, inr, List, [], ◌∷◌, ◌++◌,
  append_assoc, Option, none, some, Result, ok, fail, ◌>>=◌, between, of_ok, of_some, ◌==◌, ==_refl,
  Bool-cases, Option-cases, if◌then◌else◌, arith,
}
use httpd_cpp.RequestStore.{find, remove, find-remove}
use httpd_cpp.RequestStore.Distinct.{addresses, not-mem_of_none, remove-Nodup, remove_perm}
use httpd_cpp.Timer.{Timer, TimeVal}
use httpd_cpp.PriorityQueue.{MinHeap, TimerQueue, handle_expire_timers}
use httpd_cpp.HttpRequest.{HttpRequest}
use httpd_cpp.EPoll.{EPoll, Event}
use httpd_cpp.Callback.{World, HeaderFunc}
use httpd_cpp.Server.{
  Server, Io, http_close_connect, run_handlers, expire, drop_connection, handle_event,
}
use httpd_cpp.Server.Ownership.{Store}
use httpd_cpp.Server.Events.{Works}

abbrev pub fds : Store → List ℕ
fds = map (λ e. e.1.fd)

-- A socket that was given out was closed as often as it was given out, but for those that a request
-- holds; no two requests share an address.
pub record Conserved (s : Server) : Type 0 where
  pub distinct : Nodup (addresses s.requests)
  pub kept : Perm s.opened_fds (s.closed_fds ++ fds s.requests)

-- A socket is closed and its request goes.
close-perm :
    (a : ℕ) (r : HttpRequest HeaderFunc) (m : Store) (closed : List ℕ)
    → Nodup (addresses m)
    → find a m ≡ some r
    → Perm (closed ++ fds m) ((closed ++ (r.fd ∷ [])) ++ fds (remove a m))
close-perm a r m closed d f =
    subst (Perm (closed ++ fds m)) (sym (append_assoc closed (r.fd ∷ []) (fds (remove a m))))
      (Perm.append_left closed (Perm.map (λ e. e.1.fd) (remove_perm a r m d f)))

-- A server with the request at `a` closed and deleted, whatever else has changed.
pub close-Conserved :
    (a : ℕ) (r : HttpRequest HeaderFunc) (s s' : Server)
    → Conserved s
    → find a s.requests ≡ some r
    → s'.opened_fds ≡ s.opened_fds
    → s'.closed_fds ≡ s.closed_fds ++ (r.fd ∷ [])
    → s'.requests ≡ remove a s.requests
    → Conserved s'
close-Conserved a r s s' v f o c q = record {
  distinct = rw q (remove-Nodup a s.requests v.distinct);
  kept = rw (o, c, q) (Perm.trans v.kept (close-perm a r s.requests s.closed_fds v.distinct f));
}

http_close_connect-Conserved :
    (a : ℕ) (s : Server) {s' : Server} → Conserved s → http_close_connect a s ≡ ok s' → Conserved s'
unfolding http_close_connect
http_close_connect-Conserved a s v e = elim (Option-cases (find a s.requests)) [
  | inl n ↦ (let h = rw (n, http_close_connect) at e in cc)
  | inr (r, f) ↦
      subst Conserved (of_ok (rw (f, http_close_connect) at e))
        (close-Conserved a r s _ v f refl refl refl)
]

pub run_handlers-Conserved :
    (ts : List Timer) (s : Server) {s' : Server}
    → Conserved s
    → run_handlers ts s ≡ ok s'
    → Conserved s'
unfolding run_handlers
run_handlers-Conserved [] s v e = subst Conserved (of_ok e) v
run_handlers-Conserved (t ∷ ts) s v e = elim (Option-cases t.request) [
  | inl n ↦ (let h = rw n at e in cc)
  | inr (a, f) ↦
      (let (u, first, rest) = between (http_close_connect a s) _ (rw f at e) in
        run_handlers-Conserved ts u (http_close_connect-Conserved a s v first) rest)
]
