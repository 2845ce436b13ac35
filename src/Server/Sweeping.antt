-- ===== src/Server/Sweeping.antt =====
-- The expired timers of a round, and the requests that their handlers close.
use mathlib.Core.List.{
  Mem, Mem-prop, Perm, map, mem-cons, mem-cons_self, mem-cons_of_mem, not-mem-nil, Nodup,
  Nodup-cons, mem-map_of_mem, mem-append, mem-filter,
}
use mathlib.Core.List.Perm
use mathlib.Core.Logic.Or
use mathlib.Core.Bool.{Bool-set}
use httpd_cpp.Base.{
  of_some, ℕ, ◌-◌, ◌<◌, ◌≤◌, ◌≡◌, refl, sym, ap, ◌∙◌, subst, Bool, true, false, ◌||◌, List, [], ◌∷◌,
  ◌++◌, length, Option, none, some, Returns, Returns-bind, ◌==◌, ==_refl, ==-false_of_ne, arith,
}
use httpd_cpp.RequestStore.{find, remove, find-remove}
use httpd_cpp.Timer.{Timer, TimeVal}
use httpd_cpp.PriorityQueue.{MinHeap, TimerQueue, Sweep}
use httpd_cpp.PriorityQueue.Expire.{live, now, handle_expire_timers_lem, Swept}
use httpd_cpp.HttpRequest.{HttpRequest}
use httpd_cpp.Callback.{HeaderFunc}
use httpd_cpp.Server.{Server, contains, http_close_connect, run_handlers, expire}
use httpd_cpp.Server.Ownership.{Store, is_owned, owned_cases, Inv}

-- What `Inv` says of the live timers, of any timers.
pub record Owned (m : Store) (us : List Timer) : Type 0 where
  pub owned : (t : Timer) → Mem t us → is_owned m t ≡ true
  pub distinct : Nodup (map (λ (t : Timer). t.request) us)

Owned-tail :
    (a : ℕ) (t : Timer) {m : Store} {us : List Timer}
    → Owned m (t ∷ us)
    → t.request ≡ some a
    → Owned (remove a m) us
Owned-tail a t {m} {us} v e =
    let parts = Nodup-cons.0 v.distinct in
    record {
      owned = λ u i.
          let (b, r, f, g, h) =
            owned_cases u.request u.address m (v.owned u (mem-cons_of_mem t i)) in
          let other : (a == b) ≡ false = ==-false_of_ne a b (λ p. parts.0 (
            subst (λ o. Mem o (map (λ (w : Timer). w.request) us)) (f ∙ ap some (sym p) ∙ sym e)
              (mem-map_of_mem (λ (w : Timer). w.request) i))) in
          rw (f, find-remove a b m, other, g, h) (==_refl u.address);
      distinct = parts.1;
    }

-- A request exists, or is known to the set of those that were deleted in this round.
abbrev pub exists_at : Option (HttpRequest HeaderFunc) → Bool
exists_at none = false
exists_at (some r) = true

pub absent_cases : (o : Option (HttpRequest HeaderFunc)) → exists_at o ≡ false → o ≡ none
absent_cases none h = refl
absent_cases (some r) h = cc

abbrev pub is_known : Server → ℕ → Bool
is_known s a = contains a s.ptr_set || exists_at (find a s.requests)

-- What the handlers of `ts` do to a server.
pub record Ran (ts us : List Timer) (s s' : Server) : Type 0 where
  pub owned : Owned s'.requests us
  pub queue : s'.queue ≡ s.queue
  pub pool : s'.pool ≡ s.pool
  pub epoll : s'.epoll ≡ s.epoll
  pub sockfd : s'.sockfd ≡ s.sockfd
  pub known : (a : ℕ) → is_known s a ≡ true → is_known s' a ≡ true
  pub still_gone :
      (a : ℕ) → exists_at (find a s.requests) ≡ false → exists_at (find a s'.requests) ≡ false
  pub gone :
      (t : Timer) (a : ℕ) → Mem t ts → t.request ≡ some a → exists_at (find a s'.requests) ≡ false

-- The server after one handler has closed `a`, which stood for `r`.
abbrev pub closing : ℕ → HttpRequest HeaderFunc → Server → Server
closing a r s = record s {
  closed_fds = s.closed_fds ++ (r.fd ∷ []);
  requests = remove a s.requests;
  ptr_set = a ∷ s.ptr_set;
}

run_handlers-cons :
    (t : Timer) (ts : List Timer) (s : Server) {a : ℕ} {r : HttpRequest HeaderFunc}
    → t.request ≡ some a
    → find a s.requests ≡ some r
    → run_handlers (t ∷ ts) s ≡ run_handlers ts (closing a r s)
unfolding run_handlers http_close_connect
run_handlers-cons t ts s e f = rw (e, f, http_close_connect) refl

pub run_handlers_lem :
    (ts us : List Timer) (s : Server)
    → Owned s.requests (ts ++ us)
    → Returns (run_handlers ts s) (Ran ts us s)
unfolding run_handlers
run_handlers_lem [] us s v = (
  s,
  refl,
  record {
    owned = v;
    queue = refl;
    pool = refl;
    epoll = refl;
    sockfd = refl;
    known = λ a h. h;
    still_gone = λ a h. h;
    gone = λ t a i. absurd (not-mem-nil i);
  },
)
run_handlers_lem (t ∷ ts) us s v =
    let (a, r, e, f, g) = owned_cases t.request t.address s.requests (v.owned t mem-cons_self) in
    let (s', p, w) = run_handlers_lem ts us (closing a r s) (Owned-tail a t v e) in
    (
      s',
      run_handlers-cons t ts s e f ∙ p,
      record {
        owned = w.owned;
        queue = w.queue;
        pool = w.pool;
        epoll = w.epoll;
        sockfd = w.sockfd;
        known = λ b h. w.known b (ground (arith, find-remove a b s.requests));
        still_gone = λ b h. w.still_gone b (ground (arith, find-remove a b s.requests));
        gone = λ u b i p.
            Or.elim (Bool-set _ _) (mem-cons.0 i)
              (λ c.
                let same : a ≡ b = of_some (sym e ∙ ap (λ (w : Timer). w.request) (sym c) ∙ p) in
                w.still_gone b (ground (arith, find-remove a b s.requests)))
              (λ j. w.gone u b j p);
      },
    )

-- The queue after a round's sweep keeps to the invariant, and every request that existed is known.
pub record Expired (s s' : Server) : Type 0 where
  pub inv : Inv s'.requests s'.queue.timers
  pub pool : s'.pool ≡ s.pool
  pub epoll : s'.epoll ≡ s.epoll
  pub sockfd : s'.sockfd ≡ s.sockfd
  pub known : (a : ℕ) → is_known s a ≡ true → is_known s' a ≡ true

pub Owned-perm : {m : Store} {ts us : List Timer} → Perm ts us → Owned m ts → Owned m us
Owned-perm p v = record {
  owned = λ t i. v.owned t ((Perm.mem_iff p).1 i);
  distinct = Perm.nodup (Perm.map (λ (t : Timer). t.request) p) v.distinct;
}

module _ (heap : MinHeap) (fuel : ℕ) (clock : ℕ → TimeVal)
    (mono : (i j : ℕ) → i ≤ j → now heap clock i ≤ now heap clock j) (s : Server)
    (v : Inv s.requests s.queue.timers) (enough : length s.queue.timers < fuel) where
  -- The sweep, and the handlers on what it fired.
  abbrev SweptAndRan : Server → Type 0
  SweptAndRan s' =
      (w : Sweep heap) × Swept heap clock 0 s.queue.timers w
      × Ran w.fired (live w.left) (record s { queue = record s.queue { timers = w.left } }) s'

  expire_runs :
      Returns (expire heap fuel clock s) (λ o. (s' : Server) × (o ≡ some s') × SweptAndRan s')
  unfolding expire
  expire_runs =
      let (w, e, swept) = handle_expire_timers_lem heap clock mono fuel s.queue v.handled enough in
      let start : Server = record s { queue = record s.queue { timers = w.left } } in
      rw (e, expire)
        (Returns-bind (run_handlers w.fired start) _
          (run_handlers_lem w.fired (live w.left) start
            (Owned-perm swept.conserved (record { owned = v.owned; distinct = v.distinct })))
          λ s' ran. (some s', refl, (s', refl, (w, swept, ran))))

  pub expire_lem :
      Returns (expire heap fuel clock s) (λ o. (s' : Server) × (o ≡ some s') × Expired s s')
  expire_lem =
      let (o, e, (s', f, (w, swept, ran))) = expire_runs in
      (
        o,
        e,
        (
          s',
          f,
          record {
            inv =
                subst (λ (q : TimerQueue). Inv s'.requests q.timers) (sym ran.queue)
                  (record {
                    handled = λ t i. v.handled t (swept.stood t i);
                    owned = ran.owned.owned;
                    distinct = ran.owned.distinct;
                  });
            pool = ran.pool;
            epoll = ran.epoll;
            sockfd = ran.sockfd;
            known = ran.known;
          },
        ),
      )

  -- A timer that has run out is among those that the sweep has fired.
  pub Swept-fired :
      {w : Sweep heap} (t : Timer)
      → Swept heap clock 0 s.queue.timers w
      → Mem t (live s.queue.timers)
      → ((i : ℕ) → t.key < now heap clock i)
      → Mem t w.fired
  Swept-fired {w} t swept i late =
      Or.elim Mem-prop (mem-append.0 ((Perm.mem_iff swept.conserved).0 i)) (λ j. j)
        (λ j. absurd (omega (arith, late (w.readings - 1), swept.waiting t ((mem-filter _).0 j).0)))

  -- What an expired timer named is gone, once the handlers of a sweep have run.
  pub Swept-gone :
      {w : Sweep heap} {start s' : Server} (t : Timer) (a : ℕ)
      → Swept heap clock 0 s.queue.timers w
      → Ran w.fired (live w.left) start s'
      → Mem t (live s.queue.timers)
      → t.request ≡ some a
      → ((i : ℕ) → t.key < now heap clock i)
      → exists_at (find a s'.requests) ≡ false
  Swept-gone t a swept ran i named late = ran.gone t a (Swept-fired t swept i late) named

  pub expire-gone :
      (t : Timer) (a : ℕ)
      → Mem t (live s.queue.timers)
      → t.request ≡ some a
      → ((i : ℕ) → t.key < now heap clock i)
      → Returns (expire heap fuel clock s) (λ o.
        (s' : Server) × (o ≡ some s')
        × (s'.pool ≡ s.pool)
        × (exists_at (find a s'.requests) ≡ false))
  expire-gone t a i named late =
      let (o, e, (s', f, (w, swept, ran))) = expire_runs in
      (o, e, (s', f, ran.pool, Swept-gone t a swept ran i named late))
