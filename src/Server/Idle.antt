-- ===== src/Server/Idle.antt =====
-- The connections that a sweep over the timers closes, and those that it leaves alone.
use mathlib.Core.List.{
  Mem, Mem-prop, mem-cons, mem-cons_self, mem-cons_of_mem, not-mem-nil, mem-append,
}
use mathlib.Core.List.Perm
use mathlib.Core.Logic.Or
use mathlib.Core.HLevel.{⊥_prop}
use httpd_cpp.Base.{
  of_some, of_ok, between, Option-cases, inl, inr, ℕ, ◌-◌, ◌<◌, ◌≤◌, ◌≡◌, ◌≢◌, refl, sym, ap, ◌∙◌,
  subst, false, List, [], ◌∷◌, ◌++◌, length, none, some, ok, Returns, ◌==◌, ==-false_of_ne,
  Bool-cases, ==_refl, ==_iff, arith,
}
use httpd_cpp.RequestStore.{find, find-remove}
use httpd_cpp.Timer.{Timer, TimeVal}
use httpd_cpp.PriorityQueue.{MinHeap}
use httpd_cpp.PriorityQueue.Expire.{All, live, now, handle_expire_timers_lem}
use httpd_cpp.HttpRequest.{HttpRequest}
use httpd_cpp.Callback.{HeaderFunc}
use httpd_cpp.Server.{Server, http_close_connect, run_handlers, expire}
use httpd_cpp.Server.Ownership.{Inv}
use httpd_cpp.PriorityQueue.{TimerQueue}
use httpd_cpp.Server.Sweeping.{
  Expired, expire_lem, closing, Owned-perm, run_handlers_lem, Swept-gone, Swept-fired, absent_cases,
}

-- What the handlers of `ts` close, and what they leave alone.
record Closed (ts : List Timer) (s s' : Server) : Type 0 where
  grown : (x : ℕ) → Mem x s.closed_fds → Mem x s'.closed_fds
  closes :
      (t : Timer) (a : ℕ) (r : HttpRequest HeaderFunc)
      → Mem t ts
      → t.request ≡ some a
      → find a s.requests ≡ some r
      → Mem r.fd s'.closed_fds
  untouched :
      (a : ℕ)
      → ((t : Timer) → Mem t ts → t.request ≢ some a)
      → find a s'.requests ≡ find a s.requests

-- A handler that returns has found its request.
http_close_connect-ok :
    (a : ℕ) (s : Server) {s' : Server}
    → http_close_connect a s ≡ ok s'
    → (r : HttpRequest HeaderFunc) × (find a s.requests ≡ some r) × (closing a r s ≡ s')
unfolding http_close_connect
http_close_connect-ok a s e = elim (Option-cases (find a s.requests)) [
  | inl n ↦ (let h = rw (n, http_close_connect) at e in cc)
  | inr (r, f) ↦ (r, f, of_ok (rw (f, http_close_connect) at e))
]

Closed-cons :
    (t : Timer) (ts : List Timer) (a : ℕ) (r : HttpRequest HeaderFunc) (s : Server) {s' : Server}
    → t.request ≡ some a
    → find a s.requests ≡ some r
    → Closed ts (closing a r s) s'
    → Closed (t ∷ ts) s s'
Closed-cons t ts a r s e f v = record {
  grown = λ x i. v.grown x (mem-append.1 (Or.inl i));
  closes = λ u b q i p g. elim (Bool-cases (a == b)) [
    | inl c ↦ v.grown q.fd (
        subst (λ (x : HttpRequest HeaderFunc). Mem q.fd (s.closed_fds ++ (x.fd ∷ [])))
          (of_some (sym g ∙ ap (λ x. find x s.requests) (sym ((==_iff a b).0 c)) ∙ f))
          (mem-append.1 (Or.inr mem-cons_self)))
    | inr c ↦
        Or.elim Mem-prop (mem-cons.0 i)
          (λ d.
            absurd (cc (c, ==_refl a, of_some (sym e ∙ ap (λ (w : Timer). w.request) (sym d) ∙ p))))
          (λ j. v.closes u b q j p (find-remove a b s.requests ∙ rw c g))
  ];
  untouched = λ b h.
      v.untouched b (λ u i. h u (mem-cons_of_mem t i))
      ∙ find-remove a b s.requests
      ∙ rw (==-false_of_ne a b (λ c. h t mem-cons_self (e ∙ ap some c))) refl;
}

run_handlers-Closed :
    (ts : List Timer) (s : Server) {s' : Server} → run_handlers ts s ≡ ok s' → Closed ts s s'
unfolding run_handlers
run_handlers-Closed [] s e = subst (Closed [] s) (of_ok e) (record {
  grown = λ x i. i;
  closes = λ t a r i. absurd (not-mem-nil i);
  untouched = λ a h. refl;
})
run_handlers-Closed (t ∷ ts) s {s'} e = elim (Option-cases t.request) [
  | inl n ↦ (let h = rw n at e in cc)
  | inr (a, p) ↦
      (let (u, first, rest) = between (http_close_connect a s) _ (rw p at e) in
        let (r, f, same) = http_close_connect-ok a s first in
        Closed-cons t ts a r s p f
          (subst (λ v. Closed ts v s') (sym same) (run_handlers-Closed ts u rest)))
]

-- No timer that was due has a key that the clock did not reach.
not-due :
    (n : ℕ) (t : Timer) (ts : List Timer)
    → All (λ (u : Timer). (u.deleted ≡ false) × (u.key < n)) ts
    → n ≤ t.key
    → Mem t ts
    → ⊥
not-due n t [] v h i = not-mem-nil i
not-due n t (u ∷ ts) v h i =
    Or.elim ⊥_prop (mem-cons.0 i) (λ d. omega (arith, h, v.0.1, ap (λ (w : Timer). w.key) d))
      (not-due n t ts v.1 h)

-- What a sweep from one server to another does.
pub record Sparing (heap : MinHeap) (clock : ℕ → TimeVal) (s s' : Server) : Type 0 where
  closes :
      (t : Timer) (a : ℕ) (r : HttpRequest HeaderFunc)
      → Mem t (live s.queue.timers)
      → t.request ≡ some a
      → find a s.requests ≡ some r
      → ((i : ℕ) → t.key < now heap clock i)
      → (find a s'.requests ≡ none) × Mem r.fd s'.closed_fds
  pub untouched :
      (b : ℕ)
      → ((u : Timer)
          → Mem u (live s.queue.timers)
          → u.request ≡ some b
          → (i : ℕ) → now heap clock i ≤ u.key)
      → find b s'.requests ≡ find b s.requests
  pub live_before : (t : Timer) → Mem t (live s'.queue.timers) → Mem t (live s.queue.timers)

module _ (heap : MinHeap) (fuel : ℕ) (clock : ℕ → TimeVal)
    (mono : (i j : ℕ) → i ≤ j → now heap clock i ≤ now heap clock j) (s : Server)
    (v : Inv s.requests s.queue.timers) (enough : length s.queue.timers < fuel) where
  expire-Sparing :
      Returns
        (expire heap fuel clock s)
        (λ o. (s' : Server) × (o ≡ some s') × Sparing heap clock s s')
  unfolding expire
  expire-Sparing =
      let (w, e, swept) = handle_expire_timers_lem heap clock mono fuel s.queue v.handled enough in
      let start : Server = record s { queue = record s.queue { timers = w.left } } in
      let (s', p, ran) =
        run_handlers_lem w.fired (live w.left) start
          (Owned-perm swept.conserved (record { owned = v.owned; distinct = v.distinct })) in
      let did = run_handlers-Closed w.fired start p in
      rw (e, expire, p)
        (
          some s',
          refl,
          (
            s',
            refl,
            record {
              closes = λ t a r i named found late. (
                absent_cases _
                    (Swept-gone heap fuel clock mono s v enough t a swept ran i named late),
                did.closes t a r (Swept-fired heap fuel clock mono s v enough t swept i late) named
                    found,
              );
              untouched = λ b active. did.untouched b (λ u j q.
                  not-due (now heap clock (w.readings - 1)) u w.fired swept.due
                    (active u ((Perm.mem_iff swept.conserved).1 (mem-append.1 (Or.inl j))) q
                      (w.readings - 1))
                    j);
              live_before = λ t i. (Perm.mem_iff swept.conserved).1 (
                  mem-append.1
                    (Or.inr (subst (λ (q : TimerQueue). Mem t (live q.timers)) ran.queue i)));
            },
          ),
        )

  -- A sweep that has ended in `s'`.
  pub expired_lem :
      {s' : Server}
      → expire heap fuel clock s ≡ ok (some s')
      → Expired s s' × Sparing heap clock s s'
  expired_lem {s'} h =
      let (o, e, (t, f, x)) = expire_lem heap fuel clock mono s v enough in
      let (o', e', (t', f', y)) = expire-Sparing in
      (
        subst (Expired s) (of_some (sym f ∙ of_ok (sym e ∙ h))) x,
        subst (Sparing heap clock s) (of_some (sym f' ∙ of_ok (sym e' ∙ h))) y,
      )

-- The requests, the timers and their handlers belong together, the clock does not go back, and the
-- fuel is above the number of timers: a sweep ends; a request whose live timer has a key before
-- every reading of the clock is then deleted and its descriptor closed, and a request that no live
-- timer with such a key at any reading names is as it was.
pub expire_closes_idle :
    (heap : MinHeap) (fuel : ℕ) (clock : ℕ → TimeVal) (s : Server) (t : Timer) (a b : ℕ)
    (r : HttpRequest HeaderFunc)
    → ((i j : ℕ) → i ≤ j → now heap clock i ≤ now heap clock j)
    → Inv s.requests s.queue.timers
    → length s.queue.timers < fuel
    → Mem t (live s.queue.timers)
    → t.request ≡ some a
    → find a s.requests ≡ some r
    → ((i : ℕ) → t.key < now heap clock i)
    → ((u : Timer)
        → Mem u (live s.queue.timers)
        → u.request ≡ some b
        → (i : ℕ) → now heap clock i ≤ u.key)
    → Returns (expire heap fuel clock s) (λ o.
      (s' : Server) × (o ≡ some s')
      × (find a s'.requests ≡ none)
      × Mem r.fd s'.closed_fds
      × (find b s'.requests ≡ find b s.requests))
expire_closes_idle heap fuel clock s t a b r mono v enough i named found late active =
    let (o, e, (s', f, x)) = expire-Sparing heap fuel clock mono s v enough in
    let (gone, closed) = x.closes t a r i named found late in
    (o, e, (s', f, gone, closed, x.untouched b active))
