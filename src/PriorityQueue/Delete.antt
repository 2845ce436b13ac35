-- ===== src/PriorityQueue/Delete.antt =====
-- `del_timer`: a timer that was deleted is not called for.
use mathlib.Core.List.{
  Perm, Mem, mem-append_left, mem-filter, mem-cons, mem-cons_self, mem-cons_of_mem, not-mem-nil,
}
use mathlib.Core.Logic.Or
use mathlib.Core.Bool.{Bool-set, false≢true}
use mathlib.Core.HLevel.{⊥_prop}
use mathlib.Core.List.Perm
use httpd_cpp.Base.{
  ℕ, suc, ◌≤◌, ◌<◌, ◌≡◌, ◌≢◌, refl, sym, subst, ap, add_size, ◌∙◌, true, false, List, [], ◌∷◌,
  length, none, some, ◌==◌, if◌then◌else◌, arith,
}
use httpd_cpp.Timer
use httpd_cpp.Timer.{Timer, TimeVal}
use httpd_cpp.HttpRequest
use httpd_cpp.HttpRequest.{HttpRequest}
use httpd_cpp.PriorityQueue.{
  MinHeap, TimerQueue, Sweep, mark, del_timer, add_timer, handle_expire_timers,
}
use httpd_cpp.PriorityQueue.Expire.{All, All-of_mem, live, now, Handled, handle_expire_timers_lem}

-- No timer that is live stands at address `a`.
abbrev pub Gone : ℕ → List Timer → Type 0
Gone a q = (t : Timer) → Mem t (live q) → t.address ≢ a

-- After `mark`, every timer at the address is deleted.
AllMarked : ℕ → List Timer → Type 0
AllMarked a [] = Unit {0}
AllMarked a (t ∷ q) = (t.address ≡ a → t.deleted ≡ true) × AllMarked a q

mark-AllMarked : (a : ℕ) (q : List Timer) → AllMarked a (mark a q)
unfolding mark Timer.set_deleted AllMarked
mark-AllMarked a [] = tt
mark-AllMarked a (t ∷ q) = ((λ e. ground arith), mark-AllMarked a q)

marked_of_mem :
    (a : ℕ) (q : List Timer) {t : Timer}
    → AllMarked a q
    → Mem t q
    → t.address ≡ a
    → t.deleted ≡ true
unfolding AllMarked
marked_of_mem a [] h m e = absurd (not-mem-nil m)
marked_of_mem a (u ∷ q) {t} h m e =
    Or.elim (Bool-set _ _) (mem-cons.0 m)
      (λ p.
        subst (λ (v : Timer). v.deleted ≡ true) (sym p)
          (h.0 (ap (λ (v : Timer). v.address) (sym p) ∙ e)))
      (λ k. marked_of_mem a q h.1 k e)

pub mark-Gone : (a : ℕ) (q : List Timer) → Gone a (mark a q)
mark-Gone a q t m e =
    let parts : Mem t (mark a q) × (t.deleted ≡ false) = (mem-filter _).0 m in
    false≢true (sym parts.1 ∙ marked_of_mem a (mark a q) (mark-AllMarked a q) parts.0 e)

marked : ℕ → Timer → Timer
marked a t = if t.address == a then Timer.set_deleted true t else t

marked_handler : (a : ℕ) (t : Timer) → (marked a t).handler ≡ t.handler
unfolding marked Timer.set_deleted
marked_handler a t = ground arith

length-mark : (a : ℕ) (q : List Timer) → length (mark a q) ≡ length q
unfolding mark
length-mark a [] = refl
length-mark a (t ∷ q) = ap suc (length-mark a q)

pub mark_handled :
    (a : ℕ) (q : List Timer) {t : Timer}
    → ((u : Timer) → Mem u q → u.handler ≢ none)
    → Mem t (mark a q)
    → t.handler ≢ none
unfolding mark marked
mark_handled a [] h m e = not-mem-nil m
mark_handled a (u ∷ q) h m e =
    Or.elim ⊥_prop (mem-cons.0 m)
      (λ p.
        h u mem-cons_self (sym (marked_handler a u) ∙ ap (λ (v : Timer). v.handler) (sym p) ∙ e))
      (λ k. mark_handled a q (λ v n. h v (mem-cons_of_mem u n)) k e)

-- `del_timer` of a request with a timer and then `handle_expire_timers`, while the clock does not
-- go back, every timer has a handler, and the fuel is above the number of timers: the sweep ends,
-- and it calls for no timer at the address that the request names.
pub del_timer_not_fired {ℓ} :
    {F : Type ℓ} (heap : MinHeap) (clock : ℕ → TimeVal)
    (mono : (i j : ℕ) → i ≤ j → now heap clock i ≤ now heap clock j) (fuel a : ℕ)
    (r : HttpRequest F) (q : TimerQueue)
    → r.timer ≡ some a
    → Handled heap clock q.timers
    → length q.timers < fuel
    → (s : Sweep heap) × (handle_expire_timers heap fuel clock (del_timer r q) ≡ some s)
      × All (λ (t : Timer). t.address ≢ a) s.fired
unfolding del_timer
del_timer_not_fired heap clock mono fuel a r q e h k =
    let (s, f, w) =
      handle_expire_timers_lem heap clock mono fuel (record q { timers = mark a q.timers })
        (λ t. mark_handled a q.timers h) (omega (arith, length-mark a q.timers)) in
    (
      s,
      rw (e, del_timer) f,
      All-of_mem (λ (t : Timer). t.address ≢ a) s.fired
          (λ t m.
            mark-Gone a q.timers t
              ((Perm.mem_iff w.conserved).1 (mem-append_left (live s.left) m))),
    )

-- `add_timer` gives the request the address of the new timer, and queues it with the others: its
-- key is the time of day and the timeout, it is not deleted, and it has the handler and the
-- request.
pub add_timer_lem {ℓ} :
    {F : Type ℓ} (heap : MinHeap) (request : ℕ) (r : HttpRequest F) (timeout func : ℕ)
    (tv : TimeVal) (q : TimerQueue)
    → let (r', q') = add_timer heap request r timeout (some func) tv q in
      (r'.timer ≡ some q.next_address)
      × Perm q'.timers (
          record {
            address = q.next_address;
            key = add_size (Timer.time_update tv) timeout;
            deleted = false;
            handler = some func;
            request = some request;
          }
          ∷ q.timers)
unfolding add_timer Timer.new Timer.set_key Timer.set_deleted Timer.set_handler Timer.set_request
    HttpRequest.set_timer
add_timer_lem heap request r timeout func tv q = (refl, heap.push_perm _ q.timers)
