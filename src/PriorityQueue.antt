-- ===== src/PriorityQueue.antt =====
-- priority_queue.h and priority_queue.cpp: the timers of all open requests, the one that is due
-- first on top. Each method holds the queue's mutex from its first line to its last, so it is one
-- step. `std::priority_queue` is an interface: its vector is a list whose order is its own affair.
pub mod Expire
pub mod Delete
pub mod Heap
pub mod Waiting
use mathlib.Core.List.{Perm, Mem, map}
use httpd_cpp.Base.{
  ℕ, zero, suc, ◌+◌, ◌≤◌, ◌≡◌, ltb, ltb→le, Bool, true, false, List, [], ◌∷◌, length, leb, ◌==◌,
  if◌then◌else◌, Option, none, some, add_size,
}
use httpd_cpp.Timer
use httpd_cpp.Timer.{Timer, TimeVal}
use httpd_cpp.HttpRequest
use httpd_cpp.HttpRequest.{HttpRequest}

-- `timer_comp`, by which a timer with a greater key has the lower priority.
unfoldable pub timer_comp : Timer → Timer → Bool
timer_comp a b = ltb b.key a.key

-- What the queue relies on, of a `std::priority_queue` under `timer_comp`: nothing is lost or made
-- up, and no timer has a higher priority than the one on top.
pub record MinHeap : Type 0 where
  pub push : Timer → List Timer → List Timer
  pub top : List Timer → Option Timer
  pub pop : List Timer → List Timer
  pub push_perm : (t : Timer) (q : List Timer) → Perm (push t q) (t ∷ q)
  pub top_cons : (t : Timer) (q : List Timer) → (m : Timer) × (top (t ∷ q) ≡ some m)
  pub top-nil : top [] ≡ none
  pub pop_perm : (q : List Timer) (m : Timer) → top q ≡ some m → Perm q (m ∷ pop q)
  pub top_least : (q : List Timer) (m t : Timer) → top q ≡ some m → Mem t q → timer_comp m t ≡ false

-- The timer on top has the least key.
pub top_key :
    (heap : MinHeap) (q : List Timer) (m t : Timer) → heap.top q ≡ some m → Mem t q → m.key ≤ t.key
unfolding timer_comp
top_key heap q m t e i = ltb→le t.key m.key (heap.top_least q m t e i)

-- The queue, and the address of the next timer to be made.
pub record TimerQueue : Type 0 where
  pub timers : List Timer
  pub next_address : ℕ

unfoldable pub new : TimerQueue
new = record { timers = []; next_address = 0 }

unfoldable pub size : TimerQueue → ℕ
size q = length q.timers

unfoldable pub is_empty : TimerQueue → Bool
is_empty q = elim q.timers [ [] ↦ true | t ∷ ts ↦ false ]

-- `set_deleted(true)` through the `weak_ptr`: it has an effect if the timer is still in the queue.
unfoldable pub mark : ℕ → List Timer → List Timer
mark address [] = []
mark address (t ∷ q) =
    (if t.address == address then Timer.set_deleted true t else t) ∷ mark address q

unfoldable pub del_timer {ℓ} : {F : Type ℓ} → HttpRequest F → TimerQueue → TimerQueue
unfolding mark
del_timer request q = elim request.timer [
  | none ↦ q
  | some address ↦ record q { timers = mark address q.timers }
]

-- What a round does with the timer on top: it drops a deleted one; it returns before one that is
-- not due; it calls the handler of one that is due and removes it; if there is no handler, the
-- timer stays on top and the next round meets it again.
pub data Verdict : Type 0 where
  drop wait fire again : Verdict

verdict : Timer → ℕ → Verdict
verdict t now =
    if t.deleted
    then drop
    else if leb now t.key
    then wait
    else elim t.handler [ none ↦ again | some func ↦ fire ]

module _ (heap : MinHeap) where
  open heap use {push, top, pop}

  unfoldable pub insert : Timer → TimerQueue → TimerQueue
  insert t q = record q { timers = push t q.timers }

  -- `yj_pq_.top()`, which is not to be called on an empty queue.
  unfoldable pub min : TimerQueue → Option Timer
  min q = top q.timers

  unfoldable pub delmin : TimerQueue → TimerQueue
  delmin q = record q { timers = pop q.timers }

  -- `request` is the address of the request, `r` what stands there; `tv` is the time of day.
  unfoldable pub add_timer {ℓ} :
      {F : Type ℓ}
      → ℕ
      → HttpRequest F
      → ℕ
      → Option ℕ
      → TimeVal
      → TimerQueue
      → HttpRequest F × TimerQueue
  unfolding insert
  add_timer request r timeout func tv q =
      let node = Timer.set_request request (Timer.new q.next_address) in
      let keyed = Timer.set_key (add_size (Timer.time_update tv) timeout) node in
      let t = Timer.set_request request (Timer.set_handler func (Timer.set_deleted false keyed)) in
      (
        HttpRequest.set_timer q.next_address r,
        insert t (record q { next_address = q.next_address + 1 }),
      )

  -- What a sweep leaves: the timers whose handlers were called, in order, the queue, and how often
  -- the clock was read.
  pub record Sweep : Type 0 where
    pub fired : List Timer
    pub left : List Timer
    pub readings : ℕ

  add_fired : Timer → Option Sweep → Option Sweep
  add_fired t none = none
  add_fired t (some s) = some (record s { fired = t ∷ s.fired })

  -- The loop, the `n`-th reading of the clock next.
  sweep : ℕ → (ℕ → TimeVal) → ℕ → List Timer → Option Sweep
  unfolding add_fired verdict
  sweep zero clock n q = none
  sweep (suc fuel) clock n q = elim (top q) [
    | none ↦ some (record { fired = []; left = q; readings = n })
    | some t ↦ elim (verdict t (Timer.time_update (clock n))) [
      | drop ↦ sweep fuel clock n (pop q)
      | wait ↦ some (record { fired = []; left = q; readings = n + 1 })
      | again ↦ sweep fuel clock (n + 1) q
      | fire ↦ add_fired t (sweep fuel clock (n + 1) (pop q))
    ]
  ]

  unfoldable pub handle_expire_timers : ℕ → (ℕ → TimeVal) → TimerQueue → Option Sweep
  unfolding sweep
  handle_expire_timers fuel clock q = sweep fuel clock 0 q.timers
