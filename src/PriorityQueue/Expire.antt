-- ===== src/PriorityQueue/Expire.antt =====
-- `handle_expire_timers`: which handlers it calls, and what it leaves in the queue.
use mathlib.Core.List.{
  Perm, Mem, filter, mem-cons_self, mem-cons_of_mem, mem-append_left, mem-filter, not-mem-nil,
  Permᴰ,
}
use mathlib.Core.Logic.{∥∥₁_elim}
use native.Mathlib.Nat.{ℕ_set, le_trans}
use mathlib.Core.List.Perm
use mathlib.Core.Bool.{Bool-discrete}
use httpd_cpp.Base.{
  ℕ, zero, suc, ◌+◌, ◌-◌, ◌≤◌, ◌<◌, ◌≡◌, ◌≢◌, refl, ap, subst, ◌∙◌, true, false, Bool-cases,
  Option-cases, inl, inr, List, [], ◌∷◌, ◌++◌, length, leb, leb→le, leb→gt, leb-false_of_lt, none,
  some, arith,
}
use httpd_cpp.Timer
use httpd_cpp.Timer.{Timer, TimeVal, NotAfter, time_update_mono}
use httpd_cpp.PriorityQueue.{
  MinHeap, top_key, TimerQueue, Sweep, drop, wait, fire, again, verdict, add_fired, sweep,
  handle_expire_timers,
}

abbrev pub All {ℓ κ} : {A : Type ℓ} → (A → Type κ) → List A → Type κ
All P [] = Unit
All P (x ∷ xs) = P x × All P xs

pub All-of_mem {ℓ κ} :
    {A : Type ℓ} (P : A → Type κ) (xs : List A) → ((x : A) → Mem x xs → P x) → All P xs
All-of_mem P [] h = tt
All-of_mem P (x ∷ xs) h = (h x mem-cons_self, All-of_mem P xs (λ y m. h y (mem-cons_of_mem x m)))

-- The timers that are not marked as deleted.
abbrev pub live : List Timer → List Timer
live = filter (λ t. Bool-discrete t.deleted false)

-- The least key first.
abbrev pub InOrder : List Timer → Type 0
InOrder [] = Unit {0}
InOrder (t ∷ ts) = All (λ u. t.key ≤ u.key) ts × InOrder ts

pub live-deleted : (t : Timer) (q : List Timer) → t.deleted ≡ true → live (t ∷ q) ≡ live q
live-deleted t q h = ground arith

pub live-kept : (t : Timer) (q : List Timer) → t.deleted ≡ false → live (t ∷ q) ≡ t ∷ live q
live-kept t q h = ground arith

length-permᴰ {ℓ} : {A : Type ℓ} {xs ys : List A} → Permᴰ xs ys → length xs ≡ length ys
length-permᴰ Permᴰ.nil = refl
length-permᴰ (Permᴰ.cons e p) = ap suc (length-permᴰ p)
length-permᴰ (Permᴰ.swap e f) = refl
length-permᴰ (Permᴰ.trans p q) = length-permᴰ p ∙ length-permᴰ q

pub length-perm {ℓ} : {A : Type ℓ} {xs ys : List A} → Perm xs ys → length xs ≡ length ys
length-perm p = ∥∥₁_elim p (ℕ_set _ _) length-permᴰ

-- What a verdict says of the timer.
data VerdictCases (t : Timer) (now : ℕ) : Type 0 where
  dropped : verdict t now ≡ drop → t.deleted ≡ true → VerdictCases t now
  waits : verdict t now ≡ wait → now ≤ t.key → VerdictCases t now
  fires : verdict t now ≡ fire → t.deleted ≡ false → t.key < now → VerdictCases t now
  no_handler : verdict t now ≡ again → t.handler ≡ none → VerdictCases t now

verdict_cases : (t : Timer) (now : ℕ) → VerdictCases t now
unfolding verdict
verdict_cases t now = elim (Bool-cases t.deleted) [
  | inl d ↦ dropped (rw d) d
  | inr d ↦ elim (Bool-cases (leb now t.key)) [
    | inl l ↦ waits (rw (d, l)) (leb→le _ _ l)
    | inr l ↦ elim (Option-cases t.handler) [
      | inl g ↦ no_handler (rw (d, l, g)) g
      | inr (g, i) ↦ fires (rw (d, l, i)) d (leb→gt _ _ l)
    ]
  ]
]

verdict_again :
    (t : Timer) (now : ℕ)
    → t.deleted ≡ false
    → t.handler ≡ none
    → t.key < now
    → verdict t now ≡ again
unfolding verdict
verdict_again t now d g l = rw (d, leb-false_of_lt _ _ l, g)

module _ (heap : MinHeap) (clock : ℕ → TimeVal) where
  open heap use {push, top, pop, top_cons, pop_perm}

  abbrev pub now : ℕ → ℕ
  now n = Timer.time_update (clock n)

  -- What a sweep over `q` has done, whose first reading of the clock was the `n`-th.
  pub record Swept (n : ℕ) (q : List Timer) (s : Sweep heap) : Type 0 where
    pub later : n ≤ s.readings
    pub due : All (λ t. (t.deleted ≡ false) × (t.key < now (s.readings - 1))) s.fired
    pub in_order : InOrder s.fired
    pub waiting : (t : Timer) → Mem t s.left → now (s.readings - 1) ≤ t.key
    pub conserved : Perm (live q) (s.fired ++ live s.left)
    pub stood : (t : Timer) → Mem t s.left → Mem t q

  -- Every timer of the queue has a handler.
  abbrev pub Handled : List Timer → Type 0
  Handled q = (t : Timer) → Mem t q → t.handler ≢ none

  module _ (mono : (i j : ℕ) → i ≤ j → now i ≤ now j) where
    mem-pop : {q : List Timer} {t u : Timer} → top q ≡ some t → Mem u (pop q) → Mem u q
    mem-pop {q} {t} e m = (Perm.mem_iff (pop_perm q t e)).1 (mem-cons_of_mem t m)

    mem-top : {q : List Timer} {t : Timer} → top q ≡ some t → Mem t q
    mem-top {q} {t} e = (Perm.mem_iff (pop_perm q t e)).1 mem-cons_self

    length-pop : {q : List Timer} {t : Timer} → top q ≡ some t → length q ≡ suc (length (pop q))
    length-pop {q} {t} e = length-perm (pop_perm q t e)

    -- What was fired stood in the queue.
    mem_of_fired :
        {n : ℕ} {q : List Timer} {s : Sweep heap} {u : Timer}
        → Swept n q s
        → Mem u s.fired
        → Mem u q
    mem_of_fired {s} w m =
        ((mem-filter _).0 ((Perm.mem_iff w.conserved).1 (mem-append_left (live s.left) m))).0

    Swept-dropped :
        {n : ℕ} {q : List Timer} {t : Timer} {s : Sweep heap}
        → top q ≡ some t
        → t.deleted ≡ true
        → Swept n (pop q) s
        → Swept n q s
    Swept-dropped {q} {t} {s} e d w = record {
      later = w.later;
      due = w.due;
      in_order = w.in_order;
      waiting = w.waiting;
      conserved =
          Perm.trans
            (subst (λ l. Perm (live q) l) (live-deleted t (pop q) d)
              (Perm.filter _ (pop_perm q t e)))
            w.conserved;
      stood = λ u m. mem-pop e (w.stood u m);
    }

    Swept-fired :
        {n : ℕ} {q : List Timer} {t : Timer} {s : Sweep heap}
        → top q ≡ some t
        → t.deleted ≡ false
        → t.key < now n
        → Swept (n + 1) (pop q) s
        → Swept n q (record s { fired = t ∷ s.fired })
    Swept-fired {n} {q} {t} {s} e d k w = record {
      later = omega (arith, w.later);
      due = ((d, omega (arith, k, mono n (s.readings - 1) (omega (arith, w.later)))), w.due);
      in_order = (
        All-of_mem (λ u. t.key ≤ u.key) s.fired
            (λ u m. top_key heap q t u e (mem-pop e (mem_of_fired w m))),
        w.in_order,
      );
      waiting = w.waiting;
      conserved =
          Perm.trans
            (subst (λ l. Perm (live q) l) (live-kept t (pop q) d) (Perm.filter _ (pop_perm q t e)))
            (Perm.cons t w.conserved);
      stood = λ u m. mem-pop e (w.stood u m);
    }

    Swept-waiting :
        {n : ℕ} {q : List Timer} {t : Timer}
        → top q ≡ some t
        → now n ≤ t.key
        → Swept n q (record { fired = []; left = q; readings = n + 1 })
    Swept-waiting {n} {q} {t} e k = record {
      later = omega arith;
      due = tt;
      in_order = tt;
      waiting =
          λ u m. subst (λ i. now i ≤ u.key) (omega arith) (le_trans k (top_key heap q t u e m));
      conserved = Perm.refl (live q);
      stood = λ u m. m;
    }

    Swept-nil : (n : ℕ) → Swept n [] (record { fired = []; left = []; readings = n })
    Swept-nil n = record {
      later = omega arith;
      due = tt;
      in_order = tt;
      waiting = λ u m. absurd (not-mem-nil m);
      conserved = Perm.refl [];
      stood = λ u m. m;
    }

    sweep-drop :
        (fuel n : ℕ) {q : List Timer} {t : Timer}
        → top q ≡ some t
        → verdict t (now n) ≡ drop
        → sweep heap (suc fuel) clock n q ≡ sweep heap fuel clock n (pop q)
    unfolding sweep
    sweep-drop fuel n e v = rw (e, sweep, v)

    sweep-wait :
        (fuel n : ℕ) {q : List Timer} {t : Timer}
        → top q ≡ some t
        → verdict t (now n) ≡ wait
        → sweep heap (suc fuel) clock n q ≡ some (record { fired = []; left = q; readings = n + 1 })
    unfolding sweep
    sweep-wait fuel n e v = rw (e, sweep, v)

    sweep_fire :
        (fuel n : ℕ) {q : List Timer} {t : Timer} {s : Sweep heap}
        → top q ≡ some t
        → verdict t (now n) ≡ fire
        → sweep heap fuel clock (n + 1) (pop q) ≡ some s
        → sweep heap (suc fuel) clock n q ≡ some (record s { fired = t ∷ s.fired })
    unfolding sweep add_fired
    sweep_fire fuel n e v f = rw (e, sweep, v, f)

    sweep_lem :
        (fuel n : ℕ) (q : List Timer)
        → Handled q
        → length q < fuel
        → (s : Sweep heap) × (sweep heap fuel clock n q ≡ some s) × Swept n q s
    unfolding sweep
    sweep_lem zero n q h k = absurd (omega arith)
    sweep_lem (suc fuel) n [] h k = rw (heap.top-nil, sweep) (_, refl, Swept-nil n)
    sweep_lem (suc fuel) n (x ∷ xs) h k =
        let (t, e) = top_cons x xs in
        elim (verdict_cases t (now n)) [
          | dropped v d ↦
              (let (s, f, w) =
                  sweep_lem fuel n (pop (x ∷ xs)) (λ u m. h u (mem-pop e m))
                    (omega (arith, length-pop e)) in
                (s, sweep-drop fuel n e v ∙ f, Swept-dropped e d w))
          | waits v l ↦ (_, sweep-wait fuel n e v, Swept-waiting e l)
          | no_handler v g ↦ absurd (h t (mem-top e) g)
          | fires v d l ↦
              (let (s, f, w) =
                  sweep_lem fuel (n + 1) (pop (x ∷ xs)) (λ u m. h u (mem-pop e m))
                    (omega (arith, length-pop e)) in
                (record s { fired = t ∷ s.fired }, sweep_fire fuel n e v f, Swept-fired e d l w))
        ]

  -- While the clock does not go back, every timer has a handler, and the fuel is above the number
  -- of timers: `handle_expire_timers` ends. It calls the handlers of timers that are not deleted
  -- and whose key is before the last reading of the clock, in the order of their keys; what it
  -- leaves is not before that reading; what it leaves stood in the queue before; and each timer
  -- that is not deleted is either called for or left.
  pub handle_expire_timers_lem :
      (mono : (i j : ℕ) → i ≤ j → now i ≤ now j) (fuel : ℕ) (q : TimerQueue)
      → Handled q.timers
      → length q.timers < fuel
      → (s : Sweep heap) × (handle_expire_timers heap fuel clock q ≡ some s) × Swept 0 q.timers s
  unfolding handle_expire_timers
  handle_expire_timers_lem mono fuel q h k = sweep_lem mono fuel 0 q.timers h k

  -- An expired timer on top that has no handler is neither called for nor removed: the loop never
  -- ends.
  sweep_stuck :
      (fuel n : ℕ) (q : List Timer) (t : Timer)
      → top q ≡ some t
      → t.deleted ≡ false
      → t.handler ≡ none
      → ((i : ℕ) → t.key < now i)
      → sweep heap fuel clock n q ≡ none
  unfolding sweep
  sweep_stuck zero n q t e d g k = refl
  sweep_stuck (suc fuel) n q t e d g k =
      rw (e, sweep, verdict_again t (now n) d g (k n)) (sweep_stuck fuel (n + 1) q t e d g k)

  -- If the top of the queue is a timer that is not deleted, has no handler and has expired at
  -- every reading of the clock, `handle_expire_timers` goes round for ever: no fuel is enough.
  pub handle_expire_timers_stuck :
      (fuel : ℕ) (q : TimerQueue) (t : Timer)
      → top q.timers ≡ some t
      → t.deleted ≡ false
      → t.handler ≡ none
      → ((i : ℕ) → t.key < now i)
      → handle_expire_timers heap fuel clock q ≡ none
  unfolding handle_expire_timers
  handle_expire_timers_stuck fuel q t e d g k = sweep_stuck fuel 0 q.timers t e d g k
