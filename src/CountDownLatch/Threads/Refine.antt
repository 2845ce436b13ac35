-- ===== src/CountDownLatch/Threads/Refine.antt =====
-- The latch as statements of its threads does what the latch as whole calls does.
use httpd_cpp.Base.{ℕ, ◌+◌, ◌≡◌, refl, subst, ◌==◌, if◌then◌else◌, arith, Bool-cases, inl, inr}
use httpd_cpp.Condition.{notify_all}
use httpd_cpp.CountDownLatch
use httpd_cpp.CountDownLatch.{CountDownLatch}
use httpd_cpp.CountDownLatch.Threads.{
  Threads, at_rest, decrement, Reach, here, lock_wait, first_test_waits, first_test_leaves, wake,
  next_test_waits, next_test_leaves, unlock_wait, lock_count_down, count_one, notify,
  unlock_count_down, spurious,
}

-- The latch that the threads make. Once one of them has counted and is yet to notify, those that
-- sleep are as good as woken.
unfoldable pub latch : Threads → CountDownLatch
latch s = record {
  count = s.count;
  overdrawn = s.overdrawn;
  waiting = if s.notifying == 0 then s.condition.waiting else 0;
  woken = s.condition.woken + s.retesting + (if s.notifying == 0 then 0 else s.condition.waiting);
  passed = s.leaving + s.passed;
}

-- One thread at most is between `lock` and `unlock`.
abbrev Alone : Threads → Type 0
Alone s =
    s.testing + s.retesting + s.leaving + s.counting + s.notifying + s.counted
    ≡ (if s.locked then 1 else 0)

Reach-Alone : {count n : ℕ} {s : Threads} → Reach count n s → Alone s
unfolding at_rest decrement
Reach-Alone here = refl
Reach-Alone (lock_wait r e) = let v = Reach-Alone r in ground arith
Reach-Alone (first_test_waits r a b) = let v = Reach-Alone r in ground arith
Reach-Alone (first_test_leaves r a b) = let v = Reach-Alone r in ground arith
Reach-Alone (wake r a b) = let v = Reach-Alone r in ground arith
Reach-Alone (next_test_waits r a b) = let v = Reach-Alone r in ground arith
Reach-Alone (next_test_leaves r a b) = let v = Reach-Alone r in ground arith
Reach-Alone (unlock_wait r a) = let v = Reach-Alone r in ground arith
Reach-Alone (lock_count_down r a) = let v = Reach-Alone r in ground arith
Reach-Alone (count_one r a) = let v = Reach-Alone r in ground arith
Reach-Alone (notify r a) = let v = Reach-Alone r in ground arith
Reach-Alone (unlock_count_down r a) = let v = Reach-Alone r in ground arith
Reach-Alone (spurious r a) = let v = Reach-Alone r in ground arith

-- A latch is told by its fields.
same_latch :
    (count : ℕ) {n : ℕ} {k l : CountDownLatch}
    → CountDownLatch.Reach (CountDownLatch.new count) n k
    → (k.count ≡ l.count)
      × (k.overdrawn ≡ l.overdrawn)
      × (k.waiting ≡ l.waiting)
      × (k.woken ≡ l.woken)
      × (k.passed ≡ l.passed)
    → CountDownLatch.Reach (CountDownLatch.new count) n l
same_latch count {n} r (a, b, c, d, e) =
    subst (CountDownLatch.Reach (CountDownLatch.new count) n)
      (λ i. record { count = a i; overdrawn = b i; waiting = c i; woken = d i; passed = e i }) r

-- Any steps of threads in the statements of `wait` and `countDown`, with the mutex taken and given
-- back, wake-ups that nobody asked for included: the latch that they make, where those that sleep
-- count as woken from `--count_` on, is reached by whole calls of `wait` and `countDown`, with the
-- count decremented as often.
pub reach_refines :
    {count n : ℕ} {s : Threads}
    → Reach count n s
    → CountDownLatch.Reach (CountDownLatch.new count) n (latch s)
unfolding latch CountDownLatch.new CountDownLatch.wait CountDownLatch.count_down at_rest decrement
    notify_all
reach_refines here = CountDownLatch.here
reach_refines (lock_wait r e) = reach_refines r
reach_refines (first_test_waits r a b) =
    let v = Reach-Alone r in
    same_latch _ (CountDownLatch.next_wait (reach_refines r)) (ground arith)
reach_refines (first_test_leaves r a b) =
    let v = Reach-Alone r in
    same_latch _ (CountDownLatch.next_wait (reach_refines r)) (ground arith)
reach_refines (wake r a b) = let v = Reach-Alone r in same_latch _ (reach_refines r) (ground arith)
reach_refines (next_test_waits r a b) =
    let v = Reach-Alone r in
    same_latch _ (CountDownLatch.next_resume (reach_refines r) (ground arith)) (ground arith)
reach_refines (next_test_leaves r a b) =
    let v = Reach-Alone r in
    same_latch _ (CountDownLatch.next_resume (reach_refines r) (ground arith)) (ground arith)
reach_refines (unlock_wait r a) =
    let v = Reach-Alone r in same_latch _ (reach_refines r) (ground arith)
reach_refines (lock_count_down r e) = reach_refines r
reach_refines (count_one r a) =
    let v = Reach-Alone r in
    same_latch _ (CountDownLatch.next_count_down (reach_refines r)) (ground arith)
reach_refines (notify r a) = let v = Reach-Alone r in same_latch _ (reach_refines r) (ground arith)
reach_refines (unlock_count_down r e) = reach_refines r
reach_refines (spurious {s = s} r a) = elim (Bool-cases (s.notifying == 0)) [
  | inl h ↦
      same_latch _ (CountDownLatch.next_spurious (reach_refines r) (ground (arith, h)))
        (ground arith)
  | inr h ↦ same_latch _ (reach_refines r) (ground arith)
]
