-- ===== src/CountDownLatch/Liveness.antt =====
-- Who passes the latch, and when.
use httpd_cpp.Base.{ℕ, suc, ◌+◌, ◌-◌, ◌<◌, ◌≤◌, ◌≡◌, arith}
use httpd_cpp.CountDownLatch.{
  CountDownLatch, new, wait, count_down, Reach, here, next_wait, next_resume, next_count_down,
  next_spurious,
}

-- The count is what was not counted down yet; no thread passes before it is zero, and none sleeps
-- after.
pub record Inv (count n : ℕ) (l : CountDownLatch) : Type 0 where
  pub balance : l.count + n ≡ count + l.overdrawn
  pub spent : 0 < l.overdrawn → l.count ≡ 0
  pub closed : 0 < l.count → l.passed ≡ 0
  pub awake : l.count ≡ 0 → l.waiting ≡ 0

wait-Inv : (count n : ℕ) (l : CountDownLatch) → Inv count n l → Inv count n (wait l)
unfolding wait
wait-Inv count n l v = ground arith

resume-Inv :
    (count n : ℕ) (l : CountDownLatch)
    → Inv count n l
    → Inv count n (wait (record l { woken = l.woken - 1 }))
unfolding wait
resume-Inv count n l v = ground arith

count_down-Inv :
    (count n : ℕ) (l : CountDownLatch) → Inv count n l → Inv count (suc n) (count_down l)
unfolding count_down
count_down-Inv count n l v = ground arith

Reach-Inv : (count : ℕ) {n : ℕ} {l : CountDownLatch} → Reach (new count) n l → Inv count n l
unfolding new
Reach-Inv count here = ground arith
Reach-Inv count (next_wait {n} {k} r) = wait-Inv count n k (Reach-Inv count r)
Reach-Inv count (next_resume {n} {k} r w) = resume-Inv count n k (Reach-Inv count r)
Reach-Inv count (next_count_down {n} {k} r) = count_down-Inv count n k (Reach-Inv count r)
Reach-Inv count (next_spurious {n} {k} r w) = let v = Reach-Inv count r in ground arith

-- After any steps of a latch that starts at `count`: while it was counted down less often than
-- that, no thread has passed; once it was so often, no thread sleeps.
pub latch_opens :
    (count : ℕ) {n : ℕ} {l : CountDownLatch}
    → Reach (new count) n l
    → (n < count → l.passed ≡ 0) × (count ≤ n → l.waiting ≡ 0)
latch_opens count r = let v = Reach-Inv count r in ground arith
