-- ===== src/MutexLock/Exclusion.antt =====
-- Which thread has the lock, and what the lock knows of it.
use httpd_cpp.Base.{
  ℕ, ◌<◌, ◌≡◌, ◌≢◌, ◌↔◌, refl, sym, ◌∙◌, subst, ==_iff, Bool, true, false, some, arith,
}
use httpd_cpp.MutexLock.{
  is_locked_by_this_thread, assign_holder, unassign_holder, pthread_lock, pthread_unlock, Place,
  outside, inside, waiting, System, at_rest, Step, acquire, assign, unassign, release, part, sleep,
  wake, Reach, here, next,
}

abbrev pub owns : Place → Bool
owns outside = false
owns waiting = false
owns _ = true

pub record Inv (s : System) : Type 0 where
  pub owned : (i : ℕ) → owns (s.place i) ≡ true → s.lock.owner ≡ some i
  pub positive : (i : ℕ) → s.place i ≢ outside → 0 < i
  pub known : (i : ℕ) → s.place i ≡ inside → s.lock.holder ≡ i
  pub true_holder : 0 < s.lock.holder → s.place s.lock.holder ≡ inside

Step-Inv : {s t : System} → Step s t → Inv s → Inv t
unfolding pthread_lock pthread_unlock assign_holder unassign_holder
Step-Inv {s} (acquire i p e o) v = record {
  owned = λ j h. ground (arith, v.owned j, v.owned i);
  positive = λ j h. ground (arith, v.positive j, v.positive i);
  known = λ j h. ground (arith, v.known j, v.owned j, v.owned i);
  true_holder = λ h. ground (arith, v.true_holder h, v.owned s.lock.holder, v.owned i);
}
Step-Inv {s} (assign i e) v = record {
  owned = λ j h. ground (arith, v.owned j, v.owned i);
  positive = λ j h. ground (arith, v.positive j, v.positive i);
  known = λ j h. ground (arith, v.known j, v.owned j, v.owned i);
  true_holder = λ h. ground arith;
}
Step-Inv {s} (unassign i e) v = record {
  owned = λ j h. ground (arith, v.owned j, v.owned i);
  positive = λ j h. ground (arith, v.positive j, v.positive i);
  known = λ j h. ground (arith, v.known j, v.owned j, v.owned i);
  true_holder = λ h. ground arith;
}
Step-Inv {s} (release i e) v = record {
  owned = λ j h. ground (arith, v.owned j, v.owned i);
  positive = λ j h. ground (arith, v.positive j, v.positive i);
  known = λ j h. ground (arith, v.known j, v.owned j, v.owned i);
  true_holder = λ h. ground (arith, v.true_holder h, v.owned s.lock.holder, v.owned i);
}
Step-Inv {s} (part i e) v = record {
  owned = λ j h. ground (arith, v.owned j, v.owned i);
  positive = λ j h. ground (arith, v.positive j, v.positive i);
  known = λ j h. ground (arith, v.known j, v.owned j, v.owned i);
  true_holder = λ h. ground arith;
}
Step-Inv {s} (sleep i e) v = record {
  owned = λ j h. ground (arith, v.owned j, v.owned i);
  positive = λ j h. ground (arith, v.positive j, v.positive i);
  known = λ j h. ground (arith, v.known j, v.owned j, v.owned i);
  true_holder = λ h. ground (arith, v.true_holder h, v.owned s.lock.holder, v.owned i);
}
Step-Inv {s} (wake i e o) v = record {
  owned = λ j h. ground (arith, v.owned j, v.owned i);
  positive = λ j h. ground (arith, v.positive j, v.positive i);
  known = λ j h. ground (arith, v.known j, v.owned j, v.owned i);
  true_holder = λ h. ground (arith, v.true_holder h, v.owned s.lock.holder, v.owned i);
}

Reach-Inv : {s : System} → Reach at_rest s → Inv s
Reach-Inv here = record {
  owned = λ i h. cc;
  positive = λ i h. absurd (h refl);
  known = λ i h. cc;
  true_holder = λ h. absurd (omega arith);
}
Reach-Inv (next r st) = Step-Inv st (Reach-Inv r)

pub mutual_exclusion :
    {s : System} (i j : ℕ) → Reach at_rest s → s.place i ≡ inside → s.place j ≡ inside → i ≡ j
mutual_exclusion {s} i j r p q = let v = Reach-Inv r in sym (v.known i p) ∙ v.known j q

-- After any steps of threads that lock, unlock and wait on a condition, statement by statement:
-- for a thread with a positive number `isLockedByThisThread` is true exactly when it stands
-- between the end of `lock` and the start of `unlock` or of a wait.
pub is_locked_by_this_thread_iff :
    {s : System} (i : ℕ)
    → Reach at_rest s
    → 0 < i
    → (is_locked_by_this_thread i s.lock ≡ true) ↔ (s.place i ≡ inside)
unfolding is_locked_by_this_thread
is_locked_by_this_thread_iff {s} i r p =
    let v = Reach-Inv r in
    (
      (λ h.
          let e = (==_iff s.lock.holder i).0 h in
          subst (λ k. s.place k ≡ inside) e (v.true_holder (omega arith))),
      (λ h. (==_iff s.lock.holder i).1 (v.known i h)),
    )
