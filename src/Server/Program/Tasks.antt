-- ===== src/Server/Program/Tasks.antt =====
-- The tasks for a request, as they move from list to list.
use httpd_cpp.Base.{
  ℕ, ◌+◌, ◌≤◌, ◌<◌, ◌≡◌, refl, ap, false, List, [], ◌∷◌, ◌++◌, drop, ◌==◌, if◌then◌else◌, arith,
  ==_iff, inl, inr, Bool-cases,
}
use httpd_cpp.ThreadPool
use httpd_cpp.ThreadPool.{ThreadPool, put}
use httpd_cpp.ThreadPool.Queue.{put-full, put-room, take-queue}
use httpd_cpp.Server.{erase}
use httpd_cpp.Server.Program.{times, left_waiting, front}

pub times-append : (a : ℕ) (xs ys : List ℕ) → times a (xs ++ ys) ≡ times a xs + times a ys
unfolding times
times-append a [] ys = omega arith
times-append a (b ∷ xs) ys = ground (arith, times-append a xs ys)

pub times-nil : (a : ℕ) → times a [] ≡ 0
unfolding times
times-nil a = refl

pub times-cons : (a b : ℕ) (xs : List ℕ) → times a (b ∷ xs) ≡ times a (b ∷ []) + times a xs
unfolding times
times-cons a b xs = ground arith

pub times-same : (a b : ℕ) → b ≡ a → times a (b ∷ []) ≡ 1
unfolding times
times-same a b e = ground (arith, e)

pub times-other : (a b : ℕ) → (b == a) ≡ false → times a (b ∷ []) ≡ 0
unfolding times
times-other a b e = rw e refl

pub times-erase :
    (a b : ℕ) (xs : List ℕ) → times b (erase a xs) ≡ (if a == b then 0 else times b xs)
unfolding times erase
times-erase a b [] = ground arith
times-erase a b (c ∷ xs) = ground (arith, times-erase a b xs)

pub times-erase_le : (a b : ℕ) (xs : List ℕ) → times b (erase a xs) ≤ times b xs
times-erase_le a b xs = ground (arith, times-erase a b xs)

-- A task that moves on from a list.
pub times-moved :
    (a b : ℕ) (xs : List ℕ) → 0 < times a xs → times b (erase a xs) + times b (a ∷ []) ≤ times b xs
unfolding times
times-moved a b xs h = elim (Bool-cases (a == b)) [
  | inl c ↦
      (let same = (==_iff a b).0 c in
        ground (arith, c, h, ap (λ k. times k xs) same, times-erase a b xs))
  | inr c ↦ ground (arith, c, times-erase a b xs)
]

-- A task that `run` is called for waits in the queue or its caller does.
pub times-put :
    (a b : ℕ) (p : ThreadPool)
    → times b (put a p).queue + times b (left_waiting a p (put a p))
      ≡ times b p.queue + times b (a ∷ [])
unfolding times
times-put a b p = elim (Bool-cases (ThreadPool.is_full p)) [
  | inl f ↦ rw (put-full a p f) (ground arith)
  | inr f ↦
      (let (queue, same) = put-room a p f in
        rw (queue, same) (ground (arith, times-append b p.queue (a ∷ []))))
]

times-front : (b : ℕ) (q : List ℕ) → times b (drop 1 q) + times b (front q) ≡ times b q
unfolding times front
times-front b [] = refl
times-front b (a ∷ q) = ground arith

-- A task that a thread takes leaves the queue.
pub times-take :
    (b : ℕ) (p : ThreadPool)
    → times b (ThreadPool.take p).queue + times b (front p.queue) ≡ times b p.queue
times-take b p = rw (take-queue p) (times-front b p.queue)
