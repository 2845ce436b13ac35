-- ===== src/ThreadPool/Queue.antt =====
-- What `run` and `take` do to the queue.
use httpd_cpp.Base.{ℕ, ◌+◌, ◌≡◌, refl, true, false, List, [], ◌∷◌, ◌++◌, drop, arith}
use httpd_cpp.ThreadPool.{
  ThreadPool, put, take, take_from, is_full, notify_not_empty, notify_not_full,
}

pub put-full :
    (a : ℕ) (p : ThreadPool)
    → is_full p ≡ true
    → put a p ≡ record p { full_waiting = p.full_waiting + 1 }
unfolding put
put-full a p h = rw (h, put) refl

pub put-room :
    (a : ℕ) (p : ThreadPool)
    → is_full p ≡ false
    → ((put a p).queue ≡ p.queue ++ (a ∷ [])) × ((put a p).full_waiting ≡ p.full_waiting)
unfolding put notify_not_empty
put-room a p h = ground (arith, h)

take_from-queue : (q : List ℕ) (p : ThreadPool) → p.queue ≡ q → (take_from q p).queue ≡ drop 1 q
unfolding take_from notify_not_full
take_from-queue [] p e = ground (arith, e)
take_from-queue (a ∷ q) p e = ground arith

pub take-queue : (p : ThreadPool) → (take p).queue ≡ drop 1 p.queue
unfolding take
take-queue p = take_from-queue p.queue p refl
