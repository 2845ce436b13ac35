-- ===== src/ThreadPool/Threads.antt =====
-- The thread objects of a pool: `start` makes and starts them, `stop` joins them.
use httpd_cpp.Base.{
  ℕ, zero, suc, ◌+◌, ◌<◌, ◌≤◌, ◌≡◌, ◌≢◌, refl, sym, ap, ◌∙◌, Bool, true, false, inl, inr, List, [],
  ◌∷◌, ◌++◌, take, length, Result, ok, fail, assertion, Returns, ◌>>=◌, Bool-cases, arith,
}
use httpd_cpp.HttpResponse.{decimal}
use httpd_cpp.Thread
use httpd_cpp.Thread.{Thread}

-- What the threads run, `ThreadPool::runInThread`.
abbrev worker : ℕ
worker = 0

-- The loop of `start` from its i-th turn on, `n` turns; `created` is whether `pthread_create`
-- succeeds in each, and the counter of threads goes along.
unfoldable pub start_threads : (ℕ → Bool) → List ℕ → ℕ → ℕ → ℕ → Result (List Thread × ℕ)
start_threads created name zero i num_created = ok ([], num_created)
start_threads created name (suc n) i num_created = do
  let id = take 31 (decimal (i + 1))
  let (t, num_created') = Thread.new worker (name ++ id) num_created
  t' ← Thread.start (created i) t
  rest ← start_threads created name n (i + 1) num_created'
  ok (t' ∷ rest.0, rest.1)

-- The end of `stop`.
unfoldable pub join_threads : List Thread → Result (List Thread)
join_threads [] = ok []
join_threads (t ∷ ts) = do t' ← Thread.join t; ts' ← join_threads ts; ok (t' ∷ ts')

-- The threads are as `start` leaves them.
abbrev Started : (ℕ → Bool) → ℕ → List Thread → Type 0
Started created i [] = Unit
Started created i (t ∷ ts) =
    (t.started ≡ created i) × (t.joined ≡ false) × (t.released ≡ 0) × Started created (i + 1) ts

true≢false : true ≢ false
true≢false e = cc

start_lem :
    (b : Bool) (func : ℕ) (name : List ℕ) (c : ℕ)
    → Returns
        (Thread.start b (Thread.new func name c).0)
        (λ (u : Thread). (u.started ≡ b) × (u.joined ≡ false) × (u.released ≡ 0))
unfolding Thread.new Thread.set_default_name Thread.start
start_lem true func [] c = (_, refl, (refl, refl, refl))
start_lem false func [] c = (_, refl, (refl, refl, refl))
start_lem true func (x ∷ xs) c = (_, refl, (refl, refl, refl))
start_lem false func (x ∷ xs) c = (_, refl, (refl, refl, refl))

pub start_threads_lem :
    (created : ℕ → Bool) (name : List ℕ) (n i c : ℕ)
    → Returns (start_threads created name n i c) (λ p. Started created i p.0 × (length p.0 ≡ n))
unfolding start_threads
start_threads_lem created name zero i c = (_, refl, (tt, refl))
start_threads_lem created name (suc n) i c =
    let (t, e, s) = start_lem (created i) worker (name ++ take 31 (decimal (i + 1))) c in
    let (p, f, (rest, k)) =
      start_threads_lem created name n (i + 1)
        (Thread.new worker (name ++ take 31 (decimal (i + 1))) c).1 in
    rw (e, f) (_, refl, ((s.0, s.1, s.2, rest), omega (arith, k)))

join_unstarted : (t : Thread) → t.started ≡ false → Thread.join t ≡ fail assertion
unfolding Thread.join
join_unstarted t e = rw (e, Thread.join) refl

join_started :
    (t : Thread)
    → t.started ≡ true
    → t.joined ≡ false
    → Thread.join t ≡ ok (record t { joined = true; released = t.released + 1 })
unfolding Thread.join
join_started t e f = rw (e, f, Thread.join) refl

join_threads_fails :
    (created : ℕ → Bool) (i k : ℕ) (ts : List Thread)
    → Started created i ts
    → i ≤ k
    → k < i + length ts
    → created k ≡ false
    → join_threads ts ≡ fail assertion
unfolding join_threads
join_threads_fails created i k [] s low high e = absurd (omega arith)
join_threads_fails created i k (t ∷ ts) (a, b, c, s) low high e = elim (Bool-cases t.started) [
  | inl on ↦
      (let other : i ≢ k = (λ p. true≢false (sym on ∙ a ∙ ap created p ∙ e)) in
        rw
          (
            join_started t on b,
            join_threads_fails created (i + 1) k ts s (omega arith) (omega arith) e,
          )
          refl)
  | inr off ↦ rw (join_unstarted t off) refl
]

-- The threads after `stop`, where all were started.
abbrev Joined : List Thread → Type 0
Joined [] = Unit
Joined (t ∷ ts) = (t.joined ≡ true) × (t.released ≡ 1) × Joined ts

pub join_threads_lem :
    (created : ℕ → Bool) (i : ℕ) (ts : List Thread)
    → Started created i ts
    → ((k : ℕ) → created k ≡ true)
    → Returns (join_threads ts) Joined
unfolding join_threads
join_threads_lem created i [] s h = ([], refl, tt)
join_threads_lem created i (t ∷ ts) (a, b, c, s) h =
    let (us, e, rest) = join_threads_lem created (i + 1) ts s h in
    rw (join_started t (a ∙ h i) b, e) (_, refl, (refl, omega (arith, c), rest))

-- If `pthread_create` fails for one of the threads of a pool, the loop of `start` ends all the
-- same, and the joining at the end of `stop` fails an assert.
pub unstarted_thread_stops :
    (created : ℕ → Bool) (name : List ℕ) (n c k : ℕ)
    → k < n
    → created k ≡ false
    → Returns (start_threads created name n 0 c) (λ p. join_threads p.0 ≡ fail assertion)
unstarted_thread_stops created name n c k h e =
    let (p, f, (s, m)) = start_threads_lem created name n 0 c in
    (p, f, join_threads_fails created 0 k p.0 s (omega arith) (omega (arith, m)) e)
