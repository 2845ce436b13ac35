-- ===== src/Thread/Lifecycle.antt =====
-- The pthreads made for a thread object and given back, over the calls on it.
use httpd_cpp.Base.{
  ℕ, ◌≤◌, ◌≡◌, Bool, true, false, List, [], ◌∷◌, Result, ok, ◌>>=◌, between, arith,
}
use httpd_cpp.Thread
use httpd_cpp.Thread.{Thread, new, destroy}

-- A call on a thread object, with whether `pthread_create` succeeds.
pub data Call : Type 0 where
  start_call : Bool → Call
  join_call : Call

unfoldable pub call : Call → Thread → Result Thread
call (start_call created) t = Thread.start created t
call join_call t = Thread.join t

-- Calls one after the other; a failed assert ends them.
unfoldable pub calls : List Call → Thread → Result Thread
unfolding call
calls [] t = ok t
calls (c ∷ cs) t = call c t >>= calls cs

pub record Inv (t : Thread) : Type 0 where
  pub made : t.started ≡ true → t.created ≡ 1
  pub not_made : t.started ≡ false → (t.created ≡ 0) × (t.joined ≡ false)
  pub given_back : t.joined ≡ true → t.released ≡ 1
  pub held : t.joined ≡ false → t.released ≡ 0

new-Inv : (func : ℕ) (name : List ℕ) (num_created : ℕ) → Inv (Thread.new func name num_created).0
unfolding Thread.new Thread.set_default_name
new-Inv func [] num_created = ground arith
new-Inv func (c ∷ cs) num_created = ground arith

call-Inv : (c : Call) {t u : Thread} → Inv t → call c t ≡ ok u → Inv u
unfolding call Thread.start Thread.join
call-Inv (start_call created) v e = ground arith
call-Inv join_call v e = ground arith

calls-Inv : (cs : List Call) {t u : Thread} → Inv t → calls cs t ≡ ok u → Inv u
unfolding calls
calls-Inv [] v e = ground arith
calls-Inv (c ∷ cs) {t} v e =
    let (s, first, rest) = between (call c t) (calls cs) e in calls-Inv cs (call-Inv c v first) rest

-- After any calls of `start` and `join` on a new thread object in which no assert fails, whichever
-- calls of `pthread_create` succeed, and then its destructor: as many pthreads were given back, by
-- a join or a detach, as were made, and that is one at most.
pub destroy-calls :
    (func : ℕ) (name : List ℕ) (num_created : ℕ) (cs : List Call) {t : Thread}
    → calls cs (Thread.new func name num_created).0 ≡ ok t
    → ((destroy t).released ≡ (destroy t).created) × ((destroy t).created ≤ 1)
unfolding destroy
destroy-calls func name num_created cs {t} e =
    let v = calls-Inv cs (new-Inv func name num_created) e in ground arith
