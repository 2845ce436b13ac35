-- ===== src/Server/Ownership.antt =====
-- Which request a timer would close: each timer that is not deleted names a request that exists and
-- that names it back, and no two of them name the same.
use mathlib.Core.List.{
  Mem, Perm, map, mem-cons, Sublist, Nodup, Nodup-cons, map-id, exists_of_mem-map,
}
use mathlib.Core.List.Perm
use mathlib.Core.List.Sublist
use mathlib.Core.List.Nodup
use mathlib.Core.Logic.{∥∥₁_elim}
use mathlib.Core.Logic.Or
use mathlib.Core.HLevel.{⊥_prop}
use mathlib.Core.Bool.{Bool-set}
use httpd_cpp.Base.{
  ℕ, ◌≡◌, ◌≢◌, refl, sym, ap, ◌∙◌, subst, Bool, true, false, inl, inr, List, [], ◌∷◌, Option, none,
  some, ◌==◌, ==_iff, ==_refl, ==-false_of_ne, Bool-cases, Option-cases,
}
use httpd_cpp.RequestStore.{find, remove, find-remove}
use httpd_cpp.Timer
use httpd_cpp.Timer.{Timer}
use httpd_cpp.PriorityQueue.{TimerQueue, mark, del_timer}
use httpd_cpp.PriorityQueue.Expire.{live, live-deleted, live-kept}
use httpd_cpp.PriorityQueue.Delete.{mark-Gone, mark_handled}
use httpd_cpp.HttpRequest.{HttpRequest}
use httpd_cpp.Callback.{HeaderFunc}

abbrev pub Store : Type 0
Store = List (ℕ × HttpRequest HeaderFunc)

abbrev timer_is : Option ℕ → ℕ → Bool
timer_is none a = false
timer_is (some b) a = b == a

abbrev names_back : Option (HttpRequest HeaderFunc) → ℕ → Bool
names_back none t = false
names_back (some r) t = timer_is r.timer t

abbrev owner_of : Option ℕ → ℕ → Store → Bool
owner_of none t m = false
owner_of (some a) t m = names_back (find a m) t

-- The timer's request exists, and names the timer.
abbrev pub is_owned : Store → Timer → Bool
is_owned m t = owner_of t.request t.address m

timer_cases : (o : Option ℕ) (k : ℕ) → timer_is o k ≡ true → o ≡ some k
timer_cases none k h = cc
timer_cases (some b) k h = ap some ((==_iff b k).0 h)

names_cases :
    (o : Option (HttpRequest HeaderFunc)) (k : ℕ)
    → names_back o k ≡ true
    → (r : HttpRequest HeaderFunc) × (o ≡ some r) × (r.timer ≡ some k)
names_cases none k h = cc
names_cases (some r) k h = (r, refl, timer_cases r.timer k h)

pub owned_cases :
    (o : Option ℕ) (k : ℕ) (m : Store)
    → owner_of o k m ≡ true
    → (a : ℕ) × (r : HttpRequest HeaderFunc) × (o ≡ some a)
      × (find a m ≡ some r)
      × (r.timer ≡ some k)
owned_cases none k m h = cc
owned_cases (some a) k m h = let (r, e, f) = names_cases (find a m) k h in (a, r, refl, e, f)

pub record Inv (m : Store) (q : List Timer) : Type 0 where
  pub handled : (t : Timer) → Mem t q → t.handler ≢ none
  pub owned : (t : Timer) → Mem t (live q) → is_owned m t ≡ true
  pub distinct : Nodup (map (λ (t : Timer). t.request) (live q))

-- A request that no live timer names can go.
remove-Inv :
    (a : ℕ) {m : Store} {q : List Timer}
    → Inv m q
    → ((t : Timer) → Mem t (live q) → t.request ≢ some a)
    → Inv (remove a m) q
remove-Inv a {m} {q} v free = record {
  handled = v.handled;
  owned = λ t i.
      let (b, r, e, f, g) = owned_cases t.request t.address m (v.owned t i) in
      let other : (a == b) ≡ false = ==-false_of_ne a b (λ p. free t i (e ∙ ap some (sym p))) in
      rw (e, find-remove a b m, other, f, g) (==_refl t.address);
  distinct = v.distinct;
}

live-mark-sublist {ℓ} :
    {A : Type ℓ} (f : Timer → A) (k : ℕ) (q : List Timer)
    → Sublist (map f (live (mark k q))) (map f (live q))
unfolding mark Timer.set_deleted
live-mark-sublist f k [] = Sublist.refl []
live-mark-sublist f k (t ∷ q) = elim (Bool-cases (t.address == k)) [
  | inl e ↦
      rw (e, live-deleted (record t { deleted = true }) (mark k q) refl)
        (elim (Bool-cases t.deleted) [
          | inl d ↦ rw (live-deleted t q d) (live-mark-sublist f k q)
          | inr d ↦ rw (live-kept t q d) (Sublist.cons (f t) (live-mark-sublist f k q))
        ])
  | inr e ↦ rw e (elim (Bool-cases t.deleted) [
    | inl d ↦ rw (live-deleted t (mark k q) d, live-deleted t q d) (live-mark-sublist f k q)
    | inr d ↦
        rw (live-kept t (mark k q) d, live-kept t q d)
          (Sublist.cons-cons (f t) (live-mark-sublist f k q))
  ])
]

live-mark-subset : (k : ℕ) (q : List Timer) {t : Timer} → Mem t (live (mark k q)) → Mem t (live q)
live-mark-subset k q {t} i = subst (Mem t) (map-id (live q)) (
    Sublist.subset (live-mark-sublist (λ (u : Timer). u) k q) t
      (subst (Mem t) (sym (map-id (live (mark k q)))) i))

mark-Inv : (k : ℕ) {m : Store} {q : List Timer} → Inv m q → Inv m (mark k q)
mark-Inv k {m} {q} v = record {
  handled = λ t i. mark_handled k q v.handled i;
  owned = λ t i. v.owned t (live-mark-subset k q i);
  distinct = Nodup.sublist (live-mark-sublist (λ (t : Timer). t.request) k q) v.distinct;
}

pub del_timer-live :
    (r : HttpRequest HeaderFunc) (q : TimerQueue) {t : Timer}
    → Mem t (live (del_timer r q).timers)
    → Mem t (live q.timers)
unfolding del_timer
del_timer-live r q i = elim (Option-cases r.timer) [
  | inl none_there ↦ rw (none_there, del_timer) at i
  | inr (k, there) ↦ live-mark-subset k q.timers (rw (there, del_timer) at i)
]

pub del_timer-Inv :
    (r : HttpRequest HeaderFunc) {m : Store} (q : TimerQueue)
    → Inv m q.timers
    → Inv m (del_timer r q).timers
unfolding del_timer
del_timer-Inv r q v = elim (Option-cases r.timer) [
  | inl none_there ↦ rw (none_there, del_timer) v
  | inr (k, there) ↦ rw (there, del_timer) (mark-Inv k v)
]

-- Once its timer is marked, no live timer names a request.
pub del_timer-unnamed :
    (a : ℕ) (r : HttpRequest HeaderFunc) {m : Store} (q : TimerQueue)
    → Inv m q.timers
    → find a m ≡ some r
    → (t : Timer) → Mem t (live (del_timer r q).timers)
    → t.request ≢ some a
unfolding del_timer
del_timer-unnamed a r {m} q v e t i p =
    let (b, r', f, g, h) = owned_cases t.request t.address m (v.owned t (del_timer-live r q i)) in
    elim (Option-cases r.timer) [
      | inl none_there ↦ cc
      | inr (k, there) ↦ mark-Gone k q.timers t (rw (there, del_timer) at i) cc
    ]

-- The timer of a request is marked, and the request goes.
pub drop-Inv :
    (a : ℕ) (r : HttpRequest HeaderFunc) {m : Store} (q : TimerQueue)
    → Inv m q.timers
    → find a m ≡ some r
    → Inv (remove a m) (del_timer r q).timers
drop-Inv a r q v e = remove-Inv a (del_timer-Inv r q v) (del_timer-unnamed a r q v e)

-- A new request with a new timer.
pub add-Inv :
    (a : ℕ) (r : HttpRequest HeaderFunc) (t : Timer) {m : Store} {q q' : List Timer}
    → Inv m q
    → find a m ≡ none
    → Perm q' (t ∷ q)
    → t.deleted ≡ false
    → t.handler ≢ none
    → t.request ≡ some a
    → r.timer ≡ some t.address
    → Inv ((a, r) ∷ m) q'
unfolding find
add-Inv a r t {m} {q} {q'} v absent p d h e f = record {
  handled = λ u i g.
      Or.elim ⊥_prop (mem-cons.0 ((Perm.mem_iff p).0 i))
        (λ c. h (ap (λ (w : Timer). w.handler) (sym c) ∙ g)) (λ j. v.handled u j g);
  owned = λ u i.
      Or.elim (Bool-set _ _) (mem-cons.0 ((Perm.mem_iff live_perm).0 i))
        (λ c.
          subst (λ (w : Timer). is_owned ((a, r) ∷ m) w ≡ true) (sym c)
            (rw (e, ==_refl a, f) (==_refl t.address)))
        (λ j.
          let (b, r', f', g, g') = owned_cases u.request u.address m (v.owned u j) in
          let other : (a == b) ≡ false = ==-false_of_ne a b (λ c. cc) in
          rw (f', other, g, g') (==_refl u.address));
  distinct =
      Perm.nodup (Perm.symm (Perm.map (λ (u : Timer). u.request) live_perm))
        (Nodup-cons.1 (unnamed, v.distinct));
}
  where
    live_perm : Perm (live q') (t ∷ live q)
    live_perm = subst (Perm (live q')) (live-kept t q d) (Perm.filter _ p)

    unnamed : ¬ Mem t.request (map (λ (u : Timer). u.request) (live q))
    unnamed i = ∥∥₁_elim (exists_of_mem-map i) ⊥_prop (λ c.
        let (b, r', f', g, g') = owned_cases c.0.request c.0.address m (v.owned c.0 c.1) in cc)
