-- ===== src/PriorityQueue/Heap.antt =====
-- A queue that meets the interface: the timers in the order of their keys.
use mathlib.Core.List.{Perm, Mem, mem-cons, not-mem-nil}
use mathlib.Core.List.Perm
use mathlib.Core.Logic.Or
use native.Mathlib.Bridge.{le_prop}
use native.Mathlib.Nat.{le_refl, le_trans}
use httpd_cpp.Base.{
  of_some, ◌≤◌, ◌≡◌, refl, sym, subst, Bool-cases, inl, inr, List, [], ◌∷◌, leb, leb→le, leb→gt,
  false, ltb-false_of_le, Option, none, some, if◌then◌else◌, arith,
}
use httpd_cpp.Timer.{Timer}
use httpd_cpp.PriorityQueue.{MinHeap, timer_comp}

-- The first timer with the least key, and the others.
unfoldable pub least : Timer → List Timer → Timer × List Timer
least t [] = (t, [])
least t (u ∷ q) = let (m, rest) = least u q in if leb t.key m.key then (t, u ∷ q) else (m, t ∷ rest)

unfoldable pub top : List Timer → Option Timer
top [] = none
top (t ∷ q) = some (least t q).0

unfoldable pub pop : List Timer → List Timer
pop [] = []
pop (t ∷ q) = (least t q).1

least_perm : (t : Timer) (q : List Timer) → Perm (t ∷ q) ((least t q).0 ∷ (least t q).1)
unfolding least
least_perm t [] = Perm.refl (t ∷ [])
least_perm t (u ∷ q) = elim (Bool-cases (leb t.key (least u q).0.key)) [
  | inl e ↦ rw e (Perm.refl (t ∷ u ∷ q))
  | inr e ↦ rw e (Perm.trans (Perm.cons t (least_perm u q)) (Perm.swap _ t _))
]

least-least : (t : Timer) (q : List Timer) (u : Timer) → Mem u (t ∷ q) → (least t q).0.key ≤ u.key
unfolding least
least-least t [] u m =
    Or.elim le_prop (mem-cons.0 m)
      (λ e. subst (λ (v : Timer). t.key ≤ v.key) (sym e) (le_refl t.key))
      (λ k. absurd (not-mem-nil k))
least-least t (v ∷ q) u m = elim (Bool-cases (leb t.key (least v q).0.key)) [
  | inl e ↦ rw e (
      Or.elim le_prop (mem-cons.0 m)
        (λ p. subst (λ (w : Timer). t.key ≤ w.key) (sym p) (le_refl t.key))
        (λ k. le_trans (leb→le _ _ e) (least-least v q u k)))
  | inr e ↦ rw e (
      Or.elim le_prop (mem-cons.0 m)
        (λ p.
          subst (λ (w : Timer). (least v q).0.key ≤ w.key) (sym p) (omega (arith, leb→gt _ _ e)))
        (λ k. least-least v q u k))
]

pub pop_top_perm : (q : List Timer) (m : Timer) → top q ≡ some m → Perm q (m ∷ pop q)
unfolding top pop
pop_top_perm [] m e = cc
pop_top_perm (t ∷ q) m e =
    subst (λ (n : Timer). Perm (t ∷ q) (n ∷ (least t q).1)) (of_some e) (least_perm t q)

top_is_least : (q : List Timer) (m t : Timer) → top q ≡ some m → Mem t q → m.key ≤ t.key
unfolding top
top_is_least [] m t e k = absurd (not-mem-nil k)
top_is_least (u ∷ q) m t e k =
    subst (λ (n : Timer). n.key ≤ t.key) (of_some e) (least-least u q t k)

pub top_is_first :
    (q : List Timer) (m t : Timer) → top q ≡ some m → Mem t q → timer_comp m t ≡ false
unfolding timer_comp
top_is_first q m t e k = ltb-false_of_le t.key m.key (top_is_least q m t e k)

pub top_some : (t : Timer) (q : List Timer) → (m : Timer) × (top (t ∷ q) ≡ some m)
unfolding top
top_some t q = ((least t q).0, refl)

pub top_none : top [] ≡ none
unfolding top
top_none = refl

unfoldable pub list_heap : MinHeap
unfolding top pop least
list_heap = record {
  push = ◌∷◌;
  top = top;
  pop = pop;
  push_perm = λ t q. Perm.refl (t ∷ q);
  top_cons = top_some;
  top-nil = top_none;
  pop_perm = pop_top_perm;
  top_least = top_is_first;
}
