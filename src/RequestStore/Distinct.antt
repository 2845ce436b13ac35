-- ===== src/RequestStore/Distinct.antt =====
-- A store in which no address stands twice.
use mathlib.Core.List.{
  Mem, Perm, map, Nodup, Nodup-cons, Sublist, mem-cons_self, mem-cons_of_mem, mem-cons, not-mem-nil,
}
use mathlib.Core.List.Perm
use mathlib.Core.List.Nodup
use mathlib.Core.List.Sublist
use mathlib.Core.Logic.Or
use mathlib.Core.HLevel.{⊥_prop}
use httpd_cpp.Base.{
  ℕ, ◌≡◌, refl, sym, subst, inl, inr, List, [], ◌∷◌, none, some, true, false, ◌==◌, ==_iff,
  ==-false_of_ne, Bool-cases, of_some, arith,
}
use httpd_cpp.RequestStore.{find, remove}

module _ {ℓ} {A : Type ℓ} where
  abbrev pub addresses : List (ℕ × A) → List ℕ
  addresses = map (λ e. e.0)

  pub not-mem_of_none : (a : ℕ) (m : List (ℕ × A)) → find a m ≡ none → ¬ Mem a (addresses m)
  unfolding find
  not-mem_of_none a [] e = not-mem-nil
  not-mem_of_none a ((b, r) ∷ m) e = λ i.
      Or.elim ⊥_prop (mem-cons.0 i)
        (λ p. let same : (b == a) ≡ true = (==_iff b a).1 (sym p) in ground arith)
        (not-mem_of_none a m (ground arith))

  remove_absent : (a : ℕ) (m : List (ℕ × A)) → ¬ Mem a (addresses m) → remove a m ≡ m
  unfolding remove
  remove_absent a [] h = refl
  remove_absent a ((b, r) ∷ m) h =
      let other : (b == a) ≡ false =
        ==-false_of_ne b a (λ p. h (subst (λ c. Mem c (b ∷ addresses m)) p mem-cons_self)) in
      rw (other, remove_absent a m (λ i. h (mem-cons_of_mem b i))) refl

  remove-sublist : (a : ℕ) (m : List (ℕ × A)) → Sublist (addresses (remove a m)) (addresses m)
  unfolding remove
  remove-sublist a [] = Sublist.refl []
  remove-sublist a ((b, r) ∷ m) = elim (Bool-cases (b == a)) [
    | inl e ↦ rw e (Sublist.cons b (remove-sublist a m))
    | inr e ↦ rw e (Sublist.cons-cons b (remove-sublist a m))
  ]

  pub remove-Nodup :
      (a : ℕ) (m : List (ℕ × A)) → Nodup (addresses m) → Nodup (addresses (remove a m))
  remove-Nodup a m d = Nodup.sublist (remove-sublist a m) d

  -- What is found at an address is the one entry that `remove` takes.
  pub remove_perm :
      (a : ℕ) (r : A) (m : List (ℕ × A))
      → Nodup (addresses m)
      → find a m ≡ some r
      → Perm m ((a, r) ∷ remove a m)
  unfolding find remove
  remove_perm a r [] d e = cc
  remove_perm a r ((b, x) ∷ m) d e = elim (Bool-cases (b == a)) [
    | inl h ↦
        rw
          (
            h,
            remove_absent a m
                (subst (λ c. ¬ Mem c (addresses m)) ((==_iff b a).0 h) (Nodup-cons.0 d).0),
          )
          (Perm.cons' (λ i. ((==_iff b a).0 h i, of_some (rw h at e) i)) (Perm.refl m))
    | inr h ↦ rw h (
        Perm.trans (Perm.cons (b, x) (remove_perm a r m (Nodup-cons.0 d).1 (rw h at e)))
          (Perm.swap _ _ _))
  ]
