-- ===== src/Prelude/Members.antt =====
-- `some` depends only on which elements a list has, not on their order or number.
use mathlib.Core.Bool.{Bool-set}
use mathlib.Core.List.{Mem, mem-cons, mem-cons_self, not-mem-nil}
use mathlib.Core.Logic.Or
use aytrackerv.Prelude.{
  ◌≡◌, refl, ◌↔◌, Bool, true, ◌&&◌, List, [], ◌∷◌, arith, any, filter, inl, inr, Bool-cases,
}

module _ {ℓ} {A : Type ℓ} where
  -- Two lists have the same members.
  abbrev pub SameMembers : List A → List A → Type ℓ
  SameMembers xs ys = (a : A) → Mem a xs ↔ Mem a ys

  any-mem : (p : A → Bool) (a : A) (xs : List A) → Mem a xs → p a ≡ true → any p xs ≡ true
  any-mem p a [] m h = absurd (not-mem-nil m)
  any-mem p a (x ∷ xs) m h =
      Or.elim (Bool-set _ _) (mem-cons.0 m) (λ e. any_head e)
        (λ m'. ground (arith, any-mem p a xs m' h))
    where
      any_head : a ≡ x → any p (x ∷ xs) ≡ true
      any_head e = rw (← e) (rw h)

  any-subset :
      (p : A → Bool) (xs ys : List A)
      → ((a : A) → Mem a xs → Mem a ys)
      → any p xs ≡ true
      → any p ys ≡ true
  any-subset p [] ys s h = cc
  any-subset p (x ∷ xs) ys s h = elim (Bool-cases (p x)) [
    | inl e ↦ any-mem p x ys (s x mem-cons_self) e
    | inr e ↦ any-subset p xs ys (λ a m. s a (mem-cons.1 (Or.inr m))) (ground arith)
  ]

  pub any-SameMembers : (p : A → Bool) (xs ys : List A) → SameMembers xs ys → any p xs ≡ any p ys
  any-SameMembers p xs ys s =
      ground (arith, any-subset p xs ys (λ a. (s a).0), any-subset p ys xs (λ a. (s a).1))

  pub any-filter : (p q : A → Bool) (xs : List A) → any p (filter q xs) ≡ any (λ x. q x && p x) xs
  any-filter p q [] = refl
  any-filter p q (x ∷ xs) = ground (arith, any-filter p q xs)
