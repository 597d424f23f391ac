-- ===== src/Base/Perms.antt =====
-- Sorting and selecting as permutations.
use mathlib.Core.Logic.{inl, inr}
use mathlib.Core.Bool.{Bool, not}
use mathlib.Core.List.{List, [], ◌∷◌, ◌++◌, Perm, perm_middle}
use mathlib.Core.List.Perm
use tt_ledger.Base.Tests.{Bool-cases}
use tt_ledger.Base.Lists.{insort, sorted, select}

module _ {ℓ} {A : Type ℓ} where
  pub insort-perm : (le : A → A → Bool) (x : A) (xs : List A) → Perm (insort le x xs) (x ∷ xs)
  insort-perm le x [] = Perm.refl (x ∷ [])
  insort-perm le x (y ∷ ys) = elim (Bool-cases (le x y)) [
    | inl first ↦ rw first (Perm.refl (x ∷ y ∷ ys))
    | inr later ↦ rw later (Perm.trans (Perm.cons y (insort-perm le x ys)) (Perm.swap x y ys))
  ]

  pub sorted-perm : (le : A → A → Bool) (xs : List A) → Perm (sorted le xs) xs
  sorted-perm le [] = Perm.refl []
  sorted-perm le (x ∷ xs) =
      Perm.trans (insort-perm le x (sorted le xs)) (Perm.cons x (sorted-perm le xs))

  pub select_parts-perm :
      (p : A → Bool) (xs : List A) → Perm (select p xs ++ select (λ x. not (p x)) xs) xs
  select_parts-perm p [] = Perm.refl []
  select_parts-perm p (x ∷ xs) = elim (Bool-cases (p x)) [
    | inl in_part ↦ rw in_part (Perm.cons x (select_parts-perm p xs))
    | inr out ↦ rw out (
        Perm.trans (perm_middle (select p xs) (select (λ x. not (p x)) xs))
          (Perm.cons x (select_parts-perm p xs)))
  ]
