-- ===== src/Base/Sort.antt =====
-- `sort_by` as a stable insertion sort over a Boolean order, and `dedup` of neighbours.
use mathlib.Core.Path.{◌≡◌, refl, ap}
use Prim.Native.Nat.{◌≤◌}
use mathlib.Core.Logic.{◌↔◌}
use mathlib.Core.Bool.{Bool, true}
use mathlib.Core.List.{List, [], ◌∷◌, Perm}
use mathlib.Core.List.Perm
use mathlib.Core.Logic.{inl, inr}
use native.Mathlib.Omega.{arith}
use mind_craft.Base.Tests.{if◌then◌else◌, ◌==◌, Bool-cases}
use mind_craft.Base.Lists.{length}

module _ {ℓ} {A : Type ℓ} where
  unfoldable pub insert_sorted : (A → A → Bool) → A → List A → List A
  insert_sorted le a [] = a ∷ []
  insert_sorted le a (x ∷ xs) = if le a x then a ∷ x ∷ xs else x ∷ insert_sorted le a xs

  unfoldable pub sort_by : (A → A → Bool) → List A → List A
  unfolding insert_sorted
  sort_by le [] = []
  sort_by le (x ∷ xs) = insert_sorted le x (sort_by le xs)

  drop_equal : (A → A → Bool) → A → List A → List A
  drop_equal eq x [] = []
  drop_equal eq x (y ∷ ys) = if eq y x then drop_equal eq x ys else y ∷ drop_equal eq y ys

  -- `Vec::dedup`: keeps the first of each run of equal neighbours.
  unfoldable pub dedup : (A → A → Bool) → List A → List A
  unfolding drop_equal
  dedup eq [] = []
  dedup eq (x ∷ xs) = x ∷ drop_equal eq x xs

  insert_sorted-perm :
      (le : A → A → Bool) (a : A) (xs : List A) → Perm (insert_sorted le a xs) (a ∷ xs)
  unfolding insert_sorted
  insert_sorted-perm le a [] = Perm.refl (a ∷ [])
  insert_sorted-perm le a (x ∷ xs) = elim (Bool-cases (le a x)) [
    | inl e ↦ rw e (Perm.refl (a ∷ x ∷ xs))
    | inr e ↦ rw e (Perm.trans (Perm.cons x (insert_sorted-perm le a xs)) (Perm.swap a x xs))
  ]

  pub sort_by-perm : (le : A → A → Bool) (xs : List A) → Perm (sort_by le xs) xs
  unfolding sort_by
  sort_by-perm le [] = Perm.refl []
  sort_by-perm le (x ∷ xs) =
      Perm.trans (insert_sorted-perm le x (sort_by le xs)) (Perm.cons x (sort_by-perm le xs))

  -- Each element is below its neighbour.
  abbrev pub IsSorted : (A → A → Bool) → List A → Type 0
  IsSorted le [] = Unit
  IsSorted le (x ∷ []) = Unit
  IsSorted le (x ∷ y ∷ ys) = (le x y ≡ true) × IsSorted le (y ∷ ys)

  drop_equal-length :
      (eq : A → A → Bool) (x : A) (xs : List A) → length (drop_equal eq x xs) ≤ length xs
  unfolding drop_equal
  drop_equal-length eq x [] = ground arith
  drop_equal-length eq x (y ∷ ys) = elim (Bool-cases (eq y x)) [
    | inl e ↦ ground (arith, e, drop_equal-length eq x ys)
    | inr e ↦ ground (arith, e, drop_equal-length eq y ys)
  ]

  drop_equal-same :
      (eq : A → A → Bool) (x : A) (xs : List A)
      → length (drop_equal eq x xs) ≡ length xs
      → drop_equal eq x xs ≡ xs
  unfolding drop_equal
  drop_equal-same eq x [] h = refl
  drop_equal-same eq x (y ∷ ys) h = elim (Bool-cases (eq y x)) [
    | inl e ↦ absurd (ground (arith, e, h, drop_equal-length eq x ys))
    | inr e ↦ ground (arith, e, h, drop_equal-same eq y ys)
  ]

  -- Nothing goes if the length stays.
  pub dedup-same :
      (eq : A → A → Bool) (xs : List A)
      → (length (dedup eq xs) == length xs ≡ true) ↔ (dedup eq xs ≡ xs)
  unfolding dedup
  dedup-same eq [] = (λ _. refl, λ _. refl)
  dedup-same eq (x ∷ xs) = (
    λ h. ap (λ t. x ∷ t) (drop_equal-same eq x xs (ground (arith, h))),
    λ h. ground (arith, ap length h),
  )
