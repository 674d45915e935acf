-- ===== src/Base/Sort.antt =====
-- `sort_by_key` of the standard library, over `i32` keys: a stable sort. (Insertion; the source
-- relies on the result alone.)
use mathlib.Core.List.{List, [], ◌∷◌, Perm}
use mathlib.Core.List.Perm
use mathlib.Core.Path.{◌≡◌, refl, ap, ◌∙◌}
use mathlib.Core.Logic.{inl, inr}
use native.Mathlib.Omega.{arith}
use proton_sdk_rs.Base.Tests.{if◌then◌else◌, Bool-cases}
use proton_sdk_rs.Base.Int.{ℤ, ◌≤ℤ◌, leb_ℤ}

module _ {ℓ} {A : Type ℓ} (key : A → ℤ) where
  unfoldable pub insert_by : A → List A → List A
  insert_by x [] = x ∷ []
  insert_by x (y ∷ ys) = if leb_ℤ (key x) (key y) then x ∷ y ∷ ys else y ∷ insert_by x ys

  unfoldable pub sort_by_key : List A → List A
  unfolding insert_by
  sort_by_key [] = []
  sort_by_key (x ∷ xs) = insert_by x (sort_by_key xs)

  -- The first key is at most every key of the list.
  abbrev pub Below : ℤ → List A → Type 0
  Below z [] = Unit
  Below z (x ∷ xs) = (z ≤ℤ key x) × Below z xs

  abbrev pub IsSorted : List A → Type 0
  IsSorted [] = Unit
  IsSorted (x ∷ xs) = Below (key x) xs × IsSorted xs

  insert_by_least : (x : A) (xs : List A) → Below (key x) xs → insert_by x xs ≡ x ∷ xs
  unfolding insert_by
  insert_by_least x [] h = refl
  insert_by_least x (y ∷ ys) h = ground arith

  -- A sorted list stays as it is.
  pub sort_by_key_sorted : (xs : List A) → IsSorted xs → sort_by_key xs ≡ xs
  unfolding sort_by_key
  sort_by_key_sorted [] h = refl
  sort_by_key_sorted (x ∷ xs) h =
      ap (insert_by x) (sort_by_key_sorted xs h.1) ∙ insert_by_least x xs h.0

  insert_by-perm : (x : A) (xs : List A) → Perm (insert_by x xs) (x ∷ xs)
  unfolding insert_by
  insert_by-perm x [] = Perm.refl (x ∷ [])
  insert_by-perm x (y ∷ ys) = elim (Bool-cases (leb_ℤ (key x) (key y))) [
    | inl first ↦ rw first (Perm.refl (x ∷ y ∷ ys))
    | inr later ↦ rw later (Perm.trans (Perm.cons y (insert_by-perm x ys)) (Perm.swap x y ys))
  ]

  pub sort_by_key-perm : (xs : List A) → Perm (sort_by_key xs) xs
  unfolding sort_by_key
  sort_by_key-perm [] = Perm.refl []
  sort_by_key-perm (x ∷ xs) =
      Perm.trans (insert_by-perm x (sort_by_key xs)) (Perm.cons x (sort_by_key-perm xs))
