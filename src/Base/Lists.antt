-- ===== src/Base/Lists.antt =====
-- Lists measured and cut by native numbers, under the library's names.
use Prim.Native.Nat.{ℕ, zero, suc, ◌+◌, ◌-◌, ◌≤◌, min}
use mathlib.Core.List.{List, [], ◌∷◌, ◌++◌}
use mathlib.Core.Logic.{◌⊎◌, inl, inr}
use mathlib.Core.Option.{Option, none, some}
use mathlib.Core.Path.{◌≡◌, refl, sym, ap, ap₂, ◌∙◌}
use native.Mathlib.Omega.{arith}

pub le_total : (a b : ℕ) → (a ≤ b) ⊎ (b ≤ a)
le_total a b = grind arith

zero_add : (n : ℕ) → 0 + n ≡ n
zero_add n = omega arith

suc_add : (m n : ℕ) → suc m + n ≡ suc (m + n)
suc_add m n = omega arith

module _ {ℓ} {A : Type ℓ} where
  abbrev pub length : List A → ℕ
  length [] = 0
  length (_ ∷ rest) = suc (length rest)

  abbrev pub get_elem? : List A → ℕ → Option A
  get_elem? [] i = none
  get_elem? (x ∷ xs) zero = some x
  get_elem? (x ∷ xs) (suc i) = get_elem? xs i

  abbrev pub take : ℕ → List A → List A
  take zero _ = []
  take (suc _) [] = []
  take (suc count) (first ∷ rest) = first ∷ take count rest

  abbrev pub drop : ℕ → List A → List A
  drop zero xs = xs
  drop (suc n) [] = []
  drop (suc n) (x ∷ xs) = drop n xs

  abbrev pub concat : List (List A) → List A
  concat [] = []
  concat (xs ∷ xss) = xs ++ concat xss

  -- The slice `xs[lo..hi]`, empty where `hi ≤ lo`.
  abbrev pub slice : ℕ → ℕ → List A → List A
  slice lo hi xs = take (hi - lo) (drop lo xs)

  pub length-append : (xs ys : List A) → length (xs ++ ys) ≡ length xs + length ys
  length-append [] ys = omega arith
  length-append (x ∷ xs) ys = omega (arith, length-append xs ys)

  pub take-zero : (n : ℕ) (xs : List A) → n ≡ 0 → take n xs ≡ []
  take-zero zero xs h = refl
  take-zero (suc n) xs h = absurd (omega arith)

  pub take-nil : (n : ℕ) → take n ([]) ≡ ([])
  take-nil zero = refl
  take-nil (suc n) = refl

  pub drop-nil : (n : ℕ) → drop n ([]) ≡ ([])
  drop-nil zero = refl
  drop-nil (suc n) = refl

  pub take_of_length-le : (count : ℕ) (list : List A) → length list ≤ count → take count list ≡ list
  take_of_length-le zero [] short = refl
  take_of_length-le (suc count) [] short = refl
  take_of_length-le zero (first ∷ rest) short = absurd (ground arith)
  take_of_length-le (suc count) (first ∷ rest) short =
      let same = take_of_length-le count rest (omega arith) in rw same refl

  -- The slice by recursion.
  abbrev pub cut : ℕ → ℕ → List A → List A
  cut lo hi [] = []
  cut zero zero (x ∷ xs) = []
  cut zero (suc hi) (x ∷ xs) = x ∷ cut zero hi xs
  cut (suc lo) zero (x ∷ xs) = []
  cut (suc lo) (suc hi) (x ∷ xs) = cut lo hi xs

  pub slice-cut : (lo hi : ℕ) (xs : List A) → slice lo hi xs ≡ cut lo hi xs
  slice-cut lo hi [] = rw drop-nil (take-nil (hi - lo))
  slice-cut zero zero (x ∷ xs) = refl
  slice-cut zero (suc hi) (x ∷ xs) =
      let e : suc hi - 0 ≡ suc (hi - 0) = omega arith in rw e (ap (◌∷◌ x) (slice-cut zero hi xs))
  slice-cut (suc lo) zero (x ∷ xs) = take-zero _ _ (omega arith)
  slice-cut (suc lo) (suc hi) (x ∷ xs) =
      let e : suc hi - suc lo ≡ hi - lo = omega arith in rw e (slice-cut lo hi xs)

  cut_empty : (lo hi : ℕ) (xs : List A) → hi ≤ lo → cut lo hi xs ≡ []
  cut_empty lo hi [] h = refl
  cut_empty zero zero (x ∷ xs) h = refl
  cut_empty zero (suc hi) (x ∷ xs) h = absurd (omega arith)
  cut_empty (suc lo) zero (x ∷ xs) h = refl
  cut_empty (suc lo) (suc hi) (x ∷ xs) h = cut_empty lo hi xs (omega arith)

  -- A slice that starts past the end is empty.
  cut_past : (lo hi : ℕ) (xs : List A) → length xs ≤ lo → cut lo hi xs ≡ []
  cut_past lo hi [] h = refl
  cut_past zero hi (x ∷ xs) h = absurd (omega arith)
  cut_past (suc lo) zero (x ∷ xs) h = refl
  cut_past (suc lo) (suc hi) (x ∷ xs) h = cut_past lo hi xs (omega arith)

  cut-append :
      (lo hi : ℕ) (xs ys : List A)
      → cut lo hi (xs ++ ys)
        ≡ cut lo (min hi (length xs)) xs ++ cut (lo - length xs) (hi - length xs) ys
  cut-append lo hi [] ys = ground arith
  cut-append zero zero (x ∷ xs) ys = ground (
    arith,
    cut_empty 0 (min 0 (length (x ∷ xs))) (x ∷ xs),
    cut_empty (0 - length (x ∷ xs)) (0 - length (x ∷ xs)) ys,
  )
  cut-append zero (suc hi) (x ∷ xs) ys = ground (arith, cut-append zero hi xs ys)
  cut-append (suc lo) zero (x ∷ xs) ys = ground (
    arith,
    cut_empty (suc lo) (min 0 (length (x ∷ xs))) (x ∷ xs),
    cut_empty (suc lo - length (x ∷ xs)) (0 - length (x ∷ xs)) ys,
  )
  cut-append (suc lo) (suc hi) (x ∷ xs) ys = ground (arith, cut-append lo hi xs ys)

  -- A slice of two lists in a row is the slice of each.
  pub slice-append :
      (lo hi : ℕ) (xs ys : List A)
      → slice lo hi (xs ++ ys)
        ≡ slice lo (min hi (length xs)) xs ++ slice (lo - length xs) (hi - length xs) ys
  slice-append lo hi xs ys =
      slice-cut lo hi (xs ++ ys)
      ∙ cut-append lo hi xs ys
      ∙ sym (
          ap₂ ◌++◌ (slice-cut lo (min hi (length xs)) xs)
            (slice-cut (lo - length xs) (hi - length xs) ys))

  pub slice_empty : (lo hi : ℕ) (xs : List A) → hi ≤ lo → slice lo hi xs ≡ []
  slice_empty lo hi xs h = take-zero (hi - lo) (drop lo xs) (omega arith)

  pub slice_past : (lo hi : ℕ) (xs : List A) → length xs ≤ lo → slice lo hi xs ≡ []
  slice_past lo hi xs h = slice-cut lo hi xs ∙ cut_past lo hi xs h

  pub length-drop : (n : ℕ) (xs : List A) → length (drop n xs) ≡ length xs - n
  length-drop zero xs = omega arith
  length-drop (suc n) [] = omega arith
  length-drop (suc n) (x ∷ xs) = omega (arith, length-drop n xs)

  pub length-take : (n : ℕ) (xs : List A) → length (take n xs) ≡ min n (length xs)
  length-take zero xs = omega arith
  length-take (suc n) [] = omega arith
  length-take (suc n) (x ∷ xs) = omega (arith, length-take n xs)

  pub take-append-drop : (n : ℕ) (xs : List A) → take n xs ++ drop n xs ≡ xs
  take-append-drop zero xs = refl
  take-append-drop (suc n) [] = refl
  take-append-drop (suc n) (x ∷ xs) = ap (◌∷◌ x) (take-append-drop n xs)

  pub take-add : (m n : ℕ) (xs : List A) → take (m + n) xs ≡ take m xs ++ take n (drop m xs)
  take-add zero n xs = ap (λ k. take k xs) (zero_add n)
  take-add (suc m) n [] = rw (suc_add m n) (sym (take-nil n))
  take-add (suc m) n (x ∷ xs) = rw (suc_add m n) (ap (◌∷◌ x) (take-add m n xs))

  pub drop_past : (n : ℕ) (xs : List A) → length xs ≤ n → drop n xs ≡ []
  drop_past zero [] h = refl
  drop_past zero (x ∷ xs) h = absurd (omega arith)
  drop_past (suc n) [] h = refl
  drop_past (suc n) (x ∷ xs) h = drop_past n xs (omega arith)

  -- The slice up to an end that may lie past the list.
  pub slice-min :
      (lo n : ℕ) (xs : List A) → slice lo (min (lo + n) (length xs)) xs ≡ take n (drop lo xs)
  slice-min lo n xs = elim (le_total (lo + n) (length xs)) [
    | inl inside ↦ let e : min (lo + n) (length xs) - lo ≡ n = omega arith in rw e
    | inr past ↦
        take_of_length-le _ (drop lo xs) (omega (arith, length-drop lo xs))
        ∙ sym (take_of_length-le n (drop lo xs) (omega (arith, length-drop lo xs)))
  ]
