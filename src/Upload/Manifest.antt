-- ===== src/Upload/Manifest.antt =====
-- `assemble_manifest` (crates/proton-drive-rs/src/client.rs): the manifest does not depend on the order
-- in which the blocks reached storage.
use proton_sdk_rs.Base.{
  ℕ, zero, suc, ◌+◌, ◌-◌, ◌≤◌, ◌≡◌, refl, ap, ap₂, sym, ◌∙◌, false, List, [], ◌∷◌, ◌++◌, arith, inl,
  inr, Bool-cases,
}
use proton_sdk_rs.Base.Int.{ℤ, pos, negsuc, eqb_ℤ, eqb_ℤ→eq}
use proton_sdk_rs.Base.Sort.{insert_by, sort_by_key, sort_by_key_sorted, Below, IsSorted}
use mathlib.Core.List.{Permᴰ}

-- A stored block: its index and its digest.
pub record Stored : Type 0 where
  pub index : ℤ
  pub digest : List ℕ

digests_of : List Stored → List ℕ
digests_of [] = []
digests_of (block ∷ blocks) = block.digest ++ digests_of blocks

unfoldable pub concat_digests : List (List ℕ) → List ℕ
concat_digests [] = []
concat_digests (digest ∷ digests) = digest ++ concat_digests digests

abbrev pub index_of : Stored → ℤ
index_of block = block.index

-- `assemble_manifest`
unfoldable pub assemble_manifest : List (List ℕ) → List Stored → List ℕ
unfolding digests_of concat_digests
assemble_manifest thumbnails blocks =
    concat_digests thumbnails ++ digests_of (sort_by_key index_of blocks)

-- Blocks that are numbered from `k` on, with these digests.
abbrev pub numbered : ℕ → List (List ℕ) → List Stored
numbered k [] = []
numbered k (digest ∷ digests) = record { index = pos k; digest = digest } ∷ numbered (k + 1) digests

nth : ℕ → List (List ℕ) → List ℕ
nth i [] = []
nth zero (digest ∷ digests) = digest
nth (suc i) (digest ∷ digests) = nth i digests

-- Each block's digest is the one of its index.
abbrev AllAt : (ℤ → List ℕ) → List Stored → Type 0
AllAt digest_at [] = Unit
AllAt digest_at (block ∷ blocks) = (block.digest ≡ digest_at block.index) × AllAt digest_at blocks

numbered-AllAt :
    (digest_at : ℤ → List ℕ) (k : ℕ) (digests : List (List ℕ))
    → ((i : ℕ) → digest_at (pos (k + i)) ≡ nth i digests)
    → AllAt digest_at (numbered k digests)
unfolding nth
numbered-AllAt digest_at k [] h = tt
numbered-AllAt digest_at k (digest ∷ digests) h =
    let shift : k ≡ k + 0 = omega arith in
    (
      sym (ap (λ n. digest_at (pos n)) shift ∙ h 0),
      numbered-AllAt digest_at (k + 1) digests (λ i.
          let shift : k + 1 + i ≡ k + suc i = omega arith in
          ap (λ n. digest_at (pos n)) shift ∙ h (suc i)),
    )

insert_by_swap_differ :
    (x y : Stored) (blocks : List Stored)
    → eqb_ℤ x.index y.index ≡ false
    → insert_by index_of x (insert_by index_of y blocks)
      ≡ insert_by index_of y (insert_by index_of x blocks)
unfolding insert_by
insert_by_swap_differ x y [] h = ground arith
insert_by_swap_differ x y (z ∷ blocks) h =
    let later = insert_by_swap_differ x y blocks h in ground arith

insert_by_swap :
    (x y : Stored) (blocks : List Stored)
    → (x.index ≡ y.index → x ≡ y)
    → insert_by index_of x (insert_by index_of y blocks)
      ≡ insert_by index_of y (insert_by index_of x blocks)
unfolding insert_by
insert_by_swap x y blocks h = elim (Bool-cases (eqb_ℤ x.index y.index)) [
  | inl same ↦
      ap (λ b. insert_by index_of b (insert_by index_of y blocks))
        (h (eqb_ℤ→eq x.index y.index same))
      ∙ ap (λ b. insert_by index_of y (insert_by index_of b blocks))
          (sym (h (eqb_ℤ→eq x.index y.index same)))
  | inr differ ↦ insert_by_swap_differ x y blocks differ
]

perm-AllAt :
    (digest_at : ℤ → List ℕ) {done blocks : List Stored}
    → Permᴰ done blocks
    → AllAt digest_at blocks
    → AllAt digest_at done
perm-AllAt digest_at Permᴰ.nil all = all
perm-AllAt digest_at (Permᴰ.cons e p) (here, all) =
    (ap (λ b. b.digest) e ∙ here ∙ ap (λ b. digest_at b.index) (sym e), perm-AllAt digest_at p all)
perm-AllAt digest_at (Permᴰ.swap e f) (first, (second, all)) = (
  ap (λ b. b.digest) e ∙ second ∙ ap (λ b. digest_at b.index) (sym e),
  (ap (λ b. b.digest) f ∙ first ∙ ap (λ b. digest_at b.index) (sym f), all),
)
perm-AllAt digest_at (Permᴰ.trans p q) all = perm-AllAt digest_at p (perm-AllAt digest_at q all)

sort-perm :
    (digest_at : ℤ → List ℕ) {done blocks : List Stored}
    → Permᴰ done blocks
    → AllAt digest_at blocks
    → sort_by_key index_of done ≡ sort_by_key index_of blocks
unfolding sort_by_key
sort-perm digest_at Permᴰ.nil all = refl
sort-perm digest_at (Permᴰ.cons e p) (here, all) =
    ap₂ (insert_by index_of) e (sort-perm digest_at p all)
sort-perm digest_at (Permᴰ.swap {a' = c} {b' = d} {l = rest} e f) (first, (second, all)) =
    ap₂ (λ x y. insert_by index_of x (insert_by index_of y (sort_by_key index_of rest))) e f
    ∙ insert_by_swap d c (sort_by_key index_of rest) (λ same.
      ap₂ (λ i digest. record { index = i; digest = digest }) same
        (second ∙ ap digest_at same ∙ sym first))
sort-perm digest_at (Permᴰ.trans p q) all =
    sort-perm digest_at p (perm-AllAt digest_at q all) ∙ sort-perm digest_at q all

from_one : List (List ℕ) → ℤ → List ℕ
from_one digests (pos n) = nth (n - 1) digests
from_one digests (negsuc n) = []

Below-numbered :
    (k n : ℕ) (digests : List (List ℕ)) → k ≤ n → Below index_of (pos k) (numbered n digests)
Below-numbered k n [] h = tt
Below-numbered k n (digest ∷ digests) h =
    (omega arith, Below-numbered k (n + 1) digests (omega arith))

numbered-IsSorted : (k : ℕ) (digests : List (List ℕ)) → IsSorted index_of (numbered k digests)
numbered-IsSorted k [] = tt
numbered-IsSorted k (digest ∷ digests) =
    (Below-numbered k (k + 1) digests (omega arith), numbered-IsSorted (k + 1) digests)

digests_of-numbered :
    (k : ℕ) (digests : List (List ℕ)) → digests_of (numbered k digests) ≡ concat_digests digests
unfolding digests_of concat_digests
digests_of-numbered k [] = refl
digests_of-numbered k (digest ∷ digests) =
    ap (λ rest. digest ++ rest) (digests_of-numbered (k + 1) digests)

-- In whatever order the content blocks 1, 2, … reach storage, the manifest is the thumbnails' digests
-- and then the blocks' digests by index.
pub assemble_manifest-perm :
    (thumbnails digests : List (List ℕ)) (done : List Stored)
    → Permᴰ done (numbered 1 digests)
    → assemble_manifest thumbnails done ≡ concat_digests thumbnails ++ concat_digests digests
unfolding assemble_manifest from_one
assemble_manifest-perm thumbnails digests done p =
    let at : AllAt (from_one digests) (numbered 1 digests) =
      numbered-AllAt (from_one digests) 1 digests
        (λ i. let first : 1 + i - 1 ≡ i = omega arith in ap (λ n. nth n digests) first) in
    ap (λ blocks. concat_digests thumbnails ++ digests_of blocks)
      (sort-perm (from_one digests) p at
        ∙ sort_by_key_sorted index_of (numbered 1 digests) (numbered-IsSorted 1 digests))
    ∙ ap (λ rest. concat_digests thumbnails ++ rest) (digests_of-numbered 1 digests)
