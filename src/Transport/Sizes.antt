-- ===== src/Transport/Sizes.antt =====
-- `rank_block_sizes` of crates/proton-drive-rs/src/transport.rs, and the extended attributes of
-- dtos.rs that it reads. An `i64` is an integer, and a size that is used is a `u64`.
pub mod Standard
use proton_sdk_rs.Base.{
  ℕ, zero, suc, ◌+◌, ◌-◌, ◌*◌, ◌%◌, ◌≤◌, ◌≡◌, refl, ap, min, String, Bool, true, false, Option,
  none, some, List, [], ◌∷◌, length, ◌⊎◌, inl, inr, leb, ltb, ◌==◌, ◌&&◌, ==→eq, leb→le, Bool-cases,
  arith, u64_mod, if◌then◌else◌,
}
use proton_sdk_rs.Base.Int.{ℤ, pos, negsuc}
use proton_sdk_rs.Errors.{Result, ok, err, refuse}
use proton_sdk_rs.Transport.{default_block_size}

-- `DecryptedCommonExtendedAttributes`; `sha1` is `Digests.SHA1`
pub record CommonAttributes : Type 0 where
  pub size : Option ℤ
  pub modification_time : Option String
  pub block_sizes : Option (List ℤ)
  pub sha1 : Option String

-- `n <= 0` fails
abbrev pub is_positive : ℤ → Bool
is_positive (pos n) = ltb 0 n
is_positive (negsuc n) = false

abbrev pub all_positive : List ℤ → Bool
all_positive [] = true
all_positive (n ∷ sizes) = is_positive n && all_positive sizes

-- `n as u64` of an `i64`
abbrev pub as_u64 : ℤ → ℕ
as_u64 (pos n) = n % u64_mod
as_u64 (negsuc n) = (u64_mod - suc n) % u64_mod

abbrev pub all_as_u64 : List ℤ → List ℕ
all_as_u64 [] = []
all_as_u64 (n ∷ sizes) = as_u64 n ∷ all_as_u64 sizes

-- `(i..i + count).map(|i| total.saturating_sub(block * i as u64).min(block))`
unfoldable pub sizes_of_total : ℕ → ℕ → ℕ → List ℕ
sizes_of_total total i zero = []
sizes_of_total total i (suc count) =
    min (total - (default_block_size * i) % u64_mod) default_block_size
    ∷ sizes_of_total total (i + 1) count

-- `vec![block; count]`
abbrev pub full_sizes : ℕ → List ℕ
full_sizes zero = []
full_sizes (suc count) = default_block_size ∷ full_sizes count

-- The third rung: nothing usable is recorded.
assume_sizes : ℕ → Result (List ℕ)
assume_sizes block_count =
    if leb block_count 1 then ok (full_sizes block_count) else refuse "no usable size information"

-- The second rung, by `Common.Size`.
from_size : Option ℤ → ℕ → Result (List ℕ)
unfolding assume_sizes
from_size (some (pos total)) block_count = ok (sizes_of_total (total % u64_mod) 0 block_count)
from_size (some (negsuc n)) block_count = assume_sizes block_count
from_size none block_count = assume_sizes block_count

-- The first rung, by `Common.BlockSizes`.
from_block_sizes : Option (List ℤ) → Option ℤ → ℕ → Result (List ℕ)
unfolding from_size
from_block_sizes none size block_count = from_size size block_count
from_block_sizes (some sizes) size block_count =
    if length sizes == block_count
    then (if all_positive sizes
        then ok (all_as_u64 sizes)
        else refuse "a non-positive size for a block")
    else from_size size block_count

-- `rank_block_sizes`
unfoldable pub rank_block_sizes : Option CommonAttributes → ℕ → Result (List ℕ)
unfolding from_block_sizes
rank_block_sizes none block_count = from_block_sizes none none block_count
rank_block_sizes (some common) block_count =
    from_block_sizes common.block_sizes common.size block_count

length-all_as_u64 : (sizes : List ℤ) → length (all_as_u64 sizes) ≡ length sizes
length-all_as_u64 [] = refl
length-all_as_u64 (n ∷ sizes) = ap suc (length-all_as_u64 sizes)

length-sizes_of_total : (total i count : ℕ) → length (sizes_of_total total i count) ≡ count
unfolding sizes_of_total
length-sizes_of_total total i zero = refl
length-sizes_of_total total i (suc count) = ap suc (length-sizes_of_total total (i + 1) count)

length-full_sizes : (count : ℕ) → length (full_sizes count) ≡ count
length-full_sizes zero = refl
length-full_sizes (suc count) = ap suc (length-full_sizes count)

length-from_size :
    (size : Option ℤ) (block_count : ℕ) (sizes : List ℕ)
    → from_size size block_count ≡ ok sizes
    → length sizes ≡ block_count
unfolding from_size
length-from_size none block_count sizes h = ground (arith, length-full_sizes block_count)
length-from_size (some (pos total)) block_count sizes h =
    ground (arith, length-sizes_of_total (total % u64_mod) 0 block_count)
length-from_size (some (negsuc n)) block_count sizes h =
    ground (arith, length-full_sizes block_count)

length-from_block_sizes :
    (recorded : Option (List ℤ)) (size : Option ℤ) (block_count : ℕ) (sizes : List ℕ)
    → from_block_sizes recorded size block_count ≡ ok sizes
    → length sizes ≡ block_count
unfolding from_block_sizes
length-from_block_sizes none size block_count sizes h = length-from_size size block_count sizes h
length-from_block_sizes (some recorded) size block_count sizes h =
    ground (arith, length-all_as_u64 recorded, length-from_size size block_count sizes)

-- There is one size for each block, whichever rung gave them.
pub length-rank_block_sizes :
    (common : Option CommonAttributes) (block_count : ℕ) (sizes : List ℕ)
    → rank_block_sizes common block_count ≡ ok sizes
    → length sizes ≡ block_count
unfolding rank_block_sizes
length-rank_block_sizes none block_count sizes h =
    length-from_block_sizes none none block_count sizes h
length-rank_block_sizes (some common) block_count sizes h =
    length-from_block_sizes common.block_sizes common.size block_count sizes h
