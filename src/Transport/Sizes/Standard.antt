-- ===== src/Transport/Sizes/Standard.antt =====
-- The standard layout: full blocks and a last shorter one.
use proton_sdk_rs.Base.{
  ℕ, zero, suc, ◌+◌, ◌-◌, ◌*◌, ◌%◌, ◌≤◌, ◌<◌, ◌≡◌, refl, ap, ap₂, ◌∙◌, min, none, some, List, [],
  ◌∷◌, ◌++◌, length, take, drop, concat, arith, u64_mod, length-take, length-drop, take-append-drop,
}
use proton_sdk_rs.Base.Int.{pos}
use proton_sdk_rs.Errors.{Result, ok}
use proton_sdk_rs.Transport.{default_block_size}
use proton_sdk_rs.Transport.Sizes.{CommonAttributes, sizes_of_total, rank_block_sizes}
use proton_sdk_rs.Revision.{Bytes, read_at}
use proton_sdk_rs.Revision.Read.{lengths, Serves, read_at-slice}

-- A plaintext cut into `count` blocks of at most `size` bytes, in order.
unfoldable pub blocks_of : ℕ → ℕ → Bytes → List Bytes
blocks_of size zero content = []
blocks_of size (suc count) content = take size content ∷ blocks_of size count (drop size content)

concat-blocks_of :
    (size count : ℕ) (content : Bytes)
    → length content ≤ size * count
    → concat (blocks_of size count content) ≡ content
unfolding blocks_of
concat-blocks_of size zero [] h = refl
concat-blocks_of size zero (x ∷ content) h = absurd (omega arith)
concat-blocks_of size (suc count) content h =
    ap (λ t. take size content ++ t)
      (concat-blocks_of size count (drop size content) (grind (arith, length-drop size content)))
    ∙ take-append-drop size content

sizes_of_total-blocks_of :
    (total i count : ℕ) (content : Bytes)
    → length content ≡ total - default_block_size * i
    → default_block_size * (i + count) < u64_mod
    → sizes_of_total total i count ≡ lengths (blocks_of default_block_size count content)
unfolding sizes_of_total blocks_of
sizes_of_total-blocks_of total i zero content h k = refl
sizes_of_total-blocks_of total i (suc count) content h k =
    let first : min (total - (default_block_size * i) % u64_mod) default_block_size
        ≡ length (take default_block_size content) =
      omega (arith, length-take default_block_size content) in
    ap₂ ◌∷◌ first (
      sizes_of_total-blocks_of total (i + 1) count (drop default_block_size content)
        (omega (arith, length-drop default_block_size content)) (omega arith))

abbrev pub only_size : ℕ → CommonAttributes
only_size total = record {
  size = some (pos total);
  modification_time = none;
  block_sizes = none;
  sha1 = none;
}

-- A file that was cut into standard blocks, and whose attributes record its total size only, is
-- read correctly at every range: the sizes derived from the total are the blocks' own. The blocks
-- decrypt, and their full sizes together fit a `u64`.
pub read_at-only_size :
    (block : ℕ → Result Bytes) (content : Bytes) (count offset len : ℕ)
    → length content ≤ default_block_size * count
    → default_block_size * count < u64_mod
    → Serves block 0 (blocks_of default_block_size count content)
    → (sizes : List ℕ) × (rank_block_sizes (some (only_size (length content))) count ≡ ok sizes)
      × (read_at block sizes offset len ≡ ok (take len (drop offset content)))
unfolding rank_block_sizes
read_at-only_size block content count offset len h k s =
    let cut = blocks_of default_block_size count content in
    let whole = concat-blocks_of default_block_size count content h in
    let sizes : sizes_of_total (length content % u64_mod) 0 count ≡ lengths cut =
      ap (λ t. sizes_of_total t 0 count) (omega arith)
      ∙ sizes_of_total-blocks_of (length content) 0 count content (omega arith) (omega arith) in
    (
      lengths cut,
      ap ok sizes,
      read_at-slice block cut offset len s (omega (arith, ap length whole))
          ∙ ap (λ t. ok (take len (drop offset t))) whole,
    )
