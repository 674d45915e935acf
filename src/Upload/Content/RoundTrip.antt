-- ===== src/Upload/Content/RoundTrip.antt =====
-- An upload's content, its sealed attributes (`seal_revision`) and the read of the revision:
-- crates/proton-drive-rs/src/client.rs, transport.rs and revision.rs together.
use proton_sdk_rs.Base.{
  ℕ, suc, ◌+◌, ◌<◌, ◌≡◌, refl, ap, ap₂, ◌∙◌, String, true, Option, none, some, List, [], ◌∷◌,
  length, get_elem?, take, drop, ◌==◌, ==_refl, lt→ltb, arith,
}
use proton_sdk_rs.Base.Int.{ℤ, pos}
use proton_sdk_rs.Errors.{Result, ok, refuse}
use proton_sdk_rs.Revision.{Bytes, read_at}
use proton_sdk_rs.Revision.Read.{lengths, Serves, read_at-slice}
use proton_sdk_rs.Transport.Sizes.{
  CommonAttributes, rank_block_sizes, all_positive, all_as_u64, as_u64,
}
use proton_sdk_rs.Upload.{PreparedBlock}
use proton_sdk_rs.Upload.Content.{
  as_i32, as_i64, i32_top, i64_top, Piece, Cutting, Surroundings, encrypt_content_blocks,
}
use proton_sdk_rs.Upload.Content.Cut.{
  AllRead, contents, standard_blocks, standard_blocks-concat, AllWithin, standard_blocks-AllWithin,
}
use proton_sdk_rs.Upload.Content.Added.{numbered}
use proton_sdk_rs.Upload.Content.Loop.{prepared_all, encrypt_content_blocks-Sends}

abbrev pub all_as_i32 : List ℕ → List ℤ
all_as_i32 [] = []
all_as_i32 (n ∷ sizes) = as_i32 n ∷ all_as_i32 sizes

-- The `CommonExtendedAttributes` that `seal_revision` writes
unfoldable pub sealed_attributes : (Bytes → String) → Option String → Cutting → CommonAttributes
sealed_attributes sha1_hex modification_time s = record {
  size = some (as_i64 s.total_size);
  modification_time = modification_time;
  block_sizes = some (all_as_i32 s.block_sizes);
  sha1 = some (sha1_hex s.hashed);
}

-- What a revision holds of the blocks that were sent, decrypted.
unfoldable pub stored_block : (Bytes → Result Bytes) → List PreparedBlock → ℕ → Result Bytes
stored_block decrypt sent i = elim (get_elem? sent i) [
  | none ↦ refuse "no such block"
  | some block ↦ decrypt block.ciphertext
]

length-all_as_i32 : (sizes : List ℕ) → length (all_as_i32 sizes) ≡ length sizes
length-all_as_i32 [] = refl
length-all_as_i32 (n ∷ sizes) = ap suc (length-all_as_i32 sizes)

-- A size that an i32 holds is the number that its bits stand for.
as_i32_small : (n : ℕ) → n < i32_top → as_i32 n ≡ pos n
as_i32_small n h = rw (lt→ltb n i32_top h) refl

all_positive-lengths :
    (top : ℕ) (blocks : List Bytes)
    → top < i32_top
    → AllWithin top blocks
    → all_positive (all_as_i32 (lengths blocks)) ≡ true
all_positive-lengths top [] fits h = refl
all_positive-lengths top (block ∷ blocks) fits (some_, few, h) =
    rw (as_i32_small (length block) (omega arith))
      (ground (arith, all_positive-lengths top blocks fits h))

all_as_u64-lengths :
    (top : ℕ) (blocks : List Bytes)
    → top < i32_top
    → AllWithin top blocks
    → all_as_u64 (all_as_i32 (lengths blocks)) ≡ lengths blocks
all_as_u64-lengths top [] fits h = refl
all_as_u64-lengths top (block ∷ blocks) fits (some_, few, h) =
    let e : as_u64 (pos (length block)) ≡ length block = omega arith in
    ap₂ ◌∷◌ (ap as_u64 (as_i32_small (length block) (omega arith)) ∙ e)
      (all_as_u64-lengths top blocks fits h)

module _ (prepare : ℕ → Bytes → PreparedBlock) where
  length-prepared_all :
      (i : ℕ) (blocks : List Bytes)
      → length (prepared_all prepare (numbered i blocks)) ≡ length (lengths blocks)
  length-prepared_all i [] = refl
  length-prepared_all i (block ∷ blocks) = ap suc (length-prepared_all (suc i) blocks)

  stored-Serves :
      (decrypt : Bytes → Result Bytes) (block : ℕ → Result Bytes) (j i : ℕ) (blocks : List Bytes)
      → ((index : ℕ) (plaintext : Bytes)
          → decrypt (prepare index plaintext).ciphertext ≡ ok plaintext)
      → ((m : ℕ)
          → block (j + m) ≡ stored_block decrypt (prepared_all prepare (numbered i blocks)) m)
      → Serves block j blocks
  unfolding stored_block
  stored-Serves decrypt block j i [] decrypts same = tt
  stored-Serves decrypt block j i (b ∷ blocks) decrypts same =
      let here : j ≡ j + 0 = omega arith in
      (
        ap block here ∙ same 0 ∙ decrypts i b,
        stored-Serves decrypt block (j + 1) (suc i) blocks decrypts
            (λ m. let e : j + 1 + m ≡ j + suc m = omega arith in ap block e ∙ same (suc m)),
      )

rank_sealed :
    (sha1_hex : Bytes → String) (modification_time : Option String) (s : Cutting)
    (blocks : List Bytes) (count top : ℕ)
    → s.block_sizes ≡ lengths blocks
    → count ≡ length (lengths blocks)
    → top < i32_top
    → AllWithin top blocks
    → rank_block_sizes (some (sealed_attributes sha1_hex modification_time s)) count
      ≡ ok s.block_sizes
unfolding rank_block_sizes sealed_attributes
rank_sealed sha1_hex modification_time s blocks count top sizes counted fits within =
    let long : (length (all_as_i32 (lengths blocks)) == length (lengths blocks)) ≡ true =
      rw (length-all_as_i32 (lengths blocks)) (==_refl (length (lengths blocks))) in
    rw (sizes, counted, long, all_positive-lengths top blocks fits within)
      (ap ok (all_as_u64-lengths top blocks fits within))

-- What an upload sends is read back: the rounds end, the sizes that the sealed attributes record are
-- the ones that a reader of the revision ranks first, and a read of any range gives the bytes of the
-- content there, cut at its end. The reader of the upload does not fail, each block encrypts and
-- decrypts again, the uploader receives, and the fuel is more than the length of the content. Blocks
-- have `n + 1` bytes, and the source's integers suffice: the block size and the number of blocks plus
-- one are below 2^31, and the content is shorter than 2^63 bytes.
pub encrypt_content_blocks-read_at :
    (n : ℕ) (around : Surroundings) (prepare : ℕ → Bytes → PreparedBlock)
    (decrypt : Bytes → Result Bytes) (sha1_hex : Bytes → String) (modification_time : Option String)
    (fuel : ℕ) (reader : List Piece)
    → ((index : ℕ) (plaintext : Bytes)
        → around.encrypt index plaintext ≡ ok (prepare index plaintext))
    → ((index : ℕ) (plaintext : Bytes)
        → decrypt (prepare index plaintext).ciphertext ≡ ok plaintext)
    → ((k : ℕ) → around.receives k ≡ true)
    → AllRead reader
    → length (contents reader) < fuel
    → suc n < i32_top
    → 1 + length (standard_blocks (suc n) (contents reader)) < i32_top
    → length (contents reader) < i64_top
    → (sent : List PreparedBlock) × (s : Cutting) × (encrypt_content_blocks
          (suc n)
          around
          fuel
          reader
        ≡ some (ok (sent, s)))
      × (rank_block_sizes (some (sealed_attributes sha1_hex modification_time s)) (length sent)
          ≡ ok s.block_sizes)
      × ((offset len : ℕ)
          → read_at (stored_block decrypt sent) s.block_sizes offset len
            ≡ ok (take len (drop offset (contents reader))))
encrypt_content_blocks-read_at n around prepare decrypt sha1_hex modification_time fuel reader
      encrypts decrypts receives reads enough narrow few short =
    let (s, is_some, sizes, hashed, total) =
      encrypt_content_blocks-Sends n around prepare fuel reader encrypts receives reads enough
        narrow few short in
    let content = contents reader in
    let blocks = standard_blocks (suc n) content in
    let sent = prepared_all prepare (numbered 1 blocks) in
    let whole = standard_blocks-concat (suc n) content (omega arith) in
    let served =
      stored-Serves prepare decrypt (stored_block decrypt sent) 0 1 blocks decrypts
        (λ m. let e : 0 + m ≡ m = omega arith in ap (stored_block decrypt sent) e) in
    (
      sent,
      s,
      is_some,
      rank_sealed sha1_hex modification_time s blocks (length sent) (suc n) sizes
          (length-prepared_all prepare 1 blocks) narrow (standard_blocks-AllWithin n content),
      λ offset len.
          ap (λ recorded. read_at (stored_block decrypt sent) recorded offset len) sizes
          ∙ read_at-slice (stored_block decrypt sent) blocks offset len served
              (omega (arith, ap length whole))
          ∙ ap (λ t. ok (take len (drop offset t))) whole,
    )
