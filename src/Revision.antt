-- ===== src/Revision.antt =====
-- crates/proton-drive-rs/src/revision.rs: the seekable reader of a file revision. A byte is a
-- number, and offsets and sizes are `u64`; the outcome of `block_plaintext` for each block, which
-- the stream fetches concurrently and yields in order, is an argument of the read.
pub mod Plan
pub mod Read
pub mod Targets
use proton_sdk_rs.Base.{
  ℕ, ◌+◌, ◌-◌, ◌%◌, min, List, [], ◌∷◌, ◌++◌, length, slice, ltb, leb, ◌==◌, ◌||◌, u64_mod,
  if◌then◌else◌,
}
use proton_sdk_rs.Errors.{Result, ok, ◌>>=◌}

abbrev pub Bytes : Type 0
Bytes = List ℕ

-- `u64::saturating_add`
abbrev pub saturating_add : ℕ → ℕ → ℕ
saturating_add a b = min (a + b) (u64_mod - 1)

-- `block_sizes.iter().sum()`, as `RevisionReader::new` takes the file's size
unfoldable pub file_size : List ℕ → ℕ
file_size [] = 0
file_size (size ∷ sizes) = (size + file_size sizes) % u64_mod

-- The loop of `plan_blocks`, over the blocks from `index` on.
unfoldable pub plan_from : ℕ → ℕ → ℕ → ℕ → List ℕ → List (ℕ × ℕ)
plan_from offset end index block_start [] = []
plan_from offset end index block_start (block_size ∷ sizes) =
    let block_end = (block_start + block_size) % u64_mod in
    let rest = plan_from offset end (index + 1) block_end sizes in
    if leb end block_start
    then []
    else if ltb offset block_end
    then (index, block_start) ∷ rest
    else rest

-- `plan_blocks`
unfoldable pub plan_blocks : List ℕ → ℕ → ℕ → List (ℕ × ℕ)
unfolding plan_from
plan_blocks block_sizes offset end = plan_from offset end 0 0 block_sizes

-- `splice_block`, appending to `out`
unfoldable pub splice_block : Bytes → Bytes → ℕ → ℕ → ℕ → Bytes
splice_block out plaintext block_start offset end =
    let from = offset - block_start in
    let to = min ((end + u64_mod - block_start) % u64_mod) (length plaintext) in
    if ltb from to then out ++ slice from to plaintext else out

-- The loop of `read_at` over the planned blocks: the first block that fails ends the read.
unfoldable pub splice_all : (ℕ → Result Bytes) → ℕ → ℕ → List (ℕ × ℕ) → Bytes → Result Bytes
unfolding splice_block
splice_all block offset end [] out = ok out
splice_all block offset end ((index, block_start) ∷ wanted) out = do
  plaintext ← block index
  splice_all block offset end wanted (splice_block out plaintext block_start offset end)

-- `RevisionReader::read_at`
unfoldable pub read_at : (ℕ → Result Bytes) → List ℕ → ℕ → ℕ → Result Bytes
unfolding file_size plan_blocks splice_all
read_at block block_sizes offset len =
    if len == 0 || leb (file_size block_sizes) offset
    then ok []
    else (let end = min (saturating_add offset len) (file_size block_sizes) in
        splice_all block offset end (plan_blocks block_sizes offset end) [])
