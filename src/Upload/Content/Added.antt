-- ===== src/Upload/Content/Added.antt =====
-- One block of `encrypt_content_blocks` of crates/proton-drive-rs/src/client.rs: what `add_block` keeps
-- of what will be sent, recorded and hashed, and that no sum wraps around.
use proton_sdk_rs.Base.{
  ℕ, suc, ◌+◌, ◌%◌, ◌≤◌, ◌<◌, ◌≡◌, refl, ap, ◌∙◌, sym, true, false, List, [], ◌∷◌, ◌++◌,
  append_assoc, length, take, drop, length-append, length-take, take-append-drop, u64_mod, arith,
}
use proton_sdk_rs.Revision.{Bytes}
use proton_sdk_rs.Revision.Read.{lengths}
use proton_sdk_rs.Upload.Content.{i32_mod, i32_top, i64_top, Piece, Cutting, add_block}
use proton_sdk_rs.Upload.Content.Cut.{AllRead, contents, standard_blocks, standard_blocks-cons}

-- Blocks with their indices from `i` on.
abbrev pub numbered : ℕ → List Bytes → List (ℕ × Bytes)
numbered i [] = []
numbered i (block ∷ blocks) = (i, block) ∷ numbered (suc i) blocks

lengths-append : (xs ys : List Bytes) → lengths (xs ++ ys) ≡ lengths xs ++ lengths ys
lengths-append [] ys = refl
lengths-append (x ∷ xs) ys = ap (λ rest. length x ∷ rest) (lengths-append xs ys)

module _ (n : ℕ) where
  -- What is left to read, in blocks of `suc n` bytes.
  abbrev pub left : Cutting → List Bytes
  left s = standard_blocks (suc n) (contents s.reader)

  -- The later state sends, records and hashes the same in the end.
  pub record Same (s t : Cutting) : Type 0 where
    pub blocks :
        t.encrypting ++ numbered t.index (left t) ≡ s.encrypting ++ numbered s.index (left s)
    pub sizes : t.block_sizes ++ lengths (left t) ≡ s.block_sizes ++ lengths (left s)
    pub hashed : t.hashed ++ contents t.reader ≡ s.hashed ++ contents s.reader
    pub total :
        t.total_size + length (contents t.reader) ≡ s.total_size + length (contents s.reader)
    pub fewer :
        length t.encrypting + length (contents t.reader)
        ≤ length s.encrypting + length (contents s.reader)

  -- No index, block size or sum overflows on what is left.
  pub record Fits (s : Cutting) : Type 0 where
    pub narrow : suc n < i32_top
    pub few : s.index + length (left s) < i32_top
    pub short : s.total_size + length (contents s.reader) < i64_top

  -- Nothing overflows yet, the reader does not fail, and is at its end where it is drained.
  pub record IsReading (s : Cutting) : Type 0 where
    pub reads : AllRead s.reader
    pub drained : s.reader_drained ≡ true → contents s.reader ≡ []
    pub fits : Fits s

  pub Same-trans : {s t u : Cutting} → Same s t → Same t u → Same s u
  Same-trans a b = record {
    blocks = b.blocks ∙ a.blocks;
    sizes = b.sizes ∙ a.sizes;
    hashed = b.hashed ∙ a.hashed;
    total = b.total ∙ a.total;
    fewer = omega arith;
  }

  pub Same-refl : (s : Cutting) → Same s s
  Same-refl s = record {
    blocks = refl;
    sizes = refl;
    hashed = refl;
    total = refl;
    fewer = omega arith;
  }

  -- The first block of what is left, and the blocks after it.
  cut_first :
      (s : Cutting) (c : ℕ) (content : Bytes) (rest : List Piece)
      → c ∷ content ≡ contents s.reader
      → contents rest ≡ drop n content
      → (c ∷ take n content) ∷ standard_blocks (suc n) (contents rest) ≡ left s
  cut_first s c content rest same after =
      ap (λ t. (c ∷ take n content) ∷ standard_blocks (suc n) t) after
      ∙ sym (standard_blocks-cons (suc n) c content (omega arith))
      ∙ ap (standard_blocks (suc n)) same

  -- The sums of a block that is there do not wrap around.
  add_block_exact :
      (s : Cutting) (c : ℕ) (content : Bytes) (later : List Bytes)
      → (c ∷ take n content) ∷ later ≡ left s
      → c ∷ content ≡ contents s.reader
      → Fits s
      → ((s.index + 1) % i32_mod ≡ suc s.index)
        × (length (c ∷ take n content) % i32_mod ≡ length (c ∷ take n content))
        × ((s.total_size + length (c ∷ take n content)) % u64_mod
            ≡ s.total_size + length (c ∷ take n content))
  add_block_exact s c content later split same fits = (
    omega (arith, fits.few, ap length split),
    omega (arith, fits.narrow, length-take n content),
    omega (arith, fits.narrow, fits.short, length-take n content),
  )

  pub add_block-Same :
      (s : Cutting) (content : Bytes) (rest : List Piece)
      → content ≡ contents s.reader
      → contents rest ≡ drop (suc n) content
      → Fits s
      → Same s (add_block (take (suc n) content) rest s)
  unfolding add_block
  add_block-Same s [] rest same after fits =
      let still : contents rest ≡ contents s.reader = after ∙ same in
      record {
        blocks = ap (λ c. s.encrypting ++ numbered s.index (standard_blocks (suc n) c)) still;
        sizes = ap (λ c. s.block_sizes ++ lengths (standard_blocks (suc n) c)) still;
        hashed = ap (λ c. s.hashed ++ c) still;
        total = ap (λ c. s.total_size + length c) still;
        fewer = omega (arith, ap length still);
      }
  add_block-Same s (c ∷ content) rest same after fits =
      let block : Bytes = c ∷ take n content in
      let later = standard_blocks (suc n) (contents rest) in
      let split = cut_first s c content rest same after in
      let (next_index, exact_size, exact_total) =
        add_block_exact s c content later split same fits in
      record {
        blocks =
            ap (λ i. (s.encrypting ++ ((s.index, block) ∷ [])) ++ numbered i later) next_index
            ∙ append_assoc s.encrypting ((s.index, block) ∷ []) (numbered (suc s.index) later)
            ∙ ap (λ bs. s.encrypting ++ numbered s.index bs) split;
        sizes =
            ap (λ size. (s.block_sizes ++ (size ∷ [])) ++ lengths later) exact_size
            ∙ append_assoc s.block_sizes (length block ∷ []) (lengths later)
            ∙ ap (λ bs. s.block_sizes ++ lengths bs) split;
        hashed =
            append_assoc s.hashed block (contents rest)
            ∙ ap (λ t. s.hashed ++ (block ++ t)) after
            ∙ ap (λ t. s.hashed ++ t) (take-append-drop (suc n) (c ∷ content) ∙ same);
        total = omega (
          arith,
          exact_total,
          ap length after,
          ap length same,
          ap length (take-append-drop n content),
          length-append (take n content) (drop n content),
        );
        fewer = omega (
          arith,
          ap length after,
          ap length same,
          ap length (take-append-drop n content),
          length-append (take n content) (drop n content),
          length-append s.encrypting ((s.index, block) ∷ []),
        );
      }

  add_block-Fits :
      (s : Cutting) (content : Bytes) (rest : List Piece)
      → content ≡ contents s.reader
      → contents rest ≡ drop (suc n) content
      → Fits s
      → Fits (add_block (take (suc n) content) rest s)
  unfolding add_block
  add_block-Fits s [] rest same after fits =
      let still : contents rest ≡ contents s.reader = after ∙ same in
      record {
        narrow = fits.narrow;
        few = omega (arith, fits.few, ap (λ c. length (standard_blocks (suc n) c)) still);
        short = omega (arith, fits.short, ap length still);
      }
  add_block-Fits s (c ∷ content) rest same after fits =
      let block : Bytes = c ∷ take n content in
      let later = standard_blocks (suc n) (contents rest) in
      let split = cut_first s c content rest same after in
      let (next_index, exact_size, exact_total) =
        add_block_exact s c content later split same fits in
      record {
        narrow = fits.narrow;
        few = omega (arith, next_index, fits.few, ap length split);
        short = omega (
          arith,
          fits.short,
          exact_total,
          ap length after,
          ap length same,
          ap length (take-append-drop n content),
          length-append (take n content) (drop n content),
        );
      }

  pub add_block-IsReading :
      (s : Cutting) (content : Bytes) (rest : List Piece)
      → content ≡ contents s.reader
      → contents rest ≡ drop (suc n) content
      → AllRead rest
      → s.reader_drained ≡ false
      → Fits s
      → IsReading (add_block (take (suc n) content) rest s)
  unfolding add_block
  add_block-IsReading s [] rest same after read open_ fits = record {
    reads = read;
    drained = λ h. after;
    fits = add_block-Fits s [] rest same after fits;
  }
  add_block-IsReading s (c ∷ content) rest same after read open_ fits = record {
    reads = read;
    drained = λ h. absurd (ground arith);
    fits = add_block-Fits s (c ∷ content) rest same after fits;
  }

  -- Nothing in flight means nothing left to read.
  abbrev pub Settled : Cutting → Type 0
  Settled s = s.encrypting ≡ [] → contents s.reader ≡ []

  pub add_block-Settled :
      (s : Cutting) (content : Bytes) (rest : List Piece)
      → contents rest ≡ drop (suc n) content
      → Settled (add_block (take (suc n) content) rest s)
  unfolding add_block
  add_block-Settled s [] rest after none_left = after
  add_block-Settled s (c ∷ content) rest after none_left = absurd (
      omega (
        arith,
        ap length none_left,
        length-append s.encrypting ((s.index, c ∷ take n content) ∷ []),
      ))

  pub length-add_block :
      (s : Cutting) (content : Bytes) (rest : List Piece)
      → length (add_block content rest s).encrypting ≤ suc (length s.encrypting)
  unfolding add_block
  length-add_block s [] rest = omega arith
  length-add_block s (c ∷ content) rest =
      omega (arith, length-append s.encrypting ((s.index, c ∷ content) ∷ []))
