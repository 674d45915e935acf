-- ===== src/Upload/Content/Loop.antt =====
-- What `encrypt_content_blocks` of crates/proton-drive-rs/src/client.rs sends and records in the end.
use proton_sdk_rs.Base.{
  ℕ, zero, suc, ◌+◌, ◌-◌, ◌<◌, ◌≡◌, refl, ap, ap₂, ◌∙◌, sym, true, Option, some, List, [], ◌∷◌,
  ◌++◌, append-nil, append_assoc, length, arith, inl,
}
use proton_sdk_rs.Errors.{Result, ok}
use proton_sdk_rs.Revision.{Bytes}
use proton_sdk_rs.Revision.Read.{lengths}
use proton_sdk_rs.Upload.{PreparedBlock}
use proton_sdk_rs.Upload.Content.{
  i32_top, i64_top, Piece, Cutting, Surroundings, max_concurrent_encrypts, take_next, cut_round,
  send_next, cut_loop, cutting, encrypt_content_blocks,
}
use proton_sdk_rs.Upload.Content.Cut.{AllRead, contents, standard_blocks, standard_blocks_nil}
use proton_sdk_rs.Upload.Content.Added.{numbered, left, Same, Fits, IsReading, Settled}
use proton_sdk_rs.Upload.Content.Rounds.{Filled, fill_window-Filled}

-- The blocks as they are sent.
abbrev pub prepared_all : (ℕ → Bytes → PreparedBlock) → List (ℕ × Bytes) → List PreparedBlock
prepared_all prepare [] = []
prepared_all prepare ((index, plaintext) ∷ blocks) =
    prepare index plaintext ∷ prepared_all prepare blocks

module _ (n : ℕ) (around : Surroundings) (prepare : ℕ → Bytes → PreparedBlock)
    (encrypts : (index : ℕ) (plaintext : Bytes)
      → around.encrypt index plaintext ≡ ok (prepare index plaintext))
    (receives : (k : ℕ) → around.receives k ≡ true) where
  -- The end of the loop: all that is in flight and left was sent, recorded and hashed.
  Completes : Cutting → List PreparedBlock → Option (Result (List PreparedBlock × Cutting)) → Type 0
  Completes s sent outcome =
      (t : Cutting) × (outcome
        ≡ some (ok (sent ++ prepared_all prepare (s.encrypting ++ numbered s.index (left n s)), t)))
      × (t.block_sizes ≡ s.block_sizes ++ lengths (left n s))
      × (t.hashed ≡ s.hashed ++ contents s.reader)
      × (t.total_size ≡ s.total_size + length (contents s.reader))

  Completes-Same :
      (s t : Cutting) (sent : List PreparedBlock)
      (outcome : Option (Result (List PreparedBlock × Cutting)))
      → Same n s t
      → Completes t sent outcome
      → Completes s sent outcome
  unfolding Completes
  Completes-Same s t sent outcome same (u, is_some, sizes, hashed, total) = (
    u,
    is_some ∙ ap (λ blocks. some (ok (sent ++ prepared_all prepare blocks, u))) same.blocks,
    sizes ∙ same.sizes,
    hashed ∙ same.hashed,
    omega (arith, same.total),
  )

  -- The round from a filled window, where the rounds after it complete.
  finish_round :
      (go : Cutting → List PreparedBlock → Option (Result (List PreparedBlock × Cutting))) (k : ℕ)
      (t : Cutting) (flying : List (ℕ × Bytes)) (sent : List PreparedBlock)
      → flying ≡ t.encrypting
      → Settled n t
      → ((rest : List (ℕ × Bytes))
          → length rest < length t.encrypting
          → (more : List PreparedBlock)
          → Completes
              (record t { encrypting = rest })
              more
              (go (record t { encrypting = rest }) more))
      → Completes t sent
          (send_next (suc n) around go (around.receives k) sent (take_next (suc n) around flying t))
  unfolding Completes take_next send_next
  finish_round go k t [] sent same settled next =
      let nothing = settled (sym same) in
      let none_left : left n t ≡ [] =
        ap (standard_blocks (suc n)) nothing ∙ standard_blocks_nil (suc n) in
      let all_sent : prepared_all prepare (t.encrypting ++ numbered t.index (left n t)) ≡ [] =
        ap₂ (λ blocks later. prepared_all prepare (blocks ++ numbered t.index later)) (sym same)
          none_left in
      (
        t,
        ap (λ blocks. some (ok (blocks, t)))
            (sym (ap (λ blocks. sent ++ blocks) all_sent ∙ append-nil sent)),
        sym (ap (λ later. t.block_sizes ++ lengths later) none_left ∙ append-nil t.block_sizes),
        sym (ap (λ later. t.hashed ++ later) nothing ∙ append-nil t.hashed),
        omega (arith, ap length nothing),
      )
  finish_round go k t ((index, plaintext) ∷ rest) sent same settled next =
      let (u, is_some, sizes, hashed, total) =
        next rest (omega (arith, ap length same)) (sent ++ (prepare index plaintext ∷ [])) in
      let later = numbered t.index (left n t) in
      rw (encrypts index plaintext, receives k)
        (
          u,
          is_some
              ∙ ap (λ blocks. some (ok (blocks, u)))
                  (append_assoc sent (prepare index plaintext ∷ [])
                      (prepared_all prepare (rest ++ later))
                    ∙ ap (λ blocks. sent ++ prepared_all prepare (blocks ++ later)) same),
          sizes,
          hashed,
          total,
        )

  -- A block that has left the window changes no sum.
  Fits-landed :
      (t : Cutting) (rest : List (ℕ × Bytes)) → Fits n t → Fits n (record t { encrypting = rest })
  Fits-landed t rest fits = record { narrow = fits.narrow; few = fits.few; short = fits.short }

  cut_loop-Completes :
      (fuel k : ℕ) (s : Cutting) (sent : List PreparedBlock)
      → IsReading n s
      → length s.encrypting < max_concurrent_encrypts
      → length s.encrypting + length (contents s.reader) < fuel
      → Completes s sent (cut_loop (suc n) around fuel k s sent)
  unfolding cut_loop cut_round Filled
  cut_loop-Completes zero k s sent reading room enough = absurd (omega arith)
  cut_loop-Completes (suc fuel) k s sent reading room enough =
      let (t, is_ok, same, reading', bound, ends) =
        fill_window-Filled n around (max_concurrent_encrypts - length s.encrypting) k s reading in
      let finished =
        finish_round (cut_loop (suc n) around fuel (k + 1)) k t t.encrypting sent refl
          (ends (inl (omega arith)))
          (λ rest shorter more.
            cut_loop-Completes fuel (k + 1) (record t { encrypting = rest }) more
              (record {
                reads = reading'.reads;
                drained = reading'.drained;
                fits = Fits-landed t rest reading'.fits;
              })
              (omega arith) (omega (arith, same.fewer))) in
      rw is_ok (Completes-Same s t sent _ same finished)

-- Whatever the permits are and however the reader hands its content out: with fuel for one round more
-- than the content has bytes, `encrypt_content_blocks` ends, and it has sent the content in standard
-- blocks, encrypted, in order and numbered from 1, has recorded their sizes in that order and the total
-- size, and has hashed the content. The reader does not fail, each block encrypts, the uploader
-- receives, and the source's integers suffice: the block size and the number of blocks plus one are
-- below 2^31, and the content is shorter than 2^63 bytes.
pub encrypt_content_blocks-Sends :
    (n : ℕ) (around : Surroundings) (prepare : ℕ → Bytes → PreparedBlock) (fuel : ℕ)
    (reader : List Piece)
    → ((index : ℕ) (plaintext : Bytes)
        → around.encrypt index plaintext ≡ ok (prepare index plaintext))
    → ((k : ℕ) → around.receives k ≡ true)
    → AllRead reader
    → length (contents reader) < fuel
    → suc n < i32_top
    → 1 + length (standard_blocks (suc n) (contents reader)) < i32_top
    → length (contents reader) < i64_top
    → (t : Cutting) × (encrypt_content_blocks (suc n) around fuel reader
        ≡ some
            (ok (prepared_all prepare (numbered 1 (standard_blocks (suc n) (contents reader))), t)))
      × (t.block_sizes ≡ lengths (standard_blocks (suc n) (contents reader)))
      × (t.hashed ≡ contents reader)
      × (t.total_size ≡ length (contents reader))
unfolding encrypt_content_blocks Completes
encrypt_content_blocks-Sends n around prepare fuel reader encrypts receives reads enough narrow few
      short =
    let fits : Fits n (cutting reader) = record {
      narrow = narrow;
      few = few;
      short = omega arith;
    } in
    let (t, is_some, sizes, hashed, total) =
      cut_loop-Completes n around prepare encrypts receives fuel 0 (cutting reader) []
        (record { reads = reads; drained = λ h. absurd (ground arith); fits = fits }) (omega arith)
        (omega arith) in
    (t, is_some, sizes, hashed, omega (arith, total))
