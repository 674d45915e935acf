-- ===== src/Upload/Content/Rounds.antt =====
-- The rounds of `encrypt_content_blocks` of crates/proton-drive-rs/src/client.rs: whichever permits there
-- are, what is sent, recorded and hashed is the content in standard blocks.
use proton_sdk_rs.Base.{
  ℕ, zero, suc, ◌+◌, ◌≤◌, ◌≡◌, refl, ap, true, false, ◌||◌, length, take, arith, Bool-cases, inl,
  inr, ◌⊎◌,
}
use proton_sdk_rs.Errors.{Result, ok}
use proton_sdk_rs.Upload.Content.{Cutting, Surroundings, add_block, is_idle, fill_window}
use proton_sdk_rs.Upload.Content.Cut.{contents, read_full_block-Fills}
use proton_sdk_rs.Upload.Content.Added.{
  Same, IsReading, Settled, Same-trans, Same-refl, add_block-Same, add_block-IsReading,
  add_block-Settled, length-add_block,
}

module _ (n : ℕ) where
  not_idle : (s : Cutting) → is_idle s.encrypting ≡ false → Settled n s
  not_idle s busy none_left =
      let e : is_idle s.encrypting ≡ true = ap is_idle none_left in absurd (ground arith)

  module _ (around : Surroundings) where
    -- The window after it was filled
    unfoldable pub Filled : ℕ → Cutting → Result Cutting → Type 0
    Filled room s filled =
        (t : Cutting) × (filled ≡ ok t)
        × Same n s t
        × IsReading n t
        × (length t.encrypting ≤ length s.encrypting + room)
        × ((1 ≤ room) ⊎ Settled n s → Settled n t)

    Filled-cons :
        (room : ℕ) (s between : Cutting) (filled : Result Cutting)
        → Same n s between
        → length between.encrypting ≤ suc (length s.encrypting)
        → Settled n between
        → Filled room between filled
        → Filled (suc room) s filled
    unfolding Filled
    Filled-cons room s between filled same few settled (t, is_ok, more, reading, bound, ends) =
        (t, is_ok, Same-trans n same more, reading, omega arith, λ _. ends (inr settled))

    pub fill_window-Filled :
        (room k : ℕ) (s : Cutting)
        → IsReading n s
        → Filled room s (fill_window (suc n) around room k s)
    unfolding fill_window Filled
    fill_window-Filled zero k s reading = (
      s,
      refl,
      Same-refl n s,
      reading,
      omega arith,
      λ h. elim h [ inl some_room ↦ absurd (omega arith) | inr settled ↦ settled ],
    )
    fill_window-Filled (suc room) k s reading = elim (Bool-cases s.reader_drained) [
      | inl drained ↦
          simp drained
            (s, refl, Same-refl n s, reading, omega arith, λ _ none_left. reading.drained drained)
      | inr open_ ↦ elim (Bool-cases (is_idle s.encrypting || around.permit k s.index)) [
        | inl go ↦
            let (rest, is_read, after, reads) =
              read_full_block-Fills (suc n) s.reader reading.reads in
            let content = contents s.reader in
            let between = add_block (take (suc n) content) rest s in
            simp (open_, go, is_read)
              (Filled-cons room s between (fill_window (suc n) around room k between)
                (add_block-Same n s content rest refl after reading.fits)
                (length-add_block n s (take (suc n) content) rest)
                (add_block-Settled n s content rest after)
                (fill_window-Filled room k between
                  (add_block-IsReading n s content rest refl after reads open_ reading.fits)))
        | inr full ↦
            simp (open_, full)
              (s, refl, Same-refl n s, reading, omega arith, λ _. not_idle s (ground arith))
      ]
    ]
