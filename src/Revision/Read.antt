-- ===== src/Revision/Read.antt =====
-- What a read returns when the block sizes are truthful.
use proton_sdk_rs.Base.{
  ℕ, ◌+◌, ◌-◌, ◌%◌, ◌≤◌, ◌<◌, ◌≡◌, refl, ap, ◌∙◌, min, List, [], ◌∷◌, ◌++◌, length, concat, slice,
  take, drop, slice-min, take-zero, drop_past, ◌==◌, ==→eq, take-nil, length-append, arith, sym,
  ltb, leb, ltb→ge, leb→le, leb→gt, Bool-cases, u64_mod, inl, inr, slice-append, slice_empty,
  slice_past,
}
use mathlib.Core.List.{append_assoc, append-nil}
use proton_sdk_rs.Errors.{Result, ok}
use proton_sdk_rs.Revision.{
  Bytes, file_size, plan_from, splice_block, splice_all, read_at, saturating_add,
}

abbrev pub lengths : List Bytes → List ℕ
lengths [] = []
lengths (b ∷ bs) = length b ∷ lengths bs

-- Block `i + n` of the revision decrypts to the `n`-th of these.
abbrev pub Serves : (ℕ → Result Bytes) → ℕ → List Bytes → Type 0
Serves block i [] = Unit
Serves block i (b ∷ bs) = (block i ≡ ok b) × Serves block (i + 1) bs

length-concat :
    (bs : List Bytes) → length (concat bs) < u64_mod → file_size (lengths bs) ≡ length (concat bs)
unfolding file_size
length-concat [] h = refl
length-concat (b ∷ bs) h = omega (
  arith,
  length-append b (concat bs),
  length-concat bs (omega (arith, length-append b (concat bs))),
)

splice_block-slice :
    (out b : Bytes) (start offset end : ℕ)
    → start ≤ end
    → end < u64_mod
    → splice_block out b start offset end
      ≡ out ++ slice (offset - start) (min (end - start) (length b)) b
unfolding splice_block
splice_block-slice out b start offset end h k =
    let e : (end + u64_mod - start) % u64_mod ≡ end - start = omega arith in
    rw e (elim (Bool-cases (ltb (offset - start) (min (end - start) (length b)))) [
      | inl some_part ↦ rw some_part refl
      | inr nothing ↦
          rw
            (
              nothing,
              slice_empty (offset - start) (min (end - start) (length b)) b (ltb→ge _ _ nothing),
            )
            (sym (append-nil out))
    ])

-- The slice of the rest of the file, split at the end of its first block.
slice_next :
    (b rest : Bytes) (start offset end : ℕ)
    → slice (offset - start) (end - start) (b ++ rest)
      ≡ slice (offset - start) (min (end - start) (length b)) b
        ++ slice (offset - (start + length b)) (end - (start + length b)) rest
slice_next b rest start offset end =
    let e : offset - (start + length b) ≡ (offset - start) - length b = omega arith in
    let f : end - (start + length b) ≡ (end - start) - length b = omega arith in
    rw (e, f) (slice-append (offset - start) (end - start) b rest)

-- From block `index` on, the loop appends the part of the remaining blocks that the range covers.
splice_all-slice :
    (block : ℕ → Result Bytes) (offset end : ℕ) (bs : List Bytes) (index start : ℕ) (out : Bytes)
    → Serves block index bs
    → start + length (concat bs) < u64_mod
    → end < u64_mod
    → splice_all block offset end (plan_from offset end index start (lengths bs)) out
      ≡ ok (out ++ slice (offset - start) (end - start) (concat bs))
unfolding splice_all plan_from
splice_all-slice block offset end [] index start out s h k =
    ap ok (
      rw (slice_past {A = ℕ} (offset - start) (end - start) [] (omega arith))
        (sym (append-nil out)))
splice_all-slice block offset end (b ∷ bs) index start out s h k =
    let total = length-append b (concat bs) in
    let e : (start + length b) % u64_mod ≡ start + length b = omega (arith, total) in
    rw e (elim (Bool-cases (leb end start)) [
      | inl past ↦ rw past (
          ap ok (
            rw
              (slice_empty (offset - start) (end - start) (b ++ concat bs)
                (omega (arith, leb→le _ _ past)))
              (sym (append-nil out))))
      | inr before ↦ elim (Bool-cases (ltb offset (start + length b))) [
        | inl wanted ↦
            rw (before, wanted, s.0)
              (rw (splice_block-slice out b start offset end (omega (arith, leb→gt _ _ before)) k) (
                splice_all-slice block offset end bs (index + 1) (start + length b)
                  (out ++ slice (offset - start) (min (end - start) (length b)) b) s.1
                  (omega (arith, total)) k
                ∙ ap ok (
                    append_assoc out _ _
                    ∙ ap (λ t. out ++ t) (sym (slice_next b (concat bs) start offset end)))))
        | inr skipped ↦
            rw (before, skipped)
              (splice_all-slice block offset end bs (index + 1) (start + length b) out s.1
                  (omega (arith, total)) k
                ∙ ap (λ t. ok (out ++ t))
                    (sym (
                      slice_next b (concat bs) start offset end
                      ∙ ap
                          (λ t.
                            t
                            ++ slice (offset - (start + length b)) (end - (start + length b))
                                (concat bs))
                          (slice_empty (offset - start) (min (end - start) (length b)) b
                            (omega (arith, ltb→ge _ _ skipped))))))
      ]
    ])

sub_zero : (n : ℕ) → n - 0 ≡ n
sub_zero n = omega arith

end_lem :
    (offset len size : ℕ)
    → size < u64_mod
    → min (saturating_add offset len) size - 0 ≡ min (offset + len) size
end_lem offset len size h = omega arith

-- A read returns exactly the bytes `[offset, offset + len)` of the plaintext, cut at its end, when
-- the recorded sizes are those of the blocks and each block decrypts; the file's size fits a `u64`.
pub read_at-slice :
    (block : ℕ → Result Bytes) (bs : List Bytes) (offset len : ℕ)
    → Serves block 0 bs
    → length (concat bs) < u64_mod
    → read_at block (lengths bs) offset len ≡ ok (take len (drop offset (concat bs)))
unfolding read_at
read_at-slice block bs offset len s h = rw (length-concat bs h) (elim (Bool-cases (len == 0)) [
  | inl none_asked ↦
      rw none_asked (ap ok (sym (take-zero len (drop offset (concat bs)) (==→eq _ _ none_asked))))
  | inr asked ↦ elim (Bool-cases (leb (length (concat bs)) offset)) [
    | inl past ↦
        rw (asked, past, drop_past offset (concat bs) (leb→le _ _ past))
          (ap ok (sym (take-nil len)))
    | inr inside ↦
        rw (asked, inside)
          (splice_all-slice block offset (min (saturating_add offset len) (length (concat bs))) bs 0
              0 [] s (omega arith) (omega arith)
            ∙ ap ok (
                rw (end_lem offset len (length (concat bs)) h, sub_zero offset)
                  (slice-min offset len (concat bs))))
  ]
])
