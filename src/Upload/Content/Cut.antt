-- ===== src/Upload/Content/Cut.antt =====
-- How `encrypt_content_blocks` of crates/proton-drive-rs/src/client.rs cuts what it reads, whatever the
-- sizes of the single reads and the permits.
use proton_sdk_rs.Base.{
  ℕ, zero, suc, ◌-◌, ◌≤◌, ◌<◌, ◌≡◌, refl, ap, ◌∙◌, sym, List, [], ◌∷◌, ◌++◌, append-nil,
  append_assoc, length, take, drop, length-drop, length-take, leb, leb→le, leb→gt, arith,
  Bool-cases, inl, inr, take-append-drop, concat,
}
use proton_sdk_rs.Errors.{Result, ok}
use proton_sdk_rs.Revision.{Bytes}
use proton_sdk_rs.Upload.Content.{Piece, bytes, interrupted, failed, fill_buffer, read_full_block}

-- A reader that does not fail, and gives no bytes only at its end.
abbrev pub AllRead : List Piece → Type 0
AllRead [] = Unit
AllRead (bytes [] ∷ reader) = ⊥
AllRead (bytes (b ∷ bs) ∷ reader) = AllRead reader
AllRead (interrupted ∷ reader) = AllRead reader
AllRead (failed ∷ reader) = ⊥

-- What it holds
abbrev pub contents : List Piece → Bytes
contents [] = []
contents (bytes bs ∷ reader) = bs ++ contents reader
contents (interrupted ∷ reader) = contents reader
contents (failed ∷ reader) = contents reader

take-append :
    (n : ℕ) (xs ys : Bytes) → length xs ≤ n → take n (xs ++ ys) ≡ xs ++ take (n - length xs) ys
take-append n [] ys h = let e : n - 0 ≡ n = omega arith in rw e refl
take-append zero (x ∷ xs) ys h = absurd (omega arith)
take-append (suc n) (x ∷ xs) ys h =
    let e : suc n - suc (length xs) ≡ n - length xs = omega arith in
    rw e (ap (λ rest. x ∷ rest) (take-append n xs ys (omega arith)))

drop-append : (n : ℕ) (xs ys : Bytes) → length xs ≤ n → drop n (xs ++ ys) ≡ drop (n - length xs) ys
drop-append n [] ys h = let e : n - 0 ≡ n = omega arith in rw e refl
drop-append zero (x ∷ xs) ys h = absurd (omega arith)
drop-append (suc n) (x ∷ xs) ys h =
    let e : suc n - suc (length xs) ≡ n - length xs = omega arith in
    rw e (drop-append n xs ys (omega arith))

take-append_short : (n : ℕ) (xs ys : Bytes) → n ≤ length xs → take n (xs ++ ys) ≡ take n xs
take-append_short zero xs ys h = refl
take-append_short (suc n) [] ys h = absurd (omega arith)
take-append_short (suc n) (x ∷ xs) ys h =
    ap (λ rest. x ∷ rest) (take-append_short n xs ys (omega arith))

drop-append_short : (n : ℕ) (xs ys : Bytes) → n ≤ length xs → drop n (xs ++ ys) ≡ drop n xs ++ ys
drop-append_short zero xs ys h = refl
drop-append_short (suc n) [] ys h = absurd (omega arith)
drop-append_short (suc n) (x ∷ xs) ys h = drop-append_short n xs ys (omega arith)

-- What a full read leaves.
abbrev pub Fills : ℕ → Bytes → List Piece → Result (Bytes × List Piece) → Type 0
Fills room out reader filled =
    (rest : List Piece) × (filled ≡ ok (out ++ take room (contents reader), rest))
    × (contents rest ≡ drop room (contents reader))
    × AllRead rest

drop-AllRead :
    (n : ℕ) (bs : Bytes) (reader : List Piece)
    → n < length bs
    → AllRead reader
    → AllRead (bytes (drop n bs) ∷ reader)
drop-AllRead n [] reader h read = absurd (omega arith)
drop-AllRead zero (b ∷ bs) reader h read = read
drop-AllRead (suc n) (b ∷ bs) reader h read = drop-AllRead n bs reader (omega arith) read

fill_buffer-Fills :
    (room : ℕ) (reader : List Piece) (out : Bytes)
    → AllRead reader
    → Fills room out reader (fill_buffer room reader out)
unfolding fill_buffer
fill_buffer-Fills zero [] out read = ([], ap (λ o. ok (o, [])) (sym (append-nil out)), refl, tt)
fill_buffer-Fills (suc room) [] out read =
    ([], ap (λ o. ok (o, [])) (sym (append-nil out)), refl, tt)
fill_buffer-Fills zero (piece ∷ reader) out read =
    (piece ∷ reader, ap (λ o. ok (o, piece ∷ reader)) (sym (append-nil out)), refl, read)
fill_buffer-Fills (suc room) (interrupted ∷ reader) out read =
    fill_buffer-Fills (suc room) reader out read
fill_buffer-Fills (suc room) (failed ∷ reader) out read = absurd read
fill_buffer-Fills (suc room) (bytes [] ∷ reader) out read = absurd read
fill_buffer-Fills (suc room) (bytes (b ∷ bs) ∷ reader) out read =
    let piece = b ∷ bs in
    elim (Bool-cases (leb (length (b ∷ bs)) (suc room))) [
      | inl whole ↦
          let fits = leb→le (length (b ∷ bs)) (suc room) whole in
          let (rest, same, left, ends) =
            fill_buffer-Fills (suc room - length (b ∷ bs)) reader (out ++ (b ∷ bs)) read in
          (
            rest,
            rw whole (
                same
                ∙ ap (λ o. ok (o, rest))
                    (append_assoc out (b ∷ bs) (take (suc room - length (b ∷ bs)) (contents reader))
                      ∙ ap (λ t. out ++ t)
                          (sym (take-append (suc room) (b ∷ bs) (contents reader) fits)))),
            left ∙ sym (drop-append (suc room) (b ∷ bs) (contents reader) fits),
            ends,
          )
      | inr part ↦
          let more = leb→gt (length (b ∷ bs)) (suc room) part in
          (
            bytes (drop (suc room) (b ∷ bs)) ∷ reader,
            rw part (
                ap (λ t. ok (out ++ t, bytes (drop (suc room) (b ∷ bs)) ∷ reader))
                  (sym (take-append_short (suc room) (b ∷ bs) (contents reader) (omega arith)))),
            sym (drop-append_short (suc room) (b ∷ bs) (contents reader) (omega arith)),
            drop-AllRead (suc room) (b ∷ bs) reader more read,
          )
    ]

-- `read_full_block` reads exactly the next `size` bytes, or those that are left, however the reader
-- hands them out.
pub read_full_block-Fills :
    (size : ℕ) (reader : List Piece)
    → AllRead reader
    → Fills size [] reader (read_full_block size reader)
unfolding read_full_block
read_full_block-Fills size reader read = fill_buffer-Fills size reader [] read

-- The content cut into blocks of `size` bytes, the last of which may be shorter; at most `count`
unfoldable pub cut_all : ℕ → ℕ → Bytes → List Bytes
cut_all size zero content = []
cut_all size (suc count) [] = []
cut_all size (suc count) (c ∷ content) =
    take size (c ∷ content) ∷ cut_all size count (drop size (c ∷ content))

abbrev pub standard_blocks : ℕ → Bytes → List Bytes
standard_blocks size content = cut_all size (length content) content

pub standard_blocks_nil : (size : ℕ) → standard_blocks size [] ≡ []
unfolding cut_all
standard_blocks_nil size = refl

cut_all_enough :
    (size m n : ℕ) (content : Bytes)
    → 1 ≤ size
    → length content ≤ m
    → length content ≤ n
    → cut_all size m content ≡ cut_all size n content
unfolding cut_all
cut_all_enough size zero zero content one h k = refl
cut_all_enough size zero (suc n) [] one h k = refl
cut_all_enough size (suc m) zero [] one h k = refl
cut_all_enough size (suc m) (suc n) [] one h k = refl
cut_all_enough size zero n (c ∷ content) one h k = absurd (omega arith)
cut_all_enough size (suc m) zero (c ∷ content) one h k = absurd (omega arith)
cut_all_enough size (suc m) (suc n) (c ∷ content) one h k =
    ap (λ rest. take size (c ∷ content) ∷ rest)
      (cut_all_enough size m n (drop size (c ∷ content)) one
        (omega (arith, length-drop size (c ∷ content)))
        (omega (arith, length-drop size (c ∷ content))))

-- The first block of a content that is not empty
pub standard_blocks-cons :
    (size c : ℕ) (content : Bytes)
    → 1 ≤ size
    → standard_blocks size (c ∷ content)
      ≡ take size (c ∷ content) ∷ standard_blocks size (drop size (c ∷ content))
unfolding cut_all
standard_blocks-cons size c content one =
    ap (λ rest. take size (c ∷ content) ∷ rest)
      (cut_all_enough size (length content) (length (drop size (c ∷ content)))
        (drop size (c ∷ content)) one (omega (arith, length-drop size (c ∷ content))) (omega arith))

cut_all-concat :
    (size n : ℕ) (content : Bytes)
    → 1 ≤ size
    → length content ≤ n
    → concat (cut_all size n content) ≡ content
unfolding cut_all
cut_all-concat size zero [] one h = refl
cut_all-concat size zero (c ∷ content) one h = absurd (omega arith)
cut_all-concat size (suc n) [] one h = refl
cut_all-concat size (suc n) (c ∷ content) one h =
    ap (λ rest. take size (c ∷ content) ++ rest)
      (cut_all-concat size n (drop size (c ∷ content)) one
        (omega (arith, length-drop size (c ∷ content))))
    ∙ take-append-drop size (c ∷ content)

pub standard_blocks-concat :
    (size : ℕ) (content : Bytes) → 1 ≤ size → concat (standard_blocks size content) ≡ content
standard_blocks-concat size content one =
    cut_all-concat size (length content) content one (omega arith)

-- Blocks that are not empty, and no longer than this.
abbrev pub AllWithin : ℕ → List Bytes → Type 0
AllWithin top [] = Unit
AllWithin top (block ∷ blocks) = (1 ≤ length block) × (length block ≤ top) × AllWithin top blocks

cut_all-AllWithin :
    (n count : ℕ) (content : Bytes) → AllWithin (suc n) (cut_all (suc n) count content)
unfolding cut_all
cut_all-AllWithin n zero content = tt
cut_all-AllWithin n (suc count) [] = tt
cut_all-AllWithin n (suc count) (c ∷ content) =
    (omega arith, omega (arith, length-take n content), cut_all-AllWithin n count (drop n content))

pub standard_blocks-AllWithin :
    (n : ℕ) (content : Bytes) → AllWithin (suc n) (standard_blocks (suc n) content)
standard_blocks-AllWithin n content = cut_all-AllWithin n (length content) content
