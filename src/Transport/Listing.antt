-- ===== src/Transport/Listing.antt =====
-- The block listing: what it returns, and that it ends.
use native.Mathlib.Nat.{add-zero}
use proton_sdk_rs.Base.{
  ℕ, zero, suc, ◌+◌, ◌-◌, ◌*◌, ◌≤◌, ◌<◌, ◌≡◌, refl, ap, ◌∙◌, sym, min, Bool, true, false, Option,
  none, some, List, [], ◌∷◌, ◌++◌, length, take, drop, ltb, Bool-cases, arith, inl, inr, ◌⊎◌,
  ltb→lt, ltb→ge, lt→ltb, ge→ltb, length-take, length-drop, take-add, take_of_length-le,
}
use proton_sdk_rs.Base.Int.{pos, eqb_ℤ→eq, eqb_ℤ_refl}
use proton_sdk_rs.Base.Sort.{sort_by_key, sort_by_key_sorted, IsSorted, Below}
use proton_sdk_rs.Errors.{ProtonError, Result, ok, err}
use proton_sdk_rs.Transport.{
  BlockDto, RevisionDto, page, page_size, max_page_window, read_batch, read_pages, is_contiguous,
  block_index, check_blocks, finish_listing, list_from, list_blocks,
}

-- The blocks are numbered from `offset + 1` on.
abbrev pub Numbered : ℕ → List BlockDto → Type 0
Numbered offset [] = Unit
Numbered offset (b ∷ blocks) = (b.index ≡ pos (offset + 1)) × Numbered (offset + 1) blocks

is_contiguous-Numbered :
    (offset : ℕ) (blocks : List BlockDto)
    → is_contiguous offset blocks ≡ true
    → Numbered offset blocks
unfolding is_contiguous
is_contiguous-Numbered offset [] h = tt
is_contiguous-Numbered offset (b ∷ blocks) h = (
  ground (arith, eqb_ℤ→eq b.index (pos (offset + 1))),
  is_contiguous-Numbered (offset + 1) blocks (ground arith),
)

Numbered-is_contiguous :
    (offset : ℕ) (blocks : List BlockDto)
    → Numbered offset blocks
    → is_contiguous offset blocks ≡ true
unfolding is_contiguous
Numbered-is_contiguous offset [] h = refl
Numbered-is_contiguous offset (b ∷ blocks) h =
    rw (h.0, Numbered-is_contiguous (offset + 1) blocks h.1, eqb_ℤ_refl (pos (offset + 1)))

Numbered-Below :
    (low offset : ℕ) (blocks : List BlockDto)
    → low ≤ offset + 1
    → Numbered offset blocks
    → Below block_index (pos low) blocks
Numbered-Below low offset [] l h = tt
Numbered-Below low offset (b ∷ blocks) l h =
    (rw h.0 (omega arith), Numbered-Below low (offset + 1) blocks (omega arith) h.1)

Numbered-IsSorted :
    (offset : ℕ) (blocks : List BlockDto) → Numbered offset blocks → IsSorted block_index blocks
Numbered-IsSorted offset [] h = tt
Numbered-IsSorted offset (b ∷ blocks) h = (
  rw h.0 (Numbered-Below (offset + 1) (offset + 1) blocks (omega arith) h.1),
  Numbered-IsSorted (offset + 1) blocks h.1,
)

check_blocks_sorted :
    (metadata : RevisionDto) (blocks : List BlockDto)
    → Numbered 0 blocks
    → check_blocks metadata blocks ≡ ok (metadata, blocks)
unfolding check_blocks
check_blocks_sorted metadata blocks h = rw (
  sort_by_key_sorted block_index blocks (Numbered-IsSorted 0 blocks h),
  Numbered-is_contiguous 0 blocks h,
)

-- Whatever the pages hold, a listing that succeeds is numbered from 1 on without a gap.
check_blocks-Numbered :
    (metadata : RevisionDto) (blocks : List BlockDto) {r : RevisionDto × List BlockDto}
    → check_blocks metadata blocks ≡ ok r
    → Numbered 0 r.1
unfolding check_blocks
check_blocks-Numbered metadata blocks {r} h =
    elim (Bool-cases (is_contiguous 0 (sort_by_key block_index blocks))) [
      | inl good ↦
          let e : r.1 ≡ sort_by_key block_index blocks = ground arith in
          rw e (is_contiguous-Numbered 0 (sort_by_key block_index blocks) good)
      | inr bad ↦ absurd (ground arith)
    ]

-- The pages are cut from one table, 50 blocks to a page.
abbrev pub ServesTable : (ℕ → Result RevisionDto) → List BlockDto → Type 0
ServesTable get table =
    (k : ℕ)
    → (r : RevisionDto) × (page get k ≡ ok r)
      × (r.blocks ≡ take page_size (drop (k * page_size) table))

-- The loop's state before page `next`: the table up to that page, or all of it.
abbrev Progress : List BlockDto → ℕ → Bool → List BlockDto → Type 0
Progress table next complete blocks =
    ((complete ≡ true) × (blocks ≡ table))
    ⊎ ((complete ≡ false)
        × (blocks ≡ take (next * page_size) table)
        × (next * page_size ≤ length table))

next_page_Progress :
    (table page_blocks : List BlockDto) (next : ℕ)
    → page_blocks ≡ take page_size (drop (next * page_size) table)
    → next * page_size ≤ length table
    → Progress table
        (next + 1)
        (ltb (length page_blocks) page_size)
        (take (next * page_size) table ++ page_blocks)
next_page_Progress table page_blocks next e h =
    let grown : take (next * page_size) table ++ page_blocks ≡ take ((next + 1) * page_size) table =
      ap (λ t. take (next * page_size) table ++ t) e
      ∙ sym (take-add (next * page_size) page_size table)
      ∙ ap (λ k. take k table) (omega arith) in
    let size : length page_blocks ≡ min page_size (length table - next * page_size) =
      ap length e
      ∙ length-take page_size (drop (next * page_size) table)
      ∙ ap (min page_size) (length-drop (next * page_size) table) in
    elim (Bool-cases (ltb (length page_blocks) page_size)) [
      | inl short ↦ inl (
        short,
        grown ∙ take_of_length-le ((next + 1) * page_size) table (omega (arith, ltb→lt _ _ short)),
      )
      | inr full ↦ inr (full, grown, omega (arith, ltb→ge _ _ full))
    ]

shift : (m n : ℕ) → m + suc n ≡ m + 1 + n
shift m n = omega arith

module _ (get : ℕ → Result RevisionDto) (table : List BlockDto)
    (serves : ServesTable get table) where
  read_batch-Progress :
      (pages next : ℕ) (complete : Bool) (blocks : List BlockDto)
      → Progress table next complete blocks
      → (r : Bool × List BlockDto) × (read_batch get pages next complete blocks ≡ ok r)
        × Progress table (next + pages) r.0 r.1
  unfolding read_batch
  read_batch-Progress zero next complete blocks p = ((complete, blocks), refl, rw (add-zero next) p)
  read_batch-Progress (suc pages) next true blocks (inl (c, b)) =
      let (r, got, cut) = serves next in
      let (x, run, p) = read_batch-Progress pages (next + 1) true blocks (inl (refl, b)) in
      (x, rw got run, rw (shift next pages) p)
  read_batch-Progress (suc pages) next true blocks (inr (c, b, l)) = cc
  read_batch-Progress (suc pages) next false blocks (inl (c, b)) = cc
  read_batch-Progress (suc pages) next false blocks (inr (c, b, l)) =
      let (r, got, cut) = serves next in
      let (x, run, p) =
        read_batch-Progress pages (next + 1) (ltb (length r.blocks) page_size) (blocks ++ r.blocks)
          (rw b (next_page_Progress table r.blocks next cut l)) in
      (x, rw got run, rw (shift next pages) p)

  -- With more fuel than blocks the loop ends with the whole table.
  read_pages-table :
      (fuel next window : ℕ) (complete : Bool) (blocks : List BlockDto)
      → 0 < window
      → 0 < fuel
      → length table + 1 < next * page_size + fuel
      → Progress table next complete blocks
      → read_pages get fuel next window complete blocks ≡ some (ok table)
  unfolding read_pages
  read_pages-table zero next window complete blocks w f m p = absurd (omega arith)
  read_pages-table (suc fuel) next window true blocks w f m (inl (c, b)) = rw b
  read_pages-table (suc fuel) next window true blocks w f m (inr (c, b, l)) = cc
  read_pages-table (suc fuel) next window false blocks w f m (inl (c, b)) = cc
  read_pages-table (suc fuel) next window false blocks w f m (inr (c, b, l)) =
      let (r, run, p) = read_batch-Progress window next false blocks (inr (c, b, l)) in
      rw (run, read_pages)
        (read_pages-table fuel (next + window) (min (window * 2) max_page_window) r.0 r.1
          (omega arith) (omega arith) (omega arith) p)

  -- When the pages are cut from one table that is numbered from 1 on, the listing ends within as
  -- much fuel as the table has blocks plus one, and returns exactly the table, in order, with the
  -- metadata of the first page.
  pub list_blocks-table :
      (fuel : ℕ) (first : RevisionDto)
      → page get 0 ≡ ok first
      → length table < fuel
      → Numbered 0 table
      → list_blocks fuel get ≡ some (ok (record first { blocks = [] }, table))
  unfolding list_blocks
  list_blocks-table fuel first got f n =
      let (r, got', cut) = serves 0 in
      let same : r ≡ first = ground arith in
      let start : first.blocks ≡ take page_size table =
        ap (λ (t : RevisionDto). t.blocks) (sym same) ∙ cut in
      let p : Progress table 1 (ltb (length first.blocks) page_size) first.blocks =
        next_page_Progress table first.blocks 0 start (omega arith) in
      let all =
        read_pages-table fuel 1 2 (ltb (length first.blocks) page_size) first.blocks (omega arith)
          (omega arith) (omega arith) p in
      rw (got, all) (ap some (check_blocks_sorted (record first { blocks = [] }) table n))

-- A listing that succeeds returns blocks numbered from 1 on without a gap, whatever the pages held.
pub list_blocks-Numbered :
    (fuel : ℕ) (get : ℕ → Result RevisionDto) (metadata : RevisionDto) (blocks : List BlockDto)
    → list_blocks fuel get ≡ some (ok (metadata, blocks))
    → Numbered 0 blocks
unfolding list_blocks
list_blocks-Numbered fuel get metadata blocks h = go (page get 0) h
  where
    finished :
        (first : RevisionDto) (listed : Option (Result (List BlockDto)))
        → finish_listing first listed ≡ some (ok (metadata, blocks))
        → Numbered 0 blocks
    finished first none h = absurd (ground arith)
    finished first (some (err e)) h = absurd (ground arith)
    finished first (some (ok bs)) h =
        check_blocks-Numbered (record first { blocks = [] }) bs {r = (metadata, blocks)}
          (ground arith)

    go :
        (first : Result RevisionDto)
        → list_from fuel get first ≡ some (ok (metadata, blocks))
        → Numbered 0 blocks
    go (err e) h = absurd (ground arith)
    go (ok first) h = finished first _ h

-- A page past the end of the table still counts: when page 0 is full, page 1 is short, so that the
-- table is complete, and page 2, which the first batch asks for as well, fails, the listing fails.
pub list_blocks_surplus :
    (fuel : ℕ) (get : ℕ → Result RevisionDto) (first second : RevisionDto) (e : ProtonError)
    → page get 0 ≡ ok first
    → page get 1 ≡ ok second
    → page get 2 ≡ err e
    → length first.blocks ≡ page_size
    → length second.blocks < page_size
    → list_blocks (suc fuel) get ≡ some (err e)
unfolding list_blocks read_pages read_batch
list_blocks_surplus fuel get first second e p q r full short =
    let batch : read_batch get 2 1 false first.blocks ≡ err e =
      rw (q, lt→ltb (length second.blocks) page_size short, r) in
    rw (p, ge→ltb (length first.blocks) page_size (omega arith), batch, read_pages)
