-- ===== src/Transport.antt =====
-- crates/proton-drive-rs/src/transport.rs, with the wire types of dtos.rs that it reads: the block
-- table of a revision, listed in pages, and the sizes of its blocks. The page index and the number of
-- the block that a page starts with are unbounded here and i32 in the source, which is enough for
-- fewer than 2^31 - 400 blocks.
pub mod Listing
pub mod Sizes
pub mod Renewal
use proton_sdk_rs.Base.{
  ℕ, zero, suc, ◌+◌, ◌-◌, ◌*◌, ◌^◌, min, String, Bool, true, false, Option, none, some, List, [],
  ◌∷◌, ◌++◌, length, ltb, leb, ◌==◌, ◌&&◌, if◌then◌else◌,
}
use proton_sdk_rs.Base.Int.{ℤ, pos, negsuc, eqb_ℤ, leb_ℤ}
use proton_sdk_rs.Base.Sort.{sort_by_key}
use proton_sdk_rs.Errors.{ProtonError, api, Result, ok, err, ◌>>=◌, refuse}

-- `BlockDto`
pub record BlockDto : Type 0 where
  pub index : ℤ
  pub bare_url : String
  pub token : String

-- `ThumbnailDto`
pub record ThumbnailDto : Type 0 where
  pub id : Option String
  pub thumbnail_type : ℤ
  pub hash_digest : Option String

-- `RevisionDto`, the payload of a `RevisionResponse`
pub record RevisionDto : Type 0 where
  pub id : String
  pub manifest_signature : Option String
  pub signature_email : Option String
  pub extended_attributes : Option String
  pub thumbnails : List ThumbnailDto
  pub blocks : List BlockDto

abbrev pub page_size : ℕ
page_size = 50

abbrev pub max_page_window : ℕ
max_page_window = 6

abbrev pub default_block_size : ℕ
default_block_size = 2 ^ 22

-- `is_session_expired`
unfoldable pub is_session_expired : ProtonError → Bool
is_session_expired (api e) = e.http_status == 401
is_session_expired _ = false

-- The closure `page` of `list_blocks`: the request for a page names its first block.
abbrev pub page {ℓ} : {A : Type ℓ} → (ℕ → A) → ℕ → A
page get page_index = get (page_index * page_size + 1)

module _ (get : ℕ → Result RevisionDto) where
  -- The responses of one batch, in order: `complete` and `blocks` are the loop's variables, and a
  -- page that fails ends the listing.
  unfoldable pub read_batch : ℕ → ℕ → Bool → List BlockDto → Result (Bool × List BlockDto)
  read_batch zero next_page complete blocks = ok (complete, blocks)
  read_batch (suc pages) next_page complete blocks = do
    revision ← page get next_page
    let page_blocks = revision.blocks
    let complete' = if complete then true else ltb (length page_blocks) page_size
    let blocks' = if complete then blocks else blocks ++ page_blocks
    read_batch pages (next_page + 1) complete' blocks'

  -- The `while !complete` loop, on fuel: `none` means that the fuel ran out.
  unfoldable pub read_pages : ℕ → ℕ → ℕ → Bool → List BlockDto → Option (Result (List BlockDto))
  unfolding read_batch
  read_pages zero next_page window complete blocks = none
  read_pages (suc fuel) next_page window true blocks = some (ok blocks)
  read_pages (suc fuel) next_page window false blocks =
      elim (read_batch window next_page false blocks) [
        | ok r ↦ read_pages fuel (next_page + window) (min (window * 2) max_page_window) r.0 r.1
        | err e ↦ some (err e)
      ]

-- The check that the indices run on from `offset + 1`.
unfoldable pub is_contiguous : ℕ → List BlockDto → Bool
is_contiguous offset [] = true
is_contiguous offset (b ∷ blocks) =
    eqb_ℤ b.index (pos (offset + 1)) && is_contiguous (offset + 1) blocks

abbrev pub block_index : BlockDto → ℤ
block_index b = b.index

-- What `list_blocks` does once it has every page.
unfoldable pub check_blocks : RevisionDto → List BlockDto → Result (RevisionDto × List BlockDto)
unfolding is_contiguous sort_by_key
check_blocks metadata blocks =
    let sorted = sort_by_key block_index blocks in
    if is_contiguous 0 sorted
    then ok (metadata, sorted)
    else refuse "file contents are incomplete (non-contiguous blocks)"

finish_listing :
    RevisionDto → Option (Result (List BlockDto)) → Option (Result (RevisionDto × List BlockDto))
finish_listing first none = none
finish_listing first (some listed) = some (listed >>= check_blocks (record first { blocks = [] }))

list_from :
    ℕ
    → (ℕ → Result RevisionDto)
    → Result RevisionDto
    → Option (Result (RevisionDto × List BlockDto))
unfolding finish_listing
list_from fuel get (err e) = some (err e)
list_from fuel get (ok first) =
    let complete = ltb (length first.blocks) page_size in
    finish_listing first (read_pages get fuel 1 2 complete first.blocks)

-- `RevisionTransport::list_blocks`; `get i` is the answer to the request from block `i` on.
unfoldable pub list_blocks :
    ℕ → (ℕ → Result RevisionDto) → Option (Result (RevisionDto × List BlockDto))
unfolding list_from
list_blocks fuel get = list_from fuel get (page get 0)
