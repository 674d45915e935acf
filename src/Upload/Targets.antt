-- ===== src/Upload/Targets.antt =====
-- Which target each block and thumbnail of a batch is stored at: `take_block_target`,
-- `take_thumbnail_target` and the first half of `upload_batch` (crates/proton-drive-rs/src/client.rs).
pub mod Own
use proton_sdk_rs.Base.{
  ℕ, ◌≡◌, refl, sym, ap, ap₂, ◌∙◌, Bool, true, false, Option, none, some, List, [], ◌∷◌, ◌++◌, map,
  arith, ◌⊎◌, inl, inr, Bool-cases, Option-cases, if◌then◌else◌,
}
use proton_sdk_rs.Base.Int.{ℤ, eqb_ℤ, eqb_ℤ→eq}
use proton_sdk_rs.Errors.{Result, ok, err, refuse, ◌>>=◌}
use proton_sdk_rs.Upload.{BlockUploadTarget, UploadJob, PreparedBlock, EncryptedThumbnail}
use mathlib.Core.List.{Permᴰ}
use mathlib.Core.List.Permᴰ

abbrev pub is_at : ℤ → Option ℤ → Bool
is_at n none = false
is_at n (some m) = eqb_ℤ m n

abbrev pub is_none : Option ℤ → Bool
is_none none = true
is_none (some _) = false

abbrev pub Taken : Type 0
Taken = Option (BlockUploadTarget × List BlockUploadTarget)

unfoldable pub kept : BlockUploadTarget → Taken → Taken
kept target none = none
kept target (some (taken, rest)) = some (taken, target ∷ rest)

-- The first target that passes the test, and the others: `position` and then `remove`.
unfoldable pub remove_first : (BlockUploadTarget → Bool) → List BlockUploadTarget → Taken
unfolding kept
remove_first test [] = none
remove_first test (target ∷ targets) =
    let later = remove_first test targets in
    if test target then some (target, targets) else kept target later

unfoldable pub or_else : Taken → Taken → Taken
or_else none other = other
or_else (some taken) other = some taken

-- `take_block_target`
unfoldable pub take_block_target : List BlockUploadTarget → ℤ → Taken
unfolding remove_first or_else
take_block_target targets n =
    or_else (remove_first (λ t. is_at n t.index) targets)
      (remove_first (λ t. is_none t.index) targets)

-- `take_thumbnail_target`
unfoldable pub take_thumbnail_target : List BlockUploadTarget → ℤ → Taken
unfolding remove_first or_else
take_thumbnail_target targets n =
    or_else (remove_first (λ t. is_at n t.thumbnail_type) targets)
      (remove_first (λ t. is_none t.thumbnail_type) targets)

abbrev pub thumbnail_job : EncryptedThumbnail → BlockUploadTarget → UploadJob
thumbnail_job thumbnail target = record {
  index = none;
  ciphertext = thumbnail.ciphertext;
  digest = thumbnail.digest;
  request = none;
  target = target;
}

abbrev pub block_job : PreparedBlock → BlockUploadTarget → UploadJob
block_job block target = record {
  index = some block.request.index;
  ciphertext = block.ciphertext;
  digest = block.digest;
  request = some block.request;
  target = target;
}

unfoldable pub add_job : UploadJob → Result (List UploadJob) → Result (List UploadJob)
add_job job (err e) = err e
add_job job (ok jobs) = ok (job ∷ jobs)

unfoldable pub rest_of : List BlockUploadTarget → Taken → List BlockUploadTarget
rest_of targets none = targets
rest_of targets (some (_, rest)) = rest

put_thumbnail : EncryptedThumbnail → Taken → Result (List UploadJob) → Result (List UploadJob)
unfolding add_job
put_thumbnail thumbnail none later = refuse "thumbnail upload preparation returned no target"
put_thumbnail thumbnail (some (target, _)) later = add_job (thumbnail_job thumbnail target) later

-- The `for` over the thumbnails of `upload_batch`
unfoldable pub thumbnail_jobs :
    List EncryptedThumbnail → List BlockUploadTarget → Result (List UploadJob)
unfolding put_thumbnail rest_of take_thumbnail_target
thumbnail_jobs [] targets = ok []
thumbnail_jobs (thumbnail ∷ more) targets =
    let taken = take_thumbnail_target targets thumbnail.thumbnail_type in
    put_thumbnail thumbnail taken (thumbnail_jobs more (rest_of targets taken))

unfoldable pub put_block : PreparedBlock → Taken → Result (List UploadJob) → Result (List UploadJob)
unfolding add_job
put_block block none later = refuse "block upload preparation returned no target for block"
put_block block (some (target, _)) later = add_job (block_job block target) later

-- The `for` over the blocks of `upload_batch`
unfoldable pub block_jobs : List PreparedBlock → List BlockUploadTarget → Result (List UploadJob)
unfolding put_block rest_of take_block_target
block_jobs [] targets = ok []
block_jobs (block ∷ more) targets =
    let taken = take_block_target targets block.request.index in
    put_block block taken (block_jobs more (rest_of targets taken))

-- The jobs of a batch: its thumbnails, and then its blocks.
unfoldable pub upload_jobs :
    List EncryptedThumbnail
    → List PreparedBlock
    → List BlockUploadTarget
    → List BlockUploadTarget
    → Result (List UploadJob)
unfolding thumbnail_jobs block_jobs
upload_jobs thumbnails batch thumbnail_targets block_targets =
    thumbnail_jobs thumbnails thumbnail_targets >>= λ first.
    block_jobs batch block_targets >>= λ second. ok (first ++ second)
