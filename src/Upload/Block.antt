-- ===== src/Upload/Block.antt =====
-- `upload_one_block` (crates/proton-drive-rs/src/client.rs). What storing a blob at a target comes to on
-- each attempt and what a new preparation of the block answers are arguments.
pub mod Attempts
use proton_sdk_rs.Base.{
  ℕ, zero, suc, ◌+◌, ◌≤◌, String, ◌≡◌, refl, Bool, true, false, not, ◌&&◌, ◌||◌, Option, none, some,
  List, [], ◌∷◌, leb, ◌==◌, length, if◌then◌else◌, arith, Bool-cases, inl, inr, ◌⊎◌,
}
use proton_sdk_rs.Base.Int.{ℤ}
use proton_sdk_rs.Errors.{
  ProtonError, api, transport, Result, ok, err, invalid_operation, is_retriable, is_does_not_exist,
  ResponseCode,
}
use proton_sdk_rs.Upload.{BlockUploadTarget, BlockCreationRequest, UploadJob}
use proton_sdk_rs.Upload.Manifest.{Stored}

-- `MAX_BLOCK_UPLOAD_ATTEMPTS`
abbrev pub max_block_upload_attempts : ℕ
max_block_upload_attempts = 3

-- `MAX_CONCURRENT_BLOCK_UPLOADS`
abbrev pub max_concurrent_block_uploads : ℕ
max_concurrent_block_uploads = 5

-- `is_expired_upload_token`
unfoldable pub is_expired_upload_token : ProtonError → Bool
is_expired_upload_token (api e) = e.http_status == 404 || is_does_not_exist e.code
is_expired_upload_token _ = false

-- `is_upload_timeout`
unfoldable pub is_upload_timeout : ProtonError → Bool
is_upload_timeout (transport e) = e.is_timeout
is_upload_timeout _ = false

-- One attempt: the target it stored at and how much of the limiter it took.
pub record Attempt : Type 0 where
  pub target : BlockUploadTarget
  pub wanted : ℕ

pub record Upload : Type 0 where
  pub outcome : Result (Option Stored)
  pub attempts : List Attempt
  pub downshifted : Bool

-- What a failed attempt leads to.
pub data After : Type 0 where
  stop : ProtonError → After
  retry : BlockUploadTarget → Bool → After

abbrev wanted_slots : Bool → ℕ
wanted_slots downshifted = if downshifted then max_concurrent_block_uploads else 1

fresh_target : Result (List BlockUploadTarget) → Bool → After
fresh_target (err e) downshifted = stop e
fresh_target (ok []) downshifted =
    stop (invalid_operation "block upload preparation returned no target")
fresh_target (ok (target ∷ _)) downshifted = retry target downshifted

re_prepare :
    Result (List BlockUploadTarget)
    → UploadJob
    → BlockUploadTarget
    → Bool
    → Option BlockCreationRequest
    → After
unfolding fresh_target
re_prepare prepared job target downshifted none = retry target downshifted
re_prepare prepared job target downshifted (some request) = fresh_target prepared downshifted

-- The branches of the loop after an error: `prepared` is what a new preparation answers.
unfoldable pub after_failure :
    ℕ → UploadJob → BlockUploadTarget → Bool → Result (List BlockUploadTarget) → ProtonError → After
unfolding is_expired_upload_token is_upload_timeout re_prepare
after_failure attempt job target downshifted prepared error =
    if leb max_block_upload_attempts attempt
    then stop error
    else if not (is_retriable error)
    then stop error
    else if is_upload_timeout error
    then retry target true
    else if is_expired_upload_token error
    then re_prepare prepared job target downshifted job.request
    else retry target downshifted

abbrev stored_as : UploadJob → Option Stored
stored_as job = elim job.index [
  | none ↦ none
  | some n ↦ some (record { index = n; digest = job.digest })
]

attempted : Attempt → Option Upload → Option Upload
attempted attempt none = none
attempted attempt (some upload) = some (record upload { attempts = attempt ∷ upload.attempts })

next_target : BlockUploadTarget → After → BlockUploadTarget
next_target target (stop _) = target
next_target target (retry fresh _) = fresh

next_flag : Bool → After → Bool
next_flag flag (stop _) = flag
next_flag flag (retry _ downshifted) = downshifted

-- `Ok` and `Err` of an attempt
decide :
    UploadJob
    → ℕ
    → BlockUploadTarget
    → Bool
    → Result (List BlockUploadTarget)
    → Result {0} Unit
    → Option After
unfolding after_failure
decide job attempt target flag prepared (ok _) = none
decide job attempt target flag prepared (err e) =
    some (after_failure attempt job target flag prepared e)

-- `shared attempt`: whether another block of the file timed out before this attempt.
module _ (job : UploadJob) (post : ℕ → BlockUploadTarget → Result {0} Unit)
    (prepare : ℕ → Result (List BlockUploadTarget)) (shared : ℕ → Bool) where
  round : Attempt → Bool → Option After → Option Upload → Option Upload
  unfolding attempted
  round attempt flag none rest =
      some (record { outcome = ok (stored_as job); attempts = attempt ∷ []; downshifted = flag })
  round attempt flag (some (stop e)) rest =
      some (record { outcome = err e; attempts = attempt ∷ []; downshifted = flag })
  round attempt flag (some (retry _ _)) rest = attempted attempt rest

  or_stay : BlockUploadTarget → Option After → BlockUploadTarget
  unfolding next_target
  or_stay target none = target
  or_stay target (some after) = next_target target after

  or_keep : Bool → Option After → Bool
  unfolding next_flag
  or_keep flag none = flag
  or_keep flag (some after) = next_flag flag after

  -- The `loop` of `upload_one_block`, on fuel, from its `attempt`-th round on
  unfoldable pub upload_loop : ℕ → ℕ → BlockUploadTarget → Bool → Option Upload
  unfolding decide round or_stay or_keep
  upload_loop zero attempt target downshifted = none
  upload_loop (suc fuel) attempt target downshifted =
      let flag = downshifted || shared attempt in
      let after = decide job attempt target flag (prepare attempt) (post attempt target) in
      round (record { target = target; wanted = wanted_slots flag }) flag after
        (upload_loop fuel (attempt + 1) (or_stay target after) (or_keep flag after))

  -- `upload_one_block`
  unfoldable pub upload_one_block : Bool → Option Upload
  unfolding upload_loop
  upload_one_block downshifted = upload_loop max_block_upload_attempts 1 job.target downshifted

  -- How the last attempt ends an upload.
  abbrev pub Ends : ℕ → BlockUploadTarget → Result (Option Stored) → Type 0
  Ends n target outcome =
      ((post n target ≡ ok tt) × (outcome ≡ ok (stored_as job)))
      ⊎ ((e : ProtonError) × (outcome ≡ err e))

  -- Why an attempt was made after a failed one.
  abbrev pub Retried : ℕ → Attempt → Attempt → Type 0
  Retried n first second =
      (e : ProtonError) × (post n first.target ≡ err e)
      × (is_retriable e ≡ true)
      × (is_expired_upload_token e ≡ false → second.target ≡ first.target)
      × (is_upload_timeout e ≡ true → second.wanted ≡ max_concurrent_block_uploads)

  abbrev pub Trace : ℕ → List Attempt → Result (Option Stored) → Type 0
  Trace n [] outcome = ⊥
  Trace n (attempt ∷ []) outcome = Ends n attempt.target outcome
  Trace n (attempt ∷ next ∷ more) outcome =
      Retried n attempt next × Trace (n + 1) (next ∷ more) outcome
