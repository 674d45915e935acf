-- ===== src/Tests/Upload.antt =====
-- A batch of two blocks that finish in the other order, and a block whose upload token expires.
use proton_sdk_rs.Base.{ℕ, zero, suc, ◌≡◌, refl, String, false, Option, none, some, List, [], ◌∷◌}
use proton_sdk_rs.Base.Int.{ℤ, pos}
use proton_sdk_rs.Errors.{ResponseCode, ProtonError, api, Result, ok, err}
use proton_sdk_rs.Upload.{BlockUploadTarget, PreparedBlock, UploadJob}
use proton_sdk_rs.Upload.Manifest.{
  Stored, assemble_manifest, assemble_manifest-perm, concat_digests,
}
use proton_sdk_rs.Upload.Targets.{block_jobs, block_job}
use proton_sdk_rs.Upload.Targets.Own.{Assigned, block_jobs-Assigned}
use proton_sdk_rs.Upload.Block.{upload_one_block, max_block_upload_attempts}
use proton_sdk_rs.Upload.Block.Attempts.{Uploads, upload_one_block-Uploads}
use mathlib.Core.List.{Permᴰ}

abbrev first_stored : Stored
first_stored = record { index = pos 1; digest = 10 ∷ [] }

abbrev second_stored : Stored
second_stored = record { index = pos 2; digest = 20 ∷ [] }

assemble_manifest-perm_example :
    assemble_manifest ((1 ∷ []) ∷ []) (second_stored ∷ first_stored ∷ []) ≡ 1 ∷ 10 ∷ 20 ∷ []
unfolding concat_digests
assemble_manifest-perm_example =
    assemble_manifest-perm ((1 ∷ []) ∷ []) ((10 ∷ []) ∷ (20 ∷ []) ∷ [])
      (second_stored ∷ first_stored ∷ []) (Permᴰ.swap refl refl)

abbrev target_at : Option ℤ → String → BlockUploadTarget
target_at index url = record {
  bare_url = url;
  token = "token";
  index = index;
  thumbnail_type = none;
}

abbrev block_at : ℕ → PreparedBlock
block_at n = record {
  ciphertext = n ∷ [];
  digest = [];
  request = record {
    index = pos n;
    size = pos 1;
    encrypted_signature = "";
    hash = "";
    verifier_token = "";
  };
}

abbrev batch : List PreparedBlock
batch = block_at 1 ∷ block_at 2 ∷ []

abbrev swapped_targets : List BlockUploadTarget
swapped_targets = target_at (some (pos 2)) "b" ∷ target_at (some (pos 1)) "a" ∷ []

abbrev plain_targets : List BlockUploadTarget
plain_targets = target_at none "a" ∷ target_at none "b" ∷ []

block_jobs-Assigned_example : Assigned batch swapped_targets (block_jobs batch swapped_targets)
block_jobs-Assigned_example = block_jobs-Assigned batch swapped_targets

abbrev expired : ProtonError
expired =
    api (record {
      code = ResponseCode.does_not_exist;
      http_status = 404;
      message = "";
      details = none;
    })

abbrev storing : ℕ → BlockUploadTarget → Result {0} Unit
storing zero target = ok tt
storing (suc zero) target = err expired
storing (suc (suc n)) target = ok tt

abbrev job : UploadJob
job = block_job (block_at 1) (target_at (some (pos 1)) "a")

upload_one_block-Uploads_example :
    Uploads job storing
      (λ _. ok plain_targets)
      (λ _. false)
      max_block_upload_attempts
      1
      job.target
      false
      (upload_one_block job storing (λ _. ok plain_targets) (λ _. false) false)
upload_one_block-Uploads_example =
    upload_one_block-Uploads job storing (λ _. ok plain_targets) (λ _. false) false
