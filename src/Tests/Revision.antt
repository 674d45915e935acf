-- ===== src/Tests/Revision.antt =====
-- A revision of two blocks, whose first URL has expired.
use proton_sdk_rs.Base.{
  ℕ, zero, suc, ◌+◌, ◌≤◌, ◌≡◌, refl, String, none, some, List, [], ◌∷◌, str_eq, if◌then◌else◌,
  arith,
}
use proton_sdk_rs.Base.Int.{pos}
use proton_sdk_rs.Errors.{ResponseCode, ProtonError, api, Result, ok, err}
use proton_sdk_rs.Transport.{BlockDto}
use proton_sdk_rs.Transport.Sizes.{rank_block_sizes}
use proton_sdk_rs.Transport.Sizes.Standard.{only_size, blocks_of, read_at-only_size}
use proton_sdk_rs.Revision.{Bytes, read_at}
use proton_sdk_rs.Revision.Read.{lengths, read_at-slice}
use proton_sdk_rs.Revision.Targets.{Targets, new, refresh_all, ciphertext}
use proton_sdk_rs.Revision.Targets.Recovery.{IsValid, ciphertext-IsValid, refresh_all_once}

abbrev two_blocks : List Bytes
two_blocks = (1 ∷ 2 ∷ 3 ∷ []) ∷ (4 ∷ 5 ∷ []) ∷ []

abbrev block_of : ℕ → Result Bytes
block_of zero = ok (1 ∷ 2 ∷ 3 ∷ [])
block_of (suc _) = ok (4 ∷ 5 ∷ [])

read_at-slice_example : read_at block_of (lengths two_blocks) 2 2 ≡ ok (3 ∷ 4 ∷ [])
read_at-slice_example = read_at-slice block_of two_blocks 2 2 (refl, (refl, tt)) (omega arith)

read_at-only_size_example :
    (sizes : List ℕ) × (rank_block_sizes (some (only_size 3)) 1 ≡ ok sizes)
    × (read_at (λ _. ok (1 ∷ 2 ∷ 3 ∷ [])) sizes 1 5 ≡ ok (2 ∷ 3 ∷ []))
unfolding blocks_of
read_at-only_size_example =
    read_at-only_size (λ _. ok (1 ∷ 2 ∷ 3 ∷ [])) (1 ∷ 2 ∷ 3 ∷ []) 1 1 5 (omega arith) (omega arith)
      (refl, tt)

abbrev stale : BlockDto
stale = record { index = pos 1; bare_url = "old"; token = "a" }

abbrev fresh : BlockDto
fresh = record { index = pos 1; bare_url = "new"; token = "b" }

abbrev gone : ProtonError
gone =
    api (record {
      code = ResponseCode.does_not_exist;
      http_status = 404;
      message = "";
      details = none;
    })

abbrev storage : String → String → Result Bytes
storage url token = if str_eq url "new" then ok (7 ∷ []) else err gone

abbrev opened : Targets
opened = new (stale ∷ []) 1

opened-IsValid : IsValid opened
unfolding new
opened-IsValid = record { complete = refl; bounded = omega arith }

ciphertext-IsValid_example :
    IsValid (ciphertext (λ _. ok (fresh ∷ [])) storage 0 opened).1
    × ((ciphertext (λ _. ok (fresh ∷ [])) storage 0 opened).1.listings ≤ opened.listings + 1)
ciphertext-IsValid_example =
    ciphertext-IsValid (λ _. ok (fresh ∷ [])) storage 0 opened opened-IsValid

refresh_all_once_example :
    refresh_all (λ _. ok (fresh ∷ [])) (0 ∷ 0 ∷ 0 ∷ []) opened
    ≡ record { blocks = fresh ∷ []; generation = 1; expected_blocks = 1; listings = 1 }
unfolding new
refresh_all_once_example =
    refresh_all_once (λ _. ok (fresh ∷ [])) (0 ∷ 0 ∷ []) opened (fresh ∷ []) opened-IsValid
      (refl, (refl, tt)) refl refl
