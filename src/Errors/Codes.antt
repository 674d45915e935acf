-- ===== src/Errors/Codes.antt =====
-- `ResponseCode::from_raw` of crates/proton-sdk/src/api.rs, and the numbers that the codes stand for.
use proton_sdk_rs.Base.{ℕ, ◌≡◌, ◌≢◌, ◌↔◌, refl, sym, ◌⊎◌, arith, ◌==◌, if◌then◌else◌}
use proton_sdk_rs.Base.Int.{ℤ, pos, negsuc}
use proton_sdk_rs.Errors.{ResponseCode}

-- The discriminants of `ResponseCode`.
unfoldable pub raw : ResponseCode → ℕ
raw ResponseCode.unknown = 0
raw ResponseCode.unauthorized = 401
raw ResponseCode.forbidden = 403
raw ResponseCode.request_timeout = 408
raw ResponseCode.too_many_requests = 429
raw ResponseCode.service_unavailable = 503
raw ResponseCode.success = 1000
raw ResponseCode.multiple_responses = 1001
raw ResponseCode.invalid_requirements = 2000
raw ResponseCode.invalid_value = 2001
raw ResponseCode.not_enough_permissions = 2011
raw ResponseCode.not_enough_permissions_to_grant_permissions = 2026
raw ResponseCode.blocked = 2028
raw ResponseCode.invalid_encrypted_id_format = 2061
raw ResponseCode.already_exists = 2500
raw ResponseCode.does_not_exist = 2501
raw ResponseCode.timeout = 2503
raw ResponseCode.incompatible_state = 2511
raw ResponseCode.invalid_app = 5002
raw ResponseCode.outdated_app = 5003
raw ResponseCode.offline = 7001
raw ResponseCode.incorrect_login_credentials = 8002
raw ResponseCode.human_verification_required = 9001
raw ResponseCode.insufficient_scope = 9101
raw ResponseCode.account_deleted = 10002
raw ResponseCode.account_disabled = 10003
raw ResponseCode.invalid_refresh_token = 10013
raw ResponseCode.no_active_subscription = 22110
raw ResponseCode.address_missing = 33102
raw ResponseCode.domain_external = 33103
raw ResponseCode.proton_drive_unknown = 200000
raw ResponseCode.insufficient_quota = 200001
raw ResponseCode.insufficient_space = 200002
raw ResponseCode.insufficient_volume_quota = 200100
raw ResponseCode.too_many_children = 200300
raw ResponseCode.nesting_too_deep = 200301
raw ResponseCode.album_contains_photos_not_in_timeline = 200302

from_nat : ℕ → ResponseCode
from_nat n =
    if n == 401
    then ResponseCode.unauthorized
    else if n == 403
    then ResponseCode.forbidden
    else if n == 408
    then ResponseCode.request_timeout
    else if n == 429
    then ResponseCode.too_many_requests
    else if n == 503
    then ResponseCode.service_unavailable
    else if n == 1000
    then ResponseCode.success
    else if n == 1001
    then ResponseCode.multiple_responses
    else if n == 2000
    then ResponseCode.invalid_requirements
    else if n == 2001
    then ResponseCode.invalid_value
    else if n == 2011
    then ResponseCode.not_enough_permissions
    else if n == 2026
    then ResponseCode.not_enough_permissions_to_grant_permissions
    else if n == 2028
    then ResponseCode.blocked
    else if n == 2061
    then ResponseCode.invalid_encrypted_id_format
    else if n == 2500
    then ResponseCode.already_exists
    else if n == 2501
    then ResponseCode.does_not_exist
    else if n == 2503
    then ResponseCode.timeout
    else if n == 2511
    then ResponseCode.incompatible_state
    else if n == 5002
    then ResponseCode.invalid_app
    else if n == 5003
    then ResponseCode.outdated_app
    else if n == 7001
    then ResponseCode.offline
    else if n == 8002
    then ResponseCode.incorrect_login_credentials
    else if n == 9001
    then ResponseCode.human_verification_required
    else if n == 9101
    then ResponseCode.insufficient_scope
    else if n == 10002
    then ResponseCode.account_deleted
    else if n == 10003
    then ResponseCode.account_disabled
    else if n == 10013
    then ResponseCode.invalid_refresh_token
    else if n == 22110
    then ResponseCode.no_active_subscription
    else if n == 33102
    then ResponseCode.address_missing
    else if n == 33103
    then ResponseCode.domain_external
    else if n == 200000
    then ResponseCode.proton_drive_unknown
    else if n == 200001
    then ResponseCode.insufficient_quota
    else if n == 200002
    then ResponseCode.insufficient_space
    else if n == 200100
    then ResponseCode.insufficient_volume_quota
    else if n == 200300
    then ResponseCode.too_many_children
    else if n == 200301
    then ResponseCode.nesting_too_deep
    else if n == 200302
    then ResponseCode.album_contains_photos_not_in_timeline
    else ResponseCode.unknown

-- `ResponseCode::from_raw`
unfoldable pub from_raw : ℤ → ResponseCode
unfolding from_nat
from_raw (pos n) = from_nat n
from_raw (negsuc n) = ResponseCode.unknown

from_nat_sound : (n : ℕ) → (from_nat n ≡ ResponseCode.unknown) ⊎ (raw (from_nat n) ≡ n)
unfolding from_nat raw
from_nat_sound n = ground arith

from_nat-raw : (c : ResponseCode) → from_nat (raw c) ≡ c
unfolding from_nat raw
from_nat-raw ResponseCode.unknown = refl
from_nat-raw _ = refl

-- A code other than `Unknown` is what a raw number maps to exactly when the number is the one that
-- the code stands for.
pub from_raw_iff :
    (z : ℤ) (c : ResponseCode) → c ≢ ResponseCode.unknown → (from_raw z ≡ c) ↔ (z ≡ pos (raw c))
unfolding from_raw
from_raw_iff z c known = (forward z, backward)
  where
    forward : (z : ℤ) → from_raw z ≡ c → z ≡ pos (raw c)
    forward (pos n) e = ground (arith, from_nat_sound n)
    forward (negsuc n) e = absurd (known (sym e))

    backward : z ≡ pos (raw c) → from_raw z ≡ c
    backward e = rw e (from_nat-raw c)
