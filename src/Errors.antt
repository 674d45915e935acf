-- ===== src/Errors.antt =====
-- crates/proton-sdk/src/error.rs and crates/proton-sdk/src/api.rs: the errors of the SDK and the
-- response codes of the API. The message of an `InvalidOperation` is the literal part of the
-- source's format string; a `reqwest::Error` is known by the three tests that the source makes, and
-- a `Details` object is kept as its raw text, as the source keeps it raw.
pub mod Codes
use proton_sdk_rs.Base.{
  ℕ, String, Bool, true, false, not, ◌&&◌, ◌||◌, Option, none, some, ltb, leb, ◌==◌, if◌then◌else◌,
}

-- `ResponseCode`
pub data ResponseCode : Type 0 where
  unknown unauthorized forbidden request_timeout too_many_requests service_unavailable :
      ResponseCode
  success multiple_responses invalid_requirements invalid_value : ResponseCode
  not_enough_permissions not_enough_permissions_to_grant_permissions blocked : ResponseCode
  invalid_encrypted_id_format already_exists does_not_exist timeout : ResponseCode
  incompatible_state invalid_app outdated_app offline incorrect_login_credentials : ResponseCode
  human_verification_required insufficient_scope account_deleted account_disabled : ResponseCode
  invalid_refresh_token no_active_subscription address_missing domain_external : ResponseCode
  proton_drive_unknown insufficient_quota insufficient_space insufficient_volume_quota :
      ResponseCode
  too_many_children nesting_too_deep album_contains_photos_not_in_timeline : ResponseCode

-- `ProtonApiError`
pub record ProtonApiError : Type 0 where
  pub code : ResponseCode
  pub http_status : ℕ
  pub message : String
  pub details : Option String

-- What the source asks of a `reqwest::Error`.
pub record TransportError : Type 0 where
  pub is_timeout : Bool
  pub is_connect : Bool
  pub is_request : Bool

-- `ProtonError`
pub data ProtonError : Type 0 where
  api : ProtonApiError → ProtonError
  transport : TransportError → ProtonError
  serialization crypto : String → ProtonError
  keys_locked : ProtonError
  invalid_operation : String → ProtonError

pub data Result {ℓ} (A : Type ℓ) : Type ℓ where
  ok : A → Result A
  err : ProtonError → Result A

infixl 5 ◌>>=◌
abbrev pub ◌>>=◌ {ℓ κ} : {A : Type ℓ} {B : Type κ} → Result A → (A → Result B) → Result B
ok a >>= f = f a
err e >>= f = err e

-- The tests that the source makes with `matches!` on a code.
abbrev pub is_too_many_requests : ResponseCode → Bool
is_too_many_requests too_many_requests = true
is_too_many_requests _ = false

abbrev pub is_does_not_exist : ResponseCode → Bool
is_does_not_exist does_not_exist = true
is_does_not_exist _ = false

abbrev pub is_already_exists : ResponseCode → Bool
is_already_exists already_exists = true
is_already_exists _ = false

abbrev pub is_success_code : ResponseCode → Bool
is_success_code success = true
is_success_code _ = false

abbrev pub is_multiple_responses : ResponseCode → Bool
is_multiple_responses multiple_responses = true
is_multiple_responses _ = false

-- `AccountDeleted | AccountDisabled`
abbrev pub is_account_gone : ResponseCode → Bool
is_account_gone account_deleted = true
is_account_gone account_disabled = true
is_account_gone _ = false

-- `ProtonApiError::is_retriable`
unfoldable pub is_retriable_api : ProtonApiError → Bool
is_retriable_api e =
    (is_too_many_requests e.code || is_does_not_exist e.code)
    || (not (leb 400 e.http_status && ltb e.http_status 500)
        || (e.http_status == 404 || (e.http_status == 408 || e.http_status == 429)))

-- `ProtonError::is_retriable`
unfoldable pub is_retriable : ProtonError → Bool
unfolding is_retriable_api
is_retriable (api e) = is_retriable_api e
is_retriable (transport _) = true
is_retriable (serialization _) = false
is_retriable (crypto _) = false
is_retriable keys_locked = false
is_retriable (invalid_operation _) = false

-- `ProtonError::invalid_operation`, as an outcome
abbrev pub refuse {ℓ} : {A : Type ℓ} → String → Result A
refuse message = err (invalid_operation message)

-- `to_string` of an error
unfoldable pub to_string : ProtonError → String
to_string (api _) = "proton api error"
to_string (transport _) = "HTTP transport error"
to_string (serialization _) = "serialization error"
to_string (crypto _) = "cryptography error"
to_string keys_locked = "none of the account's keys could be unlocked with this password"
to_string (invalid_operation _) = "invalid operation"

abbrev pub is_api : ProtonError → Bool
is_api (api _) = true
is_api (transport _) = false
is_api (serialization _) = false
is_api (crypto _) = false
is_api keys_locked = false
is_api (invalid_operation _) = false

-- The error that stands for one which several callers share: an API error keeps its code, any other
-- becomes an `InvalidOperation` with its text.
unfoldable pub rebuilt : ProtonError → ProtonError
unfolding to_string
rebuilt e = if is_api e then e else invalid_operation (to_string e)

-- What holds of every success.
abbrev pub OnSuccess {ℓ κ} : {A : Type ℓ} → (A → Type κ) → Result A → Type κ
OnSuccess P (ok a) = P a
OnSuccess P (err e) = Unit

pub OnSuccess-bind {ℓ κ μ} :
    {A : Type ℓ} {B : Type κ} (P : B → Type μ) (m : Result A) (f : A → Result B)
    → ((a : A) → OnSuccess P (f a))
    → OnSuccess P (m >>= f)
OnSuccess-bind P (ok a) f h = h a
OnSuccess-bind P (err e) f h = tt

pub OnSuccess-map {ℓ κ μ} :
    {A : Type ℓ} (P : A → Type κ) (Q : A → Type μ) (r : Result A)
    → ((a : A) → P a → Q a)
    → OnSuccess P r
    → OnSuccess Q r
OnSuccess-map P Q (ok a) f h = f a h
OnSuccess-map P Q (err e) f h = tt

-- The bind, with what is known of the first result.
pub OnSuccess-bind_with {ℓ κ μ ν} :
    {A : Type ℓ} {B : Type κ} (Q : A → Type μ) (P : B → Type ν) (m : Result A) (f : A → Result B)
    → OnSuccess Q m
    → ((a : A) → Q a → OnSuccess P (f a))
    → OnSuccess P (m >>= f)
OnSuccess-bind_with Q P (ok a) f h g = g a h
OnSuccess-bind_with Q P (err e) f h g = tt
