-- ===== src/Http/Retry.antt =====
-- `send_retrying`, `send_unrepeatable` and their delays (crates/proton-sdk/src/http.rs and
-- config.rs). A duration is a number of nanoseconds; a random delay is `jitter attempt ceiling`.
pub mod Budget
pub mod Resend
pub mod Unrepeatable
use proton_sdk_rs.Base.{
  ℕ, zero, suc, ◌+◌, ◌-◌, ◌*◌, ◌/◌, ◌%◌, ◌^◌, min, Bool, true, false, Option, none, some, List, [],
  ◌∷◌, ltb, ◌≡◌, refl, ◌⊎◌, inl, inr, leb, ◌==◌, ◌&&◌, ◌||◌, u32_mod, u64_mod, if◌then◌else◌,
}
use proton_sdk_rs.Errors.{TransportError, transport, Result, ok, err}
use proton_sdk_rs.Http.{
  Replay, is_safe, Buffered, BodyRead, whole, broken, Response, Sent, answered, failed,
}

-- `RetryPolicy`
pub record RetryPolicy : Type 0 where
  pub max_retries : ℕ
  pub base_delay : ℕ
  pub max_delay : ℕ
  pub max_retry_after : ℕ

abbrev pub nanos_per_second : ℕ
nanos_per_second = 1000000000

abbrev pub nanos_per_milli : ℕ
nanos_per_milli = 1000000

-- `Duration::MAX`
abbrev duration_max : ℕ
duration_max = u64_mod * nanos_per_second - 1

-- `RetryPolicy::default`
unfoldable pub default_policy : RetryPolicy
default_policy = record {
  max_retries = 3;
  base_delay = 500 * nanos_per_milli;
  max_delay = 30 * nanos_per_second;
  max_retry_after = 120 * nanos_per_second;
}

-- `is_retryable_status`
unfoldable pub is_retryable_status : ℕ → Bool
is_retryable_status status =
    status == 408 || (status == 429 || (status == 502 || (status == 503 || status == 504)))

-- `is_retryable_error`
unfoldable pub is_retryable_error : TransportError → Replay → Bool
is_retryable_error e replay = e.is_timeout || (e.is_connect || is_safe replay && e.is_request)

-- `str::trim` on the characters that a header value may hold
abbrev is_space : ℕ → Bool
is_space c = c == 32 || c == 9

trim_start : List ℕ → List ℕ
trim_start [] = []
trim_start (c ∷ text) = if is_space c then trim_start text else c ∷ text

trim_end : List ℕ → List ℕ
trim_end [] = []
trim_end (c ∷ text) = elim (trim_end text) [
  | [] ↦ if is_space c then [] else c ∷ []
  | d ∷ rest ↦ c ∷ d ∷ rest
]

abbrev is_digit : ℕ → Bool
is_digit c = leb 48 c && leb c 57

-- `str::parse::<u64>` on the digits
digits : ℕ → List ℕ → Option ℕ
digits n [] = if ltb n u64_mod then some n else none
digits n (c ∷ text) = if is_digit c then digits (10 * n + (c - 48)) text else none

-- with an optional sign
parse_u64 : List ℕ → Option ℕ
unfolding digits
parse_u64 [] = none
parse_u64 (c ∷ []) = digits 0 (c ∷ [])
parse_u64 (c ∷ d ∷ text) = if c == 43 then digits 0 (d ∷ text) else digits 0 (c ∷ d ∷ text)

-- `parse_retry_after_secs`
unfoldable pub parse_retry_after_secs : List ℕ → Option ℕ
unfolding trim_start trim_end parse_u64
parse_retry_after_secs value = elim (parse_u64 (trim_end (trim_start value))) [
  | none ↦ none
  | some seconds ↦ some (seconds * nanos_per_second)
]

-- `1u32.checked_shl(attempt).unwrap_or(u32::MAX)`
abbrev shl_or_max : ℕ → ℕ
shl_or_max attempt = if ltb attempt 32 then 2 ^ attempt % u32_mod else u32_mod - 1

-- The ceiling of `backoff`, in milliseconds.
unfoldable pub ceiling_ms : RetryPolicy → ℕ → ℕ
ceiling_ms policy attempt =
    (min (min (policy.base_delay * shl_or_max attempt) duration_max) policy.max_delay
      / nanos_per_milli)
    % u64_mod

-- What one round of a retry loop decides.
pub data Next : Type 0 where
  again : ℕ → Next
  done : Result Buffered → Next

pub Next-cases :
    (next : Next)
    → ((delay : ℕ) × (next ≡ again delay)) ⊎ ((outcome : Result Buffered) × (next ≡ done outcome))
Next-cases (again delay) = inl (delay, refl)
Next-cases (done outcome) = inr (outcome, refl)

module _ (policy : RetryPolicy) (jitter : ℕ → ℕ → ℕ) where
  -- `backoff`
  unfoldable pub backoff : ℕ → ℕ
  unfolding ceiling_ms
  backoff attempt =
      if ceiling_ms policy attempt == 0
      then 0
      else jitter attempt (ceiling_ms policy attempt) * nanos_per_milli

  advised : ℕ → Option ℕ → ℕ
  unfolding backoff
  advised attempt none = backoff attempt
  advised attempt (some delay) = min delay policy.max_retry_after

  header_delay : Option (List ℕ) → Option ℕ
  unfolding parse_retry_after_secs
  header_delay none = none
  header_delay (some value) = parse_retry_after_secs value

  -- The delay after a retryable status: `Retry-After`, clamped, or the backoff.
  unfoldable pub status_delay : ℕ → Response → ℕ
  unfolding advised header_delay
  status_delay attempt response = advised attempt (header_delay response.retry_after)

  after_error : ℕ → Bool → TransportError → Next
  unfolding backoff
  after_error attempt retry e =
      if retry && ltb attempt policy.max_retries
      then again (backoff attempt)
      else done (err (transport e))

  -- `Buffered::read`, and what the loop does with its outcome
  after_body : Replay → ℕ → ℕ → BodyRead → Next
  unfolding after_error
  after_body replay attempt status (whole bytes) =
      done (ok (record { status = status; bytes = bytes }))
  after_body replay attempt status (broken e) = after_error attempt (is_safe replay) e

  -- One round of `send_retrying`.
  unfoldable pub next_step : Replay → ℕ → Sent → Next
  unfolding is_retryable_status is_retryable_error status_delay after_body
  next_step replay attempt (failed e) = after_error attempt (is_retryable_error e replay) e
  next_step replay attempt (answered response) =
      if ltb attempt policy.max_retries && is_retryable_status response.status
      then again (status_delay attempt response)
      else after_body replay attempt response.status response.body

-- What a call came to: its outcome, how often it sent the request, and how long it slept in between.
pub record Run : Type 0 where
  pub outcome : Result Buffered
  pub sends : ℕ
  pub sleeps : List ℕ

unfoldable pub slept : ℕ → Option Run → Option Run
slept delay none = none
slept delay (some run) = some (record run { sends = suc run.sends; sleeps = delay ∷ run.sleeps })

module _ (policy : RetryPolicy) (jitter : ℕ → ℕ → ℕ) (replay : Replay) (send : ℕ → Sent) where
  -- The `loop` of `send_retrying`, on fuel: `send attempt` is what the attempt comes to.
  unfoldable pub send_loop : ℕ → ℕ → Option Run
  unfolding next_step slept
  send_loop zero attempt = none
  send_loop (suc fuel) attempt = elim (next_step policy jitter replay attempt (send attempt)) [
    | again delay ↦ slept delay (send_loop fuel (attempt + 1))
    | done outcome ↦ some (record { outcome = outcome; sends = 1; sleeps = [] })
  ]

  -- `send_retrying`
  unfoldable pub send_retrying : Option Run
  unfolding send_loop
  send_retrying = send_loop (policy.max_retries + 1) 0
