-- ===== src/Http.antt =====
-- crates/proton-sdk/src/http.rs: the retry loops, the response envelope and the token refresh. The
-- HTTP library is an argument: what each send comes to, and what a body decodes to.
pub mod Retry
pub mod Envelope
pub mod Session
use proton_sdk_rs.Base.{ℕ, List, String, Option, Bool, true, false}
use proton_sdk_rs.Errors.{ResponseCode, TransportError}

-- `Replay`
pub data Replay : Type 0 where
  safe unsafe : Replay

abbrev pub is_safe : Replay → Bool
is_safe safe = true
is_safe unsafe = false

-- `Buffered`; its `path` is read by the log alone.
pub record Buffered : Type 0 where
  pub status : ℕ
  pub bytes : List ℕ

-- What reading a body to its end comes to.
pub data BodyRead : Type 0 where
  whole : List ℕ → BodyRead
  broken : TransportError → BodyRead

-- A response whose body is not read yet; `retry_after` is that header, where it is text.
pub record Response : Type 0 where
  pub status : ℕ
  pub retry_after : Option (List ℕ)
  pub body : BodyRead

-- What `build().send()` comes to.
pub data Sent : Type 0 where
  answered : Response → Sent
  failed : TransportError → Sent

-- `ApiResponse`
pub record ApiResponse : Type 0 where
  pub code : ResponseCode
  pub error_message : Option String
  pub details : Option String
