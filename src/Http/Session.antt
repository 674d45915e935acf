-- ===== src/Http/Session.antt =====
-- The session of `ApiHttpClient` (crates/proton-sdk/src/http.rs): its tokens, their refresh and the
-- request that meets a 401. What the refresh endpoint answers to its n-th request is `rotate n`; the
-- refresh lock makes `refresh_access_token_now` one step on the session.
pub mod Rotation
pub mod Send
use proton_sdk_rs.Base.{
  ℕ, suc, ◌+◌, String, Bool, true, false, ◌&&◌, Option, none, some, List, [], ◌∷◌, ◌==◌, str_eq,
  if◌then◌else◌,
}
use proton_sdk_rs.Errors.{ResponseCode, Result, ok, err, is_account_gone, ProtonError}
use proton_sdk_rs.Http.{Buffered, ApiResponse}
use proton_sdk_rs.Http.Envelope.{api_error, parse_buffered}

-- `Tokens`
pub record Tokens : Type 0 where
  pub access_token : String
  pub refresh_token : String

-- The shared state: `Inner.tokens`, how often the refresh endpoint was asked, and what
-- `on_tokens_refreshed` was called with, the latest first.
pub record Session : Type 0 where
  pub tokens : Tokens
  pub asked : ℕ
  pub notified : List Tokens

module _ (rotate : ℕ → String → Result Tokens) where
  -- The end of `refresh_access_token_now`: a rotation is stored, and then the callback is called.
  store_rotation : Session → Result Tokens → Result String × Session
  store_rotation session (err e) = (err e, record session { asked = suc session.asked })
  store_rotation session (ok refreshed) = (
    ok refreshed.access_token,
    record {
      tokens = refreshed;
      asked = suc session.asked;
      notified = refreshed ∷ session.notified;
    },
  )

  -- `refresh_access_token_now`
  unfoldable pub refresh_access_token : String → Session → Result String × Session
  unfolding store_rotation
  refresh_access_token rejected session =
      if str_eq session.tokens.access_token rejected
      then store_rotation session (rotate session.asked session.tokens.refresh_token)
      else (ok session.tokens.access_token, session)

  keep : Result String → List (Result String) × Session → List (Result String) × Session
  keep answer (answers, session) = (answer ∷ answers, session)

  -- Calls of `refresh_access_token` by several tasks, in the order in which they take the lock.
  unfoldable pub refresh_each : List String → Session → List (Result String) × Session
  unfolding keep
  refresh_each [] session = ([], session)
  refresh_each (rejected ∷ more) session =
      let (answer, after) = refresh_access_token rejected session in
      keep answer (refresh_each more after)
