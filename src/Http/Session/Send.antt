-- ===== src/Http/Session/Send.antt =====
-- `ApiHttpClient::send` and `handle_unauthorized` (crates/proton-sdk/src/http.rs). The n-th time that
-- the request is given to `send_with_token`, with an access token, comes to `transmit n token`;
-- `meanwhile` is what other tasks did to the session before the answer to the first came.
use proton_sdk_rs.Base.{
  ℕ, String, Bool, true, false, Option, none, some, List, [], ◌∷◌, ◌≡◌, refl, sym, ap, ◌==◌, ◌&&◌,
  ◌⊎◌, inl, inr, Bool-cases, arith, if◌then◌else◌,
}
use proton_sdk_rs.Errors.{ProtonError, Result, ok, err, is_account_gone}
use proton_sdk_rs.Http.{Buffered, ApiResponse}
use proton_sdk_rs.Http.Envelope.{api_error, parse_buffered}
use proton_sdk_rs.Http.Session.{Tokens, Session, refresh_access_token}

-- The test for a terminal account state, on the envelope of a response
unfoldable pub is_gone : Option ApiResponse → Bool
is_gone none = false
is_gone (some e) = is_account_gone e.code

-- What a call came to, the access tokens that it sent the request with, and the session after it.
pub record Call {ℓ} (T : Type ℓ) : Type ℓ where
  pub outcome : Result T
  pub sent : List String
  pub session : Session

module _ {ℓ} {T : Type ℓ} (envelope : List ℕ → Option ApiResponse) (reason : ℕ → Option String)
    (payload : List ℕ → Option T) (rotate : ℕ → String → Result Tokens) (refresh_tokens : Bool)
    (transmit : ℕ → String → Result Buffered) where
  unfoldable pub parsed : Result Buffered → Result T
  parsed (err e) = err e
  parsed (ok response) = parse_buffered envelope reason payload response

  resend : String → Result String × Session → Call T
  unfolding parsed
  resend rejected (err e, session) = record {
    outcome = err e;
    sent = rejected ∷ [];
    session = session;
  }
  resend rejected (ok token, session) = record {
    outcome = parsed (transmit 1 token);
    sent = rejected ∷ token ∷ [];
    session = session;
  }

  -- `handle_unauthorized`, and the parsing of what it returns
  unfoldable pub handle_unauthorized : Buffered → String → Session → Call T
  unfolding is_gone resend
  handle_unauthorized response rejected session =
      if is_gone (envelope response.bytes)
      then record {
        outcome = err (api_error envelope reason 401 response.bytes);
        sent = rejected ∷ [];
        session = session;
      }
      else resend rejected (refresh_access_token rotate rejected session)

  after_response : String → Session → Result Buffered → Call T
  unfolding handle_unauthorized parsed
  after_response token session (err e) = record {
    outcome = err e;
    sent = token ∷ [];
    session = session;
  }
  after_response token session (ok response) =
      if response.status == 401 && refresh_tokens
      then handle_unauthorized response token session
      else record { outcome = parsed (ok response); sent = token ∷ []; session = session }

  -- `ApiHttpClient::send`
  unfoldable pub send : (Session → Session) → Session → Call T
  unfolding after_response
  send meanwhile session =
      let token = session.tokens.access_token in
      after_response token (meanwhile session) (transmit 0 token)

  -- The request was sent once, and the session is as other tasks left it.
  abbrev pub SentOnce : String → Session → Call T → Type ℓ
  SentOnce token session call =
      (call.sent ≡ token ∷ [])
      × (call.session ≡ session)
      × ((call.outcome ≡ parsed (transmit 0 token))
          ⊎ ((response : Buffered) × (transmit 0 token ≡ ok response)
              × (is_gone (envelope response.bytes) ≡ true)
              × (call.outcome ≡ err (api_error envelope reason 401 response.bytes))))

  -- The first response was a 401 of an account that is still there, and the token was refreshed once.
  abbrev pub Refreshed : String → Session → Call T → Type ℓ
  Refreshed token session call =
      (response : Buffered) × (transmit 0 token ≡ ok response)
      × (response.status ≡ 401)
      × (refresh_tokens ≡ true)
      × (is_gone (envelope response.bytes) ≡ false)
      × (call.session ≡ (refresh_access_token rotate token session).1)
      × (((e : ProtonError) × ((refresh_access_token rotate token session).0 ≡ err e)
            × (call.sent ≡ token ∷ [])
            × (call.outcome ≡ err e))
          ⊎ ((fresh : String) × ((refresh_access_token rotate token session).0 ≡ ok fresh)
              × (call.sent ≡ token ∷ fresh ∷ [])
              × (call.outcome ≡ parsed (transmit 1 fresh))))

  resend-Refreshed :
      (token : String) (session : Session) (response : Buffered) (answer : Result String × Session)
      → transmit 0 token ≡ ok response
      → response.status ≡ 401
      → refresh_tokens ≡ true
      → is_gone (envelope response.bytes) ≡ false
      → refresh_access_token rotate token session ≡ answer
      → Refreshed token session (resend token answer)
  unfolding resend
  resend-Refreshed token session response (err e, after) told status on there refreshed = (
    response,
    told,
    status,
    on,
    there,
    sym (ap (λ r. r.1) refreshed),
    inl (e, ap (λ r. r.0) refreshed, refl, refl),
  )
  resend-Refreshed token session response (ok fresh, after) told status on there refreshed = (
    response,
    told,
    status,
    on,
    there,
    sym (ap (λ r. r.1) refreshed),
    inr (fresh, ap (λ r. r.0) refreshed, refl, refl),
  )

  after_response-cases :
      (token : String) (session : Session) (first : Result Buffered)
      → transmit 0 token ≡ first
      → SentOnce token session (after_response token session first)
        ⊎ Refreshed token session (after_response token session first)
  unfolding after_response handle_unauthorized
  after_response-cases token session (err e) told = inl (refl, refl, inl (sym (ap parsed told)))
  after_response-cases token session (ok response) told =
      elim (Bool-cases (response.status == 401 && refresh_tokens)) [
        | inr no_refresh ↦ simp no_refresh (inl (refl, refl, inl (sym (ap parsed told))))
        | inl unauthorized ↦ elim (Bool-cases (is_gone (envelope response.bytes))) [
          | inl gone ↦
              simp (unauthorized, gone) (inl (refl, refl, inr (response, told, gone, refl)))
          | inr there ↦
              simp (unauthorized, there)
                (inr (
                  resend-Refreshed token session response
                    (refresh_access_token rotate token session) told (ground arith) (ground arith)
                    there refl))
        ]
      ]

  -- A call sends its request once, or twice with one refresh of the access token in between: only after
  -- a 401, when the client refreshes at all and the account is neither deleted nor disabled. The
  -- outcome is what the last response parses to, so a second 401 is not refreshed again; or it is the
  -- error of the refresh, or that of the account, which spends no refresh token.
  pub send_cases :
      (meanwhile : Session → Session) (session : Session)
      → SentOnce session.tokens.access_token (meanwhile session) (send meanwhile session)
        ⊎ Refreshed session.tokens.access_token (meanwhile session) (send meanwhile session)
  unfolding send
  send_cases meanwhile session =
      after_response-cases session.tokens.access_token (meanwhile session)
        (transmit 0 session.tokens.access_token) refl
