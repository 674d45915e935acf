-- ===== src/Http/Envelope.antt =====
-- What a response body comes to (crates/proton-sdk/src/http.rs): `parse_buffered`, `api_error` and the
-- checks of the block storage. What serde_json makes of a body and the reason phrases of the HTTP
-- library are arguments.
use proton_sdk_rs.Base.{
  ℕ, String, ◌≡◌, refl, ◌↔◌, ◌⊎◌, inl, inr, Bool, true, false, not, ◌&&◌, Option, none, some, List,
  leb, ltb, Bool-cases, Option-cases, if◌then◌else◌, arith,
}
use proton_sdk_rs.Errors.{
  ProtonError, api, serialization, ResponseCode, Result, ok, err, is_success_code,
  is_multiple_responses,
}
use proton_sdk_rs.Http.{Buffered, ApiResponse}

-- `StatusCode::is_success`
abbrev pub is_success_status : ℕ → Bool
is_success_status status = leb 200 status && ltb status 300

abbrev option_or : Option String → String → String
option_or none fallback = fallback
option_or (some text) _ = text

module _ (envelope : List ℕ → Option ApiResponse) (reason : ℕ → Option String) where
  abbrev code_of : Option ApiResponse → ResponseCode
  code_of none = ResponseCode.unknown
  code_of (some e) = e.code

  abbrev details_of : Option ApiResponse → Option String
  details_of none = none
  details_of (some e) = e.details

  abbrev message_of : ℕ → Option ApiResponse → String
  message_of status none = option_or (reason status) "unknown error"
  message_of status (some e) = option_or e.error_message (option_or (reason status) "unknown error")

  -- `api_error`
  unfoldable pub api_error : ℕ → List ℕ → ProtonError
  api_error status bytes = api (record {
    code = code_of (envelope bytes);
    http_status = status;
    message = message_of status (envelope bytes);
    details = details_of (envelope bytes);
  })

  -- The `failed` of `parse_buffered`
  is_failed : ℕ → Option ApiResponse → Bool
  is_failed status (some e) = not (is_success_code e.code) && not (is_multiple_responses e.code)
  is_failed status none = not (is_success_status status)

  decoded {ℓ} : {T : Type ℓ} → Option T → Result T
  decoded none = err (serialization "")
  decoded (some value) = ok value

  -- `parse_buffered`, for a payload that `payload` decodes
  unfoldable pub parse_buffered {ℓ} : {T : Type ℓ} → (List ℕ → Option T) → Buffered → Result T
  unfolding is_failed decoded
  parse_buffered payload response =
      if is_failed response.status (envelope response.bytes)
      then err (api_error response.status response.bytes)
      else decoded (payload response.bytes)

  is_storage_error : ℕ → Option ApiResponse → Bool
  is_storage_error status (some e) = not (is_success_code e.code)
  is_storage_error status none = not (is_success_status status)

  -- The end of `get_storage_blob`: the body itself is the block.
  unfoldable pub check_blob : Buffered → Result (List ℕ)
  unfolding is_storage_error
  check_blob response =
      if is_storage_error response.status (envelope response.bytes)
      then err (api_error response.status response.bytes)
      else ok response.bytes

  -- What `parse_buffered` accepts: by its envelope where it has one, whatever the HTTP status says, and
  -- by the HTTP status where it has none.
  abbrev pub Accepted : Buffered → Option ApiResponse → Type 0
  Accepted response none = is_success_status response.status ≡ true
  Accepted response (some e) =
      (e.code ≡ ResponseCode.success) ⊎ (e.code ≡ ResponseCode.multiple_responses)

  accepted :
      (response : Buffered) (body : Option ApiResponse)
      → is_failed response.status body ≡ false
      → Accepted response body
  unfolding is_failed
  accepted response none h = ground arith
  accepted response (some e) h = accepted_code e.code h
    where
      accepted_code :
          (code : ResponseCode)
          → (not (is_success_code code) && not (is_multiple_responses code)) ≡ false
          → (code ≡ ResponseCode.success) ⊎ (code ≡ ResponseCode.multiple_responses)
      accepted_code ResponseCode.success h = inl refl
      accepted_code ResponseCode.multiple_responses h = inr refl
      accepted_code _ h = absurd (ground arith)

  not_failed :
      (response : Buffered) (body : Option ApiResponse)
      → Accepted response body
      → is_failed response.status body ≡ false
  unfolding is_failed
  not_failed response none h = ground arith
  not_failed response (some e) (inl h) = ground arith
  not_failed response (some e) (inr h) = ground arith

  module _ {ℓ} {T : Type ℓ} (payload : List ℕ → Option T) (response : Buffered) where
    -- `parse_buffered` returns a value exactly when the body's envelope says success or multiple
    -- responses, or there is no envelope and the HTTP status is 2xx, and the body decodes to the value.
    pub parse_buffered_iff :
        (value : T)
        → (parse_buffered payload response ≡ ok value)
          ↔ (Accepted response (envelope response.bytes) × (payload response.bytes ≡ some value))
    unfolding parse_buffered decoded
    parse_buffered_iff value = (only_if, if_accepted)
      where
        only_if :
            parse_buffered payload response ≡ ok value
            → Accepted response (envelope response.bytes) × (payload response.bytes ≡ some value)
        only_if h = elim (Bool-cases (is_failed response.status (envelope response.bytes))) [
          | inl failed ↦ absurd (ground arith)
          | inr fine ↦ elim (Option-cases (payload response.bytes)) [
            | inl missing ↦ absurd (ground arith)
            | inr (v, there) ↦ (accepted response (envelope response.bytes) fine, ground arith)
          ]
        ]

        if_accepted :
            Accepted response (envelope response.bytes) × (payload response.bytes ≡ some value)
            → parse_buffered payload response ≡ ok value
        if_accepted (a, h) =
            let fine = not_failed response (envelope response.bytes) a in rw (fine, h) refl
