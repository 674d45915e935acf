-- ===== src/Http/Retry/Resend.antt =====
-- When a request is sent again, and which attempt the outcome is.
use proton_sdk_rs.Base.{
  ℕ, zero, suc, ◌+◌, ◌≡◌, refl, Bool, true, false, some, [], ◌∷◌, ltb, ◌&&◌, Bool-cases,
  Option-cases, inl, inr, arith, ◌⊎◌,
}
use proton_sdk_rs.Errors.{TransportError, transport, Result, ok, err}
use proton_sdk_rs.Http.{
  Replay, safe, unsafe, is_safe, Buffered, BodyRead, whole, broken, Sent, answered, failed,
}
use proton_sdk_rs.Http.Retry.{
  RetryPolicy, is_retryable_status, is_retryable_error, again, done, Next-cases, after_error,
  after_body, next_step, Run, slept, send_loop, send_retrying,
}

-- What an attempt comes to when it is the last.
abbrev pub read_body : ℕ → BodyRead → Result Buffered
read_body status (whole bytes) = ok (record { status = status; bytes = bytes })
read_body status (broken e) = err (transport e)

abbrev pub settled : Sent → Result Buffered
settled (failed e) = err (transport e)
settled (answered r) = read_body r.status r.body

-- The attempts after which a request may be sent again: any retryable status; a timeout or a failure
-- to connect; and for a request that only reads, also a failure of the request or of the body.
abbrev pub body_broke : BodyRead → Bool
body_broke (whole bytes) = false
body_broke (broken e) = true

abbrev pub MayResend : Replay → Sent → Type 0
MayResend replay (failed e) =
    (e.is_timeout ≡ true) ⊎ (e.is_connect ≡ true) ⊎ ((replay ≡ safe) × (e.is_request ≡ true))
MayResend replay (answered r) =
    (is_retryable_status r.status ≡ true) ⊎ ((replay ≡ safe) × (body_broke r.body ≡ true))

-- The history of a call that made `sends` attempts from `attempt` on: after each but the last the
-- request may be sent again, and the outcome is what the last comes to.
abbrev pub History : Replay → (ℕ → Sent) → ℕ → ℕ → Result Buffered → Type 0
History replay send attempt zero outcome = ⊥
History replay send attempt (suc zero) outcome = outcome ≡ settled (send attempt)
History replay send attempt (suc (suc n)) outcome =
    MayResend replay (send attempt) × History replay send (attempt + 1) (suc n) outcome

History-resent :
    (replay : Replay) (send : ℕ → Sent) (attempt n : ℕ) (outcome : Result Buffered)
    → MayResend replay (send attempt)
    → History replay send (attempt + 1) n outcome
    → History replay send attempt (suc n) outcome
History-resent replay send attempt zero outcome m h = absurd h
History-resent replay send attempt (suc n) outcome m h = (m, h)

is_safe→eq : (replay : Replay) → is_safe replay ≡ true → replay ≡ safe
is_safe→eq safe h = refl
is_safe→eq unsafe h = absurd (ground arith)

module _ (policy : RetryPolicy) (jitter : ℕ → ℕ → ℕ) where
  after_error-again :
      (attempt : ℕ) (retry : Bool) (e : TransportError) {delay : ℕ}
      → after_error policy jitter attempt retry e ≡ again delay
      → retry ≡ true
  unfolding after_error
  after_error-again attempt retry e h = ground arith

  after_error-done :
      (attempt : ℕ) (retry : Bool) (e : TransportError) {outcome : Result Buffered}
      → after_error policy jitter attempt retry e ≡ done outcome
      → outcome ≡ err (transport e)
  unfolding after_error
  after_error-done attempt retry e h = ground arith

  is_retryable_error-MayResend :
      (replay : Replay) (e : TransportError)
      → is_retryable_error e replay ≡ true
      → MayResend replay (failed e)
  unfolding is_retryable_error
  is_retryable_error-MayResend replay e h = ground (arith, is_safe→eq replay)

  after_body-again :
      (replay : Replay) (attempt status : ℕ) (b : BodyRead) {delay : ℕ}
      → after_body policy jitter replay attempt status b ≡ again delay
      → (replay ≡ safe) × (body_broke b ≡ true)
  unfolding after_body
  after_body-again replay attempt status (whole bytes) h = absurd (ground arith)
  after_body-again replay attempt status (broken e) h =
      (is_safe→eq replay (after_error-again attempt (is_safe replay) e h), refl)

  after_body-done :
      (replay : Replay) (attempt status : ℕ) (b : BodyRead) {outcome : Result Buffered}
      → after_body policy jitter replay attempt status b ≡ done outcome
      → outcome ≡ read_body status b
  unfolding after_body
  after_body-done replay attempt status (whole bytes) h = ground arith
  after_body-done replay attempt status (broken e) h = after_error-done attempt (is_safe replay) e h

  next_step-MayResend :
      (replay : Replay) (attempt : ℕ) (sent : Sent) {delay : ℕ}
      → next_step policy jitter replay attempt sent ≡ again delay
      → MayResend replay sent
  unfolding next_step
  next_step-MayResend replay attempt (failed e) h =
      is_retryable_error-MayResend replay e (after_error-again attempt _ e h)
  next_step-MayResend replay attempt (answered r) {delay} h =
      elim (Bool-cases (ltb attempt policy.max_retries && is_retryable_status r.status)) [
        | inl retryable ↦ inl (ground arith)
        | inr final ↦
            let h' : after_body policy jitter replay attempt r.status r.body ≡ again delay =
              ground arith in
            inr (after_body-again replay attempt r.status r.body h')
      ]

  next_step-settled :
      (replay : Replay) (attempt : ℕ) (sent : Sent) {outcome : Result Buffered}
      → next_step policy jitter replay attempt sent ≡ done outcome
      → outcome ≡ settled sent
  unfolding next_step
  next_step-settled replay attempt (failed e) h = after_error-done attempt _ e h
  next_step-settled replay attempt (answered r) {outcome} h =
      elim (Bool-cases (ltb attempt policy.max_retries && is_retryable_status r.status)) [
        | inl retryable ↦ absurd (ground arith)
        | inr final ↦
            let h' : after_body policy jitter replay attempt r.status r.body ≡ done outcome =
              ground arith in
            after_body-done replay attempt r.status r.body h'
      ]

  module _ (replay : Replay) (send : ℕ → Sent) where
    send_loop-History :
        (fuel attempt : ℕ) (run : Run)
        → send_loop policy jitter replay send fuel attempt ≡ some run
        → History replay send attempt run.sends run.outcome
    unfolding send_loop slept
    send_loop-History zero attempt run h = absurd (ground arith)
    send_loop-History (suc fuel) attempt run h =
        elim (Next-cases (next_step policy jitter replay attempt (send attempt))) [
          | inl (delay, e) ↦
              elim (Option-cases (send_loop policy jitter replay send fuel (attempt + 1))) [
                | inl out_of_fuel ↦ absurd (ground arith)
                | inr (rest, ran) ↦
                    let same : run
                        ≡ record rest { sends = suc rest.sends; sleeps = delay ∷ rest.sleeps } =
                      ground arith in
                    rw same (
                      History-resent replay send attempt rest.sends rest.outcome
                        (next_step-MayResend replay attempt (send attempt) e)
                        (send_loop-History fuel (attempt + 1) rest ran))
              ]
          | inr (outcome, e) ↦
              let same : run ≡ record { outcome = outcome; sends = 1; sleeps = [] } =
                ground arith in
              rw same (next_step-settled replay attempt (send attempt) e)
        ]

    -- A request is sent again only after an attempt that permits it, which for a request that may
    -- change something is a retryable status, a timeout or a failure to connect, never a response
    -- whose body broke off; and the outcome is what the last attempt came to.
    pub send_retrying-History :
        (run : Run)
        → send_retrying policy jitter replay send ≡ some run
        → History replay send 0 run.sends run.outcome
    unfolding send_retrying
    send_retrying-History run h = send_loop-History (policy.max_retries + 1) 0 run h
