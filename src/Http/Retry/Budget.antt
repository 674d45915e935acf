-- ===== src/Http/Retry/Budget.antt =====
-- How often a request is sent, and how long a call sleeps.
use Prim.Native.Nat.{max}
use proton_sdk_rs.Base.{
  ℕ, zero, suc, ◌+◌, ◌≤◌, ◌<◌, ◌≡◌, refl, Bool, Option, none, some, List, [], ◌∷◌, length, inl, inr,
  arith,
}
use proton_sdk_rs.Errors.{TransportError}
use proton_sdk_rs.Http.{Replay, is_safe, BodyRead, whole, broken, Response, Sent, answered, failed}
use proton_sdk_rs.Http.Retry.{
  RetryPolicy, ceiling_ms, backoff, status_delay, advised, header_delay, again, Next-cases,
  after_error, after_body, next_step, Run, slept, send_loop, send_retrying,
}

abbrev pub AtMost : ℕ → List ℕ → Type 0
AtMost cap [] = Unit
AtMost cap (d ∷ delays) = (d ≤ cap) × AtMost cap delays

-- `random_range(0..=ceiling)` stays in its range.
abbrev pub InRange : (ℕ → ℕ → ℕ) → Type 0
InRange jitter = (attempt ceiling : ℕ) → jitter attempt ceiling ≤ ceiling

-- The longest single sleep that the policy allows.
abbrev pub longest : RetryPolicy → ℕ
longest policy = max policy.max_delay policy.max_retry_after

module _ (policy : RetryPolicy) (jitter : ℕ → ℕ → ℕ) (in_range : InRange jitter) where
  -- The random delay never passes the policy's cap, whatever the attempt: neither the shift nor the
  -- product overflows into a longer one.
  pub backoff-le : (attempt : ℕ) → backoff policy jitter attempt ≤ policy.max_delay
  unfolding backoff ceiling_ms
  backoff-le attempt = ground (arith, in_range attempt (ceiling_ms policy attempt))

  advised-le : (attempt : ℕ) (o : Option ℕ) → advised policy jitter attempt o ≤ longest policy
  unfolding advised
  advised-le attempt none = omega (arith, backoff-le attempt)
  advised-le attempt (some delay) = omega arith

  status_delay-le :
      (attempt : ℕ) (r : Response) → status_delay policy jitter attempt r ≤ longest policy
  unfolding status_delay
  status_delay-le attempt r = advised-le attempt (header_delay policy jitter r.retry_after)

  after_error-again :
      (attempt : ℕ) (retry : Bool) (e : TransportError) {delay : ℕ}
      → after_error policy jitter attempt retry e ≡ again delay
      → (attempt < policy.max_retries) × (delay ≤ longest policy)
  unfolding after_error
  after_error-again attempt retry e h = ground (arith, backoff-le attempt)

  after_body-again :
      (replay : Replay) (attempt status : ℕ) (b : BodyRead) {delay : ℕ}
      → after_body policy jitter replay attempt status b ≡ again delay
      → (attempt < policy.max_retries) × (delay ≤ longest policy)
  unfolding after_body
  after_body-again replay attempt status (whole bytes) h = absurd (ground arith)
  after_body-again replay attempt status (broken e) h =
      after_error-again attempt (is_safe replay) e h

  next_step-again :
      (replay : Replay) (attempt : ℕ) (sent : Sent) {delay : ℕ}
      → next_step policy jitter replay attempt sent ≡ again delay
      → (attempt < policy.max_retries) × (delay ≤ longest policy)
  unfolding next_step
  next_step-again replay attempt (failed e) h = after_error-again attempt _ e h
  next_step-again replay attempt (answered r) {delay} h = ground (
    arith,
    status_delay-le attempt r,
    after_body-again replay attempt r.status r.body {delay = delay},
  )

  -- The sends and sleeps of a run that had `fuel` attempts left.
  pub record IsWithin (fuel : ℕ) (run : Run) : Type 0 where
    pub sends : run.sends ≤ fuel
    pub sleeps : length run.sleeps + 1 ≡ run.sends
    pub short : AtMost (longest policy) run.sleeps

  module _ (replay : Replay) (send : ℕ → Sent) where
    send_loop-IsWithin :
        (fuel attempt : ℕ)
        → attempt + fuel ≡ policy.max_retries + 1
        → 0 < fuel
        → (run : Run) × (send_loop policy jitter replay send fuel attempt ≡ some run)
          × IsWithin fuel run
    unfolding send_loop slept
    send_loop-IsWithin zero attempt h p = absurd (omega arith)
    send_loop-IsWithin (suc fuel) attempt h p =
        elim (Next-cases (next_step policy jitter replay attempt (send attempt))) [
          | inl (delay, e) ↦
              let (more, short) = next_step-again replay attempt (send attempt) e in
              let (run, ran, w) =
                send_loop-IsWithin fuel (attempt + 1) (omega arith) (omega arith) in
              (
                record run { sends = suc run.sends; sleeps = delay ∷ run.sleeps },
                rw (e, send_loop, ran),
                record {
                  sends = omega (arith, w.sends);
                  sleeps = omega (arith, w.sleeps);
                  short = (short, w.short);
                },
              )
          | inr (outcome, e) ↦ (
            record { outcome = outcome; sends = 1; sleeps = [] },
            rw (e, send_loop),
            record { sends = omega arith; sleeps = refl; short = tt },
          )
        ]

    -- A call always returns; it sends the request at most once and then `max_retries` times, sleeps
    -- once between two sends, and never longer than the longer of the policy's two caps. The random
    -- delay stays in its range.
    pub send_retrying-IsWithin :
        (run : Run) × (send_retrying policy jitter replay send ≡ some run)
        × IsWithin (policy.max_retries + 1) run
    unfolding send_retrying
    send_retrying-IsWithin =
        send_loop-IsWithin (policy.max_retries + 1) 0 (omega arith) (omega arith)
