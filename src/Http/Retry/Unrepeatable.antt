-- ===== src/Http/Retry/Unrepeatable.antt =====
-- `send_unrepeatable` (crates/proton-sdk/src/http.rs): for a request that spends a single-use token.
use proton_sdk_rs.Base.{
  ℕ, zero, suc, ◌+◌, ◌≡◌, refl, sym, ap, true, Option, none, some, ltb, ◌&&◌, Bool-cases, inl, inr,
  arith, if◌then◌else◌,
}
use proton_sdk_rs.Errors.{transport, Result, ok, err}
use proton_sdk_rs.Http.{Response, Sent, answered, failed}
use proton_sdk_rs.Http.Retry.{RetryPolicy, backoff}

-- What a call came to, how often it sent the request, and how long it slept in all.
pub record OnceRun : Type 0 where
  pub outcome : Result Response
  pub sends : ℕ
  pub slept : ℕ

after_sleep : ℕ → Option OnceRun → Option OnceRun
after_sleep delay none = none
after_sleep delay (some run) =
    some (record run { sends = suc run.sends; slept = delay + run.slept })

module _ (policy : RetryPolicy) (jitter : ℕ → ℕ → ℕ) where
  -- The body of the `match`; `rest` is what the next rounds come to.
  once_round : ℕ → Sent → Option OnceRun → Option OnceRun
  unfolding after_sleep
  once_round attempt (answered response) rest =
      some (record { outcome = ok response; sends = 1; slept = 0 })
  once_round attempt (failed e) rest =
      if ltb attempt policy.max_retries && e.is_connect
      then after_sleep (backoff policy jitter attempt) rest
      else some (record { outcome = err (transport e); sends = 1; slept = 0 })

module _ (policy : RetryPolicy) (jitter : ℕ → ℕ → ℕ) (send : ℕ → Sent) where
  -- The `loop`, on fuel: only a failed connection is tried again.
  unfoldable pub once_loop : ℕ → ℕ → Option OnceRun
  unfolding once_round
  once_loop zero attempt = none
  once_loop (suc fuel) attempt =
      once_round policy jitter attempt (send attempt) (once_loop fuel (attempt + 1))

  -- `send_unrepeatable`
  unfoldable pub send_unrepeatable : Option OnceRun
  unfolding once_loop
  send_unrepeatable = once_loop (suc policy.max_retries) 0

abbrev pub outcome_of : Sent → Result Response
outcome_of (answered response) = ok response
outcome_of (failed e) = err (transport e)

-- The attempt never left: the connection failed.
abbrev pub NeverLeft : Sent → Type 0
NeverLeft (answered response) = ⊥
NeverLeft (failed e) = e.is_connect ≡ true

-- `sends` attempts from `attempt` on, of which only the last can have reached the server.
abbrev pub OneReached : (ℕ → Sent) → ℕ → ℕ → Result Response → Type 0
OneReached send attempt zero outcome = ⊥
OneReached send attempt (suc zero) outcome = outcome ≡ outcome_of (send attempt)
OneReached send attempt (suc (suc n)) outcome =
    NeverLeft (send attempt) × OneReached send (attempt + 1) (suc n) outcome

OneReached-next :
    (send : ℕ → Sent) (attempt n : ℕ) (outcome : Result Response)
    → NeverLeft (send attempt)
    → OneReached send (attempt + 1) n outcome
    → OneReached send attempt (suc n) outcome
OneReached-next send attempt zero outcome m h = absurd h
OneReached-next send attempt (suc n) outcome m h = (m, h)

module _ (policy : RetryPolicy) (jitter : ℕ → ℕ → ℕ) (send : ℕ → Sent) where
  -- `run` is there, and of its sends only the last can have reached the server.
  abbrev pub Once : ℕ → Option OnceRun → Type 0
  Once attempt result =
      (run : OnceRun) × (result ≡ some run) × OneReached send attempt run.sends run.outcome

  once_round-Once :
      (attempt : ℕ) (sent : Sent) (rest : Option OnceRun)
      → send attempt ≡ sent
      → (ltb attempt policy.max_retries ≡ true → Once (attempt + 1) rest)
      → Once attempt (once_round policy jitter attempt sent rest)
  unfolding once_round after_sleep
  once_round-Once attempt (answered response) rest e next =
      (record { outcome = ok response; sends = 1; slept = 0 }, refl, sym (ap outcome_of e))
  once_round-Once attempt (failed f) rest e next =
      elim (Bool-cases (ltb attempt policy.max_retries)) [
        | inl more ↦ elim (Bool-cases f.is_connect) [
          | inl left ↦
              let (run, ran, one) = next more in
              rw (more, left, ran)
                (
                  record run {
                    sends = suc run.sends;
                    slept = backoff policy jitter attempt + run.slept;
                  },
                  refl,
                  OneReached-next send attempt run.sends run.outcome (rw e left) one,
                )
          | inr stayed ↦
              simp (more, stayed)
                (
                  record { outcome = err (transport f); sends = 1; slept = 0 },
                  refl,
                  sym (ap outcome_of e),
                )
        ]
        | inr final ↦ rw final (
          record { outcome = err (transport f); sends = 1; slept = 0 },
          refl,
          sym (ap outcome_of e),
        )
      ]

  once_loop-Once :
      (fuel attempt : ℕ)
      → attempt + suc fuel ≡ suc policy.max_retries
      → Once attempt (once_loop policy jitter send (suc fuel) attempt)
  unfolding once_loop
  once_loop-Once zero attempt h =
      once_round-Once attempt (send attempt) none refl (λ more. absurd (ground arith))
  once_loop-Once (suc fuel) attempt h =
      let next = once_loop-Once fuel (attempt + 1) (omega arith) in
      once_round-Once attempt (send attempt) (once_loop policy jitter send (suc fuel) (attempt + 1))
        refl (λ more. next)

  -- `send_unrepeatable` always comes to an outcome. Every attempt but the last one failed to connect,
  -- so it never reached the server, and the outcome is what the last attempt came to.
  pub send_unrepeatable-OneReached : Once 0 (send_unrepeatable policy jitter send)
  unfolding send_unrepeatable
  send_unrepeatable-OneReached = once_loop-Once policy.max_retries 0 (omega arith)
