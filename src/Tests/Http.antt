-- ===== src/Tests/Http.antt =====
-- Requests that meet a busy server and broken connections, bodies, and a burst of 401s.
use proton_sdk_rs.Base.{
  ◌⊎◌, ℕ, zero, suc, ◌≡◌, ◌↔◌, refl, ap, ◌∙◌, str_eq, String, true, false, Option, none, some, List,
  [], ◌∷◌, arith,
}
use proton_sdk_rs.Errors.{TransportError, Result, ok, err, transport, ResponseCode}
use proton_sdk_rs.Http.{
  safe, unsafe, Buffered, whole, Response, Sent, answered, failed, ApiResponse,
}
use proton_sdk_rs.Http.Retry.{RetryPolicy, send_retrying, Run, next_step, send_loop}
use proton_sdk_rs.Http.Retry.Budget.{InRange, IsWithin, send_retrying-IsWithin}
use proton_sdk_rs.Http.Retry.Resend.{History, send_retrying-History}
use proton_sdk_rs.Http.Retry.Unrepeatable.{send_unrepeatable, Once, send_unrepeatable-OneReached}
use proton_sdk_rs.Http.Envelope.{parse_buffered, Accepted, parse_buffered_iff}
use proton_sdk_rs.Http.Session.{Tokens, Session, refresh_each}
use proton_sdk_rs.Http.Session.Send.{send, SentOnce, Refreshed, send_cases}
use proton_sdk_rs.Http.Session.Rotation.{NeverBack, Shared, refresh_each-Shared}

abbrev busy : Response
busy = record { status = 503; retry_after = some (49 ∷ []); body = whole [] }

abbrev fine : Response
fine = record { status = 200; retry_after = none; body = whole (1 ∷ []) }

abbrev busy_once : ℕ → Sent
busy_once zero = answered busy
busy_once (suc _) = answered fine

abbrev unreachable : TransportError
unreachable = record { is_timeout = false; is_connect = true; is_request = true }

abbrev unreachable_once : ℕ → Sent
unreachable_once zero = failed unreachable
unreachable_once (suc _) = answered fine

abbrev whole_ceiling : ℕ → ℕ → ℕ
whole_ceiling attempt ceiling = ceiling

whole_ceiling-InRange : InRange whole_ceiling
whole_ceiling-InRange attempt ceiling = omega arith

abbrev quick : RetryPolicy
quick = record {
  max_retries = 2;
  base_delay = 1000000;
  max_delay = 4000000;
  max_retry_after = 2000000000;
}

send_retrying-IsWithin_example :
    (run : Run) × (send_retrying quick whole_ceiling safe busy_once ≡ some run)
    × IsWithin quick whole_ceiling whole_ceiling-InRange 3 run
send_retrying-IsWithin_example =
    send_retrying-IsWithin quick whole_ceiling whole_ceiling-InRange safe busy_once

abbrev busy_run : Run
busy_run = record {
  outcome = ok (record { status = 200; bytes = 1 ∷ [] });
  sends = 2;
  sleeps = 1000000000 ∷ [];
}

send_retrying-History_example : History unsafe busy_once 0 2 busy_run.outcome
unfolding send_retrying send_loop next_step
send_retrying-History_example =
    send_retrying-History quick whole_ceiling unsafe busy_once busy_run refl

send_unrepeatable-OneReached_example :
    Once quick whole_ceiling unreachable_once 0
      (send_unrepeatable quick whole_ceiling unreachable_once)
send_unrepeatable-OneReached_example =
    send_unrepeatable-OneReached quick whole_ceiling unreachable_once

abbrev success_envelope : List ℕ → Option ApiResponse
success_envelope bytes =
    some (record { code = ResponseCode.success; error_message = none; details = none })

abbrev strange : Buffered
strange = record { status = 500; bytes = 7 ∷ [] }

parse_buffered_iff_example :
    (parse_buffered success_envelope (λ _. none) some strange ≡ ok (7 ∷ [])) ↔ (
      Accepted success_envelope (λ _. none) strange (success_envelope (7 ∷ []))
      × (some strange.bytes ≡ some (7 ∷ [])))
parse_buffered_iff_example = parse_buffered_iff success_envelope (λ _. none) some strange (7 ∷ [])

abbrev first_tokens : Tokens
first_tokens = record { access_token = "old"; refresh_token = "r0" }

abbrev new_tokens : Tokens
new_tokens = record { access_token = "new"; refresh_token = "r1" }

abbrev open_session : Session
open_session = record { tokens = first_tokens; asked = 0; notified = [] }

abbrev rotate : ℕ → String → Result Tokens
rotate zero spent = err (transport unreachable)
rotate (suc _) spent = ok new_tokens

rotate-NeverBack : NeverBack rotate "old"
rotate-NeverBack zero spent fresh h same = absurd (ground arith)
rotate-NeverBack (suc n) spent fresh h same =
    let new : "new" ≡ fresh.access_token = ground arith in
    let mixed : str_eq "new" "old" ≡ str_eq "old" "old" = ap (λ s. str_eq s "old") (new ∙ same) in
    absurd (ground arith)

refresh_each-Shared_example :
    Shared open_session (refresh_each rotate ("old" ∷ "old" ∷ "old" ∷ []) open_session)
refresh_each-Shared_example =
    refresh_each-Shared rotate "old" ("old" ∷ "old" ∷ "old" ∷ []) open_session
      (refl, (refl, (refl, tt))) refl rotate-NeverBack

abbrev expired_token : Buffered
expired_token = record { status = 401; bytes = [] }

abbrev transmit_again : ℕ → String → Result Buffered
transmit_again zero token = ok expired_token
transmit_again (suc _) token = ok strange

abbrev rotate_at_once : ℕ → String → Result Tokens
rotate_at_once n spent = ok new_tokens

send_cases_example :
    SentOnce success_envelope
      (λ _. none)
      some
      rotate_at_once
      true
      transmit_again
      "old"
      open_session
      (send success_envelope
        (λ _. none)
        some
        rotate_at_once
        true
        transmit_again
        (λ s. s)
        open_session)
    ⊎ Refreshed success_envelope
        (λ _. none)
        some
        rotate_at_once
        true
        transmit_again
        "old"
        open_session
        (send success_envelope
          (λ _. none)
          some
          rotate_at_once
          true
          transmit_again
          (λ s. s)
          open_session)
send_cases_example =
    send_cases success_envelope (λ _. none) some rotate_at_once true transmit_again (λ s. s)
      open_session
