-- ===== src/Transport/Renewal.antt =====
-- Sessions that can be replaced (crates/proton-drive-rs/src/transport.rs): `BlockSession`, its two
-- implementations (the other in public_link.rs) and the one-shot renewal of `get` and `post_query`.
-- The n-th request of a call through a client is `ask n client`.
use proton_sdk_rs.Base.{
  ℕ, ◌+◌, ◌%◌, ◌<◌, ◌≡◌, ◌≢◌, refl, sym, ap, true, false, List, [], ◌∷◌, ◌==◌, ==→eq, ◌⊎◌, inl, inr,
  u64_mod, arith, Bool-cases, if◌then◌else◌,
}
use mathlib.Core.Path.{subst}
use proton_sdk_rs.Errors.{
  ProtonError, Result, ok, err, api, transport, serialization, crypto, keys_locked,
  invalid_operation,
}
use proton_sdk_rs.Transport.{is_session_expired}

-- `BlockSession`: the client of a session with its generation, and its replacement.
pub record BlockSession (Client Live : Type 0) : Type 0 where
  pub http : Live → Client × ℕ
  pub renew : ℕ → Live → Result {0} Unit × Live

-- `StaticSession`
unfoldable pub static_session : {Client : Type 0} → BlockSession Client Client
static_session = record { http = λ client. (client, 0); renew = λ seen client. (ok tt, client) }

-- The state of a `PublicLinkSession`, and how many handshakes it has made.
pub record LiveSession (Client : Type 0) : Type 0 where
  pub http : Client
  pub generation : ℕ
  pub handshakes : ℕ

module _ {Client : Type 0} (auth : ℕ → Result Client) where
  install : LiveSession Client → Result Client → Result {0} Unit × LiveSession Client
  install live (err e) = (err e, live)
  install live (ok client) =
      (ok tt, record live { http = client; generation = (live.generation + 1) % u64_mod })

  -- `PublicLinkSession::renew`; the lock makes it one step.
  unfoldable pub renew_link : ℕ → LiveSession Client → Result {0} Unit × LiveSession Client
  unfolding install
  renew_link seen live =
      if live.generation == seen
      then install (record live { handshakes = live.handshakes + 1 }) (auth live.handshakes)
      else (ok tt, live)

  -- `impl BlockSession for PublicLinkSession`
  unfoldable pub link_session : BlockSession Client (LiveSession Client)
  unfolding renew_link
  link_session = record { http = λ live. (live.http, live.generation); renew = renew_link }

  -- The renewals of callers that each saw a generation, in the order in which they get the lock.
  unfoldable pub renew_each : List ℕ → LiveSession Client → LiveSession Client
  renew_each [] live = live
  renew_each (seen ∷ callers) live = renew_each callers (renew_link seen live).1

  abbrev pub AllSeen : ℕ → List ℕ → Type 0
  AllSeen generation [] = Unit
  AllSeen generation (seen ∷ callers) = (seen ≡ generation) × AllSeen generation callers

  renew_each_stale :
      (generation : ℕ) (callers : List ℕ) (live : LiveSession Client)
      → AllSeen generation callers
      → live.generation ≢ generation
      → renew_each callers live ≡ live
  unfolding renew_each renew_link
  renew_each_stale generation [] live all new = refl
  renew_each_stale generation (seen ∷ callers) live (same, all) new =
      let stale : (live.generation == seen) ≡ false = ground arith in
      rw stale (renew_each_stale generation callers live all new)

  renew_current :
      (live : LiveSession Client) (client : Client)
      → auth live.handshakes ≡ ok client
      → renew_link live.generation live ≡ (
        ok tt,
        record {
          http = client;
          generation = (live.generation + 1) % u64_mod;
          handshakes = live.handshakes + 1;
        },
      )
  unfolding renew_link install
  renew_current live client done = ground arith

  -- However many callers saw the current generation of a public link's session, a handshake that
  -- succeeds is the only one: the first caller installs its client, and the others keep it.
  pub renew_each_once :
      (callers : List ℕ) (live : LiveSession Client) (client : Client)
      → live.generation < u64_mod
      → AllSeen live.generation callers
      → auth live.handshakes ≡ ok client
      → renew_each (live.generation ∷ callers) live ≡ record {
        http = client;
        generation = (live.generation + 1) % u64_mod;
        handshakes = live.handshakes + 1;
      }
  unfolding renew_each
  renew_each_once callers live client bound all done =
      rw (renew_current live client done)
        (renew_each_stale live.generation callers _ all (λ e. omega arith))

-- An answer with the HTTP status 401
abbrev pub IsUnauthorized : ProtonError → Type 0
IsUnauthorized (api e) = e.http_status ≡ 401
IsUnauthorized (transport _) = ⊥
IsUnauthorized (serialization _) = ⊥
IsUnauthorized (crypto _) = ⊥
IsUnauthorized keys_locked = ⊥
IsUnauthorized (invalid_operation _) = ⊥

abbrev pub IsNoUnauthorized {ℓ} : {T : Type ℓ} → Result T → Type 0
IsNoUnauthorized (ok _) = Unit
IsNoUnauthorized (err e) = ¬ IsUnauthorized e

expired-IsUnauthorized : (e : ProtonError) → is_session_expired e ≡ true → IsUnauthorized e
unfolding is_session_expired
expired-IsUnauthorized (api e) h = ==→eq e.http_status 401 h
expired-IsUnauthorized (transport _) h = absurd (ground arith)
expired-IsUnauthorized (serialization _) h = absurd (ground arith)
expired-IsUnauthorized (crypto _) h = absurd (ground arith)
expired-IsUnauthorized keys_locked h = absurd (ground arith)
expired-IsUnauthorized (invalid_operation _) h = absurd (ground arith)

other-IsUnauthorized : (e : ProtonError) → is_session_expired e ≡ false → ¬ IsUnauthorized e
unfolding is_session_expired
other-IsUnauthorized (api e) h is_401 = absurd (ground arith)
other-IsUnauthorized (transport _) h is_401 = is_401
other-IsUnauthorized (serialization _) h is_401 = is_401
other-IsUnauthorized (crypto _) h is_401 = is_401
other-IsUnauthorized keys_locked h is_401 = is_401
other-IsUnauthorized (invalid_operation _) h is_401 = is_401

-- What a call came to, and the clients that it asked through.
pub record Got (Client Live T : Type 0) : Type 0 where
  pub outcome : Result T
  pub asked : List Client
  pub live : Live

module _ {Client Live T : Type 0} (session : BlockSession Client Live)
    (ask : ℕ → Client → Result T) where
  -- The second request, after a renewal.
  ask_again : Client → Result {0} Unit × Live → Got Client Live T
  ask_again client (err e, live) = record { outcome = err e; asked = client ∷ []; live = live }
  ask_again client (ok _, live) =
      let renewed = (session.http live).0 in
      record { outcome = ask 1 renewed; asked = client ∷ renewed ∷ []; live = live }

  after_first : Client → ℕ → Live → Result T → Got Client Live T
  unfolding ask_again
  after_first client generation live (ok value) = record {
    outcome = ok value;
    asked = client ∷ [];
    live = live;
  }
  after_first client generation live (err e) =
      if is_session_expired e
      then ask_again client (session.renew generation live)
      else record { outcome = err e; asked = client ∷ []; live = live }

  -- `RevisionTransport::get` and `post_query`; `meanwhile` is what other calls did to the session
  -- while the first request ran.
  unfoldable pub get : (Live → Live) → Live → Got Client Live T
  unfolding after_first
  get meanwhile live =
      let (client, generation) = session.http live in
      after_first client generation (meanwhile live) (ask 0 client)

  -- One request, whose answer is returned unless it is a 401; or a 401, and either the renewal fails,
  -- which is the outcome, or a second request goes through the client that the renewal left, and its
  -- answer is returned as it is.
  abbrev pub Renewed : (Live → Live) → Live → Got Client Live T → Type 0
  Renewed meanwhile live got =
      ((got.asked ≡ (session.http live).0 ∷ [])
        × (got.outcome ≡ ask 0 (session.http live).0)
        × IsNoUnauthorized (ask 0 (session.http live).0))
      ⊎ ((e : ProtonError) × (ask 0 (session.http live).0 ≡ err e)
          × IsUnauthorized e
          × (((f : ProtonError) × ((session.renew (session.http live).1 (meanwhile live)).0 ≡ err f)
                × (got.asked ≡ (session.http live).0 ∷ [])
                × (got.outcome ≡ err f))
              ⊎ (((session.renew (session.http live).1 (meanwhile live)).0 ≡ ok tt)
                  × (got.live ≡ (session.renew (session.http live).1 (meanwhile live)).1)
                  × (got.asked ≡ (session.http live).0 ∷ (session.http got.live).0 ∷ [])
                  × (got.outcome ≡ ask 1 (session.http got.live).0))))

  ask_again-Renewed :
      (meanwhile : Live → Live) (live : Live) (e : ProtonError) (renewal : Result {0} Unit × Live)
      → ask 0 (session.http live).0 ≡ err e
      → IsUnauthorized e
      → session.renew (session.http live).1 (meanwhile live) ≡ renewal
      → Renewed meanwhile live (ask_again (session.http live).0 renewal)
  unfolding ask_again
  ask_again-Renewed meanwhile live e (err f, after) failed expired renewed =
      inr (e, failed, expired, inl (f, ap (λ r. r.0) renewed, refl, refl))
  ask_again-Renewed meanwhile live e (ok _, after) failed expired renewed =
      inr (e, failed, expired, inr (ap (λ r. r.0) renewed, sym (ap (λ r. r.1) renewed), refl, refl))

  after_first-Renewed :
      (meanwhile : Live → Live) (live : Live) (first : Result T)
      → ask 0 (session.http live).0 ≡ first
      → Renewed meanwhile live
          (after_first (session.http live).0 (session.http live).1 (meanwhile live) first)
  unfolding after_first
  after_first-Renewed meanwhile live (ok value) h =
      inl (refl, sym h, subst IsNoUnauthorized (sym h) tt)
  after_first-Renewed meanwhile live (err e) h = elim (Bool-cases (is_session_expired e)) [
    | inl expired ↦ rw expired (
        ask_again-Renewed meanwhile live e (session.renew (session.http live).1 (meanwhile live)) h
          (expired-IsUnauthorized e expired) refl)
    | inr other ↦
        rw other (inl (refl, sym h, subst IsNoUnauthorized (sym h) (other-IsUnauthorized e other)))
  ]

  -- A call asks once, and its answer is returned unless it is a 401; after a 401 the session is renewed
  -- once, and either that fails, which is the outcome, or the request is sent once more through the
  -- client that the session then has. A second 401 is returned as it is.
  pub get-Renewed :
      (meanwhile : Live → Live) (live : Live) → Renewed meanwhile live (get meanwhile live)
  unfolding get
  get-Renewed meanwhile live = after_first-Renewed meanwhile live (ask 0 (session.http live).0) refl
