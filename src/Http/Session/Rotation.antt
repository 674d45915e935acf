-- ===== src/Http/Session/Rotation.antt =====
-- Several tasks that meet a 401 with the same token share one rotation.
use proton_sdk_rs.Base.{
  ℕ, suc, String, ◌≡◌, ◌≢◌, refl, ◌⊎◌, inl, inr, true, false, List, [], ◌∷◌, str_eq, str_eq_refl,
  ne→str_eq, arith,
}
use proton_sdk_rs.Errors.{Result, ok, err}
use proton_sdk_rs.Http.Session.{Tokens, Session, refresh_access_token, refresh_each}

abbrev pub AllErr : List (Result String) → Type 0
AllErr [] = Unit
AllErr (err _ ∷ answers) = AllErr answers
AllErr (ok _ ∷ answers) = ⊥

abbrev pub AllOk : String → List (Result String) → Type 0
AllOk token [] = Unit
AllOk token (err _ ∷ answers) = ⊥
AllOk token (ok answer ∷ answers) = (answer ≡ token) × AllOk token answers

-- Errors, and from some answer on always `token`.
abbrev pub ErrThenOk : String → List (Result String) → Type 0
ErrThenOk token [] = ⊥
ErrThenOk token (err _ ∷ answers) = ErrThenOk token answers
ErrThenOk token (ok answer ∷ answers) = (answer ≡ token) × AllOk token answers

abbrev pub AllRejected : String → List String → Type 0
AllRejected token [] = Unit
AllRejected token (t ∷ ts) = (t ≡ token) × AllRejected token ts

-- No rotation brings `token` back.
abbrev pub NeverBack : (ℕ → String → Result Tokens) → String → Type 0
NeverBack rotate token =
    (n : ℕ) (spent : String) (fresh : Tokens)
    → rotate n spent ≡ ok fresh
    → fresh.access_token ≢ token

-- What the calls of several tasks do to a session: nothing but errors, or one rotation that every
-- later task is answered with.
abbrev pub Shared : Session → List (Result String) × Session → Type 0
Shared session (answers, after) =
    (AllErr answers × (after.tokens ≡ session.tokens) × (after.notified ≡ session.notified))
    ⊎ ((fresh : Tokens) × ErrThenOk fresh.access_token answers
        × (after.tokens ≡ fresh)
        × (after.notified ≡ fresh ∷ session.notified))

module _ (rotate : ℕ → String → Result Tokens) where
  -- Once the rejected token is replaced, every task is answered with the one that replaced it.
  refresh_each_replaced :
      (token : String) (rejected : List String) (session : Session)
      → AllRejected token rejected
      → session.tokens.access_token ≢ token
      → (answers : List (Result String)) × (refresh_each rotate rejected session
          ≡ (answers, session))
        × AllOk session.tokens.access_token answers
  unfolding refresh_each refresh_access_token
  refresh_each_replaced token [] session all new = ([], refl, tt)
  refresh_each_replaced token (t ∷ more) session (same, all) new =
      let differs : str_eq session.tokens.access_token t ≡ false =
        ne→str_eq session.tokens.access_token t (λ e. new (ground arith)) in
      let (answers, run, oks) = refresh_each_replaced token more session all new in
      simp (differs, run) (ok session.tokens.access_token ∷ answers, refl, (refl, oks))

  -- When several tasks were rejected with the current access token, at most one rotation is stored and
  -- at most one notification is sent: the tasks before the rotation fail, and that rotation answers
  -- every later one.
  pub refresh_each-Shared :
      (token : String) (rejected : List String) (session : Session)
      → AllRejected token rejected
      → session.tokens.access_token ≡ token
      → NeverBack rotate token
      → Shared session (refresh_each rotate rejected session)
  unfolding refresh_each refresh_access_token
  refresh_each-Shared token [] session all current fresh = inl (tt, refl, refl)
  refresh_each-Shared token (t ∷ more) session (same, all) current fresh =
      go (rotate session.asked session.tokens.refresh_token) refl (
        refresh_each-Shared token more (record session { asked = suc session.asked }) all current
          fresh)
    where
      rejects : str_eq session.tokens.access_token t ≡ true
      rejects = rw (current, same) (str_eq_refl token)

      go :
          (rotation : Result Tokens)
          → rotate session.asked session.tokens.refresh_token ≡ rotation
          → Shared session (refresh_each rotate more (record session { asked = suc session.asked }))
          → Shared session (refresh_each rotate (t ∷ more) session)
      go (err e) h later = simp (rejects, h) later
      go (ok new) h _ =
          let (answers, run, oks) =
            refresh_each_replaced token more
              (record {
                tokens = new;
                asked = suc session.asked;
                notified = new ∷ session.notified;
              })
              all (fresh session.asked session.tokens.refresh_token new h) in
          simp (rejects, h, run) (inr (new, (refl, oks), refl, refl))
