-- ===== src/Events/Manager/Start.antt =====
-- How the event manager finds its first cursor (`resolve_start_cursor` of
-- crates/proton-drive-rs/src/event_manager.rs), and how long it waits after a failed poll. What the
-- n-th attempt to seed from the server's head comes to is `seed n`.
use Prim.Native.Nat.{max}
use proton_sdk_rs.Base.{
  ℕ, zero, suc, ◌+◌, ◌*◌, ◌≤◌, ◌<◌, min, String, ◌≡◌, refl, sym, ap, ◌∙◌, Bool, true, false, Option,
  none, some, List, [], ◌∷◌, length, arith,
}
use proton_sdk_rs.Errors.{ProtonError, Result, ok, err}
use proton_sdk_rs.Http.Retry.Budget.{AtMost}
use proton_sdk_rs.Events.{DriveEvent}
use proton_sdk_rs.Events.Manager.{
  Manager, Tick, retry_min, last_id, handle_events, apply_events, poll, run,
}

-- The first cursor, what the store holds then, and the delays slept.
pub record Start : Type 0 where
  pub cursor : Option String
  pub saved : Option String
  pub delays : List ℕ

waited : ℕ → Option Start → Option Start
waited delay none = none
waited delay (some start) = some (record start { delays = delay ∷ start.delays })

-- The store after the seed cursor was saved, where there is one and the store takes it
seed_saved : Bool → Option String → Option String → Option String
seed_saved saves none held = held
seed_saved true (some cursor) held = some cursor
seed_saved false (some cursor) held = held

module _ (seed : ℕ → Result (List DriveEvent)) (saves : Bool) (background : ℕ) where
  seeded : ℕ → Option Start → Result (List DriveEvent) → Option Start
  unfolding waited seed_saved
  seeded delay rest (ok events) = some (record {
    cursor = last_id none events;
    saved = seed_saved saves (last_id none events) none;
    delays = [];
  })
  seeded delay rest (err _) = waited delay rest

  -- The `loop`, on fuel, from the `n`-th attempt on
  unfoldable pub seed_from : ℕ → ℕ → ℕ → Option Start
  unfolding seeded
  seed_from zero n delay = none
  seed_from (suc fuel) n delay =
      seeded delay (seed_from fuel (n + 1) (min (delay * 2) background)) (seed n)

  -- `resolve_start_cursor`; a failed load is treated as an empty store.
  unfoldable pub resolve_start_cursor : ℕ → Result (Option String) → Option Start
  unfolding seed_from
  resolve_start_cursor fuel (ok (some cursor)) =
      some (record { cursor = some cursor; saved = some cursor; delays = [] })
  resolve_start_cursor fuel (ok none) = seed_from fuel 0 retry_min
  resolve_start_cursor fuel (err _) = seed_from fuel 0 retry_min

  -- The attempts from `n` to `m` failed.
  abbrev pub AllFail : ℕ → ℕ → Type 0
  AllFail n m = (k : ℕ) → n ≤ k → k < m → (e : ProtonError) × (seed k ≡ err e)

  -- A start at the last of the events, after `count` delays of at most `cap`.
  abbrev pub StartsAt : List DriveEvent → ℕ → ℕ → Option Start → Type 0
  StartsAt events count cap result =
      (start : Start) × (result ≡ some start)
      × (start.cursor ≡ last_id none events)
      × (length start.delays ≡ count)
      × AtMost cap start.delays

  seed_from-StartsAt :
      (fuel n delay count cap : ℕ) (events : List DriveEvent)
      → count < fuel
      → delay ≤ cap
      → background ≤ cap
      → AllFail n (n + count)
      → seed (n + count) ≡ ok events
      → StartsAt events count cap (seed_from fuel n delay)
  unfolding seed_from seeded waited
  seed_from-StartsAt zero n delay count cap events enough short capped fail done =
      absurd (omega arith)
  seed_from-StartsAt (suc fuel) n delay zero cap events enough short capped fail done =
      let here : n + 0 ≡ n = omega arith in
      let first = ap seed (sym here) ∙ done in
      rw first
        (record { cursor = last_id none events; saved = _; delays = [] }, refl, refl, refl, tt)
  seed_from-StartsAt (suc fuel) n delay (suc count) cap events enough short capped fail done =
      let (e, failed) = fail n (omega arith) (omega arith) in
      let shift : n + suc count ≡ n + 1 + count = omega arith in
      let (start, ran, at, many, few) =
        seed_from-StartsAt fuel (n + 1) (min (delay * 2) background) count cap events (omega arith)
          (omega arith) capped (λ k from below. fail k (omega arith) (omega arith))
          (ap seed (sym shift) ∙ done) in
      rw (failed, ran)
        (record start { delays = delay ∷ start.delays }, refl, at, ap suc many, (short, few))

  -- With an empty store and `count` failed attempts before one that succeeds, fuel for them all is
  -- enough: the manager starts at the last event that the server's head told, after `count` delays,
  -- none longer than the background interval and the least delay.
  pub resolve_start_cursor-StartsAt :
      (fuel count : ℕ) (events : List DriveEvent)
      → count < fuel
      → AllFail 0 count
      → seed count ≡ ok events
      → StartsAt events count (max retry_min background) (resolve_start_cursor fuel (ok none))
  unfolding resolve_start_cursor
  resolve_start_cursor-StartsAt fuel count events enough fail done =
      seed_from-StartsAt fuel 0 retry_min count (max retry_min background) events enough
        (omega arith) (omega arith) (λ k from below. fail k from (omega arith))
        (let same : 0 + count ≡ count = omega arith in ap seed same ∙ done)

-- The delay after the next failure is at most the cap.
apply_events-retry :
    (tick : Tick) (events : List DriveEvent) (manager : Manager)
    → (apply_events tick events manager).retry ≡ manager.retry
unfolding apply_events
apply_events-retry tick [] manager = refl
apply_events-retry tick (event ∷ events) manager = apply_events-retry tick events _

abbrev pub AllShort : ℕ → List Tick → Type 0
AllShort cap [] = Unit
AllShort cap (tick ∷ ticks) = (tick.interval ≤ cap) × AllShort cap ticks

handle_events-retry :
    (cap : ℕ) (tick : Tick) (manager : Manager) (outcome : Result (List DriveEvent))
    → retry_min ≤ cap
    → tick.interval ≤ cap
    → (handle_events tick manager outcome).retry ≤ cap
unfolding handle_events
handle_events-retry cap tick manager (err e) least short = omega arith
handle_events-retry cap tick manager (ok []) least short = least
handle_events-retry cap tick manager (ok (event ∷ events)) least short =
    rw (apply_events-retry tick (event ∷ events) (record manager { retry = retry_min })) least

-- The delay after a failed poll never passes the longest poll interval, or the least delay where that
-- is longer, however many polls fail in a row.
pub run-retry :
    (cap : ℕ) (ticks : List Tick) (manager : Manager)
    → retry_min ≤ cap
    → AllShort cap ticks
    → manager.retry ≤ cap
    → (run ticks manager).retry ≤ cap
unfolding run poll
run-retry cap [] manager least short now = now
run-retry cap (tick ∷ ticks) manager least (first, short) now =
    run-retry cap ticks (poll tick manager) least short
      (handle_events-retry cap tick manager (tick.enumerate manager.cursor) least first)
