-- ===== src/Events/Manager.antt =====
-- The poll loop of the event manager (crates/proton-drive-rs/src/event_manager.rs). A tick holds what
-- the enumeration from a cursor comes to, the poll interval then in force, whether the cursor store
-- took the cursor, and for each event whether its invalidation succeeded. Times are in nanoseconds.
pub mod Start
use proton_sdk_rs.Base.{
  ℕ, ◌*◌, min, String, ◌≡◌, refl, sym, ap, ap₂, ◌∙◌, Bool, true, false, Option, none, some, List,
  [], ◌∷◌, ◌++◌, append-nil, append_assoc, if◌then◌else◌, arith, ◌⊎◌, inl, inr,
}
use proton_sdk_rs.Errors.{Result, ok, err}
use proton_sdk_rs.Http.Retry.{nanos_per_second}
use proton_sdk_rs.Events.{DriveEvent, id}

-- `RETRY_MIN`
abbrev pub retry_min : ℕ
retry_min = nanos_per_second

-- `EventManagerConfig` and `is_foreground`: the interval that `current_interval` reads.
abbrev pub current_interval : Bool → ℕ → ℕ → ℕ
current_interval foreground foreground_interval background_interval =
    if foreground then foreground_interval else background_interval

-- The state of the manager: the cursor, the next delay after a failure, what the store holds, and what
-- it did to events so far, in order.
pub record Manager : Type 0 where
  pub cursor : Option String
  pub retry : ℕ
  pub saved : Option String
  pub invalidations : List (DriveEvent × Result (Unit {0}))
  pub published : List DriveEvent

pub record Tick : Type 0 where
  pub enumerate : Option String → Result (List DriveEvent)
  pub interval : ℕ
  pub saves : Bool
  pub invalidate : DriveEvent → Result (Unit {0})

-- The id of the last event, or `start` where there is none.
unfoldable pub last_id : Option String → List DriveEvent → Option String
last_id start [] = start
last_id start (event ∷ events) = last_id (some (id event)) events

-- The store after `save`
saved_after : Bool → Option String → Option String → Option String
saved_after true cursor saved = cursor
saved_after false cursor saved = saved

-- The `for` over the events: each one's caches are invalidated, where a failure is only a warning, and
-- then it is published.
apply_events : Tick → List DriveEvent → Manager → Manager
apply_events tick [] manager = manager
apply_events tick (event ∷ events) manager = apply_events tick events (record manager {
  invalidations = manager.invalidations ++ ((event, tick.invalidate event) ∷ []);
  published = manager.published ++ (event ∷ []);
})

-- What a poll does with the outcome of its enumeration.
handle_events : Tick → Manager → Result (List DriveEvent) → Manager
unfolding last_id saved_after apply_events
handle_events tick manager (err _) = record manager {
  retry = min (manager.retry * 2) tick.interval;
}
handle_events tick manager (ok []) = record manager { retry = retry_min }
handle_events tick manager (ok (event ∷ events)) =
    let cursor = last_id none (event ∷ events) in
    let applied = apply_events tick (event ∷ events) (record manager { retry = retry_min }) in
    record applied { cursor = cursor; saved = saved_after tick.saves cursor applied.saved }

-- One round of the `loop` of `EventManager::run`
unfoldable pub poll : Tick → Manager → Manager
unfolding handle_events
poll tick manager = handle_events tick manager (tick.enumerate manager.cursor)

unfoldable pub run : List Tick → Manager → Manager
unfolding poll
run [] manager = manager
run (tick ∷ ticks) manager = run ticks (poll tick manager)

-- Whatever part of `feed` was seen, an enumeration from the id of the last event seen fails or comes
-- to a next part of the feed.
abbrev pub Follows : Option String → List DriveEvent → Tick → Type 0
Follows start feed tick =
    (seen rest : List DriveEvent)
    → feed ≡ seen ++ rest
    → ((e : _) × (tick.enumerate (last_id start seen) ≡ err e))
      ⊎ ((part after : List DriveEvent) × (tick.enumerate (last_id start seen) ≡ ok part)
          × (rest ≡ part ++ after))

abbrev pub AllFollow : Option String → List DriveEvent → List Tick → Type 0
AllFollow start feed [] = Unit
AllFollow start feed (tick ∷ ticks) = Follows start feed tick × AllFollow start feed ticks

abbrev pub events_of : List (DriveEvent × Result (Unit {0})) → List DriveEvent
events_of [] = []
events_of ((event, _) ∷ invalidations) = event ∷ events_of invalidations

-- What a manager is after polls of a feed: it tried to invalidate the caches once for each event that
-- it published, in the same order, and it published a first part of the feed, with its cursor at the
-- id of the last one.
abbrev pub InStep : Option String → List DriveEvent → Manager → Type 0
InStep start feed manager =
    (events_of manager.invalidations ≡ manager.published)
    × (manager.cursor ≡ last_id start manager.published)
    × ((rest : List DriveEvent) × (feed ≡ manager.published ++ rest))

last_id-append :
    (start : Option String) (seen part : List DriveEvent)
    → last_id start (seen ++ part) ≡ last_id (last_id start seen) part
unfolding last_id
last_id-append start [] part = refl
last_id-append start (event ∷ seen) part = last_id-append (some (id event)) seen part

-- What the events' invalidations come to
tried : Tick → List DriveEvent → List (DriveEvent × Result (Unit {0}))
tried tick [] = []
tried tick (event ∷ events) = (event, tick.invalidate event) ∷ tried tick events

events_of-tried : (tick : Tick) (events : List DriveEvent) → events_of (tried tick events) ≡ events
unfolding tried
events_of-tried tick [] = refl
events_of-tried tick (event ∷ events) = ap (λ es. event ∷ es) (events_of-tried tick events)

events_of-append :
    (xs ys : List (DriveEvent × Result (Unit {0})))
    → events_of (xs ++ ys) ≡ events_of xs ++ events_of ys
events_of-append [] ys = refl
events_of-append ((event, _) ∷ xs) ys = ap (λ es. event ∷ es) (events_of-append xs ys)

applied :
    (tick : Tick) (events : List DriveEvent) (manager : Manager)
    → apply_events tick events manager ≡ record manager {
      invalidations = manager.invalidations ++ tried tick events;
      published = manager.published ++ events;
    }
unfolding apply_events tried
applied tick [] manager =
    ap₂ (λ i p. record manager { invalidations = i; published = p })
      (sym (append-nil manager.invalidations)) (sym (append-nil manager.published))
applied tick (event ∷ events) manager =
    applied tick events (record manager {
      invalidations = manager.invalidations ++ ((event, tick.invalidate event) ∷ []);
      published = manager.published ++ (event ∷ []);
    })
    ∙ ap₂ (λ i p. record manager { invalidations = i; published = p })
        (append_assoc manager.invalidations ((event, tick.invalidate event) ∷ [])
          (tried tick events))
        (append_assoc manager.published (event ∷ []) events)

module _ (start : Option String) (feed : List DriveEvent) where
  handle_events-InStep :
      (tick : Tick) (manager : Manager) (outcome : Result (List DriveEvent))
      (rest : List DriveEvent)
      → InStep start feed manager
      → feed ≡ manager.published ++ rest
      → ((e : _) × (outcome ≡ err e))
        ⊎ ((part after : List DriveEvent) × (outcome ≡ ok part) × (rest ≡ part ++ after))
      → InStep start feed (handle_events tick manager outcome)
  unfolding handle_events
  handle_events-InStep tick manager (err e) rest step split h = step
  handle_events-InStep tick manager (ok []) rest step split h = step
  handle_events-InStep tick manager (ok (event ∷ events)) rest step split (inl (e, bad)) =
      absurd (ground arith)
  handle_events-InStep tick manager (ok (event ∷ events)) rest (same, at, within) split
        (inr (part, after, got, next)) =
      let here : event ∷ events ≡ part = ground arith in
      rw (applied tick (event ∷ events) (record manager { retry = retry_min })) (
        events_of-append manager.invalidations (tried tick (event ∷ events))
            ∙ ap₂ ◌++◌ same (events_of-tried tick (event ∷ events)),
        sym (last_id-append start manager.published (event ∷ events)),
        (
          after,
          split
              ∙ ap (λ es. manager.published ++ es) (next ∙ ap (λ es. es ++ after) (sym here))
              ∙ sym (append_assoc manager.published (event ∷ events) after),
        ),
      )

  poll-InStep :
      (tick : Tick) (manager : Manager)
      → Follows start feed tick
      → InStep start feed manager
      → InStep start feed (poll tick manager)
  unfolding poll
  poll-InStep tick manager follows (same, at, (rest, split)) =
      handle_events-InStep tick manager (tick.enumerate manager.cursor) rest
        (same, at, (rest, split)) split (rw at (follows manager.published rest split))

  -- Where every enumeration from the last event seen fails or returns a next part of the feed, any
  -- number of polls publishes a first part of the feed, without a gap and without a repeat, whatever
  -- polls, saves or invalidations fail. The cursor is the id of the last published event, and the
  -- caches were invalidated once for each published event, in order; an event whose invalidation
  -- failed is published all the same.
  pub run-InStep :
      (ticks : List Tick) (manager : Manager)
      → AllFollow start feed ticks
      → InStep start feed manager
      → InStep start feed (run ticks manager)
  unfolding run
  run-InStep [] manager follow step = step
  run-InStep (tick ∷ ticks) manager (follows, follow) step =
      run-InStep ticks (poll tick manager) follow (poll-InStep tick manager follows step)
