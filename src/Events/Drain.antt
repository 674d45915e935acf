-- ===== src/Events/Drain.antt =====
-- `enumerate_events` against a server that splits its log of events into pages.
use proton_sdk_rs.Base.{
  ℕ, zero, suc, ◌≤◌, String, ◌≡◌, ◌≢◌, refl, sym, ap, ◌∙◌, Bool, true, false, Option, some, List,
  [], ◌∷◌, ◌++◌, ne→str_eq, str_eq_refl, arith, length, append-nil, append_assoc,
}
use proton_sdk_rs.Errors.{Result, ok, err, ◌>>=◌}
use proton_sdk_rs.Events.{
  DriveEvent, cursor_advanced, continuity_lost, VolumeEventDto, VolumeEventListResponse,
  push_events, drain, page_events, enumerate_events, to_drive_event,
}

-- How the last page ends the enumeration: with the last events, with none and the cursor as it was or
-- moved, or with a lost continuity.
pub data Ending : Type 0 where
  final : VolumeEventDto → List VolumeEventDto → Ending
  quiet : Ending
  moved lost : String → Ending

-- A page that is not empty.
pub record Chunk : Type 0 where
  pub first : VolumeEventDto
  pub others : List VolumeEventDto

abbrev page_of : String → List VolumeEventDto → Bool → Result VolumeEventListResponse
page_of last events more = ok (record {
  last_event_id = last;
  events = events;
  more_entries_exist = more;
  refresh_required = false;
})

abbrev pub EndsAt : (String → Result VolumeEventListResponse) → String → Ending → Type 0
EndsAt get cursor (final event events) =
    (last : String) × (get cursor ≡ page_of last (event ∷ events) false)
EndsAt get cursor quiet = (more : Bool) × (get cursor ≡ page_of cursor [] more)
EndsAt get cursor (moved head) =
    (more : Bool) × (head ≢ cursor) × (get cursor ≡ page_of head [] more)
EndsAt get cursor (lost head) =
    (events : List VolumeEventDto) × (more : Bool) × (get cursor
      ≡ ok (record {
        last_event_id = head;
        events = events;
        more_entries_exist = more;
        refresh_required = true;
      }))

-- From `cursor` on, the server answers with the pages `chunks` and then with the ending.
abbrev pub Pages : (String → Result VolumeEventListResponse) → String → List Chunk → Ending → Type 0
Pages get cursor [] ending = EndsAt get cursor ending
Pages get cursor (chunk ∷ more) ending =
    (next : String) × (get cursor ≡ page_of next (chunk.first ∷ chunk.others) true)
    × Pages get next more ending

-- The events of all the pages, in order.
abbrev pub all_events : List Chunk → Ending → List VolumeEventDto
all_events [] (final event events) = event ∷ events
all_events [] quiet = []
all_events [] (moved _) = []
all_events [] (lost _) = []
all_events (chunk ∷ more) ending = chunk.first ∷ (chunk.others ++ all_events more ending)

abbrev pub ending_events : Ending → List DriveEvent
ending_events (final _ _) = []
ending_events quiet = []
ending_events (moved head) = cursor_advanced head ∷ []
ending_events (lost head) = continuity_lost head ∷ []

abbrev pub joined : Result (List DriveEvent) → Result (List DriveEvent) → Result (List DriveEvent)
joined first second = first >>= λ es. second >>= λ fs. ok (es ++ fs)

push_events-append :
    (volume_id : String) (first second : List VolumeEventDto)
    → push_events volume_id (first ++ second)
      ≡ joined (push_events volume_id first) (push_events volume_id second)
unfolding push_events
push_events-append volume_id [] second = go (push_events volume_id second)
  where
    go : (r : Result (List DriveEvent)) → r ≡ joined (ok []) r
    go (ok es) = refl
    go (err e) = refl
push_events-append volume_id (event ∷ first) second =
    go (to_drive_event volume_id event) (push_events volume_id first) (push_events volume_id second)
      (push_events volume_id (first ++ second)) (push_events-append volume_id first second)
  where
    go :
        (r : Result DriveEvent) (firsts seconds all : Result (List DriveEvent))
        → all ≡ joined firsts seconds
        → (r >>= λ e. all >>= λ rest. ok (e ∷ rest))
          ≡ joined (r >>= λ e. firsts >>= λ rest. ok (e ∷ rest)) seconds
    go (err e) firsts seconds all h = refl
    go (ok e) (err f) seconds all h = rw h refl
    go (ok e) (ok es) (err f) all h = rw h refl
    go (ok e) (ok es) (ok fs) all h = rw h refl

joined_nil : (r : Result (List DriveEvent)) → r ≡ joined r (ok [])
joined_nil (ok es) = ap ok (sym (append-nil es))
joined_nil (err e) = refl

joined_assoc : (r s t : Result (List DriveEvent)) → joined r (joined s t) ≡ joined (joined r s) t
joined_assoc (ok es) (ok fs) (ok gs) = ap ok (sym (append_assoc es fs gs))
joined_assoc (ok es) (ok fs) (err e) = refl
joined_assoc (ok es) (err e) t = refl
joined_assoc (err e) s t = refl

module _ (volume_id : String) (latest : Result String)
    (get : String → Result VolumeEventListResponse) where
  page_events_final :
      (rest : Option (Result (List DriveEvent))) (r : Result (List DriveEvent))
      → page_events volume_id latest get false rest r ≡ some (joined r (ok []))
  unfolding page_events
  page_events_final rest (ok es) = ap some (joined_nil (ok es))
  page_events_final rest (err e) = refl

  page_events_more :
      (r s : Result (List DriveEvent))
      → page_events volume_id latest get true (some s) r ≡ some (joined r s)
  unfolding page_events
  page_events_more (ok es) (ok fs) = refl
  page_events_more (ok es) (err f) = refl
  page_events_more (err e) s = refl

  drain-Pages :
      (chunks : List Chunk) (ending : Ending) (fuel : ℕ) (cursor : String)
      → Pages get cursor chunks ending
      → suc (length chunks) ≤ fuel
      → drain volume_id latest get fuel cursor
        ≡ some
            (joined (push_events volume_id (all_events chunks ending)) (ok (ending_events ending)))
  unfolding drain push_events
  drain-Pages chunks ending zero cursor pages enough = absurd (omega arith)
  drain-Pages [] (final event events) (suc fuel) cursor (last, h) enough = rw h (
      page_events_final (drain volume_id latest get fuel last)
        (push_events volume_id (event ∷ events)))
  drain-Pages [] quiet (suc fuel) cursor (more, h) enough = simp (h, str_eq_refl cursor) refl
  drain-Pages [] (moved head) (suc fuel) cursor (more, new, h) enough =
      simp (h, ne→str_eq head cursor new) refl
  drain-Pages [] (lost head) (suc fuel) cursor (events, more, h) enough = rw h refl
  drain-Pages (chunk ∷ more) ending (suc fuel) cursor (next, h, pages) enough =
      let rest = drain-Pages more ending fuel next pages (omega arith) in
      let here = push_events volume_id (chunk.first ∷ chunk.others) in
      let later = push_events volume_id (all_events more ending) in
      let one = page_events_more here (joined later (ok (ending_events ending))) in
      let two = joined_assoc here later (ok (ending_events ending)) in
      let three =
        push_events-append volume_id (chunk.first ∷ chunk.others) (all_events more ending) in
      rw h
        (rw rest (one ∙ ap some (two ∙ ap (λ r. joined r (ok (ending_events ending))) (sym three))))

  -- Where the server answers with pages of events, however it splits them, and then with an ending,
  -- `enumerate_events` comes to an outcome once its fuel covers the pages: the conversions of all the
  -- events in order and then what the ending tells, or the error of the first event that is not
  -- understood.
  pub enumerate_events-Pages :
      (chunks : List Chunk) (ending : Ending) (fuel : ℕ) (cursor : String)
      → Pages get cursor chunks ending
      → suc (length chunks) ≤ fuel
      → enumerate_events volume_id latest get fuel (some cursor)
        ≡ some
            (joined (push_events volume_id (all_events chunks ending)) (ok (ending_events ending)))
  unfolding enumerate_events
  enumerate_events-Pages = drain-Pages
