-- ===== src/Events.antt =====
-- Incremental sync: crates/proton-drive-rs/src/events.rs, the event DTOs of dtos.rs, and
-- `to_drive_event`, `latest_event_id` and `enumerate_events` of client.rs. What the event endpoints
-- answer is an argument: `latest` for the head, `get cursor` for the page at a cursor.
pub mod Drain
pub mod Manager
use proton_sdk_rs.Base.{
  ℕ, zero, suc, String, Bool, true, false, not, Option, none, some, List, [], ◌∷◌, ◌++◌, str_eq,
  if◌then◌else◌, leb, ◌==◌, ◌&&◌,
}
use proton_sdk_rs.Base.Int.{ℤ, pos, negsuc}
use proton_sdk_rs.Errors.{Result, ok, err, refuse, ◌>>=◌}

-- `NodeUid`
pub record NodeUid : Type 0 where
  pub volume_id : String
  pub link_id : String

-- `DriveEvent`
pub data DriveEvent : Type 0 where
  node_updated : String → NodeUid → Option NodeUid → Bool → Bool → DriveEvent
  node_deleted : String → NodeUid → Option NodeUid → DriveEvent
  cursor_advanced continuity_lost scope_access_lost shared_with_me_updated : String → DriveEvent

-- `DriveEvent::id`
unfoldable pub id : DriveEvent → String
id (node_updated event_id _ _ _ _) = event_id
id (node_deleted event_id _ _) = event_id
id (cursor_advanced event_id) = event_id
id (continuity_lost event_id) = event_id
id (scope_access_lost event_id) = event_id
id (shared_with_me_updated event_id) = event_id

-- `VolumeEventLinkDto`
pub record VolumeEventLinkDto : Type 0 where
  pub id : String
  pub parent_id : Option String
  pub is_shared : Bool
  pub is_trashed : Bool

-- `VolumeEventDto`
pub record VolumeEventDto : Type 0 where
  pub id : String
  pub event_type : ℤ
  pub link : VolumeEventLinkDto

-- `VolumeEventListResponse`
pub record VolumeEventListResponse : Type 0 where
  pub last_event_id : String
  pub events : List VolumeEventDto
  pub more_entries_exist : Bool
  pub refresh_required : Bool

abbrev parent_uid : String → Option String → Option NodeUid
parent_uid volume_id none = none
parent_uid volume_id (some parent) = some (record { volume_id = volume_id; link_id = parent })

-- The `match` of `to_drive_event` on the type of an event
event_of : VolumeEventDto → NodeUid → Option NodeUid → ℤ → Result DriveEvent
event_of event node_uid parent (pos n) =
    if leb 1 n && leb n 3
    then ok (node_updated event.id node_uid parent event.link.is_trashed event.link.is_shared)
    else if n == 0
    then ok (node_deleted event.id node_uid parent)
    else refuse "unknown volume event type"
event_of event node_uid parent (negsuc _) = refuse "unknown volume event type"

-- `to_drive_event`
unfoldable pub to_drive_event : String → VolumeEventDto → Result DriveEvent
unfolding event_of
to_drive_event volume_id event =
    event_of event (record { volume_id = volume_id; link_id = event.link.id })
      (parent_uid volume_id event.link.parent_id) event.event_type

-- The `for` over the events of a page: it stops at the first that is not understood.
unfoldable pub push_events : String → List VolumeEventDto → Result (List DriveEvent)
push_events volume_id [] = ok []
push_events volume_id (event ∷ more) =
    to_drive_event volume_id event >>= λ e. push_events volume_id more >>= λ rest. ok (e ∷ rest)

module _ (volume_id : String) (latest : Result String)
    (get : String → Result VolumeEventListResponse) where
  -- The end of a page with events: `rest` is what the following pages come to.
  unfoldable pub page_events :
      Bool
      → Option (Result (List DriveEvent))
      → Result (List DriveEvent)
      → Option (Result (List DriveEvent))
  page_events more rest (err e) = some (err e)
  page_events false rest (ok events) = some (ok events)
  page_events true none (ok events) = none
  page_events true (some (err e)) (ok events) = some (err e)
  page_events true (some (ok rest)) (ok events) = some (ok (events ++ rest))

  -- What the loop of `enumerate_events` makes of the events of a page
  read_events :
      String
      → VolumeEventListResponse
      → Option (Result (List DriveEvent))
      → List VolumeEventDto
      → Option (Result (List DriveEvent))
  unfolding page_events push_events
  read_events cursor page rest [] =
      if str_eq page.last_event_id cursor
      then some (ok [])
      else some (ok (cursor_advanced page.last_event_id ∷ []))
  read_events cursor page rest (event ∷ events) =
      page_events page.more_entries_exist rest (push_events volume_id (event ∷ events))

  read_page :
      String
      → Option (Result (List DriveEvent))
      → Result VolumeEventListResponse
      → Option (Result (List DriveEvent))
  unfolding read_events
  read_page cursor rest (err e) = some (err e)
  read_page cursor rest (ok page) =
      if page.refresh_required
      then some (ok (continuity_lost page.last_event_id ∷ []))
      else read_events cursor page rest page.events

  next_cursor : Result VolumeEventListResponse → String
  next_cursor (err _) = ""
  next_cursor (ok page) = page.last_event_id

  -- The `loop` of `enumerate_events`, on fuel
  unfoldable pub drain : ℕ → String → Option (Result (List DriveEvent))
  unfolding read_page next_cursor
  drain zero cursor = none
  drain (suc fuel) cursor = read_page cursor (drain fuel (next_cursor (get cursor))) (get cursor)

  -- `enumerate_events`
  unfoldable pub enumerate_events : ℕ → Option String → Option (Result (List DriveEvent))
  unfolding drain
  enumerate_events fuel none = some (latest >>= λ head. ok (cursor_advanced head ∷ []))
  enumerate_events fuel (some cursor) = drain fuel cursor
