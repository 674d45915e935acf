-- ===== src/Tests/Events.antt =====
-- A server with two pages of events, and a manager whose second poll fails.
use proton_sdk_rs.Base.{
  ◌≡◌, refl, sym, String, Bool, true, false, Option, none, some, List, [], ◌∷◌, inl, inr, arith,
  str_eq, if◌then◌else◌, ℕ, zero, suc,
}
use proton_sdk_rs.Base.Int.{pos}
use proton_sdk_rs.Errors.{Result, ok, err, keys_locked}
use proton_sdk_rs.Events.{
  id, NodeUid, DriveEvent, node_updated, node_deleted, cursor_advanced, VolumeEventLinkDto,
  VolumeEventDto, VolumeEventListResponse, enumerate_events, push_events, to_drive_event,
}
use proton_sdk_rs.Events.Drain.{final, enumerate_events-Pages}
use proton_sdk_rs.Events.Manager.{
  last_id, Manager, Tick, Follows, InStep, run, run-InStep, retry_min,
}
use proton_sdk_rs.Events.Manager.Start.{
  AllFail, StartsAt, resolve_start_cursor, resolve_start_cursor-StartsAt,
}
use Prim.Native.Nat.{max}

abbrev link : VolumeEventLinkDto
link = record { id = "link"; parent_id = none; is_shared = false; is_trashed = false }

abbrev created : VolumeEventDto
created = record { id = "e1"; event_type = pos 1; link = link }

abbrev deleted : VolumeEventDto
deleted = record { id = "e2"; event_type = pos 0; link = link }

abbrev volume_page : String → Result VolumeEventListResponse
volume_page cursor =
    if str_eq cursor "e0"
    then ok (record {
      last_event_id = "e1";
      events = created ∷ [];
      more_entries_exist = true;
      refresh_required = false;
    })
    else ok (record {
      last_event_id = "e2";
      events = deleted ∷ [];
      more_entries_exist = false;
      refresh_required = false;
    })

abbrev uid : NodeUid
uid = record { volume_id = "v"; link_id = "link" }

enumerate_events-Pages_example :
    enumerate_events "v" (ok "e2") volume_page 2 (some "e0")
    ≡ some (ok (node_updated "e1" uid none false false ∷ node_deleted "e2" uid none ∷ []))
unfolding push_events to_drive_event
enumerate_events-Pages_example =
    enumerate_events-Pages "v" (ok "e2") volume_page (record { first = created; others = [] } ∷ [])
      (final deleted []) 2 "e0" ("e1", refl, ("e2", refl)) (omega arith)

abbrev feed : List DriveEvent
feed = cursor_advanced "e1" ∷ []

-- The first poll fails, and in the second the invalidation.
abbrev offline_tick : Tick
offline_tick = record {
  enumerate = λ _. err keys_locked;
  interval = 1;
  saves = true;
  invalidate = λ event. ok tt;
}

abbrev head_page : Bool → Result (List DriveEvent)
head_page true = ok feed
head_page false = ok []

abbrev enumerate_feed : Option String → Result (List DriveEvent)
enumerate_feed none = ok []
enumerate_feed (some cursor) = head_page (str_eq cursor "e0")

abbrev online_tick : Tick
online_tick = record {
  enumerate = enumerate_feed;
  interval = 1;
  saves = false;
  invalidate = λ event. err keys_locked;
}

online_tick-Follows : Follows (some "e0") feed online_tick
unfolding last_id id
online_tick-Follows [] rest split = inr (feed, [], refl, sym split)
online_tick-Follows (x ∷ []) rest split =
    let same : x ≡ cursor_advanced "e1" = ground arith in rw same (inr ([], rest, refl, refl))
online_tick-Follows (x ∷ y ∷ seen) rest split = absurd (ground arith)

abbrev started : Manager
started = record {
  cursor = some "e0";
  retry = retry_min;
  saved = none;
  invalidations = [];
  published = [];
}

run-InStep_example : InStep (some "e0") feed (run (offline_tick ∷ online_tick ∷ []) started)
unfolding last_id
run-InStep_example =
    run-InStep (some "e0") feed (offline_tick ∷ online_tick ∷ []) started
      ((λ seen rest split. inl (keys_locked, refl)), (online_tick-Follows, tt))
      (refl, refl, (feed, refl))

abbrev seed_second : ℕ → Result (List DriveEvent)
seed_second zero = err keys_locked
seed_second (suc _) = ok feed

seed_second-AllFail : AllFail seed_second true 600 0 1
seed_second-AllFail zero from below = (keys_locked, refl)
seed_second-AllFail (suc k) from below = absurd (omega arith)

resolve_start_cursor-StartsAt_example :
    StartsAt seed_second true 600 feed 1
      (max retry_min 600)
      (resolve_start_cursor seed_second true 600 2 (ok none))
resolve_start_cursor-StartsAt_example =
    resolve_start_cursor-StartsAt seed_second true 600 2 1 feed (omega arith) seed_second-AllFail
      refl
