-- ===== src/Photos/Rounds.antt =====
-- `transfer_photos` of crates/proton-drive-rs/src/client.rs: its rounds over the queue of photos.
pub mod Batches
pub mod Loading
pub mod Ends
use proton_sdk_rs.Base.{
  ℕ, zero, suc, ◌+◌, Bool, true, false, ◌&&◌, Option, none, some, List, [], ◌∷◌, ◌++◌, length,
  str_eq, if◌then◌else◌, ltb,
}
use proton_sdk_rs.Errors.{Result, ok, err, ◌>>=◌}
use proton_sdk_rs.Events.{NodeUid}
use proton_sdk_rs.Batch.{Outcome}
use proton_sdk_rs.Photos.{
  PhotoTransferTarget, PhotoTargetPayload, PhotoLookups, transfer_photo_payload,
}
use proton_sdk_rs.Photos.Transfer.{
  PhotoApi, Transfer, record_outcome, counted, transfer_photo_batch, copy_photo_to_target,
}

-- `LOAD_BATCH`
abbrev pub load_batch : ℕ
load_batch = 20

-- `MAX_LINKS_PER_TRANSFER`
abbrev pub max_links_per_transfer : ℕ
max_links_per_transfer = 10

-- The variables of a round after its loads.
pub record Loaded : Type 0 where
  pub same_volume : List PhotoTargetPayload
  pub cross_volume : List PhotoTargetPayload
  pub transfer : Transfer

abbrev pub is_open : List PhotoTargetPayload → Bool
is_open [] = false
is_open (_ ∷ _) = true

abbrev pub queued : List NodeUid → List (NodeUid × List NodeUid)
queued [] = []
queued (uid ∷ uids) = (uid, []) ∷ queued uids

abbrev pub go_on :
    (Transfer → Option (Result (List Outcome))) → Result Transfer → Option (Result (List Outcome))
go_on go (err e) = some (err e)
go_on go (ok s) = go s

module _ {K : Type 0} (server : PhotoApi) (target : PhotoTransferTarget K) where
  -- The loop over the photos of the target's volume: `links` counts those of the batch.
  unfoldable pub send_batches :
      List PhotoTargetPayload → List PhotoTargetPayload → ℕ → Transfer → Result Transfer
  unfolding transfer_photo_batch
  send_batches [] batch links s =
      if is_open batch then transfer_photo_batch server target target.kind batch s else ok s
  send_batches (payload ∷ payloads) batch links s =
      let count = 1 + length payload.related in
      let full = is_open batch && ltb max_links_per_transfer (links + count) in
      (if full then transfer_photo_batch server target target.kind batch s else ok s) >>= λ after.
      send_batches payloads (if full then payload ∷ [] else batch ++ (payload ∷ []))
        (if full then count else links + count) after

  unfoldable pub copy_all : List PhotoTargetPayload → Transfer → Transfer
  unfolding copy_photo_to_target
  copy_all [] s = s
  copy_all (payload ∷ payloads) s = copy_all payloads (copy_photo_to_target server target payload s)

  abbrev pub copied : List PhotoTargetPayload → Result Transfer → Result Transfer
  copied cross (err e) = err e
  copied cross (ok s) = ok (copy_all cross s)

  module _ (lookups : PhotoLookups K) where
    abbrev pub sorted : NodeUid → Result PhotoTargetPayload → Loaded → Loaded
    sorted uid (err e) l = record l { transfer = record_outcome uid (err e) l.transfer }
    sorted uid (ok payload) l =
        if str_eq payload.photo.uid.volume_id target.uid.volume_id
        then record l { same_volume = l.same_volume ++ (payload ∷ []) }
        else record l { cross_volume = l.cross_volume ++ (payload ∷ []) }

    unfoldable pub load_next : (Loaded → Loaded) → List (NodeUid × List NodeUid) → Loaded → Loaded
    unfolding transfer_photo_payload
    load_next go [] l = l
    load_next go ((uid, extra_related) ∷ queue) l = go (
        sorted uid (transfer_photo_payload lookups target l.transfer.requests uid extra_related)
          (record l { transfer = record (counted l.transfer) { queue = queue } }))

    -- The loop that loads, with `room` photos to go
    unfoldable pub load : ℕ → Loaded → Loaded
    unfolding load_next
    load zero l = l
    load (suc room) l = load_next (load room) l.transfer.queue l

    -- The body of the `while`
    unfoldable pub transfer_round : Transfer → Result Transfer
    unfolding load send_batches copy_all
    transfer_round s =
        let l = load load_batch (record { same_volume = []; cross_volume = []; transfer = s }) in
        copied l.cross_volume (send_batches l.same_volume [] 0 l.transfer)

    unfoldable pub while_queue :
        (Transfer → Option (Result (List Outcome)))
        → List (NodeUid × List NodeUid)
        → Transfer
        → Option (Result (List Outcome))
    unfolding transfer_round
    while_queue go [] s = some (ok s.outcomes)
    while_queue go (_ ∷ _) s = go_on go (transfer_round s)

    unfoldable pub transfer_loop : ℕ → Transfer → Option (Result (List Outcome))
    unfolding while_queue
    transfer_loop zero s = none
    transfer_loop (suc fuel) s = while_queue (transfer_loop fuel) s.queue s

    -- `transfer_photos`
    unfoldable pub transfer_photos : ℕ → List NodeUid → Option (Result (List Outcome))
    unfolding transfer_loop
    transfer_photos fuel photo_uids =
        transfer_loop fuel
          (record { queue = queued photo_uids; retried = []; outcomes = []; requests = 0 })
