-- ===== src/Photos/Transfer.antt =====
-- The requests of `transfer_photos` in crates/proton-drive-rs/src/client.rs, and what their answers do to
-- its queue: one retry of a photo whose group the server calls incomplete. The answers are arguments,
-- by their number.
pub mod Settled
use proton_sdk_rs.Base.{
  ℕ, zero, suc, ◌+◌, String, Bool, true, false, not, ◌&&◌, Option, none, some, List, [], ◌∷◌, ◌++◌,
  length, str_eq, if◌then◌else◌, ltb,
}
use proton_sdk_rs.Base.Int.{ℤ, is_int}
use proton_sdk_rs.Base.Maps.{Map, lookup, put, erase}
use proton_sdk_rs.Errors.{
  ProtonApiError, ProtonError, Result, ok, err, refuse, ◌>>=◌, api, transport, serialization,
  crypto, keys_locked, invalid_operation,
}
use proton_sdk_rs.Events.{NodeUid}
use proton_sdk_rs.Batch.{Outcome}
use proton_sdk_rs.Batch.Uids.{has_uid}
use proton_sdk_rs.Photos.{
  PhotoTransferKind, timeline, album, PhotoTransferTarget, PhotoPart, PhotoTargetPayload,
  PhotoLookups, transfer_photo_payload,
}
use proton_sdk_rs.Photos.Wire.{
  TransferPhotoLinkItem, TransferPhotosRequest, AddPhotoToAlbumEntry, CopyPhotoRequest,
  PhotoLinkOutcome, link_items, album_data, copy_request,
}

-- The requests, by their number, and the links that an error's details name under `Missing`.
pub record PhotoApi : Type 0 where
  pub transfer_multiple : ℕ → TransferPhotosRequest → Result (List PhotoLinkOutcome)
  pub add_multiple : ℕ → List AddPhotoToAlbumEntry → Result (List PhotoLinkOutcome)
  pub copy : ℕ → CopyPhotoRequest → Result (Unit {0})
  pub missing_links : ProtonApiError → List String

-- The queue, with the related photos that the server asked for, and the photos that were retried;
-- `requests` counts the requests and lookups.
pub record Transfer : Type 0 where
  pub queue : List (NodeUid × List NodeUid)
  pub retried : List NodeUid
  pub outcomes : List Outcome
  pub requests : ℕ

abbrev pub record_outcome : NodeUid → Result (Unit {0}) → Transfer → Transfer
record_outcome uid outcome s = record s { outcomes = s.outcomes ++ ((uid, outcome) ∷ []) }

abbrev pub counted : Transfer → Transfer
counted s = record s { requests = suc s.requests }

-- `record_transfer_outcome`
unfoldable pub record_transfer_outcome :
    NodeUid → Option (List NodeUid × ProtonError) → Transfer → Transfer
record_transfer_outcome uid none s = record_outcome uid (ok tt) s
record_transfer_outcome uid (some ([], error)) s = record_outcome uid (err error) s
record_transfer_outcome uid (some (first ∷ missing, error)) s =
    if has_uid uid s.retried
    then record_outcome uid (err error) s
    else record s { queue = s.queue ++ ((uid, first ∷ missing) ∷ []); retried = uid ∷ s.retried }

-- What the timeline request carries: the links and their photos, once the photos without a hash have
-- their error.
pub record Sifted : Type 0 where
  pub links : List TransferPhotoLinkItem
  pub sent : List PhotoTargetPayload
  pub after : Transfer

abbrev pub sift_one : PhotoTargetPayload → Option (List TransferPhotoLinkItem) → Sifted → Sifted
sift_one payload none s = record s {
  after =
      record_outcome payload.photo.uid
        (refuse "photo has no name hash on its current parent; it cannot be moved") s.after;
}
sift_one payload (some items) s = record s {
  links = s.links ++ items;
  sent = s.sent ++ (payload ∷ []);
}

unfoldable pub sift : List PhotoTargetPayload → Sifted → Sifted
unfolding link_items
sift [] s = s
sift (payload ∷ payloads) s =
    sift payloads (sift_one payload (link_items (payload.photo ∷ payload.related)) s)

abbrev pub on_volume : String → List String → List NodeUid
on_volume volume_id [] = []
on_volume volume_id (link_id ∷ links) =
    record { volume_id = volume_id; link_id = link_id } ∷ on_volume volume_id links

-- `missing_related_photos_error`
abbrev pub missing_related_photos_error : ProtonError
missing_related_photos_error = invalid_operation "server wants related photos sent with it: "

abbrev pub or_failed : Option String → ProtonError
or_failed none = invalid_operation "transfer failed with code "
or_failed (some message) = invalid_operation message

abbrev pub failure_with : ProtonError → List NodeUid → List NodeUid × ProtonError
failure_with error [] = ([], error)
failure_with error (first ∷ missing) = (first ∷ missing, missing_related_photos_error)

abbrev pub missing_or_none : Option (List String) → List String
missing_or_none none = []
missing_or_none (some links) = links

-- `body.code == SUCCESS_CODE && body.error.is_none()`
abbrev pub is_transferred : ℤ → Option String → Bool
is_transferred code (some error) = false
is_transferred code none = is_int 1000 code

unfoldable pub failures_from :
    String
    → List PhotoLinkOutcome
    → Map (List NodeUid × ProtonError)
    → Map (List NodeUid × ProtonError)
failures_from volume_id [] failures = failures
failures_from volume_id (outcome ∷ responses) failures = failures_from volume_id responses (
    if is_transferred outcome.code outcome.error
    then failures
    else put outcome.link_id
        (failure_with (or_failed outcome.error)
          (on_volume volume_id (missing_or_none outcome.missing)))
        failures)

unfoldable pub record_sent :
    List PhotoTargetPayload → Map (List NodeUid × ProtonError) → Transfer → Transfer
unfolding record_transfer_outcome
record_sent [] failures s = s
record_sent (payload ∷ sent) failures s =
    record_sent sent (erase payload.photo.uid.link_id failures)
      (record_transfer_outcome payload.photo.uid (lookup payload.photo.uid.link_id failures) s)

-- `record_transfer_outcomes`
unfoldable pub record_transfer_outcomes :
    String → List PhotoLinkOutcome → List PhotoTargetPayload → Transfer → Transfer
unfolding failures_from record_sent
record_transfer_outcomes volume_id responses sent s =
    record_sent sent (failures_from volume_id responses []) s

module _ {K : Type 0} (server : PhotoApi) (target : PhotoTransferTarget K) where
  abbrev pub told :
      List PhotoTargetPayload → Transfer → Result (List PhotoLinkOutcome) → Result Transfer
  told sent s (err e) = err e
  told sent s (ok responses) = ok (record_transfer_outcomes target.uid.volume_id responses sent s)

  abbrev pub transferred :
      List TransferPhotoLinkItem → List PhotoTargetPayload → Transfer → Result Transfer
  transferred [] sent s = ok s
  transferred (item ∷ links) sent s = told sent (counted s) (
      server.transfer_multiple s.requests (record {
        parent_link_id = target.uid.link_id;
        links = item ∷ links;
        name_signature_email = target.email;
        signature_email = none;
      }))

  -- `transfer_photo_batch`
  unfoldable pub transfer_photo_batch :
      PhotoTransferKind → List PhotoTargetPayload → Transfer → Result Transfer
  unfolding sift album_data record_transfer_outcomes
  transfer_photo_batch timeline payloads s =
      let sifted = sift payloads (record { links = []; sent = []; after = s }) in
      transferred sifted.links sifted.sent sifted.after
  transfer_photo_batch album payloads s =
      told payloads (counted s) (server.add_multiple s.requests (album_data payloads))

  -- What the copy of a photo came to
  unfoldable pub copy_failure : String → Result (Unit {0}) → Option (List NodeUid × ProtonError)
  copy_failure volume_id (ok _) = none
  copy_failure volume_id (err (api error)) =
      some (failure_with (api error) (on_volume volume_id (server.missing_links error)))
  copy_failure volume_id (err (transport e)) = some ([], transport e)
  copy_failure volume_id (err (serialization e)) = some ([], serialization e)
  copy_failure volume_id (err (crypto e)) = some ([], crypto e)
  copy_failure volume_id (err keys_locked) = some ([], keys_locked)
  copy_failure volume_id (err (invalid_operation e)) = some ([], invalid_operation e)

  -- `copy_photo_to_target`
  unfoldable pub copy_photo_to_target : PhotoTargetPayload → Transfer → Transfer
  unfolding copy_request copy_failure record_transfer_outcome
  copy_photo_to_target payload s =
      record_transfer_outcome payload.photo.uid
        (copy_failure payload.photo.uid.volume_id
          (server.copy s.requests (copy_request target.uid payload)))
        (counted s)
