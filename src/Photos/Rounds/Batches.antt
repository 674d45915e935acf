-- ===== src/Photos/Rounds/Batches.antt =====
-- The requests of `transfer_photos` (crates/proton-drive-rs/src/client.rs) and the photos that they settle.
use proton_sdk_rs.Base.{
  ℕ, ◌+◌, ◌≤◌, ◌≡◌, refl, ap, Bool, true, false, ◌&&◌, Option, none, some, List, [], ◌∷◌, ◌++◌,
  length, length-append, ltb, if◌then◌else◌, arith,
}
use proton_sdk_rs.Errors.{Result, ok, err, OnSuccess, ◌>>=◌}
use proton_sdk_rs.Events.{NodeUid}
use proton_sdk_rs.Photos.{
  PhotoTransferKind, timeline, album, PhotoTransferTarget, PhotoTargetPayload,
}
use proton_sdk_rs.Photos.Wire.{
  PhotoLinkOutcome, TransferPhotoLinkItem, item_with, add_item, link_items,
}
use proton_sdk_rs.Photos.Transfer.{
  PhotoApi, Transfer, counted, Sifted, sift_one, sift, record_transfer_outcomes, failures_from,
  told, transferred, transfer_photo_batch, copy_photo_to_target,
}
use proton_sdk_rs.Photos.Rounds.{copy_all, is_open, send_batches, max_links_per_transfer}
use proton_sdk_rs.Photos.Transfer.Settled.{
  sum, sum-append, uids_of, sum-uids_of, Goes, Goes-trans, Goes-same, record_transfer_outcome-Goes,
  record_sent-Goes, sift-Goes,
}

-- A photo that is sent has a link.
add_item-length :
    (item : Option TransferPhotoLinkItem) (items : Option (List TransferPhotoLinkItem))
    (all : List TransferPhotoLinkItem)
    → add_item item items ≡ some all
    → 1 ≤ length all
add_item-length none items all h = absurd (ground arith)
add_item-length (some item) none all h = absurd (ground arith)
add_item-length (some item) (some items) all h =
    let same : item ∷ items ≡ all = ground arith in omega (arith, ap (λ xs. length xs) same)

sift_one-length :
    (payload : PhotoTargetPayload) (items : Option (List TransferPhotoLinkItem)) (s : Sifted)
    → ((all : List TransferPhotoLinkItem) → items ≡ some all → 1 ≤ length all)
    → length s.sent ≤ length s.links
    → length (sift_one payload items s).sent ≤ length (sift_one payload items s).links
sift_one-length payload none s some_ fewer = fewer
sift_one-length payload (some items) s some_ fewer =
    omega
      (arith, some_ items refl, length-append s.sent (payload ∷ []), length-append s.links items)

sift-length :
    (payloads : List PhotoTargetPayload) (s : Sifted)
    → length s.sent ≤ length s.links
    → length (sift payloads s).sent ≤ length (sift payloads s).links
unfolding sift link_items
sift-length [] s fewer = fewer
sift-length (payload ∷ payloads) s fewer =
    let part = payload.photo in
    let first = item_with part part.original_name_hash in
    sift-length payloads (sift_one payload (link_items (part ∷ payload.related)) s) (
      sift_one-length payload (link_items (part ∷ payload.related)) s
        (add_item-length first (link_items payload.related)) fewer)

module _ {K : Type 0} (server : PhotoApi) (target : PhotoTransferTarget K) where
  -- The state after a request that did not fail has settled these photos.
  abbrev pub Settles : Transfer → List NodeUid → List NodeUid → Result Transfer → Type 0
  Settles s p q = OnSuccess (λ after. Goes 0 s p after q)

  told-Settles :
      (sent : List PhotoTargetPayload) (s : Transfer) (answer : Result (List PhotoLinkOutcome))
      (r : List NodeUid)
      → Settles s (uids_of sent ++ r) r (told server target sent s answer)
  unfolding record_transfer_outcomes
  told-Settles sent s (err e) r = tt
  told-Settles sent s (ok responses) r =
      record_sent-Goes sent (failures_from target.uid.volume_id responses []) s r

  transferred-Settles :
      (links : List TransferPhotoLinkItem) (sent : List PhotoTargetPayload) (s : Transfer)
      (r : List NodeUid)
      → length sent ≤ length links
      → Settles s (uids_of sent ++ r) r (transferred server target links sent s)
  transferred-Settles [] [] s r fewer = Goes-same s r r (λ f. refl)
  transferred-Settles [] (payload ∷ sent) s r fewer = absurd (omega arith)
  transferred-Settles (item ∷ links) sent s r fewer = told-Settles sent (counted s) _ r

  pub after_Goes :
      (s t : Transfer) (p q r : List NodeUid) (answer : Result Transfer)
      → Goes 0 s p t q
      → Settles t q r answer
      → Settles s p r answer
  after_Goes s t p q r (err e) first more = tt
  after_Goes s t p q r (ok u) first more = Goes-trans 0 0 s t u p q r first more

  transfer_photo_batch-Settles :
      (kind : PhotoTransferKind) (payloads : List PhotoTargetPayload) (s : Transfer)
      (r : List NodeUid)
      → Settles s (uids_of payloads ++ r) r (transfer_photo_batch server target kind payloads s)
  unfolding transfer_photo_batch
  transfer_photo_batch-Settles timeline payloads s r =
      let start : Sifted = record { links = []; sent = []; after = s } in
      let done = sift payloads start in
      after_Goes s done.after (uids_of payloads ++ r) (uids_of done.sent ++ r) r
        (transferred server target done.links done.sent done.after) (sift-Goes payloads start r)
        (transferred-Settles done.links done.sent done.after r
          (sift-length payloads start (omega arith)))
  transfer_photo_batch-Settles album payloads s r = told-Settles payloads (counted s) _ r

  -- A batch that is sent, or goes on.
  flushed : Bool → List PhotoTargetPayload → Transfer → Result Transfer
  flushed full batch s =
      if full then transfer_photo_batch server target target.kind batch s else ok s

  flushed-Settles :
      (full : Bool) (batch : List PhotoTargetPayload) (s : Transfer) (r : List NodeUid)
      → Settles s
          (uids_of batch ++ r)
          (uids_of (if full then [] else batch) ++ r)
          (flushed full batch s)
  unfolding flushed
  flushed-Settles true batch s r = transfer_photo_batch-Settles target.kind batch s r
  flushed-Settles false batch s r =
      Goes-same s (uids_of batch ++ r) (uids_of batch ++ r) (λ f. refl)

  joins :
      (full : Bool) (batch : List PhotoTargetPayload) (payload : PhotoTargetPayload)
      (r : List NodeUid) (f : NodeUid → ℕ)
      → sum f (uids_of (if full then [] else batch) ++ (payload.photo.uid ∷ r))
        ≡ sum f (uids_of (if full then payload ∷ [] else batch ++ (payload ∷ [])) ++ r)
  joins true batch payload r f = refl
  joins false batch payload r f = omega (
    arith,
    sum-append f (uids_of batch) (payload.photo.uid ∷ r),
    sum-append f (uids_of (batch ++ (payload ∷ []))) r,
    sum-uids_of f batch (payload ∷ []),
  )

  Settles-bind :
      (s : Transfer) (p q r : List NodeUid) (m : Result Transfer) (f : Transfer → Result Transfer)
      → Settles s p q m
      → ((t : Transfer) → Settles t q r (f t))
      → Settles s p r (m >>= f)
  Settles-bind s p q r (err e) f first more = tt
  Settles-bind s p q r (ok t) f first more = after_Goes s t p q r (f t) first (more t)

  pub send_batches-Settles :
      (payloads batch : List PhotoTargetPayload) (links : ℕ) (s : Transfer) (r : List NodeUid)
      → Settles s
          (uids_of batch ++ (uids_of payloads ++ r))
          r
          (send_batches server target payloads batch links s)
  unfolding send_batches flushed
  send_batches-Settles [] [] links s r = Goes-same s r r (λ f. refl)
  send_batches-Settles [] (first ∷ batch) links s r =
      transfer_photo_batch-Settles target.kind (first ∷ batch) s r
  send_batches-Settles (payload ∷ payloads) batch links s r =
      let count = 1 + length payload.related in
      let full = is_open batch && ltb max_links_per_transfer (links + count) in
      let rest = uids_of payloads ++ r in
      let left = uids_of (if full then [] else batch) ++ (payload.photo.uid ∷ rest) in
      let batch' = if full then payload ∷ [] else batch ++ (payload ∷ []) in
      Settles-bind s (uids_of batch ++ (payload.photo.uid ∷ rest)) left r (flushed full batch s) _
        (flushed-Settles full batch s (payload.photo.uid ∷ rest))
        (λ t.
          after_Goes t t left (uids_of batch' ++ rest) r _
            (Goes-same t left (uids_of batch' ++ rest) (joins full batch payload rest))
            (send_batches-Settles payloads batch' (if full then count else links + count) t r))

  pub copy_all-Goes :
      (payloads : List PhotoTargetPayload) (s : Transfer) (r : List NodeUid)
      → Goes 0 s (uids_of payloads ++ r) (copy_all server target payloads s) r
  unfolding copy_all copy_photo_to_target
  copy_all-Goes [] s r = Goes-same s r r (λ f. refl)
  copy_all-Goes (payload ∷ payloads) s r =
      let between = copy_photo_to_target server target payload s in
      Goes-trans 0 0 s between (copy_all server target payloads between)
        (payload.photo.uid ∷ (uids_of payloads ++ r)) (uids_of payloads ++ r) r
        (record_transfer_outcome-Goes payload.photo.uid _ (counted s)
          (payload.photo.uid ∷ (uids_of payloads ++ r)) (uids_of payloads ++ r) (λ f. refl))
        (copy_all-Goes payloads between r)
