-- ===== src/Photos/Rounds/Loading.antt =====
-- What a round of `transfer_photos` (crates/proton-drive-rs/src/client.rs) loads: photos of the queue, each
-- by its own payload or with its error.
use proton_sdk_rs.Base.{
  ℕ, zero, suc, ◌+◌, ◌≡◌, refl, ap, sym, List, [], ◌∷◌, ◌++◌, str_eq, arith, Bool-cases, inl, inr,
}
use proton_sdk_rs.Errors.{Result, ok, err, OnSuccess, OnSuccess-bind, OnSuccess-bind_with}
use mathlib.Core.Path.{subst}
use proton_sdk_rs.Events.{NodeUid}
use proton_sdk_rs.Photos.{
  PhotoTransferTarget, PhotoPart, PhotoTargetPayload, PhotoLookups, found, digest_of,
  first_photo_link, is_parented, photo_target_payload, transfer_photo_payload, with_related,
}
use proton_sdk_rs.Photos.Transfer.{PhotoApi, Transfer, counted}
use proton_sdk_rs.Photos.Rounds.{Loaded, sorted, load_next, load}
use proton_sdk_rs.Photos.Transfer.Settled.{
  sum, sum-append, uids_of, sum-uids_of, keys, is_of, tries, Goes, Goes-trans, Goes-same,
  record_outcome-Goes,
}

-- The photos that a round has loaded.
abbrev pub pending : Loaded → List NodeUid
pending l = uids_of l.same_volume ++ uids_of l.cross_volume

sum-pending :
    (f : NodeUid → ℕ) (l : Loaded)
    → sum f (pending l) ≡ sum f (uids_of l.same_volume) + sum f (uids_of l.cross_volume)
sum-pending f l = sum-append f (uids_of l.same_volume) (uids_of l.cross_volume)

abbrev pub Loads : ℕ → Loaded → Loaded → Type 0
Loads n l after = Goes n l.transfer (pending l) after.transfer (pending after)

popped : Transfer → List (NodeUid × List NodeUid) → Transfer
popped s queue = record (counted s) { queue = queue }

popped-Goes :
    (uid : NodeUid) (extra : List NodeUid) (queue : List (NodeUid × List NodeUid)) (s : Transfer)
    (p : List NodeUid)
    → (uid, extra) ∷ queue ≡ s.queue
    → Goes 1 s p (popped s queue) (uid ∷ p)
unfolding popped
popped-Goes uid extra queue s p same = (
  λ other. omega (arith, ap (λ q. sum (is_of other) (keys q)) same),
  omega (arith, ap (λ q. sum (tries s.retried) (keys q)) same),
)

module _ {K : Type 0} (server : PhotoApi) (target : PhotoTransferTarget K)
    (lookups : PhotoLookups K) where
  photo_target_payload-uid :
      (k : ℕ) (uid : NodeUid)
      → OnSuccess (λ part. part.uid ≡ uid) (photo_target_payload lookups target k uid)
  unfolding photo_target_payload
  photo_target_payload-uid k uid = OnSuccess-bind _ (lookups.get_photos_node k uid) _ (λ known.
      OnSuccess-bind _ (found known) _ (λ node.
        OnSuccess-bind _ (digest_of node node.content_sha1) _ (λ sha1.
          OnSuccess-bind _ (lookups.get_link_details k uid) _ (λ links.
            OnSuccess-bind _ (first_photo_link links) _ (λ link.
              OnSuccess-bind _ (lookups.resolve_parent_key k link) _ (λ parent_key.
                OnSuccess-bind _ (target.crypto.rewrap parent_key link.passphrase) _ (λ passphrase.
                  OnSuccess-bind _ (target.crypto.encrypt_name node.name) _ (λ name. refl))))))))

  with_related-uid :
      (k : ℕ) (uid : NodeUid) (extra : List NodeUid) (part : PhotoPart)
      → part.uid ≡ uid
      → OnSuccess
          (λ payload. payload.photo.uid ≡ uid)
          (with_related lookups target k uid extra part)
  unfolding with_related
  with_related-uid k uid extra part same =
      elim (Bool-cases (is_parented target.uid part.parent_uid)) [
        | inl there ↦ rw there tt
        | inr elsewhere ↦ rw elsewhere (
            OnSuccess-bind _ (lookups.get_photos_node k uid) _
              (λ known. OnSuccess-bind _ (found known) _ (λ node. same)))
      ]

  -- A payload carries the photo that it was asked for.
  transfer_photo_payload-uid :
      (k : ℕ) (uid : NodeUid) (extra : List NodeUid)
      → OnSuccess
          (λ payload. payload.photo.uid ≡ uid)
          (transfer_photo_payload lookups target k uid extra)
  unfolding transfer_photo_payload
  transfer_photo_payload-uid k uid extra =
      OnSuccess-bind_with (λ part. part.uid ≡ uid) (λ payload. payload.photo.uid ≡ uid)
        (photo_target_payload lookups target k uid) (with_related lookups target k uid extra)
        (photo_target_payload-uid k uid) (with_related-uid k uid extra)

  sum-sorted :
      (uid : NodeUid) (payload : PhotoTargetPayload) (l : Loaded) (f : NodeUid → ℕ)
      → payload.photo.uid ≡ uid
      → sum f (uid ∷ pending l) ≡ sum f (pending (sorted server target lookups uid (ok payload) l))
  sum-sorted uid payload l f own =
      elim (Bool-cases (str_eq payload.photo.uid.volume_id target.uid.volume_id)) [
        | inl here ↦ rw here (
            omega (
              arith,
              ap f own,
              sum-pending f l,
              sum-append f (uids_of (l.same_volume ++ (payload ∷ []))) (uids_of l.cross_volume),
              sum-uids_of f l.same_volume (payload ∷ []),
            ))
        | inr there ↦ rw there (
            omega (
              arith,
              ap f own,
              sum-pending f l,
              sum-append f (uids_of l.same_volume) (uids_of (l.cross_volume ++ (payload ∷ []))),
              sum-uids_of f l.cross_volume (payload ∷ []),
            ))
      ]

  sorted_transfer :
      (uid : NodeUid) (payload : PhotoTargetPayload) (l : Loaded)
      → (sorted server target lookups uid (ok payload) l).transfer ≡ l.transfer
  sorted_transfer uid payload l =
      elim (Bool-cases (str_eq payload.photo.uid.volume_id target.uid.volume_id)) [
        | inl here ↦ rw here refl
        | inr there ↦ rw there refl
      ]

  sorted-Loads :
      (uid : NodeUid) (answer : Result PhotoTargetPayload) (l : Loaded)
      → OnSuccess (λ payload. payload.photo.uid ≡ uid) answer
      → Goes 0 l.transfer
          (uid ∷ pending l)
          (sorted server target lookups uid answer l).transfer
          (pending (sorted server target lookups uid answer l))
  sorted-Loads uid (err e) l own =
      record_outcome-Goes uid (err e) l.transfer (uid ∷ pending l) (pending l) (λ f. refl)
  sorted-Loads uid (ok payload) l own =
      let after = sorted server target lookups uid (ok payload) l in
      subst (λ t. Goes 0 l.transfer (uid ∷ pending l) t (pending after))
        (sym (sorted_transfer uid payload l))
        (Goes-same l.transfer (uid ∷ pending l) (pending after)
          (λ f. sum-sorted uid payload l f own))

  pub load_next-Loads :
      (go : Loaded → Loaded) (uid : NodeUid) (extra : List NodeUid)
      (queue : List (NodeUid × List NodeUid)) (l : Loaded)
      → ((m : Loaded) → Loads 0 m (go m))
      → (uid, extra) ∷ queue ≡ l.transfer.queue
      → Loads 1 l (load_next server target lookups go ((uid, extra) ∷ queue) l)
  unfolding load_next popped
  load_next-Loads go uid extra queue l goes same =
      let start : Loaded = record l { transfer = popped l.transfer queue } in
      let answer = transfer_photo_payload lookups target l.transfer.requests uid extra in
      let between = sorted server target lookups uid answer start in
      Goes-trans 1 0 l.transfer start.transfer (go between).transfer (pending l) (uid ∷ pending l)
        (pending (go between)) (popped-Goes uid extra queue l.transfer (pending l) same)
        (Goes-trans 0 0 start.transfer between.transfer (go between).transfer (uid ∷ pending l)
          (pending between) (pending (go between))
          (sorted-Loads uid answer start (transfer_photo_payload-uid l.transfer.requests uid extra))
          (goes between))

  weaker : (s t : Transfer) (p q : List NodeUid) → Goes 1 s p t q → Goes 0 s p t q
  weaker s t p q (alike, less) = (alike, omega (arith, less))

  load_from :
      (go : Loaded → Loaded) (queue : List (NodeUid × List NodeUid)) (l : Loaded)
      → ((m : Loaded) → Loads 0 m (go m))
      → queue ≡ l.transfer.queue
      → Loads 0 l (load_next server target lookups go queue l)
  unfolding load_next
  load_from go [] l goes same = Goes-same l.transfer (pending l) (pending l) (λ f. refl)
  load_from go ((uid, extra) ∷ queue) l goes same =
      let after = load_next server target lookups go ((uid, extra) ∷ queue) l in
      weaker l.transfer after.transfer (pending l) (pending after)
        (load_next-Loads go uid extra queue l goes same)

  pub load-Loads : (room : ℕ) (l : Loaded) → Loads 0 l (load server target lookups room l)
  unfolding load
  load-Loads zero l = Goes-same l.transfer (pending l) (pending l) (λ f. refl)
  load-Loads (suc room) l =
      load_from (load server target lookups room) l.transfer.queue l (load-Loads room) refl
