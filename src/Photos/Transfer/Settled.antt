-- ===== src/Photos/Transfer/Settled.antt =====
-- What the steps of `transfer_photos` (crates/proton-drive-rs/src/client.rs) keep: each photo that is taken
-- from the queue gets an outcome or goes back once.
use proton_sdk_rs.Base.{
  ℕ, ◌+◌, ◌≤◌, ◌≡◌, refl, ◌∙◌, false, Option, none, some, List, [], ◌∷◌, ◌++◌, if◌then◌else◌, arith,
  Bool-cases, inl, inr,
}
use proton_sdk_rs.Base.Maps.{Map, lookup, erase}
use proton_sdk_rs.Errors.{ProtonError, Result, ok, err}
use proton_sdk_rs.Events.{NodeUid}
use proton_sdk_rs.Batch.{uid_eq, uid_eq_refl, occurrences}
use proton_sdk_rs.Batch.Uids.{has_uid}
use proton_sdk_rs.Batch.Moves.Settle.{occurrences-append}
use proton_sdk_rs.Photos.{PhotoTargetPayload}
use proton_sdk_rs.Photos.Wire.{TransferPhotoLinkItem, link_items}
use proton_sdk_rs.Photos.Transfer.{
  Transfer, record_outcome, record_transfer_outcome, Sifted, sift_one, sift, record_sent,
}

-- A sum over the photos.
abbrev pub sum : (NodeUid → ℕ) → List NodeUid → ℕ
sum f [] = 0
sum f (uid ∷ uids) = f uid + sum f uids

pub sum-append : (f : NodeUid → ℕ) (xs ys : List NodeUid) → sum f (xs ++ ys) ≡ sum f xs + sum f ys
sum-append f [] ys = omega arith
sum-append f (x ∷ xs) ys = omega (arith, sum-append f xs ys)

abbrev pub uids_of : List PhotoTargetPayload → List NodeUid
uids_of [] = []
uids_of (payload ∷ payloads) = payload.photo.uid ∷ uids_of payloads

pub sum-uids_of :
    (f : NodeUid → ℕ) (xs ys : List PhotoTargetPayload)
    → sum f (uids_of (xs ++ ys)) ≡ sum f (uids_of xs) + sum f (uids_of ys)
sum-uids_of f [] ys = omega arith
sum-uids_of f (x ∷ xs) ys = omega (arith, sum-uids_of f xs ys)

abbrev pub keys : List (NodeUid × List NodeUid) → List NodeUid
keys [] = []
keys ((uid, _) ∷ queue) = uid ∷ keys queue

sum-keys :
    (f : NodeUid → ℕ) (queue : List (NodeUid × List NodeUid)) (uid : NodeUid) (extra : List NodeUid)
    → sum f (keys (queue ++ ((uid, extra) ∷ []))) ≡ sum f (keys queue) + f uid
sum-keys f [] uid extra = omega arith
sum-keys f ((other, _) ∷ queue) uid extra = omega (arith, sum-keys f queue uid extra)

abbrev pub is_of : NodeUid → NodeUid → ℕ
is_of uid other = if uid_eq other uid then 1 else 0

-- How often a photo may still be tried: a retried one once.
abbrev pub tries : List NodeUid → NodeUid → ℕ
tries retried uid = if has_uid uid retried then 1 else 2

abbrev pub one : NodeUid → ℕ
one uid = 1

tries_fewer :
    (uid other : NodeUid) (retried : List NodeUid)
    → tries (uid ∷ retried) other ≤ tries retried other
unfolding has_uid
tries_fewer uid other retried = elim (Bool-cases (uid_eq uid other)) [
  | inl same ↦ rw same (ground arith)
  | inr differ ↦ rw differ (omega arith)
]

sum_fewer :
    (uid : NodeUid) (retried uids : List NodeUid)
    → sum (tries (uid ∷ retried)) uids ≤ sum (tries retried) uids
sum_fewer uid retried [] = omega arith
sum_fewer uid retried (other ∷ uids) =
    omega (arith, tries_fewer uid other retried, sum_fewer uid retried uids)

-- The outcomes of a photo and its places in the queue or among the pending photos.
abbrev pub share : NodeUid → Transfer → List NodeUid → ℕ
share uid s pending =
    occurrences uid s.outcomes + sum (is_of uid) (keys s.queue) + sum (is_of uid) pending

abbrev pub work : Transfer → List NodeUid → ℕ
work s pending = sum (tries s.retried) (keys s.queue) + sum (tries s.retried) pending

-- No photo is lost or doubled, and each that leaves the pending ones costs a try; `n` more are spent.
abbrev pub Goes : ℕ → Transfer → List NodeUid → Transfer → List NodeUid → Type 0
Goes n s pending t left =
    ((uid : NodeUid) → share uid t left ≡ share uid s pending)
    × (work t left + sum one pending + n ≤ work s pending + sum one left)

pub Goes-trans :
    (n m : ℕ) (s t u : Transfer) (p q r : List NodeUid)
    → Goes n s p t q
    → Goes m t q u r
    → Goes (n + m) s p u r
Goes-trans n m s t u p q r (alike, less) (same, fewer) = (λ uid. same uid ∙ alike uid, omega arith)

pub Goes-same :
    (s : Transfer) (p q : List NodeUid) → ((f : NodeUid → ℕ) → sum f p ≡ sum f q) → Goes 0 s p s q
Goes-same s p q same =
    (λ uid. omega (arith, same (is_of uid)), omega (arith, same (tries s.retried), same one))

pub record_outcome-Goes :
    (uid : NodeUid) (outcome : Result (Unit {0})) (s : Transfer) (p q : List NodeUid)
    → ((f : NodeUid → ℕ) → sum f p ≡ f uid + sum f q)
    → Goes 0 s p (record_outcome uid outcome s) q
record_outcome-Goes uid outcome s p q apart = (
  λ other.
      ground
        (arith, occurrences-append other s.outcomes ((uid, outcome) ∷ []), apart (is_of other)),
  ground (arith, apart (tries s.retried), apart one),
)

retry-Goes :
    (uid : NodeUid) (extra : List NodeUid) (s : Transfer) (p q : List NodeUid)
    → ((f : NodeUid → ℕ) → sum f p ≡ f uid + sum f q)
    → has_uid uid s.retried ≡ false
    → Goes 0 s p (record s { queue = s.queue ++ ((uid, extra) ∷ []); retried = uid ∷ s.retried }) q
unfolding has_uid
retry-Goes uid extra s p q apart fresh =
    let later : tries (uid ∷ s.retried) uid ≡ 1 = rw (uid_eq_refl uid) refl in
    let now : tries s.retried uid ≡ 2 = rw fresh refl in
    (
      λ other. omega (arith, sum-keys (is_of other) s.queue uid extra, apart (is_of other)),
      omega (
        arith,
        later,
        now,
        sum-keys (tries (uid ∷ s.retried)) s.queue uid extra,
        sum_fewer uid s.retried (keys s.queue),
        sum_fewer uid s.retried q,
        apart (tries s.retried),
        apart one,
      ),
    )

pub record_transfer_outcome-Goes :
    (uid : NodeUid) (failure : Option (List NodeUid × ProtonError)) (s : Transfer)
    (p q : List NodeUid)
    → ((f : NodeUid → ℕ) → sum f p ≡ f uid + sum f q)
    → Goes 0 s p (record_transfer_outcome uid failure s) q
unfolding record_transfer_outcome
record_transfer_outcome-Goes uid none s p q apart = record_outcome-Goes uid (ok tt) s p q apart
record_transfer_outcome-Goes uid (some ([], error)) s p q apart =
    record_outcome-Goes uid (err error) s p q apart
record_transfer_outcome-Goes uid (some (first ∷ missing, error)) s p q apart =
    elim (Bool-cases (has_uid uid s.retried)) [
      | inl again ↦ rw again (record_outcome-Goes uid (err error) s p q apart)
      | inr fresh ↦ rw fresh (retry-Goes uid (first ∷ missing) s p q apart fresh)
    ]

pub record_sent-Goes :
    (sent : List PhotoTargetPayload) (failures : Map (List NodeUid × ProtonError)) (s : Transfer)
    (r : List NodeUid)
    → Goes 0 s (uids_of sent ++ r) (record_sent sent failures s) r
unfolding record_sent
record_sent-Goes [] failures s r = Goes-same s r r (λ f. refl)
record_sent-Goes (payload ∷ sent) failures s r =
    let uid = payload.photo.uid in
    let after = record_transfer_outcome uid (lookup uid.link_id failures) s in
    Goes-trans 0 0 s after (record_sent sent (erase uid.link_id failures) after)
      (uid ∷ (uids_of sent ++ r)) (uids_of sent ++ r) r
      (record_transfer_outcome-Goes uid (lookup uid.link_id failures) s (uid ∷ (uids_of sent ++ r))
        (uids_of sent ++ r) (λ f. refl))
      (record_sent-Goes sent (erase uid.link_id failures) after r)

sift_one-Goes :
    (payload : PhotoTargetPayload) (payloads : List PhotoTargetPayload)
    (items : Option (List TransferPhotoLinkItem)) (s : Sifted) (r : List NodeUid)
    → Goes 0 s.after
        (uids_of s.sent ++ (payload.photo.uid ∷ (uids_of payloads ++ r)))
        (sift_one payload items s).after
        (uids_of (sift_one payload items s).sent ++ (uids_of payloads ++ r))
sift_one-Goes payload payloads none s r =
    let uid = payload.photo.uid in
    let rest = uids_of payloads ++ r in
    record_outcome-Goes uid _ s.after (uids_of s.sent ++ (uid ∷ rest)) (uids_of s.sent ++ rest)
      (λ f.
        omega
          (arith, sum-append f (uids_of s.sent) (uid ∷ rest), sum-append f (uids_of s.sent) rest))
sift_one-Goes payload payloads (some items) s r =
    let uid = payload.photo.uid in
    let rest = uids_of payloads ++ r in
    Goes-same s.after (uids_of s.sent ++ (uid ∷ rest)) (uids_of (s.sent ++ (payload ∷ [])) ++ rest)
      (λ f. omega (
        arith,
        sum-append f (uids_of s.sent) (uid ∷ rest),
        sum-append f (uids_of (s.sent ++ (payload ∷ []))) rest,
        sum-uids_of f s.sent (payload ∷ []),
      ))

pub sift-Goes :
    (payloads : List PhotoTargetPayload) (s : Sifted) (r : List NodeUid)
    → Goes 0 s.after
        (uids_of s.sent ++ (uids_of payloads ++ r))
        (sift payloads s).after
        (uids_of (sift payloads s).sent ++ r)
unfolding sift
sift-Goes [] s r = Goes-same s.after (uids_of s.sent ++ r) (uids_of s.sent ++ r) (λ f. refl)
sift-Goes (payload ∷ payloads) s r =
    let items = link_items (payload.photo ∷ payload.related) in
    let between = sift_one payload items s in
    Goes-trans 0 0 s.after between.after (sift payloads between).after
      (uids_of s.sent ++ (payload.photo.uid ∷ (uids_of payloads ++ r)))
      (uids_of between.sent ++ (uids_of payloads ++ r)) (uids_of (sift payloads between).sent ++ r)
      (sift_one-Goes payload payloads items s r) (sift-Goes payloads between r)
