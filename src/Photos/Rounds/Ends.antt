-- ===== src/Photos/Rounds/Ends.antt =====
-- The rounds of `transfer_photos` (crates/proton-drive-rs/src/client.rs) end.
use proton_sdk_rs.Base.{
  ℕ, zero, suc, ◌*◌, ◌<◌, ◌≡◌, refl, ap, ◌∙◌, Option, some, List, [], ◌∷◌, ◌++◌, length, arith,
}
use mathlib.Core.Path.{subst}
use proton_sdk_rs.Errors.{Result, ok, err, OnSuccess, OnSuccess-map}
use proton_sdk_rs.Events.{NodeUid}
use proton_sdk_rs.Batch.{Outcome, occurrences}
use proton_sdk_rs.Batch.Uids.{has_uid, count_uid}
use proton_sdk_rs.Photos.{PhotoTransferTarget, PhotoTargetPayload, PhotoLookups}
use proton_sdk_rs.Photos.Transfer.{PhotoApi, Transfer}
use proton_sdk_rs.Photos.Rounds.{
  Loaded, load_next, load, send_batches, copy_all, copied, transfer_round, go_on, while_queue,
  transfer_loop, queued, transfer_photos,
}
use proton_sdk_rs.Photos.Transfer.Settled.{
  sum, sum-append, uids_of, keys, is_of, tries, share, work, Goes, Goes-trans, Goes-same,
}
use proton_sdk_rs.Photos.Rounds.Batches.{Settles, send_batches-Settles, copy_all-Goes}
use proton_sdk_rs.Photos.Rounds.Loading.{pending, Loads, load_next-Loads, load-Loads}

module _ {K : Type 0} (server : PhotoApi) (target : PhotoTransferTarget K)
    (lookups : PhotoLookups K) where
  copied-Goes :
      (n : ℕ) (s t : Transfer) (p : List NodeUid) (cross : List PhotoTargetPayload)
      (answer : Result Transfer)
      → Goes n s [] t p
      → Settles server target t p (uids_of cross) answer
      → OnSuccess (λ after. Goes n s [] after []) (copied server target cross answer)
  copied-Goes n s t p cross (err e) first more = tt
  copied-Goes n s t p cross (ok u) first more =
      let after = copy_all server target cross u in
      let ends =
        Goes-trans 0 0 u u after (uids_of cross) (uids_of cross ++ []) []
          (Goes-same u (uids_of cross) (uids_of cross ++ [])
            (λ f. omega (arith, sum-append f (uids_of cross) [])))
          (copy_all-Goes server target cross u []) in
      let (alike, less) = Goes-trans n 0 s t u [] p (uids_of cross) first more in
      let (same, fewer) = ends in (λ uid. same uid ∙ alike uid, omega (arith, less, fewer))

  transfer_round-Goes :
      (uid : NodeUid) (extra : List NodeUid) (queue : List (NodeUid × List NodeUid)) (s : Transfer)
      → (uid, extra) ∷ queue ≡ s.queue
      → OnSuccess (λ after. Goes 1 s [] after []) (transfer_round server target lookups s)
  unfolding transfer_round load
  transfer_round-Goes uid extra queue s same =
      let start : Loaded = record { same_volume = []; cross_volume = []; transfer = s } in
      let go = load server target lookups 19 in
      let l = load_next server target lookups go s.queue start in
      let loads : Loads 1 start l =
        subst (λ q. Loads 1 start (load_next server target lookups go q start)) same
          (load_next-Loads server target lookups go uid extra queue start
            (load-Loads server target lookups 19) same) in
      copied-Goes 1 s l.transfer (pending l) l.cross_volume
        (send_batches server target l.same_volume [] 0 l.transfer) loads
        (send_batches-Settles server target l.same_volume [] 0 l.transfer (uids_of l.cross_volume))

  -- An answer in which each photo has as many outcomes as it has places in the queue and outcomes.
  abbrev EndsAt : Transfer → Option (Result (List Outcome)) → Type 0
  EndsAt s outcome =
      (answer : Result (List Outcome)) × (outcome ≡ some answer)
      × OnSuccess (λ outcomes. (uid : NodeUid) → occurrences uid outcomes ≡ share uid s []) answer

  go_on-EndsAt :
      (go : Transfer → Option (Result (List Outcome))) (s : Transfer) (fuel : ℕ)
      (answer : Result Transfer)
      → ((t : Transfer) → work t [] < fuel → EndsAt t (go t))
      → work s [] < suc fuel
      → OnSuccess (λ after. Goes 1 s [] after []) answer
      → EndsAt s (go_on go answer)
  go_on-EndsAt go s fuel (err e) later enough goes = (err e, refl, tt)
  go_on-EndsAt go s fuel (ok t) later enough (alike, less) =
      let (answer, is_some, ends) = later t (omega (arith, less)) in
      (answer, is_some, OnSuccess-map _ _ answer (λ outcomes told uid. told uid ∙ alike uid) ends)

  while_queue-EndsAt :
      (go : Transfer → Option (Result (List Outcome))) (queue : List (NodeUid × List NodeUid))
      (s : Transfer) (fuel : ℕ)
      → queue ≡ s.queue
      → ((t : Transfer) → work t [] < fuel → EndsAt t (go t))
      → work s [] < suc fuel
      → EndsAt s (while_queue server target lookups go queue s)
  unfolding while_queue
  while_queue-EndsAt go [] s fuel same later enough =
      (ok s.outcomes, refl, λ uid. omega (arith, ap (λ q. sum (is_of uid) (keys q)) same))
  while_queue-EndsAt go ((uid, extra) ∷ queue) s fuel same later enough =
      go_on-EndsAt go s fuel (transfer_round server target lookups s) later enough
        (transfer_round-Goes uid extra queue s same)

  transfer_loop-EndsAt :
      (fuel : ℕ) (s : Transfer)
      → work s [] < fuel
      → EndsAt s (transfer_loop server target lookups fuel s)
  unfolding transfer_loop
  transfer_loop-EndsAt zero s enough = absurd (omega arith)
  transfer_loop-EndsAt (suc fuel) s enough =
      while_queue-EndsAt (transfer_loop server target lookups fuel) s.queue s fuel refl
        (transfer_loop-EndsAt fuel) enough

  sum-queued :
      (uid : NodeUid) (uids : List NodeUid)
      → (sum (is_of uid) (keys (queued uids)) ≡ count_uid uid uids)
        × (sum (tries []) (keys (queued uids)) ≡ 2 * length uids)
  unfolding has_uid
  sum-queued uid [] = (refl, refl)
  sum-queued uid (other ∷ uids) =
      let (counts, doubles) = sum-queued uid uids in (ground arith, omega (arith, doubles))

  -- With fuel for more than two rounds for each photo, `transfer_photos` comes to an answer, also where
  -- the server asks for related photos again and again. Unless a request for a batch fails, the answer
  -- has exactly as many outcomes for each photo as the photo has places in the input: none is lost and
  -- none is told twice, also where it was put back into the queue.
  pub transfer_photos-Ends :
      (fuel : ℕ) (photo_uids : List NodeUid)
      → 2 * length photo_uids < fuel
      → (answer : Result (List Outcome)) × (transfer_photos server target lookups fuel photo_uids
          ≡ some answer)
        × OnSuccess
            (λ outcomes. (uid : NodeUid) → occurrences uid outcomes ≡ count_uid uid photo_uids)
            answer
  unfolding transfer_photos
  transfer_photos-Ends fuel photo_uids enough =
      let start : Transfer = record {
        queue = queued photo_uids;
        retried = [];
        outcomes = [];
        requests = 0;
      } in
      let (answer, is_some, ends) =
        transfer_loop-EndsAt fuel start (omega (arith, (sum-queued target.uid photo_uids).1)) in
      (
        answer,
        is_some,
        OnSuccess-map _ _ answer
            (λ outcomes told uid. omega (arith, told uid, (sum-queued uid photo_uids).0)) ends,
      )
