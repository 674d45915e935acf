-- ===== src/Batch/Moves/Confirm.antt =====
-- A node is reported as moved only where an answer said so: `settle_one` and `submit_move_batch` of
-- crates/proton-drive-rs/src/client.rs.
use proton_sdk_rs.Base.{
  ℕ, ◌+◌, ◌≡◌, refl, ◌⊎◌, inl, inr, String, Bool, true, false, not, ◌&&◌, Option, none, some, List,
  [], ◌∷◌, ◌++◌, str_eq, if◌then◌else◌, ltb, arith, Bool-cases,
}
use proton_sdk_rs.Base.Maps.{Map, lookup, erase, lookup-erase}
use proton_sdk_rs.Errors.{ProtonError, Result, ok, err}
use proton_sdk_rs.Events.{NodeUid}
use proton_sdk_rs.Batch.{max_batch_count, Outcome, LinkIdResponsePair, collect_outcomes}
use proton_sdk_rs.Batch.Moves.{
  PreparedMove, MoveRun, MoveApi, MoveMultipleLinksItem, MoveMultipleLinksRequest, items, report,
  charge, is_out_of_date, requeue, remote_original_hash, settle_one, settle, answered, request_of,
  submit_move_batch, split_queue, take_move_batch, bool_eq,
}

-- The link is among those that the request carries.
abbrev pub Asked : String → List MoveMultipleLinksItem → Type 0
Asked link_id [] = ⊥
Asked link_id (item ∷ items) = (item.link_id ≡ link_id) ⊎ Asked link_id items

-- Every move carries the link of its node.
abbrev pub AllNamed : List PreparedMove → Type 0
AllNamed [] = Unit
AllNamed (prepared ∷ queue) = (prepared.item.link_id ≡ prepared.uid.link_id) × AllNamed queue

pub AllNamed-append : (xs ys : List PreparedMove) → AllNamed xs → AllNamed ys → AllNamed (xs ++ ys)
AllNamed-append [] ys h g = g
AllNamed-append (x ∷ xs) ys (here, h) g = (here, AllNamed-append xs ys h g)

split_queue-AllNamed :
    (anonymous : Bool) (taken : ℕ) (queue : List PreparedMove)
    → AllNamed queue
    → AllNamed (split_queue anonymous taken queue).0
      × AllNamed (split_queue anonymous taken queue).1
unfolding split_queue
split_queue-AllNamed anonymous taken [] h = (tt, tt)
split_queue-AllNamed anonymous taken (prepared ∷ queue) (here, h) =
    elim (Bool-cases (ltb taken max_batch_count && bool_eq prepared.anonymous anonymous)) [
      | inl fits ↦
          let (first, second) = split_queue-AllNamed anonymous (taken + 1) queue h in
          rw fits ((here, first), second)
      | inr other ↦
          let (first, second) = split_queue-AllNamed anonymous taken queue h in
          rw other (first, (here, second))
    ]

pub take_move_batch-AllNamed :
    (queue : List PreparedMove)
    → AllNamed queue
    → AllNamed (take_move_batch queue).0 × AllNamed (take_move_batch queue).1
unfolding take_move_batch
take_move_batch-AllNamed [] h = (tt, tt)
take_move_batch-AllNamed (prepared ∷ queue) h =
    split_queue-AllNamed prepared.anonymous 0 (prepared ∷ queue) h

-- Every move of the list is among the links.
abbrev AllAsked : List MoveMultipleLinksItem → List PreparedMove → Type 0
AllAsked links [] = Unit
AllAsked links (prepared ∷ batch) = Asked prepared.uid.link_id links × AllAsked links batch

AllAsked-weaken :
    (item : MoveMultipleLinksItem) (links : List MoveMultipleLinksItem) (batch : List PreparedMove)
    → AllAsked links batch
    → AllAsked (item ∷ links) batch
AllAsked-weaken item links [] h = tt
AllAsked-weaken item links (prepared ∷ batch) (here, h) =
    (inr here, AllAsked-weaken item links batch h)

items-AllAsked : (batch : List PreparedMove) → AllNamed batch → AllAsked (items batch) batch
items-AllAsked [] h = tt
items-AllAsked (prepared ∷ batch) (here, h) =
    (inl here, AllAsked-weaken prepared.item (items batch) batch (items-AllAsked batch h))

module _ {K : Type 0} (server : MoveApi K) where
  -- A request that carried the link was answered with success for it.
  abbrev pub SaidMoved : String → Type 0
  SaidMoved link_id =
      (k : ℕ) × (request : MoveMultipleLinksRequest) × (responses : List LinkIdResponsePair)
      × (server.put_moves k request ≡ ok responses)
      × Asked link_id request.links
      × (lookup link_id (collect_outcomes responses) ≡ some (ok tt))

  -- No outcome says more than the answers did.
  abbrev pub AllConfirmed : List Outcome → Type 0
  AllConfirmed [] = Unit
  AllConfirmed ((uid, ok _) ∷ outcomes) = SaidMoved uid.link_id × AllConfirmed outcomes
  AllConfirmed ((uid, err _) ∷ outcomes) = AllConfirmed outcomes

  pub AllConfirmed-append :
      (xs ys : List Outcome) → AllConfirmed xs → AllConfirmed ys → AllConfirmed (xs ++ ys)
  AllConfirmed-append [] ys h g = g
  AllConfirmed-append ((uid, ok u) ∷ xs) ys (here, h) g = (here, AllConfirmed-append xs ys h g)
  AllConfirmed-append ((uid, err e) ∷ xs) ys h g = AllConfirmed-append xs ys h g

  -- The run reports what is confirmed, and its queue is named.
  abbrev pub IsSound : MoveRun → Type 0
  IsSound run = AllConfirmed run.outcomes × AllNamed run.queue

  report_error-IsSound :
      (uid : NodeUid) (e : ProtonError) (run : MoveRun)
      → IsSound run
      → IsSound (report uid (err e) run)
  report_error-IsSound uid e run (confirmed, named) =
      (AllConfirmed-append run.outcomes ((uid, err e) ∷ []) confirmed tt, named)

  requeue-IsSound :
      (prepared : PreparedMove) (hash : Result String) (run : MoveRun)
      → prepared.item.link_id ≡ prepared.uid.link_id
      → IsSound run
      → IsSound (requeue server prepared hash run)
  unfolding requeue
  requeue-IsSound prepared (err e) run here sound = report_error-IsSound prepared.uid e run sound
  requeue-IsSound prepared (ok hash) run here (confirmed, named) =
      (confirmed, AllNamed-append run.queue _ named (here, tt))

  branch-IsSound :
      (yes_run no_run : MoveRun) (test : Bool)
      → IsSound yes_run
      → IsSound no_run
      → IsSound (if test then yes_run else no_run)
  branch-IsSound a b true h g = h
  branch-IsSound a b false h g = g

  settle_one-IsSound :
      (k : ℕ) (prepared : PreparedMove) (answer : Option (Result (Unit {0}))) (run : MoveRun)
      → prepared.item.link_id ≡ prepared.uid.link_id
      → (answer ≡ some (ok tt) → SaidMoved prepared.uid.link_id)
      → IsSound run
      → IsSound (settle_one server k prepared answer run)
  unfolding settle_one
  settle_one-IsSound k prepared none run here said sound =
      report_error-IsSound prepared.uid _ run sound
  settle_one-IsSound k prepared (some (ok u)) run here said (confirmed, named) =
      (AllConfirmed-append run.outcomes _ confirmed (said refl, tt), named)
  settle_one-IsSound k prepared (some (err e)) run here said sound =
      branch-IsSound _ _ (is_out_of_date e && not prepared.retried)
        (requeue-IsSound prepared (remote_original_hash server k prepared) run here sound)
        (report_error-IsSound prepared.uid e run sound)

  module _ (k : ℕ) (request : MoveMultipleLinksRequest) (responses : List LinkIdResponsePair)
      (answer_is : server.put_moves k request ≡ ok responses) where
    -- The answers that are left are answers of the response.
    Left : Map (Result (Unit {0})) → Type 0
    Left per_link =
        (link_id : String)
        → lookup link_id per_link ≡ some (ok tt)
        → lookup link_id (collect_outcomes responses) ≡ some (ok tt)

    erase-Left :
        (key : String) (per_link : Map (Result (Unit {0})))
        → Left per_link
        → Left (erase key per_link)
    unfolding Left
    erase-Left key per_link left link_id found = elim (Bool-cases (str_eq key link_id)) [
      | inl gone ↦ absurd (ground (arith, lookup-erase link_id key per_link))
      | inr other ↦ left link_id (ground (arith, lookup-erase link_id key per_link))
    ]

    settle-IsSound :
        (per_link : Map (Result (Unit {0}))) (batch : List PreparedMove) (run : MoveRun)
        → AllNamed batch
        → AllAsked request.links batch
        → Left per_link
        → IsSound run
        → IsSound (settle server k per_link batch run)
    unfolding settle Left
    settle-IsSound per_link [] run named asked left sound = sound
    settle-IsSound per_link (prepared ∷ batch) run (here, named) (ask, asked) left sound =
        let link_id = prepared.uid.link_id in
        settle-IsSound (erase link_id per_link) batch _ named asked
          (erase-Left link_id per_link left)
          (settle_one-IsSound k prepared (lookup link_id per_link) run here
            (λ found. (k, request, responses, answer_is, ask, left link_id found)) sound)

  charge-IsSound :
      (e : ProtonError) (batch : List PreparedMove) (run : MoveRun)
      → IsSound run
      → IsSound (charge e batch run)
  unfolding charge
  charge-IsSound e [] run sound = sound
  charge-IsSound e (prepared ∷ batch) run sound =
      charge-IsSound e batch _ (report_error-IsSound prepared.uid _ run sound)

  answered-IsSound :
      (k : ℕ) (batch : List PreparedMove) (run : MoveRun)
      (answer : Result (List LinkIdResponsePair))
      → server.put_moves k (request_of run batch) ≡ answer
      → AllNamed batch
      → IsSound run
      → IsSound (answered server k batch answer run)
  unfolding answered request_of Left
  answered-IsSound k batch run (err e) answer_is named sound = charge-IsSound e batch run sound
  answered-IsSound k batch run (ok responses) answer_is named sound =
      settle-IsSound k (request_of run batch) responses answer_is (collect_outcomes responses) batch
        run named (items-AllAsked batch named) (λ link_id found. found) sound

  -- A batch of named moves leaves the run sound.
  pub submit_move_batch-IsSound :
      (k : ℕ) (batch : List PreparedMove) (run : MoveRun)
      → AllNamed batch
      → IsSound run
      → IsSound (submit_move_batch server k batch run)
  unfolding submit_move_batch
  submit_move_batch-IsSound k batch run named sound =
      answered-IsSound k batch run _ refl named sound
