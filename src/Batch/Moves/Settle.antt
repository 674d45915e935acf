-- ===== src/Batch/Moves/Settle.antt =====
-- What one batch of moves settles: `submit_move_batch` of crates/proton-drive-rs/src/client.rs. Each node
-- of the batch gets an outcome or goes back to the queue once, and a node that is reported as moved was
-- confirmed by the answer.
use proton_sdk_rs.Base.{
  ℕ, ◌+◌, ◌≤◌, ◌≡◌, refl, ◌∙◌, inl, inr, String, Bool, true, false, not, ◌&&◌, Option, none, some,
  List, [], ◌∷◌, ◌++◌, if◌then◌else◌, arith, Bool-cases,
}
use proton_sdk_rs.Base.Maps.{Map, lookup, erase}
use proton_sdk_rs.Errors.{ProtonError, Result, ok, err}
use proton_sdk_rs.Events.{NodeUid}
use proton_sdk_rs.Batch.{Outcome, collect_outcomes, occurrences, uid_eq}
use proton_sdk_rs.Batch.Moves.{
  PreparedMove, MoveRun, MoveApi, report, charge, is_out_of_date, requeue, remote_original_hash,
  settle_one, settle, answered, request_of, submit_move_batch,
}
use proton_sdk_rs.Batch.Moves.Queue.{total}

-- How many requests a move may still be in: a retried one is final.
abbrev pub weight : PreparedMove → ℕ
weight prepared = if prepared.retried then 1 else 2

abbrev pub held : NodeUid → PreparedMove → ℕ
held uid prepared = if uid_eq prepared.uid uid then 1 else 0

-- The outcomes and the moves in the queue that a node has.
abbrev pub share : NodeUid → MoveRun → ℕ
share uid run = occurrences uid run.outcomes + total (held uid) run.queue

pub occurrences-append :
    (uid : NodeUid) (xs ys : List Outcome)
    → occurrences uid (xs ++ ys) ≡ occurrences uid xs + occurrences uid ys
occurrences-append uid [] ys = omega arith
occurrences-append uid ((other, outcome) ∷ xs) ys =
    let later = occurrences-append uid xs ys in
    elim (Bool-cases (uid_eq other uid)) [ inl e ↦ rw e (omega arith) | inr e ↦ rw e (omega arith) ]

pub total-append :
    (f : PreparedMove → ℕ) (xs ys : List PreparedMove)
    → total f (xs ++ ys) ≡ total f xs + total f ys
total-append f [] ys = omega arith
total-append f (x ∷ xs) ys = omega (arith, total-append f xs ys)

share-report :
    (uid : NodeUid) (prepared : PreparedMove) (outcome : Result (Unit {0})) (run : MoveRun)
    → share uid (report prepared.uid outcome run) ≡ share uid run + held uid prepared
share-report uid prepared outcome run =
    ground (arith, occurrences-append uid run.outcomes ((prepared.uid, outcome) ∷ []))

module _ {K : Type 0} (server : MoveApi K) where
  -- What is true of a run after a node left the batch for it.
  abbrev Settles : PreparedMove → MoveRun → MoveRun → Type 0
  Settles prepared run after =
      ((uid : NodeUid) → share uid after ≡ share uid run + held uid prepared)
      × (total weight after.queue + 1 ≤ total weight run.queue + weight prepared)
      × (after.parent ≡ run.parent)
      × (after.email ≡ run.email)

  report-Settles :
      (prepared : PreparedMove) (outcome : Result (Unit {0})) (run : MoveRun)
      → Settles prepared run (report prepared.uid outcome run)
  report-Settles prepared outcome run =
      (λ uid. share-report uid prepared outcome run, ground arith, refl, refl)

  requeue-Settles :
      (prepared : PreparedMove) (hash : Result String) (run : MoveRun)
      → prepared.retried ≡ false
      → Settles prepared run (requeue server prepared hash run)
  unfolding requeue
  requeue-Settles prepared (err e) run fresh = report-Settles prepared (err e) run
  requeue-Settles prepared (ok hash) run fresh =
      let again : PreparedMove = record prepared {
        item = record prepared.item { original_hash = hash };
        retried = true;
      } in
      (
        λ uid. omega (arith, total-append (held uid) run.queue (again ∷ [])),
        rw fresh (omega (arith, total-append weight run.queue (again ∷ []))),
        refl,
        refl,
      )

  branch-Settles :
      (prepared : PreparedMove) (run yes_run no_run : MoveRun) (test : Bool)
      → (test ≡ true → Settles prepared run yes_run)
      → Settles prepared run no_run
      → Settles prepared run (if test then yes_run else no_run)
  branch-Settles prepared run a b true h g = h refl
  branch-Settles prepared run a b false h g = g

  settle_one-Settles :
      (k : ℕ) (prepared : PreparedMove) (answer : Option (Result (Unit {0}))) (run : MoveRun)
      → Settles prepared run (settle_one server k prepared answer run)
  unfolding settle_one
  settle_one-Settles k prepared none run = report-Settles prepared _ run
  settle_one-Settles k prepared (some (ok u)) run = report-Settles prepared _ run
  settle_one-Settles k prepared (some (err e)) run =
      branch-Settles prepared run _ _ (is_out_of_date e && not prepared.retried)
        (λ late.
          requeue-Settles prepared (remote_original_hash server k prepared) run (ground arith))
        (report-Settles prepared (err e) run)

  -- What is true of a run after its batch.
  abbrev pub SettlesAll : List PreparedMove → MoveRun → MoveRun → Type 0
  SettlesAll batch run after =
      ((uid : NodeUid) → share uid after ≡ share uid run + total (held uid) batch)
      × (total weight after.queue + total (λ _. 1) batch
          ≤ total weight run.queue + total weight batch)
      × (after.parent ≡ run.parent)
      × (after.email ≡ run.email)

  SettlesAll-cons :
      (prepared : PreparedMove) (batch : List PreparedMove) (run between after : MoveRun)
      → Settles prepared run between
      → SettlesAll batch between after
      → SettlesAll (prepared ∷ batch) run after
  SettlesAll-cons prepared batch run between after (one, less, p, e) (all, fewer, q, f) =
      (λ uid. omega (arith, one uid, all uid), omega arith, q ∙ p, f ∙ e)

  settle-SettlesAll :
      (k : ℕ) (per_link : Map (Result (Unit {0}))) (batch : List PreparedMove) (run : MoveRun)
      → SettlesAll batch run (settle server k per_link batch run)
  unfolding settle
  settle-SettlesAll k per_link [] run = (λ uid. omega arith, omega arith, refl, refl)
  settle-SettlesAll k per_link (prepared ∷ batch) run =
      let answer = lookup prepared.uid.link_id per_link in
      let between = settle_one server k prepared answer run in
      SettlesAll-cons prepared batch run between _ (settle_one-Settles k prepared answer run)
        (settle-SettlesAll k (erase prepared.uid.link_id per_link) batch between)

  charge-SettlesAll :
      (e : ProtonError) (batch : List PreparedMove) (run : MoveRun)
      → SettlesAll batch run (charge e batch run)
  unfolding charge
  charge-SettlesAll e [] run = (λ uid. omega arith, omega arith, refl, refl)
  charge-SettlesAll e (prepared ∷ batch) run =
      SettlesAll-cons prepared batch run _ _ (report-Settles prepared _ run)
        (charge-SettlesAll e batch _)

  -- A batch settles each of its nodes once, whatever its request comes to.
  pub submit_move_batch-SettlesAll :
      (k : ℕ) (batch : List PreparedMove) (run : MoveRun)
      → SettlesAll batch run (submit_move_batch server k batch run)
  unfolding submit_move_batch answered
  submit_move_batch-SettlesAll k batch run =
      elim (server.put_moves k (request_of run batch))
        as (λ answer. SettlesAll batch run (answered server k batch answer run)) [
          | ok responses ↦ settle-SettlesAll k (collect_outcomes responses) batch run
          | err e ↦ charge-SettlesAll e batch run
        ]
