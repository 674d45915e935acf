-- ===== src/Batch/Moves/Answer.antt =====
-- The answer of `move_nodes` of crates/proton-drive-rs/src/client.rs, from the preparation to the results.
use proton_sdk_rs.Base.{
  ℕ, ◌*◌, ◌≤◌, ◌<◌, ◌≡◌, refl, ap, ◌∙◌, inl, inr, true, some, List, [], ◌∷◌, length, if◌then◌else◌,
  arith, Bool-cases,
}
use proton_sdk_rs.Errors.{Result, ok, err, OnSuccess}
use proton_sdk_rs.Events.{NodeUid}
use proton_sdk_rs.Batch.{Outcome, occurrences, uid_eq, uid_eq→eq, uid_eq_refl}
use proton_sdk_rs.Batch.Uids.{has_uid}
use proton_sdk_rs.Batch.Moves.{MoveRun, MoveApi, submit_moves}
use proton_sdk_rs.Batch.Moves.Confirm.{AllConfirmed}
use proton_sdk_rs.Batch.Moves.Run.{submit_moves-Ends}
use proton_sdk_rs.Batch.Moves.Prepare.{MoveSetup, prepare_moves}
use proton_sdk_rs.Batch.Moves.Prepared.{count_items, AllErrors, Holds, prepare_moves-Holds}
use proton_sdk_rs.Batch.Moves.Report.{move_items, collect_uids, results_of, run_moves, move_nodes}
use proton_sdk_rs.Batch.Moves.Told.{uids_of, AllTold, AllThere, collect-AllKnown, results_of_lem}

-- Each node is one item, whatever its places are.
count_items-move_items :
    (uid : NodeUid) (seen uids : List NodeUid)
    → count_items uid (move_items seen uids)
      ≡ (if has_uid uid seen then 0 else if has_uid uid uids then 1 else 0)
unfolding move_items has_uid
count_items-move_items uid seen [] = ground arith
count_items-move_items uid seen (other ∷ uids) =
    let later = count_items-move_items uid (other ∷ seen) uids in
    elim (Bool-cases (uid_eq other uid)) [
      | inl same ↦
          let alike : has_uid other seen ≡ has_uid uid seen =
            ap (λ u. has_uid u seen) (uid_eq→eq other uid same) in
          ground arith
      | inr differ ↦ ground arith
    ]

count_items_once :
    (uid : NodeUid) (uids : List NodeUid)
    → has_uid uid uids ≡ true
    → count_items uid (move_items [] uids) ≡ 1
unfolding has_uid
count_items_once uid uids h = ground (arith, count_items-move_items uid [] uids)

length-move_items : (seen uids : List NodeUid) → length (move_items seen uids) ≤ length uids
unfolding move_items
length-move_items seen [] = omega arith
length-move_items seen (uid ∷ uids) = ground (arith, length-move_items (uid ∷ seen) uids)

AllThere_lem :
    (told : List Outcome) (all rest : List NodeUid)
    → ((uid : NodeUid) → has_uid uid all ≡ true → occurrences uid told ≡ 1)
    → ((uid : NodeUid) → has_uid uid rest ≡ true → has_uid uid all ≡ true)
    → AllThere told rest
unfolding has_uid
AllThere_lem told all [] once part = tt
AllThere_lem told all (uid ∷ rest) once part =
    let mine : occurrences uid told ≡ 1 = once uid (part uid (ground (arith, uid_eq_refl uid))) in
    (omega arith, AllThere_lem told all rest once (λ other h. part other (ground (arith, h))))

AllErrors-AllConfirmed :
    {K : Type 0} (server : MoveApi K) (outcomes : List Outcome)
    → AllErrors outcomes
    → AllConfirmed server outcomes
AllErrors-AllConfirmed server [] h = tt
AllErrors-AllConfirmed server ((uid, ok _) ∷ outcomes) h = absurd h
AllErrors-AllConfirmed server ((uid, err e) ∷ outcomes) h = AllErrors-AllConfirmed server outcomes h

module _ {K : Type 0} (server : MoveApi K) (setup : MoveSetup K) where
  -- What the moves of these nodes came to. The prepared run had one item for each node, its stream
  -- `told` gave each node one outcome, every success of it was confirmed, and the results tell these
  -- outcomes to each place, in order.
  abbrev pub TellsEach : ℕ → List NodeUid → NodeUid → List Outcome → Type 0
  TellsEach fuel uids new_parent results =
      (run : MoveRun) × (told : List Outcome) × (prepare_moves setup (move_items [] uids) new_parent
        ≡ ok run)
      × (submit_moves server fuel 0 run ≡ some told)
      × ((uid : NodeUid)
          → has_uid uid uids ≡ true
          → (count_items uid (move_items [] uids) ≡ 1) × (occurrences uid told ≡ 1))
      × AllConfirmed server told
      × (uids_of results ≡ uids)
      × AllTold told results

  run_moves-TellsEach :
      (fuel : ℕ) (uids : List NodeUid) (new_parent : NodeUid) (start : Result MoveRun)
      → prepare_moves setup (move_items [] uids) new_parent ≡ start
      → 2 * length uids < fuel
      → OnSuccess (Holds (move_items [] uids)) start
      → (answer : Result (List Outcome)) × (run_moves server setup fuel uids start ≡ some answer)
        × OnSuccess (TellsEach fuel uids new_parent) answer
  unfolding run_moves
  run_moves-TellsEach fuel uids new_parent (err e) is_start enough h = (err e, refl, tt)
  run_moves-TellsEach fuel uids new_parent (ok run) is_start enough (counts, errors, named, few) =
      let (told, is_some, (ends, confirmed)) =
        submit_moves-Ends server fuel 0 run (omega (arith, length-move_items [] uids))
          (AllErrors-AllConfirmed server run.outcomes errors, named) in
      let once : (uid : NodeUid) → has_uid uid uids ≡ true → occurrences uid told ≡ 1 =
        λ uid h. ends uid ∙ counts uid ∙ count_items_once uid uids h in
      let (same, all) =
        results_of_lem told uids (collect_uids told []) []
          (collect-AllKnown told uids (AllThere_lem told uids uids once (λ uid h. h))) in
      (
        ok (results_of uids (collect_uids told []) []),
        rw is_some refl,
        (
          run,
          told,
          is_start,
          is_some,
          λ uid h. (count_items_once uid uids h, once uid h),
          confirmed,
          same,
          all,
        ),
      )

  -- With fuel for more than two requests for each place, `move_nodes` comes to an answer. Unless the
  -- preparation fails, that is one result for each uid, in the order of the uids. A node that is listed
  -- several times is one item of the run that is prepared, and the stream of the run gives it one
  -- outcome, which each of its places tells; a node is reported as moved only where a request that
  -- carried its link was answered with success for it.
  pub move_nodes-TellsEach :
      (fuel : ℕ) (uids : List NodeUid) (new_parent : NodeUid)
      → 2 * length uids < fuel
      → (answer : Result (List Outcome)) × (move_nodes server setup fuel uids new_parent
          ≡ some answer)
        × OnSuccess (TellsEach fuel uids new_parent) answer
  unfolding move_nodes
  move_nodes-TellsEach fuel uids new_parent enough =
      run_moves-TellsEach fuel uids new_parent _ refl enough
        (prepare_moves-Holds setup new_parent (move_items [] uids))
