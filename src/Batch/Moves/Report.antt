-- ===== src/Batch/Moves/Report.antt =====
-- `move_nodes` of crates/proton-drive-rs/src/client.rs: one outcome for each uid of the input, in the
-- order of the input.
use proton_sdk_rs.Base.{ℕ, Option, none, some, List, [], ◌∷◌, if◌then◌else◌}
use proton_sdk_rs.Errors.{ProtonError, Result, ok, err, refuse, to_string}
use proton_sdk_rs.Events.{NodeUid}
use proton_sdk_rs.Batch.{Outcome}
use proton_sdk_rs.Batch.Uids.{UidMap, find, drop_uid, put_uid, has_uid}
use proton_sdk_rs.Batch.Moves.{MoveRun, MoveApi, submit_moves}
use proton_sdk_rs.Batch.Moves.Prepare.{NodeMoveItem, MoveSetup, prepare_moves}

-- The items: each uid once, in the order of its first place.
unfoldable pub move_items : List NodeUid → List NodeUid → List NodeMoveItem
move_items seen [] = []
move_items seen (uid ∷ uids) =
    let rest = move_items (uid ∷ seen) uids in
    if has_uid uid seen then rest else record { uid = uid; target_name = none } ∷ rest

unfoldable pub collect_uids : List Outcome → UidMap (Result (Unit {0})) → UidMap (Result (Unit {0}))
collect_uids [] outcomes = outcomes
collect_uids ((uid, outcome) ∷ rest) outcomes = collect_uids rest (put_uid uid outcome outcomes)

-- What `repeats` keeps of an outcome: no error, or one to be told again.
abbrev pub error_of : Result (Unit {0}) → Option ProtonError
error_of (ok _) = none
error_of (err e) = some e

-- The outcome of one place: the node's own, or for a later place what is known of it.
unfoldable pub outcome_at :
    Option (Result (Unit {0})) → Option (Option ProtonError) → Result (Unit {0})
unfolding to_string
outcome_at (some outcome) known = outcome
outcome_at none none = refuse "move produced no outcome for node"
outcome_at none (some none) = ok tt
outcome_at none (some (some e)) = refuse (to_string e)

unfoldable pub remember :
    NodeUid → Option (Result (Unit {0})) → UidMap (Option ProtonError) → UidMap (Option ProtonError)
remember uid none repeats = repeats
remember uid (some outcome) repeats = put_uid uid (error_of outcome) repeats

-- The loop that makes the results
unfoldable pub results_of :
    List NodeUid → UidMap (Result (Unit {0})) → UidMap (Option ProtonError) → List Outcome
unfolding outcome_at remember
results_of [] outcomes repeats = []
results_of (uid ∷ uids) outcomes repeats =
    (uid, outcome_at (find uid outcomes) (find uid repeats))
    ∷ results_of uids (drop_uid uid outcomes) (remember uid (find uid outcomes) repeats)

abbrev pub report_all : List NodeUid → Option (List Outcome) → Option (Result (List Outcome))
report_all uids none = none
report_all uids (some outcomes) = some (ok (results_of uids (collect_uids outcomes []) []))

module _ {K : Type 0} (server : MoveApi K) (setup : MoveSetup K) where
  -- A preparation that fails ends the stream, and `try_collect` with it.
  unfoldable pub run_moves : ℕ → List NodeUid → Result MoveRun → Option (Result (List Outcome))
  unfolding results_of collect_uids
  run_moves fuel uids (err e) = some (err e)
  run_moves fuel uids (ok run) = report_all uids (submit_moves server fuel 0 run)

  -- `move_nodes`
  unfoldable pub move_nodes : ℕ → List NodeUid → NodeUid → Option (Result (List Outcome))
  unfolding move_items run_moves
  move_nodes fuel uids new_parent =
      run_moves fuel uids (prepare_moves setup (move_items [] uids) new_parent)
