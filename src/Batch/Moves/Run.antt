-- ===== src/Batch/Moves/Run.antt =====
-- The run of a batch move: `submit_moves` of crates/proton-drive-rs/src/client.rs comes to an end, and
-- settles each prepared node once.
use proton_sdk_rs.Base.{
  ℕ, zero, suc, ◌+◌, ◌<◌, ◌≡◌, refl, ap, ◌∙◌, sym, Option, some, List, [], ◌∷◌, ◌++◌, arith, take,
}
use proton_sdk_rs.Events.{NodeUid}
use proton_sdk_rs.Batch.{Outcome, occurrences}
use proton_sdk_rs.Batch.Moves.{
  PreparedMove, MoveRun, MoveApi, take_move_batch, submit_move_batch, submit_moves, emit,
}
use proton_sdk_rs.Batch.Moves.Settle.{
  weight, held, share, occurrences-append, submit_move_batch-SettlesAll,
}
use proton_sdk_rs.Batch.Moves.Confirm.{
  AllConfirmed, AllConfirmed-append, IsSound, take_move_batch-AllNamed, submit_move_batch-IsSound,
}
use proton_sdk_rs.Batch.Moves.Queue.{
  total, total-take_move_batch, take_move_batch-front, alike, take_move_batch_nil,
}

module _ {K : Type 0} (server : MoveApi K) where
  -- The outcomes of a run that has ended: each node of the run has as many as it had places, and no
  -- outcome says more than the answers did.
  abbrev pub Ends : MoveRun → List Outcome → Type 0
  Ends run outcomes =
      ((uid : NodeUid) → occurrences uid outcomes ≡ share uid run) × AllConfirmed server outcomes

  emit-Ends :
      (run after : MoveRun) (first : PreparedMove) (others batch queue : List PreparedMove)
      (later : Option (List Outcome)) (rest : List Outcome)
      → batch ≡ first ∷ others
      → later ≡ some rest
      → Ends after rest
      → AllConfirmed server run.outcomes
      → ((uid : NodeUid) → share uid after ≡ total (held uid) queue + total (held uid) batch)
      → ((uid : NodeUid)
          → total (held uid) batch + total (held uid) queue ≡ total (held uid) run.queue)
      → (outcomes : List Outcome) × (emit run.outcomes batch later ≡ some outcomes)
        × Ends run outcomes
  emit-Ends run after first others batch queue later rest front is_some (counts, confirmed) before
        settled kept =
      (
        run.outcomes ++ rest,
        rw (front, is_some) refl,
        (
          λ uid.
              omega (
                arith,
                occurrences-append uid run.outcomes rest,
                counts uid,
                settled uid,
                kept uid,
              ),
          AllConfirmed-append server run.outcomes rest before confirmed,
        ),
      )

  submit_moves_from :
      (fuel k : ℕ) (queue : List PreparedMove) (run : MoveRun)
      → queue ≡ run.queue
      → total weight run.queue < fuel
      → IsSound server run
      → (outcomes : List Outcome) × (submit_moves server fuel k run ≡ some outcomes)
        × Ends run outcomes
  unfolding submit_moves
  submit_moves_from zero k queue run same enough sound = absurd (omega arith)
  submit_moves_from (suc fuel) k [] run same enough (confirmed, named) =
      let none_left : (take_move_batch run.queue).0 ≡ [] =
        ap (λ q. (take_move_batch q).0) (sym same) ∙ take_move_batch_nil in
      (
        run.outcomes,
        rw none_left refl,
        (λ uid. let e = ap (total (held uid)) same in omega arith, confirmed),
      )
  submit_moves_from (suc fuel) k (first ∷ queue) run same enough (confirmed, named) =
      let batch = (take_move_batch run.queue).0 in
      let rest = (take_move_batch run.queue).1 in
      let others = take 149 (alike first.anonymous queue) in
      let front : batch ≡ first ∷ others =
        ap (λ q. (take_move_batch q).0) (sym same) ∙ take_move_batch-front first queue in
      let before : MoveRun = record run { queue = rest; outcomes = [] } in
      let after = submit_move_batch server k batch before in
      let (settled, less, _, _) = submit_move_batch-SettlesAll server k batch before in
      let (batch_named, rest_named) = take_move_batch-AllNamed run.queue named in
      let enough_left : total weight after.queue < fuel =
        omega (arith, less, total-take_move_batch weight run.queue, ap (total (λ _. 1)) front) in
      let (outcomes, is_some, ends) =
        submit_moves_from fuel (k + 1) after.queue after refl enough_left
          (submit_move_batch-IsSound server k batch before batch_named (tt, rest_named)) in
      emit-Ends run after first others batch rest _ outcomes front is_some ends confirmed
        (λ uid. omega (arith, settled uid)) (λ uid. total-take_move_batch (held uid) run.queue)

  -- A run of moves ends within one request more than twice the moves that it holds, each retried at
  -- most once; then each node has exactly as many outcomes as it had places in the run, and a node
  -- is reported as moved only where a request that carried its link was answered with success for it.
  -- The moves of the queue carry the links of their nodes.
  pub submit_moves-Ends :
      (fuel k : ℕ) (run : MoveRun)
      → total weight run.queue < fuel
      → IsSound server run
      → (outcomes : List Outcome) × (submit_moves server fuel k run ≡ some outcomes)
        × Ends run outcomes
  submit_moves-Ends fuel k run = submit_moves_from fuel k run.queue run refl
