-- ===== src/Batch/Moves/Queue.antt =====
-- Batches of moves: `take_move_batch` of crates/proton-drive-rs/src/client.rs.
use proton_sdk_rs.Base.{
  ℕ, zero, suc, ◌+◌, ◌≡◌, refl, ap, ◌∙◌, Bool, true, false, ◌&&◌, List, [], ◌∷◌, take,
  if◌then◌else◌, ltb, lt→ltb, ge→ltb, arith, Bool-cases, inl, inr,
}
use proton_sdk_rs.Batch.{max_batch_count}
use proton_sdk_rs.Batch.Moves.{PreparedMove, bool_eq, split_queue, take_move_batch}

-- A sum over the moves.
abbrev pub total : (PreparedMove → ℕ) → List PreparedMove → ℕ
total f [] = 0
total f (prepared ∷ queue) = f prepared + total f queue

-- The moves that are signed in this way, in order.
abbrev pub alike : Bool → List PreparedMove → List PreparedMove
alike anonymous [] = []
alike anonymous (prepared ∷ queue) =
    if bool_eq prepared.anonymous anonymous
    then prepared ∷ alike anonymous queue
    else alike anonymous queue

abbrev pub total_both : (PreparedMove → ℕ) → List PreparedMove × List PreparedMove → ℕ
total_both f (batch, rest) = total f batch + total f rest

total-split_queue :
    (f : PreparedMove → ℕ) (anonymous : Bool) (taken : ℕ) (queue : List PreparedMove)
    → total_both f (split_queue anonymous taken queue) ≡ total f queue
unfolding split_queue
total-split_queue f anonymous taken [] = omega arith
total-split_queue f anonymous taken (prepared ∷ queue) =
    elim (Bool-cases (ltb taken max_batch_count && bool_eq prepared.anonymous anonymous)) [
      | inl fits ↦ rw fits (omega (arith, total-split_queue f anonymous (taken + 1) queue))
      | inr other ↦ rw other (omega (arith, total-split_queue f anonymous taken queue))
    ]

-- Nothing is lost or doubled when a batch is taken.
pub total-take_move_batch :
    (f : PreparedMove → ℕ) (queue : List PreparedMove)
    → total_both f (take_move_batch queue) ≡ total f queue
unfolding take_move_batch
total-take_move_batch f [] = omega arith
total-take_move_batch f (prepared ∷ queue) =
    total-split_queue f prepared.anonymous 0 (prepared ∷ queue)

-- What a batch with room for more takes.
split_queue-alike :
    (anonymous : Bool) (room taken : ℕ) (queue : List PreparedMove)
    → taken + room ≡ max_batch_count
    → (split_queue anonymous taken queue).0 ≡ take room (alike anonymous queue)
unfolding split_queue
split_queue-alike anonymous zero taken [] h = refl
split_queue-alike anonymous (suc room) taken [] h = refl
split_queue-alike anonymous zero taken (prepared ∷ queue) h =
    let full = ge→ltb taken max_batch_count (omega arith) in
    rw full (split_queue-alike anonymous zero taken queue h)
split_queue-alike anonymous (suc room) taken (prepared ∷ queue) h =
    let open_ = lt→ltb taken max_batch_count (omega arith) in
    elim (Bool-cases (bool_eq prepared.anonymous anonymous)) [
      | inl same ↦
          rw (open_, same)
            (ap (λ rest. prepared ∷ rest)
              (split_queue-alike anonymous room (taken + 1) queue (omega arith)))
      | inr other ↦ rw (open_, other) (split_queue-alike anonymous (suc room) taken queue h)
    ]

-- A batch is the first moves that are signed as the front of the queue is, 150 at most.
pub take_move_batch-alike :
    (prepared : PreparedMove) (queue : List PreparedMove)
    → (take_move_batch (prepared ∷ queue)).0
      ≡ take max_batch_count (alike prepared.anonymous (prepared ∷ queue))
unfolding take_move_batch
take_move_batch-alike prepared queue =
    split_queue-alike prepared.anonymous max_batch_count 0 (prepared ∷ queue) (omega arith)

bool_eq_refl : (b : Bool) → bool_eq b b ≡ true
unfolding bool_eq
bool_eq_refl true = refl
bool_eq_refl false = refl

-- The front of the queue is in the batch.
pub take_move_batch-front :
    (prepared : PreparedMove) (queue : List PreparedMove)
    → (take_move_batch (prepared ∷ queue)).0 ≡ prepared ∷ take 149 (alike prepared.anonymous queue)
take_move_batch-front prepared queue =
    take_move_batch-alike prepared queue ∙ rw (bool_eq_refl prepared.anonymous) refl

pub take_move_batch_nil : (take_move_batch []).0 ≡ []
unfolding take_move_batch
take_move_batch_nil = refl
