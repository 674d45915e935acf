-- ===== src/Upload/Targets/Own.antt =====
-- Each block of a batch is stored at a target of its own.
use proton_sdk_rs.Base.{
  ◌≤◌, ◌≡◌, refl, Bool, true, none, some, List, [], ◌∷◌, ◌++◌, map, arith, inl, inr, Bool-cases,
  ◌||◌, length,
}
use proton_sdk_rs.Base.Int.{ℤ}
use proton_sdk_rs.Errors.{Result, ok, err}
use proton_sdk_rs.Upload.{BlockUploadTarget, UploadJob, PreparedBlock}
use proton_sdk_rs.Upload.Targets.{
  is_at, is_none, Taken, kept, remove_first, or_else, take_block_target, block_job, block_jobs,
  put_block, add_job, rest_of,
}
use mathlib.Core.List.{Permᴰ}
use mathlib.Core.List.Permᴰ

abbrev pub target_of : UploadJob → BlockUploadTarget
target_of job = job.target

-- The target says the block's index, or none.
abbrev pub Fits : PreparedBlock → BlockUploadTarget → Type 0
Fits block target = (is_at block.request.index target.index || is_none target.index) ≡ true

-- One job for each block, in order, at a target that fits it.
abbrev pub AllOwn : List PreparedBlock → List UploadJob → Type 0
AllOwn [] [] = Unit
AllOwn [] (_ ∷ _) = ⊥
AllOwn (_ ∷ _) [] = ⊥
AllOwn (block ∷ batch) (job ∷ jobs) =
    (job ≡ block_job block job.target) × Fits block job.target × AllOwn batch jobs

-- A taken target passed the test, and it and the others are the targets there were.
abbrev Apart : (BlockUploadTarget → Bool) → List BlockUploadTarget → Taken → Type 0
Apart test targets none = Unit
Apart test targets (some (target, rest)) = (test target ≡ true) × Permᴰ (target ∷ rest) targets

kept-Apart :
    (test : BlockUploadTarget → Bool) (target : BlockUploadTarget)
    (targets : List BlockUploadTarget) (taken : Taken)
    → Apart test targets taken
    → Apart test (target ∷ targets) (kept target taken)
unfolding kept
kept-Apart test target targets none h = tt
kept-Apart test target targets (some (t, rest)) (passed, p) =
    (passed, Permᴰ.trans (Permᴰ.swap refl refl) (Permᴰ.cons refl p))

remove_first-Apart :
    (test : BlockUploadTarget → Bool) (targets : List BlockUploadTarget)
    → Apart test targets (remove_first test targets)
unfolding remove_first
remove_first-Apart test [] = tt
remove_first-Apart test (target ∷ targets) =
    let later = remove_first-Apart test targets in
    elim (Bool-cases (test target)) [
      | inl here ↦ rw here (here, Permᴰ.refl (target ∷ targets))
      | inr other ↦ rw other (kept-Apart test target targets (remove_first test targets) later)
    ]

or_else-Apart :
    (first second : BlockUploadTarget → Bool) (targets : List BlockUploadTarget) (one other : Taken)
    → Apart first targets one
    → Apart second targets other
    → Apart (λ t. first t || second t) targets (or_else one other)
unfolding or_else
or_else-Apart first second targets none none a b = tt
or_else-Apart first second targets none (some (t, rest)) a (passed, p) = (ground arith, p)
or_else-Apart first second targets (some (t, rest)) other (passed, p) b = (rw passed refl, p)

take_block_target-Apart :
    (block : PreparedBlock) (targets : List BlockUploadTarget)
    → Apart
        (λ t. is_at block.request.index t.index || is_none t.index)
        targets
        (take_block_target targets block.request.index)
unfolding take_block_target
take_block_target-Apart block targets =
    or_else-Apart (λ t. is_at block.request.index t.index) (λ t. is_none t.index) targets
      (remove_first (λ t. is_at block.request.index t.index) targets)
      (remove_first (λ t. is_none t.index) targets)
      (remove_first-Apart (λ t. is_at block.request.index t.index) targets)
      (remove_first-Apart (λ t. is_none t.index) targets)

-- What the jobs of a batch are, where there are any.
abbrev pub Assigned : List PreparedBlock → List BlockUploadTarget → Result (List UploadJob) → Type 0
Assigned batch targets (err e) = Unit
Assigned batch targets (ok jobs) =
    AllOwn batch jobs
    × ((rest : List BlockUploadTarget) × Permᴰ (map target_of jobs ++ rest) targets)

put_block-Assigned :
    (block : PreparedBlock) (batch : List PreparedBlock) (targets : List BlockUploadTarget)
    (taken : Taken) (later : Result (List UploadJob))
    → Apart (λ t. is_at block.request.index t.index || is_none t.index) targets taken
    → Assigned batch (rest_of targets taken) later
    → Assigned (block ∷ batch) targets (put_block block taken later)
unfolding put_block rest_of add_job
put_block-Assigned block batch targets none later apart h = tt
put_block-Assigned block batch targets (some (t, rest)) (err e) apart h = tt
put_block-Assigned block batch targets (some (t, rest)) (ok jobs) (fits, p) (own, (left, q)) =
    ((refl, fits, own), (left, Permᴰ.trans (Permᴰ.cons refl q) p))

-- Where the jobs of a batch are there at all, each block has one, in order, at a target that says the
-- block's index or none, and no target is used for two blocks: the targets used, with those left over,
-- are the targets that the server issued.
pub block_jobs-Assigned :
    (batch : List PreparedBlock) (targets : List BlockUploadTarget)
    → Assigned batch targets (block_jobs batch targets)
unfolding block_jobs
block_jobs-Assigned [] targets = (tt, (targets, Permᴰ.refl targets))
block_jobs-Assigned (block ∷ batch) targets =
    let taken = take_block_target targets block.request.index in
    let rest = rest_of targets taken in
    put_block-Assigned block batch targets taken (block_jobs batch rest)
      (take_block_target-Apart block targets) (block_jobs-Assigned batch rest)

abbrev pub AllPlain : List BlockUploadTarget → Type 0
AllPlain [] = Unit
AllPlain (target ∷ targets) = (target.index ≡ none) × AllPlain targets

-- One job for each block, at the targets as they come.
abbrev pub in_order : List PreparedBlock → List BlockUploadTarget → List UploadJob
in_order [] targets = []
in_order (block ∷ batch) [] = []
in_order (block ∷ batch) (target ∷ targets) = block_job block target ∷ in_order batch targets

plain_not_found :
    (n : ℤ) (targets : List BlockUploadTarget)
    → AllPlain targets
    → remove_first (λ t. is_at n t.index) targets ≡ none
unfolding remove_first kept
plain_not_found n [] plain = refl
plain_not_found n (target ∷ targets) (here, plain) =
    let later = plain_not_found n targets plain in simp (here, later) refl

-- Where the server echoes no index, and issues at least as many targets as there are blocks, the
-- blocks take the targets in the order of the request.
pub block_jobs_plain :
    (batch : List PreparedBlock) (targets : List BlockUploadTarget)
    → AllPlain targets
    → length batch ≤ length targets
    → block_jobs batch targets ≡ ok (in_order batch targets)
unfolding block_jobs take_block_target remove_first or_else put_block rest_of add_job
block_jobs_plain [] targets plain enough = refl
block_jobs_plain (block ∷ batch) [] plain enough = absurd (omega arith)
block_jobs_plain (block ∷ batch) (target ∷ targets) (here, plain) enough =
    let none_at = plain_not_found block.request.index targets plain in
    let later = block_jobs_plain batch targets plain (omega arith) in
    simp (here, none_at, later) refl
