-- ===== src/Upload/Block/Attempts.antt =====
-- What the attempts to store one block are.
use proton_sdk_rs.Base.{
  ℕ, zero, suc, ◌+◌, ◌≤◌, ◌≡◌, refl, ◌∙◌, Bool, true, false, Option, none, some, List, [], ◌∷◌,
  length, arith, Bool-cases, inl, inr, leb, ◌||◌,
}
use proton_sdk_rs.Errors.{ProtonError, Result, ok, err, is_retriable}
use proton_sdk_rs.Upload.{BlockUploadTarget, UploadJob}
use proton_sdk_rs.Upload.Manifest.{Stored}
use proton_sdk_rs.Upload.Block.{
  max_block_upload_attempts, max_concurrent_block_uploads, is_expired_upload_token,
  is_upload_timeout, Attempt, Upload, After, stop, retry, wanted_slots, after_failure, re_prepare,
  decide, round, or_stay, or_keep, upload_loop, upload_one_block, Retried, Trace, attempted,
  next_target, next_flag,
}

-- What a retry goes on with.
abbrev Goes : BlockUploadTarget → Bool → ℕ → ProtonError → After → Type 0
Goes target flag attempt e (stop f) = Unit
Goes target flag attempt e (retry fresh downshifted) =
    (attempt + 1 ≤ max_block_upload_attempts)
    × (is_retriable e ≡ true)
    × (is_expired_upload_token e ≡ false → fresh ≡ target)
    × (is_upload_timeout e ≡ true → downshifted ≡ true)

re_prepare-Goes :
    (attempt : ℕ) (job : UploadJob) (target : BlockUploadTarget) (flag : Bool)
    (prepared : Result (List BlockUploadTarget)) (e : ProtonError) (request : Option _)
    → attempt + 1 ≤ max_block_upload_attempts
    → is_retriable e ≡ true
    → is_expired_upload_token e ≡ true
    → is_upload_timeout e ≡ false
    → Goes target flag attempt e (re_prepare prepared job target flag request)
unfolding re_prepare
re_prepare-Goes attempt job target flag prepared e none more retriable expired slow =
    (more, retriable, (λ h. absurd (ground arith)), (λ h. absurd (ground arith)))
re_prepare-Goes attempt job target flag (err f) e (some request) more retriable expired slow = tt
re_prepare-Goes attempt job target flag (ok []) e (some request) more retriable expired slow = tt
re_prepare-Goes attempt job target flag (ok (t ∷ ts)) e (some request) more retriable expired slow =
    (more, retriable, (λ h. absurd (ground arith)), (λ h. absurd (ground arith)))

after_failure-Goes :
    (attempt : ℕ) (job : UploadJob) (target : BlockUploadTarget) (flag : Bool)
    (prepared : Result (List BlockUploadTarget)) (e : ProtonError)
    → Goes target flag attempt e (after_failure attempt job target flag prepared e)
unfolding after_failure
after_failure-Goes attempt job target flag prepared e =
    elim (Bool-cases (leb max_block_upload_attempts attempt)) [
      | inl spent ↦ rw spent tt
      | inr left ↦ elim (Bool-cases (is_retriable e)) [
        | inr permanent ↦ rw (left, permanent) tt
        | inl retriable ↦ elim (Bool-cases (is_upload_timeout e)) [
          | inl slow ↦
              rw (left, retriable, slow) (ground arith, retriable, (λ h. refl), (λ h. refl))
          | inr fast ↦ elim (Bool-cases (is_expired_upload_token e)) [
            | inl expired ↦
                rw (left, retriable, fast, expired)
                  (re_prepare-Goes attempt job target flag prepared e job.request (ground arith)
                    retriable expired fast)
            | inr fresh ↦
                rw (left, retriable, fast, fresh)
                  (ground arith, retriable, (λ h. refl), (λ h. absurd (ground arith)))
          ]
        ]
      ]
    ]

module _ (job : UploadJob) (post : ℕ → BlockUploadTarget → Result {0} Unit)
    (prepare : ℕ → Result (List BlockUploadTarget)) (shared : ℕ → Bool) where
  -- An upload is there whose attempts, from the `n`-th on, start at `target`.
  abbrev pub Uploads : ℕ → ℕ → BlockUploadTarget → Bool → Option Upload → Type 0
  Uploads fuel n target flag result =
      (upload : Upload) × (result ≡ some upload)
      × (length upload.attempts ≤ fuel)
      × (first : Attempt) × (more : List Attempt) × (upload.attempts ≡ first ∷ more)
      × (first.target ≡ target)
      × (flag ≡ true → first.wanted ≡ max_concurrent_block_uploads)
      × Trace job post prepare shared n upload.attempts upload.outcome

  -- Why a round decided as it did.
  abbrev Why : ℕ → BlockUploadTarget → Bool → Option After → Type 0
  Why n target flag none = post n target ≡ ok tt
  Why n target flag (some after) =
      (e : ProtonError) × (post n target ≡ err e) × Goes target flag n e after

  decide-Why :
      (n : ℕ) (target : BlockUploadTarget) (flag : Bool) (posted : Result {0} Unit)
      → post n target ≡ posted
      → Why n target flag (decide job n target flag (prepare n) posted)
  unfolding decide
  decide-Why n target flag (ok u) h = h
  decide-Why n target flag (err e) h = (e, h, after_failure-Goes n job target flag (prepare n) e)

  Trace-next :
      (n : ℕ) (attempt next : Attempt) (attempts more : List Attempt)
      (outcome : Result (Option Stored))
      → attempts ≡ next ∷ more
      → Retried job post prepare shared n attempt next
      → Trace job post prepare shared (n + 1) attempts outcome
      → Trace job post prepare shared n (attempt ∷ attempts) outcome
  Trace-next n attempt next [] more outcome are retried trace = absurd trace
  Trace-next n attempt next (b ∷ attempts) more outcome are retried trace =
      let same : b ≡ next = ground arith in (rw same retried, trace)

  round-Uploads :
      (fuel n : ℕ) (target : BlockUploadTarget) (flag downshifted : Bool) (after : Option After)
      (rest : Option Upload)
      → (downshifted ≡ true → flag ≡ true)
      → Why n target flag after
      → (n + 1 ≤ max_block_upload_attempts
          → Uploads fuel
              (n + 1)
              (or_stay job post prepare shared target after)
              (or_keep job post prepare shared flag after)
              rest)
      → Uploads (suc fuel) n target downshifted (
          round job post prepare shared
            (record { target = target; wanted = wanted_slots flag })
            flag
            after
            rest)
  unfolding round or_stay or_keep attempted next_target next_flag
  round-Uploads fuel n target flag downshifted none rest down why later = (
    record { outcome = ok _; attempts = _; downshifted = flag },
    refl,
    omega arith,
    record { target = target; wanted = wanted_slots flag },
    [],
    refl,
    refl,
    (λ h. let on : flag ≡ true = down h in rw on refl),
    inl (why, refl),
  )
  round-Uploads fuel n target flag downshifted (some (stop f)) rest down (e, failed, goes) later = (
    record { outcome = err f; attempts = _; downshifted = flag },
    refl,
    omega arith,
    record { target = target; wanted = wanted_slots flag },
    [],
    refl,
    refl,
    (λ h. let on : flag ≡ true = down h in rw on refl),
    inr (f, refl),
  )
  round-Uploads fuel n target flag downshifted (some (retry fresh slow)) rest down
        (e, failed, (more, retriable, same, whole)) later =
      let (upload, ran, few, first, others, are, at, all, trace) = later more in
      rw ran (
        record upload {
          attempts = record { target = target; wanted = wanted_slots flag } ∷ upload.attempts;
        },
        refl,
        omega arith,
        record { target = target; wanted = wanted_slots flag },
        upload.attempts,
        refl,
        refl,
        (λ h. let on : flag ≡ true = down h in rw on refl),
        Trace-next n (record { target = target; wanted = wanted_slots flag }) first upload.attempts
            others upload.outcome are
            (e, failed, retriable, (λ h. at ∙ same h), (λ h. all (whole h))) trace,
      )

  upload_loop-Uploads :
      (fuel n : ℕ) (target : BlockUploadTarget) (downshifted : Bool)
      → n + fuel ≡ max_block_upload_attempts
      → Uploads
          (suc fuel)
          n
          target
          downshifted
          (upload_loop job post prepare shared (suc fuel) n target downshifted)
  unfolding upload_loop
  upload_loop-Uploads zero n target downshifted h =
      let flag = downshifted || shared n in
      round-Uploads zero n target flag downshifted
        (decide job n target flag (prepare n) (post n target)) none (λ on. rw on refl)
        (decide-Why n target flag (post n target) refl) (λ more. absurd (omega arith))
  upload_loop-Uploads (suc fuel) n target downshifted h =
      let flag = downshifted || shared n in
      let after = decide job n target flag (prepare n) (post n target) in
      let next = or_stay job post prepare shared target after in
      let kept = or_keep job post prepare shared flag after in
      round-Uploads (suc fuel) n target flag downshifted after
        (upload_loop job post prepare shared (suc fuel) (n + 1) next kept) (λ on. rw on refl)
        (decide-Why n target flag (post n target) refl)
        (λ more. upload_loop-Uploads fuel (n + 1) next kept (omega arith))

  -- `upload_one_block` always ends after at most three attempts, the first at the job's target. Every
  -- attempt but the last failed with an error that is worth a retry, moves to another target only after
  -- an expired upload token, and takes the whole limiter after a timeout. The last one stored the
  -- block, which the outcome then tells, or the outcome is an error.
  pub upload_one_block-Uploads :
      (downshifted : Bool)
      → Uploads max_block_upload_attempts 1 job.target downshifted
          (upload_one_block job post prepare shared downshifted)
  unfolding upload_one_block
  upload_one_block-Uploads downshifted = upload_loop-Uploads 2 1 job.target downshifted refl
