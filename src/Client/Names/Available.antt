-- ===== src/Client/Names/Available.antt =====
-- Which name `get_available_name` returns.
use proton_sdk_rs.Base.{ℕ, ◌+◌, ◌*◌, ◌≤◌, ◌<◌, String, ◌≡◌, List, [], ◌∷◌, ◌≢◌}
use proton_sdk_rs.Errors.{Result, ok, err}
use proton_sdk_rs.Client.Names.{
  name_availability_batch, AvailableNameTarget, candidate, digests, batch,
}

module _ (target : AvailableNameTarget) (name : List ℕ) where
  -- The text is one of `count` candidates from the `start`-th on.
  abbrev pub AmongFrom : ℕ → ℕ → List ℕ → Type 0
  AmongFrom start count text =
      (i : ℕ) × (start ≤ i) × (i < start + count) × (text ≡ candidate target name i)

module _ (digest : List ℕ → String) (target : AvailableNameTarget) (name : List ℕ) where
  module _ (check : ℕ → List String → Result (List String)) where
    -- Batch `n` got an answer that begins with `hash`.
    abbrev pub Free : ℕ → String → Type 0
    Free n hash =
        (more : List String) × (check n (digests digest (batch digest check target name n))
          ≡ ok (hash ∷ more))

    -- The server called no name of the batches from `n` to `m` free.
    abbrev pub AllTaken : ℕ → ℕ → Type 0
    AllTaken n m =
        (k : ℕ)
        → n ≤ k
        → k < m
        → check k (digests digest (batch digest check target name k)) ≡ ok []

    -- What an answer that begins with `hash` to batch `m` makes of the search: the candidate of the
    -- batch with that hash, or an error, where no candidate of the batch has it.
    abbrev pub NamedBy : ℕ → String → Result (List ℕ) → Type 0
    NamedBy m hash (ok found) =
        AmongFrom target name (m * name_availability_batch) name_availability_batch found
        × (digest found ≡ hash)
    NamedBy m hash (err _) =
        (text : List ℕ)
        → AmongFrom target name (m * name_availability_batch) name_availability_batch text
        → digest text ≢ hash
