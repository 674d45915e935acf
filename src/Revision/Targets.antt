-- ===== src/Revision/Targets.antt =====
-- `BlockTargets` of crates/proton-drive-rs/src/revision.rs: the block table of an open revision and
-- its one-shot recovery from expired URLs. What the server answers to a listing depends on how many
-- listings went before, `relist n`; a block's storage answers by URL and token, `fetch url token`.
-- The refresh lock serializes `refresh`, so that its calls run one after another.
pub mod Recovery
use proton_sdk_rs.Base.{
  ℕ, zero, suc, ◌+◌, ◌%◌, String, Bool, true, false, Option, none, some, List, [], ◌∷◌, length,
  get_elem?, ◌==◌, ◌||◌, u64_mod, if◌then◌else◌,
}
use proton_sdk_rs.Errors.{ProtonError, api, Result, ok, err, refuse}
use proton_sdk_rs.Transport.{BlockDto}
use proton_sdk_rs.Revision.{Bytes}

-- `BlockTable` and `BlockTargets`, and the number of listings that the server has answered.
pub record Targets : Type 0 where
  pub blocks : List BlockDto
  pub generation : ℕ
  pub expected_blocks : ℕ
  pub listings : ℕ

-- `BlockTargets::new`
unfoldable pub new : List BlockDto → ℕ → Targets
new blocks expected_blocks = record {
  blocks = blocks;
  generation = 0;
  expected_blocks = expected_blocks;
  listings = 0;
}

-- `is_expired_block_url`
unfoldable pub is_expired_block_url : ProtonError → Bool
is_expired_block_url (api e) =
    e.http_status == 401 || (e.http_status == 403 || e.http_status == 404)
is_expired_block_url _ = false

located : ℕ → Option BlockDto → Result (String × String × ℕ)
located generation none = refuse "block is missing from revision"
located generation (some block) = ok (block.bare_url, block.token, generation)

-- `BlockTargets::location`
unfoldable pub location : Targets → ℕ → Result (String × String × ℕ)
unfolding located
location t index = located t.generation (get_elem? t.blocks index)

-- What `refresh` does with the answer to its listing; `t` has counted it.
unfoldable pub replace_table : Targets → Result (List BlockDto) → Result (Unit {0}) × Targets
replace_table t (err e) = (err e, t)
replace_table t (ok blocks) =
    if length blocks == t.expected_blocks
    then (ok tt, record t { blocks = blocks; generation = (t.generation + 1) % u64_mod })
    else (refuse "revision changed block count while open", t)

module _ (relist : ℕ → Result (List BlockDto)) where
  -- `BlockTargets::refresh`
  unfoldable pub refresh : ℕ → Targets → Result (Unit {0}) × Targets
  unfolding replace_table
  refresh seen_generation t =
      if t.generation == seen_generation
      then replace_table (record t { listings = t.listings + 1 }) (relist t.listings)
      else (ok tt, t)

  module _ (fetch : String → String → Result Bytes) where
    -- The second fetch, at the location that the table has after the refresh.
    retry_fetch : ℕ → Result (Unit {0}) × Targets → Result Bytes × Targets
    retry_fetch index (err e, t) = (err e, t)
    retry_fetch index (ok _, t) = elim (location t index) [
      | err e ↦ (err e, t)
      | ok (url, token, _) ↦ (fetch url token, t)
    ]

    recover : ℕ → ℕ → Result Bytes → Targets → Result Bytes × Targets
    unfolding retry_fetch
    recover index generation (ok bytes) t = (ok bytes, t)
    recover index generation (err e) t =
        if is_expired_block_url e then retry_fetch index (refresh generation t) else (err e, t)

    ciphertext_at : ℕ → Result (String × String × ℕ) → Targets → Result Bytes × Targets
    unfolding recover
    ciphertext_at index (err e) t = (err e, t)
    ciphertext_at index (ok (url, token, generation)) t =
        recover index generation (fetch url token) t

    -- `BlockTargets::ciphertext`
    unfoldable pub ciphertext : ℕ → Targets → Result Bytes × Targets
    unfolding ciphertext_at
    ciphertext index t = ciphertext_at index (location t index) t

  -- The refreshes of callers that each saw a generation, in the order in which they get the lock.
  unfoldable pub refresh_all : List ℕ → Targets → Targets
  refresh_all [] t = t
  refresh_all (seen ∷ callers) t = refresh_all callers (refresh seen t).1
