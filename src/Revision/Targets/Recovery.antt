-- ===== src/Revision/Targets/Recovery.antt =====
-- Recovery from expired block URLs: what a fetch costs, and what a burst of failures costs.
use proton_sdk_rs.Base.{
  ℕ, zero, suc, ◌+◌, ◌%◌, ◌≢◌, ◌≤◌, ◌<◌, ◌≡◌, refl, ◌∙◌, String, some, List, [], ◌∷◌, length,
  get_elem?, u64_mod, ◌==◌, Bool-cases, inl, inr, arith, ==→eq,
}
use proton_sdk_rs.Errors.{Result, ok, err}
use proton_sdk_rs.Transport.{BlockDto}
use proton_sdk_rs.Revision.{Bytes}
use proton_sdk_rs.Revision.Targets.{
  Targets, is_expired_block_url, location, replace_table, refresh, retry_fetch, recover,
  ciphertext_at, ciphertext, refresh_all,
}

-- The table has an entry for each block of the revision, and the generation is a `u64`.
pub record IsValid (t : Targets) : Type 0 where
  pub complete : length t.blocks ≡ t.expected_blocks
  pub bounded : t.generation < u64_mod

abbrev pub AllSaw : ℕ → List ℕ → Type 0
AllSaw g [] = Unit
AllSaw g (seen ∷ callers) = (seen ≡ g) × AllSaw g callers

get_elem?-some {ℓ} :
    {A : Type ℓ} (xs : List A) (i : ℕ) → i < length xs → (x : A) × (get_elem? xs i ≡ some x)
get_elem?-some [] i h = absurd (omega arith)
get_elem?-some (x ∷ xs) zero h = (x, refl)
get_elem?-some (x ∷ xs) (suc i) h = get_elem?-some xs i (omega arith)

replace_table-IsValid :
    (t : Targets) (listed : Result (List BlockDto)) → IsValid t → IsValid (replace_table t listed).1
unfolding replace_table
replace_table-IsValid t (err e) v = v
replace_table-IsValid t (ok blocks) v = ground arith

replace_table-listings :
    (t : Targets) (listed : Result (List BlockDto))
    → (replace_table t listed).1.listings ≡ t.listings
unfolding replace_table
replace_table-listings t (err e) = refl
replace_table-listings t (ok blocks) = ground arith

module _ (relist : ℕ → Result (List BlockDto)) where
  pub refresh-IsValid : (seen : ℕ) (t : Targets) → IsValid t → IsValid (refresh relist seen t).1
  unfolding refresh
  refresh-IsValid seen t v = elim (Bool-cases (t.generation == seen)) [
    | inl same ↦ rw same (
        replace_table-IsValid (record t { listings = t.listings + 1 }) (relist t.listings)
          (record { complete = v.complete; bounded = v.bounded }))
    | inr other ↦ rw other v
  ]

  refresh-listings : (seen : ℕ) (t : Targets) → (refresh relist seen t).1.listings ≤ t.listings + 1
  unfolding refresh
  refresh-listings seen t = elim (Bool-cases (t.generation == seen)) [
    | inl same ↦ rw same (
        omega (
          arith,
          replace_table-listings (record t { listings = t.listings + 1 }) (relist t.listings),
        ))
    | inr other ↦ rw other (omega arith)
  ]

  module _ (fetch : String → String → Result Bytes) where
    retry_fetch-state :
        (index : ℕ) (p : Result (Unit {0}) × Targets) → (retry_fetch relist fetch index p).1 ≡ p.1
    unfolding retry_fetch
    retry_fetch-state index (err e, t) = refl
    retry_fetch-state index (ok _, t) = ground arith

    recover-IsValid :
        (index generation : ℕ) (r : Result Bytes) (t : Targets)
        → IsValid t
        → IsValid (recover relist fetch index generation r t).1
          × ((recover relist fetch index generation r t).1.listings ≤ t.listings + 1)
    unfolding recover
    recover-IsValid index generation (ok bytes) t v = (v, omega arith)
    recover-IsValid index generation (err e) t v = elim (Bool-cases (is_expired_block_url e)) [
      | inl expired ↦
          rw (expired, retry_fetch-state)
            (refresh-IsValid generation t v, refresh-listings generation t)
      | inr other ↦ rw other (v, omega arith)
    ]

    -- One fetch costs at most one listing, also where the second URL has expired as well; and the
    -- table keeps an entry for each block.
    pub ciphertext-IsValid :
        (index : ℕ) (t : Targets)
        → IsValid t
        → IsValid (ciphertext relist fetch index t).1
          × ((ciphertext relist fetch index t).1.listings ≤ t.listings + 1)
    unfolding ciphertext
    ciphertext-IsValid index t v = go (location t index)
      where
        go :
            (at : Result (String × String × ℕ))
            → IsValid (ciphertext_at relist fetch index at t).1
              × ((ciphertext_at relist fetch index at t).1.listings ≤ t.listings + 1)
        go (err e) = (v, omega arith)
        go (ok (url, token, generation)) = recover-IsValid index generation (fetch url token) t v

  -- Callers that saw an older generation change nothing.
  refresh_all_stale :
      (g : ℕ) (callers : List ℕ) (t : Targets)
      → AllSaw g callers
      → t.generation ≢ g
      → refresh_all relist callers t ≡ t
  unfolding refresh_all refresh
  refresh_all_stale g [] t s h = refl
  refresh_all_stale g (seen ∷ callers) t s h = elim (Bool-cases (t.generation == seen)) [
    | inl same ↦ absurd (h (==→eq _ _ same ∙ s.0))
    | inr other ↦ rw other (refresh_all_stale g callers t s.1 h)
  ]

  refresh_current :
      (t : Targets) (fresh : List BlockDto)
      → relist t.listings ≡ ok fresh
      → length fresh ≡ t.expected_blocks
      → refresh relist t.generation t ≡ (
        ok tt,
        record t {
          blocks = fresh;
          generation = (t.generation + 1) % u64_mod;
          listings = t.listings + 1;
        },
      )
  unfolding refresh replace_table
  refresh_current t fresh d l = ground arith

  -- However many callers saw the current generation, a listing that succeeds is the only one: the
  -- first caller replaces the table, and the others find a newer generation.
  pub refresh_all_once :
      (callers : List ℕ) (t : Targets) (fresh : List BlockDto)
      → IsValid t
      → AllSaw t.generation callers
      → relist t.listings ≡ ok fresh
      → length fresh ≡ t.expected_blocks
      → refresh_all relist (t.generation ∷ callers) t ≡ record t {
        blocks = fresh;
        generation = (t.generation + 1) % u64_mod;
        listings = t.listings + 1;
      }
  unfolding refresh_all
  refresh_all_once callers t fresh v s d l =
      rw (refresh_current t fresh d l)
        (refresh_all_stale t.generation callers _ s (λ e. omega arith))
