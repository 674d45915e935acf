-- ===== src/Client/Names.antt =====
-- Alternate names and `get_available_name` (crates/proton-drive-rs/src/client.rs), on lists of
-- characters. The hash of a name is `digest name`, and the server's answer to the n-th batch of hashes
-- is `check n hashes`.
pub mod Available
use proton_sdk_rs.Base.{
  ℕ, zero, suc, ◌+◌, ◌*◌, ◌/◌, ◌%◌, ◌≤◌, ◌<◌, String, ◌≡◌, refl, sym, ap, ◌∙◌, Bool, true, false,
  Option, none, some, List, [], ◌∷◌, ◌++◌, ltb, str_eq, str_eq→eq, ◌==◌, if◌then◌else◌, arith,
  Bool-cases, inl, inr, ◌⊎◌,
}
use proton_sdk_rs.Errors.{Result, ok, err, refuse}

-- `NAME_AVAILABILITY_BATCH`
abbrev pub name_availability_batch : ℕ
name_availability_batch = 10

-- The decimal digits of a number, on fuel.
decimal_from : ℕ → ℕ → List ℕ → List ℕ
decimal_from zero n text = text
decimal_from (suc fuel) n text =
    let rest = decimal_from fuel (n / 10) ((48 + n % 10) ∷ text) in
    if ltb n 10 then (48 + n) ∷ text else rest

unfoldable pub decimal : ℕ → List ℕ
unfolding decimal_from
decimal n = decimal_from (suc n) n []

-- ` (i)`
abbrev pub suffix : ℕ → List ℕ
suffix i = 32 ∷ 40 ∷ (decimal i ++ (41 ∷ []))

abbrev keep_char : ℕ → Option (List ℕ × List ℕ) → Option (List ℕ × List ℕ)
keep_char c none = none
keep_char c (some (stem, ext)) = some (c ∷ stem, ext)

here_or_later : ℕ → List ℕ → Option (List ℕ × List ℕ) → Option (List ℕ × List ℕ)
here_or_later c text (some later) = keep_char c (some later)
here_or_later c text none = if c == 46 then some ([], c ∷ text) else none

-- `rfind('.')` and `split_at`
unfoldable pub split_ext : List ℕ → Option (List ℕ × List ℕ)
unfolding here_or_later
split_ext [] = none
split_ext (c ∷ text) = here_or_later c text (split_ext text)

-- The name before the last `.`, and the rest
unfoldable pub stem_and_ext : List ℕ → Option (List ℕ × List ℕ) → List ℕ × List ℕ
stem_and_ext original none = (original, [])
stem_and_ext original (some (stem, ext)) = (stem, ext)

-- `AvailableNameTarget`
pub data AvailableNameTarget : Type 0 where
  file folder : AvailableNameTarget

-- `alternate_file_names` and `alternate_folder_names`: the i-th, from 1
unfoldable pub alternate_name : AvailableNameTarget → List ℕ → ℕ → List ℕ
unfolding split_ext stem_and_ext
alternate_name file original i =
    let (stem, ext) = stem_and_ext original (split_ext original) in stem ++ (suffix i ++ ext)
alternate_name folder original i = original ++ suffix i

-- The candidate stream: the name, and then its alternates.
unfoldable pub candidate : AvailableNameTarget → List ℕ → ℕ → List ℕ
unfolding alternate_name
candidate target name zero = name
candidate target name (suc i) = alternate_name target name (suc i)

-- `count` candidates from the `start`-th on
unfoldable pub candidates_from : AvailableNameTarget → List ℕ → ℕ → ℕ → List (List ℕ)
unfolding candidate
candidates_from target name start zero = []
candidates_from target name start (suc count) =
    candidate target name start ∷ candidates_from target name (start + 1) count

module _ (digest : List ℕ → String) where
  unfoldable pub digests : List (List ℕ) → List String
  digests [] = []
  digests (name ∷ names) = digest name ∷ digests names

  named : String → List ℕ → Option (List ℕ) → Option (List ℕ)
  named hash name (some later) = some later
  named hash name none = if str_eq (digest name) hash then some name else none

  -- `by_digest.remove`: where two names have one hash, the later was inserted over the earlier.
  unfoldable pub by_digest : String → List (List ℕ) → Option (List ℕ)
  unfolding named
  by_digest hash [] = none
  by_digest hash (name ∷ names) = named hash name (by_digest hash names)

  unfoldable pub known : Option (List ℕ) → Result (List ℕ)
  known none = refuse "server returned an unknown name hash digest"
  known (some name) = ok name

  module _ (check : ℕ → List String → Result (List String)) (target : AvailableNameTarget)
      (name : List ℕ) where
    abbrev pub batch : ℕ → List (List ℕ)
    batch n = candidates_from target name (n * name_availability_batch) name_availability_batch

    -- What the loop makes of the answer to its `n`-th batch
    answer : ℕ → Option (Result (List ℕ)) → Result (List String) → Option (Result (List ℕ))
    unfolding known
    answer n rest (err e) = some (err e)
    answer n rest (ok []) = rest
    answer n rest (ok (hash ∷ _)) = some (known (by_digest hash (batch n)))

    -- The `loop`, on fuel, from the `n`-th batch on
    unfoldable pub try_batches : ℕ → ℕ → Option (Result (List ℕ))
    unfolding answer
    try_batches zero n = none
    try_batches (suc fuel) n = answer n (try_batches fuel (n + 1)) (check n (digests (batch n)))

    -- `get_available_name`
    unfoldable pub get_available_name : ℕ → Option (Result (List ℕ))
    unfolding try_batches
    get_available_name fuel = try_batches fuel 0
