-- ===== src/Batch.antt =====
-- What the batch operations of crates/proton-drive-rs/src/client.rs share: the identity of nodes, the
-- aggregate envelope (`aggregate_outcomes`), and the chunks in which links are sent.
pub mod Uids
pub mod Moves
pub mod Actions
use proton_sdk_rs.Base.{
  ℕ, suc, ◌+◌, ◌≡◌, refl, sym, ap, ap₂, ◌∙◌, String, Bool, true, false, ◌&&◌, Option, none, some,
  List, [], ◌∷◌, ◌++◌, length, ◌==◌, str_eq, str_eq→eq, str_eq_refl, if◌then◌else◌, arith,
  Bool-cases, inl, inr,
}
use proton_sdk_rs.Base.Maps.{Map, put}
use proton_sdk_rs.Http.{ApiResponse}
use proton_sdk_rs.Errors.{api, Result, ok, err, is_success_code}
use proton_sdk_rs.Events.{NodeUid}

-- `MAX_BATCH_COUNT`
abbrev pub max_batch_count : ℕ
max_batch_count = 150

-- `NodeUid: PartialEq`
unfoldable pub uid_eq : NodeUid → NodeUid → Bool
uid_eq a b = str_eq a.volume_id b.volume_id && str_eq a.link_id b.link_id

pub uid_eq_refl : (a : NodeUid) → uid_eq a a ≡ true
unfolding uid_eq
uid_eq_refl a = rw (str_eq_refl a.volume_id, str_eq_refl a.link_id) refl

pub uid_eq→eq : (a b : NodeUid) → uid_eq a b ≡ true → a ≡ b
unfolding uid_eq
uid_eq→eq a b h = elim (Bool-cases (str_eq a.volume_id b.volume_id)) [
  | inl volume ↦ elim (Bool-cases (str_eq a.link_id b.link_id)) [
    | inl link ↦
        ap₂ (λ v l. record { volume_id = v; link_id = l })
          (str_eq→eq a.volume_id b.volume_id volume) (str_eq→eq a.link_id b.link_id link)
    | inr other ↦ absurd (ground arith)
  ]
  | inr other ↦ absurd (ground arith)
]

-- The outcome of one node.
abbrev pub Outcome : Type 0
Outcome = NodeUid × Result (Unit {0})

-- `LinkIdResponsePair`
pub record LinkIdResponsePair : Type 0 where
  pub link_id : String
  pub response : ApiResponse

abbrev pub or_no_text : Option String → String
or_no_text none = ""
or_no_text (some text) = text

-- The outcome of one link in `aggregate_outcomes`
unfoldable pub link_outcome : LinkIdResponsePair → Result (Unit {0})
link_outcome pair =
    if is_success_code pair.response.code
    then ok tt
    else err (
        api (record {
          code = pair.response.code;
          http_status = 200;
          message = or_no_text pair.response.error_message;
          details = pair.response.details;
        }))

-- `aggregate_outcomes`
unfoldable pub aggregate_outcomes : List LinkIdResponsePair → List (String × Result (Unit {0}))
unfolding link_outcome
aggregate_outcomes [] = []
aggregate_outcomes (pair ∷ pairs) = (pair.link_id, link_outcome pair) ∷ aggregate_outcomes pairs

-- `into_iter().collect()` into a map: of two entries for a link the later one stays.
unfoldable pub collect_from :
    List (String × Result (Unit {0})) → Map (Result (Unit {0})) → Map (Result (Unit {0}))
collect_from [] map = map
collect_from ((link_id, outcome) ∷ rest) map = collect_from rest (put link_id outcome map)

unfoldable pub collect_outcomes : List LinkIdResponsePair → Map (Result (Unit {0}))
unfolding aggregate_outcomes collect_from
collect_outcomes responses = collect_from (aggregate_outcomes responses) []

-- How often a node has an outcome.
abbrev pub occurrences : NodeUid → List Outcome → ℕ
occurrences uid [] = 0
occurrences uid ((other, _) ∷ outcomes) =
    if uid_eq other uid then suc (occurrences uid outcomes) else occurrences uid outcomes

-- `slice::chunks`: the loop, with the chunk that is being filled
unfoldable pub chunk_from {ℓ} : {A : Type ℓ} → ℕ → List A → List A → List (List A)
chunk_from size [] [] = []
chunk_from size (first ∷ current) [] = (first ∷ current) ∷ []
chunk_from size current (x ∷ xs) =
    let full = length current == size in
    let rest = chunk_from size (if full then x ∷ [] else current ++ (x ∷ [])) xs in
    if full then current ∷ rest else rest

-- `chunks(MAX_BATCH_COUNT)`
unfoldable pub chunks {ℓ} : {A : Type ℓ} → List A → List (List A)
unfolding chunk_from
chunks xs = chunk_from max_batch_count [] xs
