-- ===== src/Batch/Actions.antt =====
-- `node_action_stream` of crates/proton-drive-rs/src/client.rs, and the three operations that collect it:
-- `trash_nodes`, `restore_nodes` and `delete_nodes`. What the API answers to the requests is an argument,
-- by their number.
use proton_sdk_rs.Base.{
  ℕ, ◌+◌, ◌≤◌, ◌≡◌, refl, ap, ◌∙◌, sym, String, false, List, [], ◌∷◌, ◌++◌, append_assoc, length,
  concat, length-append, str_eq, ◌==◌, if◌then◌else◌, arith, Bool-cases, inl, inr,
}
use proton_sdk_rs.Errors.{Result, ok, ◌>>=◌}
use proton_sdk_rs.Events.{NodeUid}
use proton_sdk_rs.Client.Volumes.{
  Groups, group_by_volume, links_of, grouped_links, group_by_volume-AllDistinct,
}
use proton_sdk_rs.Batch.{
  max_batch_count, Outcome, LinkIdResponsePair, aggregate_outcomes, chunk_from, chunks,
}

-- `NodeAction`
pub data NodeAction : Type 0 where
  trash restore delete : NodeAction

-- A request: its action (which gives the route and the verb), the volume, and the links.
pub record ActionRequest : Type 0 where
  pub action : NodeAction
  pub volume_id : String
  pub link_ids : List String

-- The batches of one volume
with_volume : String → List (List String) → Groups
with_volume volume_id [] = []
with_volume volume_id (chunk ∷ more) = (volume_id, chunk) ∷ with_volume volume_id more

batches_of : Groups → Groups
unfolding with_volume
batches_of [] = []
batches_of ((volume_id, link_ids) ∷ groups) =
    with_volume volume_id (chunks link_ids) ++ batches_of groups

-- `batches`
unfoldable pub action_batches : List NodeUid → Groups
unfolding batches_of
action_batches uids = batches_of (group_by_volume uids)

with_uids : String → List (String × Result (Unit {0})) → List Outcome
with_uids volume_id [] = []
with_uids volume_id ((link_id, outcome) ∷ rest) =
    (record { volume_id = volume_id; link_id = link_id }, outcome) ∷ with_uids volume_id rest

-- What `try_collect` makes of the stream: the first request that fails ends it.
unfoldable pub collect_actions :
    (ℕ → ActionRequest → Result (List LinkIdResponsePair))
    → NodeAction
    → ℕ
    → Groups
    → Result (List Outcome)
unfolding with_uids
collect_actions send action k [] = ok []
collect_actions send action k ((volume_id, link_ids) ∷ batches) = do
  responses ← send k (record { action = action; volume_id = volume_id; link_ids = link_ids })
  rest ← collect_actions send action (k + 1) batches
  ok (with_uids volume_id (aggregate_outcomes responses) ++ rest)

-- `trash_nodes`, `restore_nodes` and `delete_nodes`, by their action
unfoldable pub act_on_nodes :
    (ℕ → ActionRequest → Result (List LinkIdResponsePair))
    → NodeAction
    → List NodeUid
    → Result (List Outcome)
unfolding collect_actions action_batches
act_on_nodes send action uids = collect_actions send action 0 (action_batches uids)

chunk_from-concat {ℓ} :
    {A : Type ℓ} (size : ℕ) (current xs : List A)
    → concat (chunk_from size current xs) ≡ current ++ xs
unfolding chunk_from
chunk_from-concat size [] [] = refl
chunk_from-concat size (c ∷ current) [] = refl
chunk_from-concat size [] (x ∷ xs) = elim (Bool-cases (0 == size)) [
  | inl full ↦ rw full (chunk_from-concat size (x ∷ []) xs)
  | inr room ↦ rw room (chunk_from-concat size (x ∷ []) xs)
]
chunk_from-concat size (c ∷ current) (x ∷ xs) = elim (Bool-cases (length (c ∷ current) == size)) [
  | inl full ↦ rw full (ap (λ rest. (c ∷ current) ++ rest) (chunk_from-concat size (x ∷ []) xs))
  | inr room ↦ rw room (
      chunk_from-concat size ((c ∷ current) ++ (x ∷ [])) xs
      ∙ append_assoc (c ∷ current) (x ∷ []) xs)
]

chunks-concat {ℓ} : {A : Type ℓ} (xs : List A) → concat (chunks xs) ≡ xs
unfolding chunks
chunks-concat xs = chunk_from-concat max_batch_count [] xs

-- Batches that are neither empty nor too long.
abbrev pub AllSized : Groups → Type 0
AllSized [] = Unit
AllSized ((_, link_ids) ∷ groups) =
    (1 ≤ length link_ids) × (length link_ids ≤ max_batch_count) × AllSized groups

AllSized-append : (xs ys : Groups) → AllSized xs → AllSized ys → AllSized (xs ++ ys)
AllSized-append [] ys h g = g
AllSized-append ((v, links) ∷ xs) ys (some_, few, h) g = (some_, few, AllSized-append xs ys h g)

chunk_from-AllSized :
    (volume_id : String) (size : ℕ) (current xs : List String)
    → 1 ≤ size
    → size ≤ max_batch_count
    → length current ≤ size
    → AllSized (with_volume volume_id (chunk_from size current xs))
unfolding chunk_from with_volume
chunk_from-AllSized v size [] [] one top fits = tt
chunk_from-AllSized v size (c ∷ current) [] one top fits = (omega arith, omega arith, tt)
chunk_from-AllSized v size [] (x ∷ xs) one top fits =
    let room : (0 == size) ≡ false = ground arith in
    rw room (chunk_from-AllSized v size (x ∷ []) xs one top (omega arith))
chunk_from-AllSized v size (c ∷ current) (x ∷ xs) one top fits =
    elim (Bool-cases (length (c ∷ current) == size)) [
      | inl full ↦
          rw full
            (omega arith, omega arith, chunk_from-AllSized v size (x ∷ []) xs one top (omega arith))
      | inr room ↦ rw room (
          chunk_from-AllSized v size ((c ∷ current) ++ (x ∷ [])) xs one top
            (ground (arith, length-append (c ∷ current) (x ∷ []))))
    ]

grouped_links-append :
    (v : String) (xs ys : Groups)
    → grouped_links v (xs ++ ys) ≡ grouped_links v xs ++ grouped_links v ys
grouped_links-append v [] ys = refl
grouped_links-append v ((w, links) ∷ xs) ys =
    let later = grouped_links-append v xs ys in
    elim (Bool-cases (str_eq w v)) [
      | inl here ↦
          simp (here, later) (sym (append_assoc links (grouped_links v xs) (grouped_links v ys)))
      | inr there ↦ simp (there, later) refl
    ]

grouped_links-with_volume :
    (v w : String) (parts : List (List String))
    → grouped_links v (with_volume w parts) ≡ (if str_eq w v then concat parts else [])
unfolding with_volume
grouped_links-with_volume v w [] = elim (Bool-cases (str_eq w v)) [
  | inl here ↦ rw here refl
  | inr there ↦ rw there refl
]
grouped_links-with_volume v w (part ∷ parts) =
    let later = grouped_links-with_volume v w parts in
    elim (Bool-cases (str_eq w v)) [
      | inl here ↦ simp (here, later) refl
      | inr there ↦ simp (there, later) refl
    ]

grouped_links-batches_of :
    (v : String) (groups : Groups) → grouped_links v (batches_of groups) ≡ grouped_links v groups
unfolding batches_of
grouped_links-batches_of v [] = refl
grouped_links-batches_of v ((w, links) ∷ groups) =
    let later = grouped_links-batches_of v groups in
    let split = grouped_links-append v (with_volume w (chunks links)) (batches_of groups) in
    let first = grouped_links-with_volume v w (chunks links) in
    elim (Bool-cases (str_eq w v)) [
      | inl here ↦ simp (here, split, first, later, chunks-concat links) refl
      | inr there ↦ simp (there, split, first, later) refl
    ]

batches_of-AllSized : (groups : Groups) → AllSized (batches_of groups)
unfolding batches_of chunks
batches_of-AllSized [] = tt
batches_of-AllSized ((v, links) ∷ groups) =
    AllSized-append (with_volume v (chunks links)) (batches_of groups)
      (chunk_from-AllSized v max_batch_count [] links (omega arith) (omega arith) (omega arith))
      (batches_of-AllSized groups)

-- The requests of a trash, restore or delete hold 1 to 150 links each, and for every volume they hold
-- together exactly the links that the uids hold of it, in order.
pub action_batches-AllSized :
    (v : String) (uids : List NodeUid)
    → AllSized (action_batches uids) × (grouped_links v (action_batches uids) ≡ links_of v uids)
unfolding action_batches
action_batches-AllSized v uids = (
  batches_of-AllSized (group_by_volume uids),
  grouped_links-batches_of v (group_by_volume uids) ∙ (group_by_volume-AllDistinct v uids).1,
)
