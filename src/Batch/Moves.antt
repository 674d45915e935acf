-- ===== src/Batch/Moves.antt =====
-- `move_nodes_streaming` after its preparation (crates/proton-drive-rs/src/client.rs): the queue of
-- prepared moves, its batches, what the answers settle, and the one retry of a node whose hash is out of
-- date. What the API answers is an argument, by the number of the batch: `put_moves` for the request,
-- `details` and `folder_node_key` for the lookups after it. Keys and ciphers are arguments too.
-- (`run_context_share_mutation`, which carries the request, changes the context cache alone.)
pub mod Queue
pub mod Settle
pub mod Confirm
pub mod Run
pub mod Prepare
pub mod Prepared
pub mod Report
pub mod Told
pub mod Answer
use proton_sdk_rs.Base.{
  ℕ, zero, suc, ◌+◌, String, Bool, true, false, not, ◌&&◌, ◌||◌, Option, none, some, List, [], ◌∷◌,
  ◌++◌, str_eq, if◌then◌else◌, ltb, ◌==◌,
}
use proton_sdk_rs.Base.Maps.{Map, lookup, erase}
use proton_sdk_rs.Errors.{
  ResponseCode, ProtonError, Result, ok, err, ◌>>=◌, refuse, rebuilt, api, transport, serialization,
  crypto, keys_locked, invalid_operation,
}
use proton_sdk_rs.Events.{NodeUid}
use proton_sdk_rs.Batch.{max_batch_count, Outcome, LinkIdResponsePair, collect_outcomes}

-- `MoveMultipleLinksItem`
pub record MoveMultipleLinksItem : Type 0 where
  pub link_id : String
  pub name : String
  pub passphrase : String
  pub name_hash : String
  pub original_hash : String
  pub passphrase_signature : Option String

-- `MoveMultipleLinksRequest`
pub record MoveMultipleLinksRequest : Type 0 where
  pub parent_link_id : String
  pub links : List MoveMultipleLinksItem
  pub name_signature_email : String
  pub signature_email : Option String

-- `PreparedMove`
pub record PreparedMove : Type 0 where
  pub uid : NodeUid
  pub item : MoveMultipleLinksItem
  pub source_parent : Option String
  pub current_name : List ℕ
  pub anonymous : Bool
  pub retried : Bool

-- `MoveRun`
pub record MoveRun : Type 0 where
  pub parent : NodeUid
  pub email : String
  pub queue : List PreparedMove
  pub outcomes : List Outcome

-- What `remote_original_hash` reads of a link.
pub record RemoteLink : Type 0 where
  pub parent_id : Option String
  pub name_hash : Option String
  pub name : String

-- The API and the keys, as a batch move asks them.
pub record MoveApi (K : Type 0) : Type 0 where
  pub put_moves : ℕ → MoveMultipleLinksRequest → Result (List LinkIdResponsePair)
  pub details : ℕ → NodeUid → Result (List RemoteLink)
  pub folder_node_key : ℕ → NodeUid → Result K
  pub decrypt : K → String → Result (List ℕ)

unfoldable pub bool_eq : Bool → Bool → Bool
bool_eq true b = b
bool_eq false b = not b

-- The loop of `take_move_batch`: `taken` moves are in the batch already.
unfoldable pub split_queue : Bool → ℕ → List PreparedMove → List PreparedMove × List PreparedMove
unfolding bool_eq
split_queue anonymous taken [] = ([], [])
split_queue anonymous taken (prepared ∷ queue) =
    let fits = ltb taken max_batch_count && bool_eq prepared.anonymous anonymous in
    let (batch, rest) = split_queue anonymous (if fits then taken + 1 else taken) queue in
    if fits then (prepared ∷ batch, rest) else (batch, prepared ∷ rest)

-- `take_move_batch`: the batch, and the queue that is left
unfoldable pub take_move_batch : List PreparedMove → List PreparedMove × List PreparedMove
unfolding split_queue
take_move_batch [] = ([], [])
take_move_batch (prepared ∷ queue) = split_queue prepared.anonymous 0 (prepared ∷ queue)

abbrev pub items : List PreparedMove → List MoveMultipleLinksItem
items [] = []
items (prepared ∷ batch) = prepared.item ∷ items batch

-- `batch.first().is_some_and(|prepared| prepared.anonymous)`
abbrev pub is_anonymous : List PreparedMove → Bool
is_anonymous [] = false
is_anonymous (prepared ∷ _) = prepared.anonymous

unfoldable pub request_of : MoveRun → List PreparedMove → MoveMultipleLinksRequest
request_of run batch = record {
  parent_link_id = run.parent.link_id;
  links = items batch;
  name_signature_email = run.email;
  signature_email = if is_anonymous batch then some run.email else none;
}

abbrev pub report : NodeUid → Result (Unit {0}) → MoveRun → MoveRun
report uid outcome run = record run { outcomes = run.outcomes ++ ((uid, outcome) ∷ []) }

-- A failed request is charged to every node that it carried.
unfoldable pub charge : ProtonError → List PreparedMove → MoveRun → MoveRun
unfolding rebuilt
charge e [] run = run
charge e (prepared ∷ batch) run = charge e batch (report prepared.uid (err (rebuilt e)) run)

abbrev pub is_invalid_requirements : ResponseCode → Bool
is_invalid_requirements ResponseCode.invalid_requirements = true
is_invalid_requirements _ = false

abbrev pub is_out_of_date : ProtonError → Bool
is_out_of_date (api e) = is_invalid_requirements e.code
is_out_of_date (transport _) = false
is_out_of_date (serialization _) = false
is_out_of_date (crypto _) = false
is_out_of_date keys_locked = false
is_out_of_date (invalid_operation _) = false

abbrev pub first_link : List RemoteLink → Result RemoteLink
first_link [] = refuse "node not found"
first_link (link ∷ _) = ok link

unfoldable pub is_parent : String → Option String → Bool
is_parent parent_id none = false
is_parent parent_id (some source) = str_eq parent_id source

unfoldable pub bytes_eq : List ℕ → List ℕ → Bool
bytes_eq [] [] = true
bytes_eq [] (_ ∷ _) = false
bytes_eq (_ ∷ _) [] = false
bytes_eq (a ∷ as') (b ∷ bs) = (a == b) && bytes_eq as' bs

-- The outcomes that are ready, and those of what follows unless the batch is empty.
abbrev pub emit : List Outcome → List PreparedMove → Option (List Outcome) → Option (List Outcome)
emit outcomes [] later = some outcomes
emit outcomes (_ ∷ _) none = none
emit outcomes (_ ∷ _) (some rest) = some (outcomes ++ rest)

module _ {K : Type 0} (server : MoveApi K) where
  -- The second half of `remote_original_hash`: what the link's parent and hash are.
  unfoldable pub same_place :
      ℕ → PreparedMove → RemoteLink → Option String → Option String → Result String
  unfolding is_parent bytes_eq
  same_place k prepared link none hash = refuse "node changed while it was being moved"
  same_place k prepared link (some parent_id) none = refuse "node changed while it was being moved"
  same_place k prepared link (some parent_id) (some hash) =
      let parent_uid : NodeUid = record {
        volume_id = prepared.uid.volume_id;
        link_id = parent_id;
      } in
      if not (is_parent parent_id prepared.source_parent) || str_eq hash ""
      then refuse "node changed while it was being moved"
      else server.folder_node_key k parent_uid >>= λ parent_key.
          server.decrypt parent_key link.name >>= λ name.
          if bytes_eq name prepared.current_name
          then ok hash
          else refuse "node changed while it was being moved"

  -- `remote_original_hash`
  unfoldable pub remote_original_hash : ℕ → PreparedMove → Result String
  unfolding same_place
  remote_original_hash k prepared = server.details k prepared.uid >>= λ links.
      first_link links >>= λ link. same_place k prepared link link.parent_id link.name_hash

  -- The retry of a node that was out of date.
  unfoldable pub requeue : PreparedMove → Result String → MoveRun → MoveRun
  requeue prepared (ok hash) run =
      let again = record prepared {
        item = record prepared.item { original_hash = hash };
        retried = true;
      } in
      record run { queue = run.queue ++ (again ∷ []) }
  requeue prepared (err e) run = report prepared.uid (err e) run

  -- The `match` on the answer for one node of the batch
  unfoldable pub settle_one : ℕ → PreparedMove → Option (Result (Unit {0})) → MoveRun → MoveRun
  unfolding requeue remote_original_hash
  settle_one k prepared none run =
      report prepared.uid (refuse "move returned no response for node") run
  settle_one k prepared (some (ok u)) run = report prepared.uid (ok u) run
  settle_one k prepared (some (err e)) run =
      if is_out_of_date e && not prepared.retried
      then requeue prepared (remote_original_hash k prepared) run
      else report prepared.uid (err e) run

  unfoldable pub settle : ℕ → Map (Result (Unit {0})) → List PreparedMove → MoveRun → MoveRun
  unfolding settle_one
  settle k per_link [] run = run
  settle k per_link (prepared ∷ batch) run =
      settle k (erase prepared.uid.link_id per_link) batch
        (settle_one k prepared (lookup prepared.uid.link_id per_link) run)

  unfoldable pub answered :
      ℕ → List PreparedMove → Result (List LinkIdResponsePair) → MoveRun → MoveRun
  unfolding charge settle
  answered k batch (err e) run = charge e batch run
  answered k batch (ok responses) run = settle k (collect_outcomes responses) batch run

  -- `submit_move_batch`, as the batch number `k`
  unfoldable pub submit_move_batch : ℕ → List PreparedMove → MoveRun → MoveRun
  unfolding answered request_of
  submit_move_batch k batch run = answered k batch (server.put_moves k (request_of run batch)) run

  -- What the stream of `submit_moves` yields: the outcomes that are ready, and then those of the next
  -- batch, until a batch is empty.
  unfoldable pub submit_moves : ℕ → ℕ → MoveRun → Option (List Outcome)
  unfolding take_move_batch submit_move_batch
  submit_moves zero k run = none
  submit_moves (suc fuel) k run =
      let (batch, queue) = take_move_batch run.queue in
      let later =
        submit_moves fuel (k + 1)
          (submit_move_batch k batch (record run { queue = queue; outcomes = [] })) in
      emit run.outcomes batch later
