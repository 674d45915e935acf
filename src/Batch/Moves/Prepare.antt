-- ===== src/Batch/Moves/Prepare.antt =====
-- `prepare_moves` and `validate_node_name` of crates/proton-drive-rs/src/client.rs: what fails here is
-- an outcome already, all else is in the queue. Keys, link details and the cryptography of one move are
-- arguments; a name is a list of characters.
use proton_sdk_rs.Base.{
  ℕ, String, Bool, true, false, Option, none, some, List, [], ◌∷◌, ◌++◌, str_eq, length, ltb,
  if◌then◌else◌,
}
use proton_sdk_rs.Base.Maps.{Map, lookup, put, mem, insert}
use proton_sdk_rs.Errors.{ProtonError, Result, ok, err, refuse, ◌>>=◌, invalid_operation}
use proton_sdk_rs.Events.{NodeUid}
use proton_sdk_rs.Client.ParentKeys.{LinkDto}
use proton_sdk_rs.Batch.{Outcome, chunks}
use proton_sdk_rs.Batch.Moves.{PreparedMove, MoveRun}

-- `NodeMoveItem`
pub record NodeMoveItem : Type 0 where
  pub uid : NodeUid
  pub target_name : Option (List ℕ)

-- `MoveParts`
pub record MoveParts : Type 0 where
  pub passphrase : String
  pub encrypted_name : String
  pub name_hash : String
  pub original_hash : String
  pub anonymous_signature : Option String
  pub current_name : List ℕ

-- `MAX_NODE_NAME_LENGTH`
abbrev pub max_node_name_length : ℕ
max_node_name_length = 255

-- `validate_node_name`
unfoldable pub validate_node_name : List ℕ → Result (Unit {0})
validate_node_name [] = refuse "Name must not be empty"
validate_node_name (c ∷ name) =
    if ltb max_node_name_length (length (c ∷ name))
    then refuse "Name must be 255 characters long at most"
    else ok tt

abbrev pub name_error : Result (Unit {0}) → Option ProtonError
name_error (ok _) = none
name_error (err e) = some e

abbrev pub target_error : Option (List ℕ) → Option ProtonError
target_error none = none
target_error (some name) = name_error (validate_node_name name)

abbrev pub repeat_error : Bool → Option ProtonError
repeat_error true = some (invalid_operation "node is listed more than once in one move")
repeat_error false = none

-- The later tests of the `if` chain, after the one on the target name.
abbrev pub or_repeat : Option ProtonError → Bool → Option ProtonError
or_repeat (some e) repeated = some e
or_repeat none repeated = repeat_error repeated

-- `rejected`
unfoldable pub rejection : NodeUid → List String → NodeMoveItem → Option ProtonError
unfolding validate_node_name
rejection parent seen item =
    if str_eq item.uid.volume_id parent.volume_id
    then or_repeat (target_error item.target_name) (mem item.uid.link_id seen)
    else some (invalid_operation "cross-volume move is not supported")

-- `seen` after an item: the `insert` is the last test, so that an item rejected before it is not seen.
unfoldable pub seen_after : NodeUid → List String → NodeMoveItem → List String
seen_after parent seen item =
    if str_eq item.uid.volume_id parent.volume_id
    then elim (target_error item.target_name) [
      | none ↦ insert item.uid.link_id seen
      | some _ ↦ seen
    ]
    else seen

abbrev pub screened :
    NodeMoveItem
    → Option ProtonError
    → List Outcome × List NodeMoveItem
    → List Outcome × List NodeMoveItem
screened item (some e) (outcomes, targets) = ((item.uid, err e) ∷ outcomes, targets)
screened item none (outcomes, targets) = (outcomes, item ∷ targets)

-- The first loop: the outcomes of the rejected items, and the targets
unfoldable pub screen : NodeUid → List String → List NodeMoveItem → List Outcome × List NodeMoveItem
unfolding rejection seen_after
screen parent seen [] = ([], [])
screen parent seen (item ∷ items) =
    screened item (rejection parent seen item) (screen parent (seen_after parent seen item) items)

abbrev pub link_ids_of : List NodeMoveItem → List String
link_ids_of [] = []
link_ids_of (item ∷ items) = item.uid.link_id ∷ link_ids_of items

unfoldable pub put_links : List LinkDto → Map LinkDto → Map LinkDto
put_links [] links = links
put_links (link ∷ more) links = put_links more (put link.id link links)

-- What a batch move needs before its first request.
pub record MoveSetup (K : Type 0) : Type 0 where
  pub destination_key : NodeUid → Result K
  pub destination_hash_key : NodeUid → K → Result (List ℕ)
  pub membership : Result (String × K)
  pub link_details : String → List String → Result (List LinkDto)
  pub build_move_parts : NodeUid → LinkDto → Option (List ℕ) → K → List ℕ → K → Result MoveParts

abbrev pub is_signed : Option String → Bool
is_signed none = false
is_signed (some _) = true

unfoldable pub prepared_move : NodeMoveItem → LinkDto → MoveParts → PreparedMove
prepared_move item link parts = record {
  uid = item.uid;
  item = record {
    link_id = item.uid.link_id;
    name = parts.encrypted_name;
    passphrase = parts.passphrase;
    name_hash = parts.name_hash;
    original_hash = parts.original_hash;
    passphrase_signature = parts.anonymous_signature;
  };
  source_parent = link.parent_id;
  current_name = parts.current_name;
  anonymous = is_signed parts.anonymous_signature;
  retried = false;
}

module _ {K : Type 0} (setup : MoveSetup K) where
  -- The loop over the chunks of link ids
  unfoldable pub fetch_links : String → List (List String) → Map LinkDto → Result (Map LinkDto)
  unfolding put_links
  fetch_links volume_id [] links = ok links
  fetch_links volume_id (chunk ∷ more) links = do
    details ← setup.link_details volume_id chunk
    fetch_links volume_id more (put_links details links)

  module _ (key : K) (hash_key : List ℕ) (signing_key : K) where
    unfoldable pub add_parts : NodeMoveItem → LinkDto → Result MoveParts → MoveRun → MoveRun
    unfolding prepared_move
    add_parts item link (err e) run = record run {
      outcomes = run.outcomes ++ ((item.uid, err e) ∷ []);
    }
    add_parts item link (ok parts) run = record run {
      queue = run.queue ++ (prepared_move item link parts ∷ []);
    }

    unfoldable pub add_target : NodeMoveItem → Option LinkDto → MoveRun → MoveRun
    unfolding add_parts
    add_target item none run = record run {
      outcomes = run.outcomes ++ ((item.uid, refuse "node not found") ∷ []);
    }
    add_target item (some link) run =
        add_parts item link
          (setup.build_move_parts item.uid link item.target_name key hash_key signing_key) run

    -- The loop over the targets
    unfoldable pub add_targets : Map LinkDto → List NodeMoveItem → MoveRun → MoveRun
    unfolding add_target
    add_targets links [] run = run
    add_targets links (item ∷ targets) run =
        add_targets links targets (add_target item (lookup item.uid.link_id links) run)

  unfoldable pub prepare_targets : NodeUid → List Outcome → List NodeMoveItem → Result MoveRun
  unfolding fetch_links add_targets
  prepare_targets parent outcomes [] =
      ok (record { parent = parent; email = ""; queue = []; outcomes = outcomes })
  prepare_targets parent outcomes (target ∷ targets) = do
    key ← setup.destination_key parent
    hash_key ← setup.destination_hash_key parent key
    (email, signing_key) ← setup.membership
    links ← fetch_links parent.volume_id (chunks (link_ids_of (target ∷ targets))) []
    ok (
        add_targets key hash_key signing_key links (target ∷ targets)
          (record { parent = parent; email = email; queue = []; outcomes = outcomes }))

  -- `prepare_moves`
  unfoldable pub prepare_moves : List NodeMoveItem → NodeUid → Result MoveRun
  unfolding screen prepare_targets
  prepare_moves items parent =
      let (outcomes, targets) = screen parent [] items in prepare_targets parent outcomes targets
