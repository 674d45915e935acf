-- ===== src/Tests/Batch.antt =====
-- A move of one node listed twice, whose hash is out of date at first, and the batches of three links.
use proton_sdk_rs.Base.{ℕ, ◌≡◌, refl, false, none, some, List, [], ◌∷◌, arith, zero, suc}
use proton_sdk_rs.Errors.{Result, ok, OnSuccess, ResponseCode, success, invalid_requirements}
use proton_sdk_rs.Events.{NodeUid}
use proton_sdk_rs.Client.Volumes.{grouped_links}
use proton_sdk_rs.Batch.{Outcome, LinkIdResponsePair}
use proton_sdk_rs.Batch.Moves.{
  PreparedMove, MoveRun, MoveApi, MoveMultipleLinksRequest, submit_moves,
}
use proton_sdk_rs.Batch.Moves.Run.{Ends, submit_moves-Ends}
use proton_sdk_rs.Batch.Moves.Prepare.{MoveSetup}
use proton_sdk_rs.Batch.Moves.Report.{move_nodes}
use proton_sdk_rs.Batch.Moves.Answer.{TellsEach, move_nodes-TellsEach}
use proton_sdk_rs.Batch.Actions.{action_batches, AllSized, action_batches-AllSized}

abbrev node : NodeUid
node = record { volume_id = "v"; link_id = "a" }

abbrev other : NodeUid
other = record { volume_id = "v"; link_id = "b" }

abbrev folder : NodeUid
folder = record { volume_id = "v"; link_id = "p" }

abbrev said : ResponseCode → List LinkIdResponsePair
said code =
    record {
      link_id = "a";
      response = record { code = code; error_message = none; details = none };
    }
    ∷ []

-- The first request finds the hash out of date.
abbrev put_moves : ℕ → MoveMultipleLinksRequest → Result (List LinkIdResponsePair)
put_moves zero request = ok (said invalid_requirements)
put_moves (suc k) request = ok (said success)

abbrev server : MoveApi ℕ
server = record {
  put_moves = put_moves;
  details = λ k uid. ok (record { parent_id = some "q"; name_hash = some "h2"; name = "n" } ∷ []);
  folder_node_key = λ k uid. ok 1;
  decrypt = λ key text. ok (110 ∷ []);
}

abbrev setup : MoveSetup ℕ
setup = record {
  destination_key = λ uid. ok 1;
  destination_hash_key = λ uid key. ok [];
  membership = ok ("me", 2);
  link_details = λ volume links. ok (record { id = "a"; parent_id = some "q" } ∷ []);
  build_move_parts = λ uid link name key hash_key signing_key. ok (record {
    passphrase = "";
    encrypted_name = "";
    name_hash = "h";
    original_hash = "h1";
    anonymous_signature = none;
    current_name = 110 ∷ [];
  });
}

move_nodes-TellsEach_example :
    (answer : Result (List Outcome)) × (move_nodes server setup 7 (node ∷ other ∷ node ∷ []) folder
      ≡ some answer)
    × OnSuccess (TellsEach server setup 7 (node ∷ other ∷ node ∷ []) folder) answer
move_nodes-TellsEach_example =
    move_nodes-TellsEach server setup 7 (node ∷ other ∷ node ∷ []) folder (omega arith)

abbrev prepared : PreparedMove
prepared = record {
  uid = node;
  item = record {
    link_id = "a";
    name = "";
    passphrase = "";
    name_hash = "h";
    original_hash = "h1";
    passphrase_signature = none;
  };
  source_parent = some "q";
  current_name = 110 ∷ [];
  anonymous = false;
  retried = false;
}

abbrev one_move : MoveRun
one_move = record { parent = folder; email = "me"; queue = prepared ∷ []; outcomes = [] }

submit_moves-Ends_example :
    (outcomes : List Outcome) × (submit_moves server 3 0 one_move ≡ some outcomes)
    × Ends server one_move outcomes
submit_moves-Ends_example = submit_moves-Ends server 3 0 one_move (omega arith) (tt, (refl, tt))

action_batches-AllSized_example :
    AllSized (action_batches (node ∷ other ∷ []))
    × (grouped_links "v" (action_batches (node ∷ other ∷ [])) ≡ "a" ∷ "b" ∷ [])
action_batches-AllSized_example = action_batches-AllSized "v" (node ∷ other ∷ [])
