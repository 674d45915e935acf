-- ===== src/Tests/Tree.antt =====
-- A root with one file in it, and the share of the file.
use proton_sdk_rs.Base.{
  ℕ, ◌≡◌, refl, true, false, Option, none, some, List, [], ◌∷◌, String, arith, if◌then◌else◌,
  Bool-cases, inl, inr, ap, sym, ◌∙◌,
}
use mathlib.Core.Path.{subst}
use proton_sdk_rs.Errors.{Result, ok, OnSuccess}
use proton_sdk_rs.Events.{NodeUid}
use proton_sdk_rs.Batch.{uid_eq, uid_eq→eq}
use proton_sdk_rs.Batch.Uids.{has_uid, put_uid, drop_uid, find}
use proton_sdk_rs.Client.Hierarchy.{
  Node, Tree, on_parent, step_up, walk_up, start_up, get_node_hierarchy, get_node_path,
  get_node_by_path,
}
use proton_sdk_rs.Client.Hierarchy.Chain.{Found, get_node_hierarchy-Found}
use proton_sdk_rs.Client.Hierarchy.Located.{Lists, get_node_by_path-get_node_path}
use proton_sdk_rs.Client.Context.{
  Gate, GateReach, here, next, enter, answer, store, first, opened, context_share_ids-fresh,
}

abbrev root_uid : NodeUid
root_uid = record { volume_id = "v"; link_id = "r" }

abbrev file_uid : NodeUid
file_uid = record { volume_id = "v"; link_id = "f" }

abbrev root : Node
root = record { uid = root_uid; parent_uid = none; is_folder = true; name = 114 ∷ [] }

abbrev file : Node
file = record { uid = file_uid; parent_uid = some root_uid; is_folder = false; name = 102 ∷ [] }

abbrev all_uids : List NodeUid
all_uids = root_uid ∷ file_uid ∷ []

abbrev node_at : NodeUid → Result (Option Node)
node_at uid =
    if uid_eq root_uid uid
    then ok (some root)
    else if uid_eq file_uid uid
    then ok (some file)
    else ok none

abbrev tree : Tree
tree = record {
  get_node = node_at;
  children = λ _. ok (file_uid ∷ []);
  nodes_light = λ _. ok (file ∷ []);
}

known : (uid : NodeUid) (node : Node) → node_at uid ≡ ok (some node) → has_uid uid all_uids ≡ true
unfolding has_uid
known uid node found = ground arith

get_node_hierarchy-Found_example :
    (answer : Result (Option (List Node))) × (get_node_hierarchy tree 3 file_uid ≡ some answer)
    × OnSuccess (Found tree file_uid) answer
get_node_hierarchy-Found_example =
    get_node_hierarchy-Found tree 3 file_uid all_uids known (omega arith)

climbed : get_node_hierarchy tree 3 file_uid ≡ some (ok (some (root ∷ file ∷ [])))
unfolding get_node_hierarchy start_up walk_up step_up on_parent has_uid uid_eq
climbed = refl

own_uid : (uid : NodeUid) (node : Node) → node_at uid ≡ ok (some node) → node.uid ≡ uid
own_uid uid node found = elim (Bool-cases (uid_eq root_uid uid)) [
  | inl is_root ↦
      let same : root ≡ node = ground arith in
      ap (λ n. n.uid) (sym same) ∙ uid_eq→eq root_uid uid is_root
  | inr other ↦ elim (Bool-cases (uid_eq file_uid uid)) [
    | inl is_file ↦
        let same : file ≡ node = ground arith in
        ap (λ n. n.uid) (sym same) ∙ uid_eq→eq file_uid uid is_file
    | inr none_there ↦ absurd (ground arith)
  ]
]

file_listed : (parent_uid : NodeUid) → Lists tree parent_uid file
file_listed parent_uid = record {
  first = file_uid;
  others = [];
  before = [];
  after = [];
  lists = refl;
  loads = refl;
  apart = tt;
}

listing :
    (uid parent_uid : NodeUid) (node : Node)
    → node_at uid ≡ ok (some node)
    → node.parent_uid ≡ some parent_uid
    → Lists tree parent_uid node
listing uid parent_uid node found is_parent = elim (Bool-cases (uid_eq root_uid uid)) [
  | inl is_root ↦
      let same : root ≡ node = ground arith in
      let no_parent : none ≡ some parent_uid = ap (λ n. n.parent_uid) same ∙ is_parent in
      absurd (ground arith)
  | inr other ↦ elim (Bool-cases (uid_eq file_uid uid)) [
    | inl is_file ↦
        let same : file ≡ node = ground arith in
        subst (Lists tree parent_uid) same (file_listed parent_uid)
    | inr none_there ↦ absurd (ground arith)
  ]
]

get_node_by_path-get_node_path_example :
    (path : List ℕ) × (get_node_path tree 3 file_uid ≡ some (ok (some path)))
    × (get_node_by_path tree root_uid path ≡ ok (some file))
unfolding uid_eq
get_node_by_path-get_node_path_example =
    get_node_by_path-get_node_path tree (record { own_uid = own_uid; listing = listing }) 3 file_uid
      all_uids root (file ∷ []) known (omega arith) climbed (refl, refl, tt)

abbrev share_of : NodeUid → String
share_of uid = uid.link_id

abbrev looked_up : Gate
looked_up = record {
  context_share_ids = put_uid file_uid "f" [];
  truth = share_of;
  is_writing = false;
  asking = [];
  answered = [];
}

looked_up-GateReach : GateReach (opened share_of) looked_up
looked_up-GateReach =
    next (next (next here (enter _ file_uid refl)) (answer _ file_uid [] (first file_uid [])))
      (store _ file_uid "f" [] (first (file_uid, "f") []))

context_share_ids-fresh_example : "f" ≡ share_of file_uid
unfolding find put_uid drop_uid uid_eq
context_share_ids-fresh_example =
    context_share_ids-fresh share_of file_uid "f" looked_up-GateReach refl
