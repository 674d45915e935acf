-- ===== src/Client/Hierarchy.antt =====
-- Nodes and paths in crates/proton-drive-rs/src/client.rs: `get_node_hierarchy`, `get_node_path` and
-- `get_node_by_path`. What `get_node` and the listings answer is an argument: one snapshot of the tree.
-- A name is a list of characters, and of a node what these functions read is kept.
pub mod Chain
pub mod Located
use proton_sdk_rs.Base.{
  ℕ, zero, suc, Bool, true, false, Option, none, some, List, [], ◌∷◌, ◌++◌, if◌then◌else◌,
}
use proton_sdk_rs.Errors.{Result, ok, err, refuse, ◌>>=◌}
use proton_sdk_rs.Events.{NodeUid}
use proton_sdk_rs.Client.Paths.{path_segments, join_node_path}
use proton_sdk_rs.Batch.Moves.{bytes_eq}
use proton_sdk_rs.Batch.Uids.{has_uid}

-- `Node`
pub record Node : Type 0 where
  pub uid : NodeUid
  pub parent_uid : Option NodeUid
  pub is_folder : Bool
  pub name : List ℕ

-- What the client asks the server for.
pub record Tree : Type 0 where
  pub get_node : NodeUid → Result (Option Node)
  pub children : NodeUid → Result (List NodeUid)
  pub nodes_light : List NodeUid → Result (List Node)

abbrev pub Hierarchy : Type 0
Hierarchy = Option (Result (Option (List Node)))

abbrev pub names : List Node → List (List ℕ)
names [] = []
names (node ∷ nodes) = node.name ∷ names nodes

-- `hierarchy.iter().skip(1)`
abbrev pub names_below : List Node → List (List ℕ)
names_below [] = []
names_below (root ∷ nodes) = names nodes

abbrev pub path_of : Hierarchy → Option (Result (Option (List ℕ)))
path_of none = none
path_of (some (err e)) = some (err e)
path_of (some (ok none)) = some (ok none)
path_of (some (ok (some chain))) = some (ok (some (join_node_path (names_below chain))))

module _ (tree : Tree) where
  -- The body of the `while`, once the parent was asked for; `go` is the rest of the loop.
  unfoldable pub on_parent : (Node → Hierarchy) → Result (Option Node) → Hierarchy
  on_parent go (err e) = some (err e)
  on_parent go (ok none) = some (refuse "Node hierarchy is broken: parent does not exist")
  on_parent go (ok (some parent)) = go parent

  unfoldable pub step_up :
      (NodeUid → Hierarchy) → List NodeUid → List Node → Option NodeUid → Hierarchy
  step_up go visited chain none = some (ok (some chain))
  step_up go visited chain (some parent_uid) =
      if has_uid parent_uid visited
      then some (refuse "Folder structure loop detected")
      else go parent_uid

  -- The `while`: `node` is the top of the chain, which is root-first.
  unfoldable pub walk_up : ℕ → List NodeUid → Node → List Node → Hierarchy
  unfolding on_parent step_up
  walk_up zero visited node chain = none
  walk_up (suc fuel) visited node chain =
      step_up
        (λ parent_uid.
          on_parent (λ parent. walk_up fuel (parent_uid ∷ visited) parent (parent ∷ chain))
            (tree.get_node parent_uid))
        visited chain node.parent_uid

  unfoldable pub start_up : ℕ → NodeUid → Result (Option Node) → Hierarchy
  unfolding walk_up
  start_up fuel uid (err e) = some (err e)
  start_up fuel uid (ok none) = some (ok none)
  start_up fuel uid (ok (some node)) = walk_up fuel (uid ∷ []) node (node ∷ [])

  -- `get_node_hierarchy`
  unfoldable pub get_node_hierarchy : ℕ → NodeUid → Hierarchy
  unfolding start_up
  get_node_hierarchy fuel uid = start_up fuel uid (tree.get_node uid)

  -- `get_node_path`
  unfoldable pub get_node_path : ℕ → NodeUid → Option (Result (Option (List ℕ)))
  unfolding get_node_hierarchy
  get_node_path fuel uid = path_of (get_node_hierarchy fuel uid)

  -- `find(|child| child.name == name)`
  unfoldable pub named_child : List ℕ → List Node → Option Node
  unfolding bytes_eq
  named_child name [] = none
  named_child name (child ∷ children) =
      if bytes_eq child.name name then some child else named_child name children

  abbrev pub uid_of : Option Node → Option NodeUid
  uid_of none = none
  uid_of (some node) = some node.uid

  unfoldable pub find_among : List ℕ → List NodeUid → Result (Option NodeUid)
  unfolding named_child
  find_among name [] = ok none
  find_among name (child ∷ children) = do
    nodes ← tree.nodes_light (child ∷ children)
    ok (uid_of (named_child name nodes))

  -- `find_child_by_name`
  unfoldable pub find_child_by_name : NodeUid → List ℕ → Result (Option NodeUid)
  unfolding find_among
  find_child_by_name parent_uid name =
      tree.children parent_uid >>= λ child_uids. find_among name child_uids

  unfoldable pub descend_to :
      (NodeUid → Result (Option Node)) → Option NodeUid → Result (Option Node)
  descend_to go none = ok none
  descend_to go (some child) = go child

  -- The loop over the segments, and the node that it ends at
  unfoldable pub descend : NodeUid → List (List ℕ) → Result (Option Node)
  unfolding find_child_by_name descend_to
  descend current [] = tree.get_node current
  descend current (segment ∷ segments) =
      find_child_by_name current segment >>= descend_to (λ child. descend child segments)

  -- `get_node_by_path`
  unfoldable pub get_node_by_path : NodeUid → List ℕ → Result (Option Node)
  unfolding descend
  get_node_by_path root_uid path = descend root_uid (path_segments path)
