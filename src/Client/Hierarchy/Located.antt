-- ===== src/Client/Hierarchy/Located.antt =====
-- The path of a node leads back to it: `get_node_path` and `get_node_by_path` of
-- crates/proton-drive-rs/src/client.rs.
use proton_sdk_rs.Base.{
  ℕ, ◌<◌, ◌≡◌, ◌≢◌, refl, ap, ap₂, ◌∙◌, true, some, List, [], ◌∷◌, ◌++◌, ◌==◌, ==→eq, length, arith,
  Bool-cases, inl, inr,
}
use mathlib.Core.Path.{subst}
use proton_sdk_rs.Errors.{ok, OnSuccess, ◌>>=◌}
use proton_sdk_rs.Events.{NodeUid}
use proton_sdk_rs.Batch.Uids.{has_uid}
use proton_sdk_rs.Batch.Moves.{bytes_eq}
use proton_sdk_rs.Client.Paths.{join_node_path, AllNames, path_segments-join_node_path}
use proton_sdk_rs.Client.Hierarchy.{
  Node, Tree, get_node_hierarchy, get_node_path, path_of, names, find_among, named_child,
  find_child_by_name, descend_to, descend, get_node_by_path,
}
use proton_sdk_rs.Client.Hierarchy.Chain.{Below, IsChain, Found, get_node_hierarchy-Found}

-- Siblings that do not have this name
abbrev pub AllOther : List ℕ → List Node → Type 0
AllOther name [] = Unit
AllOther name (node ∷ nodes) = (node.name ≢ name) × AllOther name nodes

-- The children of a folder, as the listing gives them, with a node that is the first of its name.
pub record Lists (tree : Tree) (folder : NodeUid) (node : Node) : Type 0 where
  pub first : NodeUid
  pub others : List NodeUid
  pub before : List Node
  pub after : List Node
  pub lists : tree.children folder ≡ ok (first ∷ others)
  pub loads : tree.nodes_light (first ∷ others) ≡ ok (before ++ (node ∷ after))
  pub apart : AllOther node.name before

-- A snapshot in which a node has the uid that it is asked by, and its folder lists it, the first of its
-- name.
pub record IsListed (tree : Tree) : Type 0 where
  pub own_uid : (uid : NodeUid) (node : Node) → tree.get_node uid ≡ ok (some node) → node.uid ≡ uid
  pub listing :
      (uid parent_uid : NodeUid) (node : Node)
      → tree.get_node uid ≡ ok (some node)
      → node.parent_uid ≡ some parent_uid
      → Lists tree parent_uid node

bytes_eq_refl : (name : List ℕ) → bytes_eq name name ≡ true
unfolding bytes_eq
bytes_eq_refl [] = refl
bytes_eq_refl (c ∷ name) = ground (arith, bytes_eq_refl name)

bytes_eq→eq : (a b : List ℕ) → bytes_eq a b ≡ true → a ≡ b
unfolding bytes_eq
bytes_eq→eq [] [] h = refl
bytes_eq→eq [] (_ ∷ _) h = absurd (ground arith)
bytes_eq→eq (_ ∷ _) [] h = absurd (ground arith)
bytes_eq→eq (x ∷ xs) (y ∷ ys) h = elim (Bool-cases (x == y)) [
  | inl same ↦ ap₂ ◌∷◌ (==→eq x y same) (bytes_eq→eq xs ys (ground arith))
  | inr other ↦ absurd (ground arith)
]

module _ (tree : Tree) where
  named_child-append :
      (node : Node) (before after : List Node)
      → AllOther node.name before
      → named_child tree node.name (before ++ (node ∷ after)) ≡ some node
  unfolding named_child
  named_child-append node [] after apart = rw (bytes_eq_refl node.name) refl
  named_child-append node (other ∷ before) after (differs, apart) =
      elim (Bool-cases (bytes_eq other.name node.name)) [
        | inl same ↦ absurd (differs (bytes_eq→eq other.name node.name same))
        | inr differ ↦ rw differ (named_child-append node before after apart)
      ]

  find_child_by_name-Lists :
      (folder : NodeUid) (node : Node)
      → Lists tree folder node
      → find_child_by_name tree folder node.name ≡ ok (some node.uid)
  unfolding find_child_by_name find_among
  find_child_by_name-Lists folder node l =
      rw (l.lists, l.loads, named_child-append node l.before l.after l.apart) refl

module _ (tree : Tree) (listed : IsListed tree) where
  -- The top of a chain is found by its uid.
  Below-top :
      (uid : NodeUid) (top : Node) (nodes : List Node)
      → Below tree uid top nodes
      → tree.get_node top.uid ≡ ok (some top)
  Below-top uid top [] is_top = ap tree.get_node (listed.own_uid uid top is_top) ∙ is_top
  Below-top uid top (node ∷ nodes) ((parent_uid, is_parent, is_top), below) =
      ap tree.get_node (listed.own_uid parent_uid top is_top) ∙ is_top

  descend-Below :
      (uid : NodeUid) (top : Node) (nodes : List Node)
      → Below tree uid top nodes
      → descend tree top.uid (names nodes) ≡ tree.get_node uid
  unfolding descend descend_to
  descend-Below uid top [] is_top = ap tree.get_node (listed.own_uid uid top is_top)
  descend-Below uid top (node ∷ nodes) ((parent_uid, is_parent, is_top), below) =
      let here = Below-top uid node nodes below in
      let found =
        find_child_by_name-Lists tree parent_uid node
          (listed.listing node.uid parent_uid node here is_parent) in
      let step : find_child_by_name tree top.uid node.name ≡ ok (some node.uid) =
        ap (λ u. find_child_by_name tree u node.name) (listed.own_uid parent_uid top is_top)
        ∙ found in
      ap (λ child. child >>= descend_to tree (λ c. descend tree c (names nodes))) step
      ∙ descend-Below uid node nodes below

  Found-path :
      (uid : NodeUid) (root : Node) (nodes : List Node)
      → IsChain tree uid (root ∷ nodes)
      → AllNames (names nodes)
      → get_node_by_path tree root.uid (join_node_path (names nodes)) ≡ tree.get_node uid
  unfolding get_node_by_path
  Found-path uid root nodes (is_root, below) plain =
      ap (descend tree root.uid) (path_segments-join_node_path (names nodes) plain)
      ∙ descend-Below uid root nodes below

  -- The path that `get_node_path` gives for a node leads `get_node_by_path` back to the node, from the
  -- root of its chain, when no name below the root is empty or holds a separator. The tree is a
  -- snapshot of finitely many nodes, each listed in its folder as the first of its name, and the fuel is
  -- more than their number.
  pub get_node_by_path-get_node_path :
      (fuel : ℕ) (uid : NodeUid) (known : List NodeUid) (root : Node) (nodes : List Node)
      → ((other : NodeUid) (node : Node)
          → tree.get_node other ≡ ok (some node)
          → has_uid other known ≡ true)
      → length known < fuel
      → get_node_hierarchy tree fuel uid ≡ some (ok (some (root ∷ nodes)))
      → AllNames (names nodes)
      → (path : List ℕ) × (get_node_path tree fuel uid ≡ some (ok (some path)))
        × (get_node_by_path tree root.uid path ≡ tree.get_node uid)
  unfolding get_node_path
  get_node_by_path-get_node_path fuel uid known root nodes all enough climbed plain =
      let (answer, is_answer, found) = get_node_hierarchy-Found tree fuel uid known all enough in
      let same : answer ≡ ok (some (root ∷ nodes)) = ground arith in
      (
        join_node_path (names nodes),
        ap path_of climbed,
        Found-path uid root nodes (subst (OnSuccess (Found tree uid)) same found) plain,
      )
