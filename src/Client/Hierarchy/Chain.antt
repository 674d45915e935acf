-- ===== src/Client/Hierarchy/Chain.antt =====
-- The chain that `get_node_hierarchy` of crates/proton-drive-rs/src/client.rs climbs.
use proton_sdk_rs.Base.{
  ℕ, zero, suc, ◌≤◌, ◌<◌, ◌≡◌, refl, ap, true, false, Option, none, some, List, [], ◌∷◌, length,
  if◌then◌else◌, arith, Bool-cases, inl, inr,
}
use proton_sdk_rs.Errors.{Result, ok, err, OnSuccess}
use proton_sdk_rs.Events.{NodeUid}
use proton_sdk_rs.Batch.{uid_eq, uid_eq→eq}
use proton_sdk_rs.Batch.Uids.{has_uid}
use proton_sdk_rs.Client.Hierarchy.{
  Node, Tree, Hierarchy, on_parent, step_up, walk_up, start_up, get_node_hierarchy,
}

without : NodeUid → List NodeUid → List NodeUid
without uid [] = []
without uid (other ∷ uids) = if uid_eq other uid then without uid uids else other ∷ without uid uids

length-without-le : (uid : NodeUid) (uids : List NodeUid) → length (without uid uids) ≤ length uids
unfolding without
length-without-le uid [] = omega arith
length-without-le uid (other ∷ uids) = ground (arith, length-without-le uid uids)

length-without :
    (uid : NodeUid) (uids : List NodeUid)
    → has_uid uid uids ≡ true
    → length (without uid uids) < length uids
unfolding without has_uid
length-without uid [] h = absurd (ground arith)
length-without uid (other ∷ uids) h = elim (Bool-cases (uid_eq other uid)) [
  | inl here ↦ rw here (omega (arith, length-without-le uid uids))
  | inr later ↦ rw later (omega (arith, length-without uid uids (ground arith)))
]

has_uid-without :
    (other uid : NodeUid) (uids : List NodeUid)
    → has_uid other uids ≡ true
    → uid_eq uid other ≡ false
    → has_uid other (without uid uids) ≡ true
unfolding without has_uid
has_uid-without other uid [] h differ = h
has_uid-without other uid (u ∷ uids) h differ = elim (Bool-cases (uid_eq u uid)) [
  | inl here ↦
      let e : uid_eq u other ≡ uid_eq uid other = ap (λ x. uid_eq x other) (uid_eq→eq u uid here) in
      rw here (has_uid-without other uid uids (ground arith) differ)
  | inr there ↦ elim (Bool-cases (uid_eq u other)) [
    | inl found ↦ rw (there, found) refl
    | inr more ↦ rw (there, more) (has_uid-without other uid uids (ground arith) differ)
  ]
]

module _ (tree : Tree) where
  -- The nodes below `top` in the chain of a node: each has the one above it for its parent.
  abbrev pub Below : NodeUid → Node → List Node → Type 0
  Below uid top [] = tree.get_node uid ≡ ok (some top)
  Below uid top (node ∷ nodes) =
      ((parent_uid : NodeUid) × (node.parent_uid ≡ some parent_uid)
        × (tree.get_node parent_uid ≡ ok (some top)))
      × Below uid node nodes

  -- The chain from a root to the node
  abbrev pub IsChain : NodeUid → List Node → Type 0
  IsChain uid [] = ⊥
  IsChain uid (root ∷ nodes) = (root.parent_uid ≡ none) × Below uid root nodes

  -- Nothing for a node that does not exist, else its chain
  abbrev pub Found : NodeUid → Option (List Node) → Type 0
  Found uid none = tree.get_node uid ≡ ok none
  Found uid (some chain) = IsChain uid chain

  abbrev Climbs : NodeUid → Hierarchy → Type 0
  Climbs uid outcome =
      (answer : Result (Option (List Node))) × (outcome ≡ some answer)
      × OnSuccess (Found uid) answer

  -- The nodes that can still be visited: those of the tree that were not.
  abbrev Covers : List NodeUid → List NodeUid → Type 0
  Covers left visited =
      (uid : NodeUid) (node : Node)
      → tree.get_node uid ≡ ok (some node)
      → has_uid uid visited ≡ false
      → has_uid uid left ≡ true

  Covers-without :
      (left visited : List NodeUid) (uid : NodeUid)
      → Covers left visited
      → Covers (without uid left) (uid ∷ visited)
  unfolding has_uid
  Covers-without left visited uid covers other node is_node fresh =
      has_uid-without other uid left (covers other node is_node (ground arith)) (ground arith)

  step_up-Climbs :
      (uid : NodeUid) (visited : List NodeUid) (node : Node) (rest : List Node)
      (parent : Option NodeUid) (go : NodeUid → Hierarchy)
      → node.parent_uid ≡ parent
      → Below uid node rest
      → ((parent_uid : NodeUid)
          → node.parent_uid ≡ some parent_uid
          → has_uid parent_uid visited ≡ false
          → Climbs uid (go parent_uid))
      → Climbs uid (step_up tree go visited (node ∷ rest) parent)
  unfolding step_up
  step_up-Climbs uid visited node rest none go is_parent below next =
      (ok (some (node ∷ rest)), refl, (is_parent, below))
  step_up-Climbs uid visited node rest (some parent_uid) go is_parent below next =
      elim (Bool-cases (has_uid parent_uid visited)) [
        | inl seen ↦ rw seen (err _, refl, tt)
        | inr fresh ↦ rw fresh (next parent_uid is_parent fresh)
      ]

  on_parent-Climbs :
      (uid : NodeUid) (go : Node → Hierarchy) (found : Result (Option Node))
      → ((parent : Node) → found ≡ ok (some parent) → Climbs uid (go parent))
      → Climbs uid (on_parent tree go found)
  unfolding on_parent
  on_parent-Climbs uid go (err e) next = (err e, refl, tt)
  on_parent-Climbs uid go (ok none) next = (err _, refl, tt)
  on_parent-Climbs uid go (ok (some parent)) next = next parent refl

  walk_up-Climbs :
      (fuel : ℕ) (uid : NodeUid) (visited left : List NodeUid) (node : Node) (rest : List Node)
      → length left < fuel
      → Covers left visited
      → Below uid node rest
      → Climbs uid (walk_up tree fuel visited node (node ∷ rest))
  unfolding walk_up
  walk_up-Climbs zero uid visited left node rest enough covers below = absurd (omega arith)
  walk_up-Climbs (suc fuel) uid visited left node rest enough covers below =
      step_up-Climbs uid visited node rest node.parent_uid _ refl below
        (λ parent_uid is_parent fresh.
          on_parent-Climbs uid _ (tree.get_node parent_uid) (λ parent found.
            let there = covers parent_uid parent found fresh in
            walk_up-Climbs fuel uid (parent_uid ∷ visited) (without parent_uid left) parent
              (node ∷ rest) (omega (arith, length-without parent_uid left there))
              (Covers-without left visited parent_uid covers)
              ((parent_uid, is_parent, found), below)))

  start_up-Climbs :
      (fuel : ℕ) (uid : NodeUid) (known : List NodeUid) (found : Result (Option Node))
      → tree.get_node uid ≡ found
      → length known < fuel
      → Covers known []
      → Climbs uid (start_up tree fuel uid found)
  unfolding start_up
  start_up-Climbs fuel uid known (err e) is_found enough covers = (err e, refl, tt)
  start_up-Climbs fuel uid known (ok none) is_found enough covers = (ok none, refl, is_found)
  start_up-Climbs fuel uid known (ok (some node)) is_found enough covers =
      walk_up-Climbs fuel uid (uid ∷ []) (without uid known) node []
        (omega (arith, length-without-le uid known)) (Covers-without known [] uid covers) is_found

  -- Where the tree has finitely many nodes, fuel for one step more than these is enough, whatever
  -- cycles their parents form: `get_node_hierarchy` comes to an answer, and unless that is an error
  -- it is nothing, for a node that does not exist, or the chain from a root down to the node, in
  -- which each node has the one before it for its parent.
  pub get_node_hierarchy-Found :
      (fuel : ℕ) (uid : NodeUid) (known : List NodeUid)
      → ((other : NodeUid) (node : Node)
          → tree.get_node other ≡ ok (some node)
          → has_uid other known ≡ true)
      → length known < fuel
      → (answer : Result (Option (List Node))) × (get_node_hierarchy tree fuel uid ≡ some answer)
        × OnSuccess (Found uid) answer
  unfolding get_node_hierarchy
  get_node_hierarchy-Found fuel uid known all enough =
      start_up-Climbs fuel uid known (tree.get_node uid) refl enough
        (λ other node is_node fresh. all other node is_node)
