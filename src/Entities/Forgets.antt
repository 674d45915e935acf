-- ===== src/Entities/Forgets.antt =====
-- What an event leaves of the caches (`invalidate_caches_for_event` of
-- crates/proton-drive-rs/src/client.rs), and what the entity cache finds.
use proton_sdk_rs.Base.{
  ◌≡◌, refl, ap, ◌∙◌, String, Bool, true, false, ◌||◌, Option, none, some, [], str_eq, str_eq_refl,
  if◌then◌else◌, arith,
}
use proton_sdk_rs.Errors.{Result, ok}
use proton_sdk_rs.Events.{
  NodeUid, DriveEvent, node_updated, node_deleted, cursor_advanced, continuity_lost,
  scope_access_lost, shared_with_me_updated,
}
use proton_sdk_rs.Batch.{uid_eq}
use proton_sdk_rs.Batch.Uids.{find, find-drop_uid}
use proton_sdk_rs.Cache.Repository.{CacheRepository, IsRepository}
use proton_sdk_rs.Entities.{
  CachedNodeInfo, Json, node_key, get_json, set_json, set_node, try_get_node, on_raw, on_parsed,
  put_text, evicted, Caches, forget_node, forget_all, remove_node, invalidate,
}

-- The node that an event names.
abbrev pub named_node : DriveEvent → Option NodeUid
named_node (node_updated _ uid _ _ _) = some uid
named_node (node_deleted _ uid _) = some uid
named_node (continuity_lost _) = none
named_node (scope_access_lost _) = none
named_node (shared_with_me_updated _) = none
named_node (cursor_advanced _) = none

-- Events after which nothing that was cached can be trusted.
abbrev pub is_lost : DriveEvent → Bool
is_lost (continuity_lost _) = true
is_lost (scope_access_lost _) = true
is_lost (node_updated _ _ _ _ _) = false
is_lost (node_deleted _ _ _) = false
is_lost (shared_with_me_updated _) = false
is_lost (cursor_advanced _) = false

abbrev pub is_cursor : DriveEvent → Bool
is_cursor (cursor_advanced _) = true
is_cursor (node_updated _ _ _ _ _) = false
is_cursor (node_deleted _ _ _) = false
is_cursor (continuity_lost _) = false
is_cursor (scope_access_lost _) = false
is_cursor (shared_with_me_updated _) = false

-- The event is about the node, or about its cached entry.
abbrev pub is_uid_of : Option NodeUid → NodeUid → Bool
is_uid_of none uid = false
is_uid_of (some named) uid = uid_eq named uid

abbrev pub is_key_of : Option NodeUid → String → Bool
is_key_of none key = false
is_key_of (some named) key = str_eq (node_key named) key

abbrev pub unless_or {ℓ} : {A : Type ℓ} → Bool → Option A → Option A
unless_or gone before = if gone then none else before

module _ {S : Type 0} (repo : CacheRepository S) (laws : IsRepository repo) {K : Type 0} where
  -- The folder keys, the context shares and the entries after an event.
  abbrev pub Forgotten : DriveEvent → Caches repo K → Result (Unit {0}) × Caches repo K → Type 0
  Forgotten event before (done, after) =
      (done ≡ ok tt)
      × ((uid : NodeUid)
          → find uid after.folder_keys
            ≡ unless_or (is_lost event || is_uid_of (named_node event) uid)
                (find uid before.folder_keys))
      × (after.context_share_ids ≡ (if is_cursor event then before.context_share_ids else []))
      × ((key : String)
          → laws.peek key after.entities
            ≡ unless_or (is_lost event || is_key_of (named_node event) key)
                (laws.peek key before.entities))
      × laws.Valid after.entities

  -- Over a repository that keeps the laws, in a valid state: an event makes the caches forget the
  -- folder key and the entry of the node that it names, or all of them where the server lost track,
  -- and every context share unless it only moves the cursor; every other folder key and entry
  -- stays.
  pub invalidate-Forgotten :
      (event : DriveEvent) (caches : Caches repo K)
      → laws.Valid caches.entities
      → Forgotten event caches (invalidate repo event caches)
  unfolding invalidate find forget_node forget_all remove_node
  invalidate-Forgotten (node_updated _ uid _ _ _) caches valid = (
    (laws.removed (node_key uid) "" caches.entities valid).0,
    λ u. find-drop_uid u uid caches.folder_keys,
    refl,
    λ key. (laws.removed (node_key uid) key caches.entities valid).1,
    laws.remove_valid (node_key uid) caches.entities valid,
  )
  invalidate-Forgotten (node_deleted _ uid _) caches valid = (
    (laws.removed (node_key uid) "" caches.entities valid).0,
    λ u. find-drop_uid u uid caches.folder_keys,
    refl,
    λ key. (laws.removed (node_key uid) key caches.entities valid).1,
    laws.remove_valid (node_key uid) caches.entities valid,
  )
  invalidate-Forgotten (continuity_lost _) caches valid = (
    (laws.cleared "" caches.entities valid).0,
    λ uid. refl,
    refl,
    λ key. (laws.cleared key caches.entities valid).1,
    laws.clear_valid caches.entities valid,
  )
  invalidate-Forgotten (scope_access_lost _) caches valid = (
    (laws.cleared "" caches.entities valid).0,
    λ uid. refl,
    refl,
    λ key. (laws.cleared key caches.entities valid).1,
    laws.clear_valid caches.entities valid,
  )
  invalidate-Forgotten (shared_with_me_updated _) caches valid =
      (refl, λ uid. refl, refl, λ key. refl, valid)
  invalidate-Forgotten (cursor_advanced _) caches valid =
      (refl, λ uid. refl, refl, λ key. refl, valid)

module _ {S : Type 0} (repo : CacheRepository S) (laws : IsRepository repo) {N : Type 0}
    (info_json : Json (CachedNodeInfo N)) where
  -- What `get_json` gives for an entry.
  abbrev pub parsed : Option String → Option (CachedNodeInfo N)
  parsed none = none
  parsed (some raw) = info_json.from_json raw

  -- The entry is not there, or is evicted as it cannot be read, or stays.
  abbrev pub readable_part : Option String → Option (CachedNodeInfo N) → Option String
  readable_part raw none = none
  readable_part raw (some info) = raw

  get_json_found :
      (uid : NodeUid) (s : S)
      → laws.Valid s
      → try_get_node repo info_json uid s
        ≡ on_raw repo info_json
            (node_key uid)
            (ok (laws.peek (node_key uid) s), (repo.get (node_key uid) s).1)
  unfolding try_get_node get_json
  get_json_found uid s valid =
      ap (λ found. on_raw repo info_json (node_key uid) (found, (repo.get (node_key uid) s).1))
        (laws.get_found (node_key uid) s valid)

  -- `try_get_node` reads the entry of the node: an entry that cannot be read is a miss, and is gone
  -- afterwards.
  on_raw-parsed :
      (key : String) (raw : Option String) (info : Option (CachedNodeInfo N)) (s : S)
      → laws.Valid s
      → laws.peek key s ≡ raw
      → parsed raw ≡ info
      → ((on_raw repo info_json key (ok raw, s)).0 ≡ ok info)
        × (laws.peek key (on_raw repo info_json key (ok raw, s)).1 ≡ readable_part raw info)
  unfolding on_raw on_parsed evicted
  on_raw-parsed key none none s valid is_raw is_info = (refl, is_raw)
  on_raw-parsed key none (some info) s valid is_raw is_info = absurd (ground arith)
  on_raw-parsed key (some raw) none s valid is_raw is_info =
      let (done, gone) = laws.removed key key s valid in
      rw is_info (rw done refl, gone ∙ rw (str_eq_refl key) refl)
  on_raw-parsed key (some raw) (some info) s valid is_raw is_info = rw is_info (refl, is_raw)

  -- `try_get_node` finds what the entry of the node says: nothing where there is none or where it cannot
  -- be read, and such an entry is gone afterwards.
  pub try_get_node_found :
      (uid : NodeUid) (s : S)
      → laws.Valid s
      → ((try_get_node repo info_json uid s).0 ≡ ok (parsed (laws.peek (node_key uid) s)))
        × (laws.peek (node_key uid) (try_get_node repo info_json uid s).1
            ≡ readable_part (laws.peek (node_key uid) s) (parsed (laws.peek (node_key uid) s)))
  try_get_node_found uid s valid =
      let key = node_key uid in
      let (found, left) =
        on_raw-parsed key (laws.peek key s) (parsed (laws.peek key s)) (repo.get key s).1
          (laws.get_valid key s valid) (laws.get_kept key key s valid) refl in
      rw (get_json_found uid s valid) (found, left)

  -- Over a repository that keeps the laws, in a valid state: a node that was cached is found again
  -- with its membership share and its digest, when serde reads back what it wrote.
  pub try_get_node-set_node :
      (uid : NodeUid) (info : CachedNodeInfo N) (raw : String) (s : S)
      → laws.Valid s
      → info_json.to_json info ≡ ok raw
      → info_json.from_json raw ≡ some info
      → ((set_node repo info_json uid info.node info.membership_share_id info.name_hash_digest s).0
          ≡ ok tt)
        × ((try_get_node repo info_json uid
              (set_node repo info_json uid info.node info.membership_share_id info.name_hash_digest
                s).1).0
            ≡ ok (some info))
  unfolding set_node set_json put_text
  try_get_node-set_node uid info raw s valid wrote reads =
      let key = node_key uid in
      let stored = (repo.set key raw [] s).1 in
      let (found, _) = try_get_node_found uid stored (laws.set_valid key raw [] s valid) in
      rw wrote (
        laws.set_done key raw [] s valid,
        found ∙ ap (λ entry. ok (parsed entry)) (laws.set_there key raw [] s valid) ∙ ap ok reads,
      )
