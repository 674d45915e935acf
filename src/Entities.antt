-- ===== src/Entities.antt =====
-- The drive client's caches: `DriveEntityCache` of crates/proton-drive-rs/src/cache.rs over any repository,
-- and `invalidate_caches_for_event` of client.rs. How serde writes and reads a value is an argument.
-- The two LRU caches of the client are maps here: an eviction only forgets an entry.
pub mod Forgets
use Prim.Native.String.{◌++◌ as ◌<>◌}
use proton_sdk_rs.Base.{
  ℕ, String, Bool, true, false, Option, none, some, List, [], ◌∷◌, if◌then◌else◌,
}
use proton_sdk_rs.Errors.{Result, ok, err, ◌>>=◌}
use proton_sdk_rs.Events.{
  NodeUid, DriveEvent, node_updated, node_deleted, cursor_advanced, continuity_lost,
  scope_access_lost, shared_with_me_updated,
}
use proton_sdk_rs.Batch.Uids.{UidMap, drop_uid}
use proton_sdk_rs.Cache.Repository.{CacheRepository}

-- `CachedNodeInfo`
pub record CachedNodeInfo (N : Type 0) : Type 0 where
  pub node : N
  pub membership_share_id : Option String
  pub name_hash_digest : String

-- `serde_json::to_string` and `from_str` at one type; what cannot be read is `none`.
pub record Json (A : Type 0) : Type 0 where
  pub to_json : A → Result String
  pub from_json : String → Option A

-- `CLIENT_UID_KEY`
abbrev pub client_uid_key : String
client_uid_key = "client:id"

-- `MAIN_VOLUME_ID_KEY`
abbrev pub main_volume_id_key : String
main_volume_id_key = "volume:main:id"

-- `MY_FILES_SHARE_ID_KEY`
abbrev pub my_files_share_id_key : String
my_files_share_id_key = "share:my-files:id"

-- `node_key`, with the `Display` of a `NodeUid`
unfoldable pub node_key : NodeUid → String
node_key uid = "node:" <> (uid.volume_id <> ("~" <> uid.link_id))

module _ {S : Type 0} (repo : CacheRepository S) where
  module _ {A : Type 0} (json : Json A) where
    unfoldable pub evicted : Result (Unit {0}) × S → Result (Option A) × S
    evicted (done, s) = ((done >>= λ _. ok none), s)

    unfoldable pub on_parsed : String → Option A → S → Result (Option A) × S
    unfolding evicted
    on_parsed key (some value) s = (ok (some value), s)
    on_parsed key none s = evicted (repo.remove key s)

    unfoldable pub on_raw : String → Result (Option String) × S → Result (Option A) × S
    unfolding on_parsed
    on_raw key (err e, s) = (err e, s)
    on_raw key (ok none, s) = (ok none, s)
    on_raw key (ok (some raw), s) = on_parsed key (json.from_json raw) s

    -- `get_json`
    unfoldable pub get_json : String → S → Result (Option A) × S
    unfolding on_raw
    get_json key s = on_raw key (repo.get key s)

    unfoldable pub put_text : String → Result String → S → Result (Unit {0}) × S
    put_text key (err e) s = (err e, s)
    put_text key (ok serialized) s = repo.set key serialized [] s

    -- `set_json`
    unfoldable pub set_json : String → A → S → Result (Unit {0}) × S
    unfolding put_text
    set_json key value s = put_text key (json.to_json value) s

  -- `client_uid`, `set_client_uid`
  unfoldable pub client_uid : S → Result (Option String) × S
  client_uid s = repo.get client_uid_key s

  unfoldable pub set_client_uid : String → S → Result (Unit {0}) × S
  set_client_uid uid s = repo.set client_uid_key uid [] s

  module _ (text_json : Json String) where
    -- `main_volume_id`, `set_main_volume_id`
    unfoldable pub main_volume_id : S → Result (Option String) × S
    unfolding get_json
    main_volume_id s = get_json text_json main_volume_id_key s

    unfoldable pub set_main_volume_id : String → S → Result (Unit {0}) × S
    unfolding set_json
    set_main_volume_id volume_id s = set_json text_json main_volume_id_key volume_id s

    -- `my_files_share_id`, `set_my_files_share_id`
    unfoldable pub my_files_share_id : S → Result (Option String) × S
    unfolding get_json
    my_files_share_id s = get_json text_json my_files_share_id_key s

    unfoldable pub set_my_files_share_id : String → S → Result (Unit {0}) × S
    unfolding set_json
    set_my_files_share_id share_id s = set_json text_json my_files_share_id_key share_id s

  module _ {N : Type 0} (info_json : Json (CachedNodeInfo N)) where
    -- `set_node`
    unfoldable pub set_node : NodeUid → N → Option String → String → S → Result (Unit {0}) × S
    unfolding set_json node_key
    set_node uid node share_id digest s =
        set_json info_json (node_key uid)
          (record { node = node; membership_share_id = share_id; name_hash_digest = digest }) s

    -- `try_get_node`
    unfoldable pub try_get_node : NodeUid → S → Result (Option (CachedNodeInfo N)) × S
    unfolding get_json node_key
    try_get_node uid s = get_json info_json (node_key uid) s

  -- `remove_node`
  unfoldable pub remove_node : NodeUid → S → Result (Unit {0}) × S
  unfolding node_key
  remove_node uid s = repo.remove (node_key uid) s

  -- The caches that an event invalidates: two maps of `DriveCache`, and the entity cache.
  pub record Caches (K : Type 0) : Type 0 where
    pub folder_keys : UidMap K
    pub context_share_ids : UidMap String
    pub entities : S

  module _ {K : Type 0} where
    abbrev pub with_entities : Caches K → Result (Unit {0}) × S → Result (Unit {0}) × Caches K
    with_entities caches (done, s) = (done, record caches { entities = s })

    unfoldable pub forget_node : NodeUid → Caches K → Result (Unit {0}) × Caches K
    unfolding remove_node
    forget_node uid caches =
        with_entities
          (record caches { folder_keys = drop_uid uid caches.folder_keys; context_share_ids = [] })
          (remove_node uid caches.entities)

    unfoldable pub forget_all : Caches K → Result (Unit {0}) × Caches K
    forget_all caches =
        with_entities (record caches { folder_keys = []; context_share_ids = [] })
          (repo.clear caches.entities)

    -- `invalidate_caches_for_event`
    unfoldable pub invalidate : DriveEvent → Caches K → Result (Unit {0}) × Caches K
    unfolding forget_node forget_all
    invalidate (node_updated _ uid _ _ _) caches = forget_node uid caches
    invalidate (node_deleted _ uid _) caches = forget_node uid caches
    invalidate (continuity_lost _) caches = forget_all caches
    invalidate (scope_access_lost _) caches = forget_all caches
    invalidate (shared_with_me_updated _) caches = (ok tt, record caches { context_share_ids = [] })
    invalidate (cursor_advanced _) caches = (ok tt, caches)
