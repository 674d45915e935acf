-- ===== src/Tests/Entities.antt =====
-- The entity cache over the cache of one entry.
use proton_sdk_rs.Base.{ℕ, ◌≡◌, refl, false, none, some, [], ◌∷◌}
use proton_sdk_rs.Errors.{ok}
use proton_sdk_rs.Events.{NodeUid, DriveEvent, node_updated}
use proton_sdk_rs.Cache.Repository.{in_memory, IsRepository, in_memory-IsRepository, IsValid-Valid}
use proton_sdk_rs.Entities.{CachedNodeInfo, Json, Caches, invalidate, set_node, try_get_node}
use proton_sdk_rs.Entities.Forgets.{Forgotten, invalidate-Forgotten, try_get_node-set_node}
use proton_sdk_rs.Tests.Cache.{slot_lru, slot-IsLru, one_entry, one_entry-IsValid}

abbrev laws : IsRepository (in_memory slot_lru)
laws = in_memory-IsRepository slot_lru slot-IsLru

one_entry-Valid : laws.Valid one_entry
one_entry-Valid = IsValid-Valid slot_lru slot-IsLru one_entry one_entry-IsValid

abbrev uid : NodeUid
uid = record { volume_id = "v"; link_id = "a" }

abbrev caches : Caches (in_memory slot_lru) ℕ
caches = record {
  folder_keys = (uid, 1) ∷ [];
  context_share_ids = (uid, "s") ∷ [];
  entities = one_entry;
}

abbrev updated : DriveEvent
updated = node_updated "e1" uid none false false

invalidate-Forgotten_example :
    Forgotten
      (in_memory slot_lru)
      laws
      updated
      caches
      (invalidate (in_memory slot_lru) updated caches)
invalidate-Forgotten_example =
    invalidate-Forgotten (in_memory slot_lru) laws updated caches one_entry-Valid

abbrev info : CachedNodeInfo ℕ
info = record { node = 5; membership_share_id = none; name_hash_digest = "d" }

abbrev info_json : Json (CachedNodeInfo ℕ)
info_json = record { to_json = λ _. ok "{}"; from_json = λ _. some info }

try_get_node-set_node_example :
    ((set_node (in_memory slot_lru) info_json uid 5 none "d" one_entry).0 ≡ ok tt)
    × ((try_get_node
          (in_memory slot_lru)
          info_json
          uid
          (set_node (in_memory slot_lru) info_json uid 5 none "d" one_entry).1).0
        ≡ ok (some info))
try_get_node-set_node_example =
    try_get_node-set_node (in_memory slot_lru) laws info_json uid info "{}" one_entry
      one_entry-Valid refl refl
