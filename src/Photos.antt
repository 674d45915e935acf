-- ===== src/Photos.antt =====
-- Photos of crates/proton-drive-rs/src/client.rs: the payloads with which they are transferred. Nodes,
-- link details and the cryptography are arguments, by the number of the request that asks.
pub mod Wire
pub mod Transfer
pub mod Rounds
use proton_sdk_rs.Base.{
  ℕ, String, Bool, true, false, not, Option, none, some, List, [], ◌∷◌, ◌++◌, if◌then◌else◌,
}
use proton_sdk_rs.Errors.{Result, ok, err, refuse, ◌>>=◌}
use proton_sdk_rs.Events.{NodeUid}
use proton_sdk_rs.Batch.{uid_eq}
use proton_sdk_rs.Batch.Uids.{has_uid}

-- What `photo_target_payload` and `transfer_photo_payload` read of a node: of a file its digest, of a
-- photo its related photos.
pub record PhotosNode : Type 0 where
  pub is_file : Bool
  pub content_sha1 : Option String
  pub name : String
  pub related_photo_uids : Option (List NodeUid)

-- What is read of its link.
pub record PhotoLink : Type 0 where
  pub parent_id : Option String
  pub name_hash : Option String
  pub passphrase : String

-- The hashes and ciphers of a photo for one target.
pub record PhotoCrypto (K : Type 0) : Type 0 where
  pub rewrap : K → String → Result String
  pub name_hash : String → String
  pub encrypt_name : String → Result String
  pub content_hash : String → String

-- `PhotoTransferKind`
pub data PhotoTransferKind : Type 0 where
  timeline album : PhotoTransferKind

-- `PhotoTransferTarget`, with its keys as what they do
pub record PhotoTransferTarget (K : Type 0) : Type 0 where
  pub uid : NodeUid
  pub kind : PhotoTransferKind
  pub crypto : PhotoCrypto K
  pub email : String

-- `PhotoTargetPayload` of one photo
pub record PhotoPart : Type 0 where
  pub uid : NodeUid
  pub parent_uid : Option NodeUid
  pub original_name_hash : Option String
  pub name_hash : String
  pub name : String
  pub name_signature_email : String
  pub passphrase : String
  pub content_hash : String

-- `PhotoTargetPayload` with its related photos; those of a related photo are always empty.
pub record PhotoTargetPayload : Type 0 where
  pub photo : PhotoPart
  pub related : List PhotoPart

-- The lookups, by the number of the request
pub record PhotoLookups (K : Type 0) : Type 0 where
  pub get_photos_node : ℕ → NodeUid → Result (Option PhotosNode)
  pub get_link_details : ℕ → NodeUid → Result (List PhotoLink)
  pub resolve_parent_key : ℕ → PhotoLink → Result K

abbrev pub found : Option PhotosNode → Result PhotosNode
found none = refuse "photo not found"
found (some node) = ok node

abbrev pub digest_of : PhotosNode → Option String → Result String
digest_of node none =
    if node.is_file
    then refuse "photo has no content digest; it cannot be re-encrypted for another node"
    else refuse "not a photo file"
digest_of node (some sha1) = if node.is_file then ok sha1 else refuse "not a photo file"

abbrev pub first_photo_link : List PhotoLink → Result PhotoLink
first_photo_link [] = refuse "photo not found"
first_photo_link (link ∷ _) = ok link

abbrev pub parent_in : String → Option String → Option NodeUid
parent_in volume_id none = none
parent_in volume_id (some parent_id) = some (record { volume_id = volume_id; link_id = parent_id })

unfoldable pub is_parented : NodeUid → Option NodeUid → Bool
is_parented target none = false
is_parented target (some parent) = uid_eq parent target

-- The related photos with those that the server asked for, each once.
unfoldable pub with_extra : List NodeUid → List NodeUid → List NodeUid
with_extra related [] = related
with_extra related (extra ∷ more) =
    with_extra (if has_uid extra related then related else related ++ (extra ∷ [])) more

abbrev pub declared : Option (List NodeUid) → List NodeUid
declared none = []
declared (some uids) = uids

abbrev pub if_built : Result PhotoPart → List PhotoPart → List PhotoPart
if_built (err _) parts = parts
if_built (ok part) parts = part ∷ parts

module _ {K : Type 0} (lookups : PhotoLookups K) (target : PhotoTransferTarget K) where
  -- `photo_target_payload`
  unfoldable pub photo_target_payload : ℕ → NodeUid → Result PhotoPart
  photo_target_payload k uid = do
    known ← lookups.get_photos_node k uid
    node ← found known
    sha1 ← digest_of node node.content_sha1
    links ← lookups.get_link_details k uid
    link ← first_photo_link links
    parent_key ← lookups.resolve_parent_key k link
    passphrase ← target.crypto.rewrap parent_key link.passphrase
    name ← target.crypto.encrypt_name node.name
    ok (record {
      uid = uid;
      parent_uid = parent_in uid.volume_id link.parent_id;
      original_name_hash = link.name_hash;
      name_hash = target.crypto.name_hash node.name;
      name = name;
      name_signature_email = target.email;
      passphrase = passphrase;
      content_hash = target.crypto.content_hash sha1;
    })

  -- A related photo that cannot be built is skipped.
  unfoldable pub related_parts : ℕ → List NodeUid → List PhotoPart
  unfolding photo_target_payload
  related_parts k [] = []
  related_parts k (uid ∷ uids) = if_built (photo_target_payload k uid) (related_parts k uids)

  unfoldable pub with_related : ℕ → NodeUid → List NodeUid → PhotoPart → Result PhotoTargetPayload
  unfolding is_parented with_extra related_parts
  with_related k uid extra_related photo =
      if is_parented target.uid photo.parent_uid
      then refuse "photo is already in the timeline"
      else lookups.get_photos_node k uid >>= λ known. found known >>= λ node. ok (record {
        photo = photo;
        related = related_parts k (with_extra (declared node.related_photo_uids) extra_related);
      })

  -- `transfer_photo_payload`
  unfoldable pub transfer_photo_payload : ℕ → NodeUid → List NodeUid → Result PhotoTargetPayload
  unfolding photo_target_payload with_related
  transfer_photo_payload k uid extra_related =
      photo_target_payload k uid >>= with_related k uid extra_related
