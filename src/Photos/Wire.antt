-- ===== src/Photos/Wire.antt =====
-- The requests of the photo transfers of crates/proton-drive-rs/src/client.rs, by their types of dtos.rs.
use proton_sdk_rs.Base.{String, Option, none, some, List, [], ◌∷◌, ◌++◌}
use proton_sdk_rs.Base.Int.{ℤ}
use proton_sdk_rs.Events.{NodeUid}
use proton_sdk_rs.Photos.{PhotoPart, PhotoTargetPayload}

-- `TransferPhotoLinkItem`
pub record TransferPhotoLinkItem : Type 0 where
  pub link_id : String
  pub name_hash : String
  pub original_name_hash : String
  pub name : String
  pub passphrase : String
  pub content_hash : String
  pub passphrase_signature : Option String

-- `TransferPhotosRequest`
pub record TransferPhotosRequest : Type 0 where
  pub parent_link_id : String
  pub links : List TransferPhotoLinkItem
  pub name_signature_email : String
  pub signature_email : Option String

-- `AddPhotoToAlbumEntry`
pub record AddPhotoToAlbumEntry : Type 0 where
  pub link_id : String
  pub name_hash : String
  pub name : String
  pub name_signature_email : String
  pub passphrase : String
  pub content_hash : String

-- `CopyPhotoRelatedItem`
pub record CopyPhotoRelatedItem : Type 0 where
  pub link_id : String
  pub name_hash : String
  pub name : String
  pub passphrase : String
  pub content_hash : String

-- `CopyPhotoRequest`, with the fields of its `CopyPhotoContent`
pub record CopyPhotoRequest : Type 0 where
  pub target_volume_id : String
  pub target_parent_link_id : String
  pub name_hash : String
  pub name : String
  pub name_signature_email : String
  pub passphrase : String
  pub passphrase_signature : Option String
  pub signature_email : Option String
  pub content_hash : String
  pub related_photos : List CopyPhotoRelatedItem

-- `PhotoLinkOutcome`, with the fields of its `PhotoLinkOutcomeBody`; `missing` is that of the details.
pub record PhotoLinkOutcome : Type 0 where
  pub link_id : String
  pub code : ℤ
  pub error : Option String
  pub missing : Option (List String)

-- `transfer_link_item`
abbrev pub item_with : PhotoPart → Option String → Option TransferPhotoLinkItem
item_with part none = none
item_with part (some hash) = some (record {
  link_id = part.uid.link_id;
  name_hash = part.name_hash;
  original_name_hash = hash;
  name = part.name;
  passphrase = part.passphrase;
  content_hash = part.content_hash;
  passphrase_signature = none;
})

abbrev pub add_item :
    Option TransferPhotoLinkItem
    → Option (List TransferPhotoLinkItem)
    → Option (List TransferPhotoLinkItem)
add_item none items = none
add_item (some item) none = none
add_item (some item) (some items) = some (item ∷ items)

unfoldable pub link_items : List PhotoPart → Option (List TransferPhotoLinkItem)
link_items [] = some []
link_items (part ∷ parts) = add_item (item_with part part.original_name_hash) (link_items parts)

-- `album_entry`
unfoldable pub album_entry : PhotoPart → AddPhotoToAlbumEntry
album_entry part = record {
  link_id = part.uid.link_id;
  name_hash = part.name_hash;
  name = part.name;
  name_signature_email = part.name_signature_email;
  passphrase = part.passphrase;
  content_hash = part.content_hash;
}

unfoldable pub entries_of : List PhotoPart → List AddPhotoToAlbumEntry
unfolding album_entry
entries_of [] = []
entries_of (part ∷ parts) = album_entry part ∷ entries_of parts

unfoldable pub album_data : List PhotoTargetPayload → List AddPhotoToAlbumEntry
unfolding entries_of
album_data [] = []
album_data (payload ∷ payloads) =
    entries_of (payload.photo ∷ payload.related) ++ album_data payloads

abbrev pub copy_items : List PhotoPart → List CopyPhotoRelatedItem
copy_items [] = []
copy_items (part ∷ parts) =
    record {
      link_id = part.uid.link_id;
      name_hash = part.name_hash;
      name = part.name;
      passphrase = part.passphrase;
      content_hash = part.content_hash;
    }
    ∷ copy_items parts

unfoldable pub copy_request : NodeUid → PhotoTargetPayload → CopyPhotoRequest
copy_request target payload = record {
  target_volume_id = target.volume_id;
  target_parent_link_id = target.link_id;
  name_hash = payload.photo.name_hash;
  name = payload.photo.name;
  name_signature_email = payload.photo.name_signature_email;
  passphrase = payload.photo.passphrase;
  passphrase_signature = none;
  signature_email = none;
  content_hash = payload.photo.content_hash;
  related_photos = copy_items payload.related;
}
