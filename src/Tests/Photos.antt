-- ===== src/Tests/Photos.antt =====
-- A photo whose group the server calls incomplete every time, and one on another volume.
use proton_sdk_rs.Base.{ℕ, ◌≡◌, true, none, some, List, [], ◌∷◌, arith, String}
use proton_sdk_rs.Base.Int.{pos}
use proton_sdk_rs.Errors.{Result, ok, OnSuccess}
use proton_sdk_rs.Events.{NodeUid}
use proton_sdk_rs.Batch.{Outcome, occurrences}
use proton_sdk_rs.Batch.Uids.{count_uid}
use proton_sdk_rs.Photos.{PhotoTransferTarget, timeline, PhotoLookups}
use proton_sdk_rs.Photos.Transfer.{PhotoApi}
use proton_sdk_rs.Photos.Rounds.{transfer_photos}
use proton_sdk_rs.Photos.Rounds.Ends.{transfer_photos-Ends}

abbrev photo_at : String → String → NodeUid
photo_at volume_id link_id = record { volume_id = volume_id; link_id = link_id }

abbrev lookups : PhotoLookups ℕ
lookups = record {
  get_photos_node = λ k uid. ok (
      some (record {
        is_file = true;
        content_sha1 = some "sha1";
        name = "name";
        related_photo_uids = none;
      }));
  get_link_details =
      λ k uid. ok (record { parent_id = some "q"; name_hash = some "h"; passphrase = "p" } ∷ []);
  resolve_parent_key = λ k link. ok 1;
}

abbrev target : PhotoTransferTarget ℕ
target = record {
  uid = photo_at "v" "root";
  kind = timeline;
  crypto = record {
    rewrap = λ key text. ok text;
    name_hash = λ name. name;
    encrypt_name = λ name. ok name;
    content_hash = λ sha1. sha1;
  };
  email = "me";
}

abbrev api_of_photos : PhotoApi
api_of_photos = record {
  transfer_multiple = λ k request.
      ok (record { link_id = "a"; code = pos 2000; error = none; missing = some ("m" ∷ []) } ∷ []);
  add_multiple = λ k entries. ok [];
  copy = λ k request. ok tt;
  missing_links = λ error. [];
}

abbrev two_photos : List NodeUid
two_photos = photo_at "v" "a" ∷ photo_at "w" "b" ∷ []

transfer_photos-Ends_example :
    (answer : Result (List Outcome)) × (transfer_photos api_of_photos target lookups 5 two_photos
      ≡ some answer)
    × OnSuccess
        (λ outcomes. (uid : NodeUid) → occurrences uid outcomes ≡ count_uid uid two_photos)
        answer
transfer_photos-Ends_example =
    transfer_photos-Ends api_of_photos target lookups 5 two_photos (omega arith)
