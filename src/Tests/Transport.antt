-- ===== src/Tests/Transport.antt =====
-- A revision of 60 blocks, which the server lists in two pages.
use proton_sdk_rs.Base.{
  String, ℕ, zero, suc, ◌+◌, ◌-◌, ◌*◌, ◌≡◌, refl, ap, none, some, List, [], ◌∷◌, take, drop, arith,
  ltb, if◌then◌else◌,
}
use proton_sdk_rs.Base.Int.{pos}
use proton_sdk_rs.Errors.{api, ResponseCode, Result, ok, err, keys_locked}
use proton_sdk_rs.Transport.{BlockDto, RevisionDto, page_size, list_blocks}
use proton_sdk_rs.Transport.Listing.{Numbered, ServesTable, list_blocks-table, list_blocks_surplus}
use proton_sdk_rs.Transport.Renewal.{
  renew_each, renew_each_once, LiveSession, link_session, get, Renewed, get-Renewed,
}

abbrev blocks_from : ℕ → ℕ → List BlockDto
blocks_from offset zero = []
blocks_from offset (suc n) =
    record { index = pos (offset + 1); bare_url = "url"; token = "token" }
    ∷ blocks_from (offset + 1) n

blocks_from-Numbered : (offset n : ℕ) → Numbered offset (blocks_from offset n)
blocks_from-Numbered offset zero = tt
blocks_from-Numbered offset (suc n) = (refl, blocks_from-Numbered (offset + 1) n)

abbrev revision_with : List BlockDto → RevisionDto
revision_with blocks = record {
  id = "revision";
  manifest_signature = none;
  signature_email = none;
  extended_attributes = none;
  thumbnails = [];
  blocks = blocks;
}

abbrev table : List BlockDto
table = blocks_from 0 60

abbrev get_table : ℕ → Result RevisionDto
get_table i = ok (revision_with (take page_size (drop (i - 1) table)))

get_table-ServesTable : ServesTable get_table table
get_table-ServesTable k =
    let start : k * page_size + 1 - 1 ≡ k * page_size = omega arith in
    (
      revision_with (take page_size (drop (k * page_size + 1 - 1) table)),
      refl,
      ap (λ n. take page_size (drop n table)) start,
    )

list_blocks-table_example : list_blocks 61 get_table ≡ some (ok (revision_with [], table))
list_blocks-table_example =
    list_blocks-table get_table table get_table-ServesTable 61
      (revision_with (take page_size table)) refl (omega arith) (blocks_from-Numbered 0 60)

abbrev get_broken : ℕ → Result RevisionDto
get_broken i =
    if ltb i 101 then ok (revision_with (take page_size (drop (i - 1) table))) else err keys_locked

list_blocks_surplus_example : list_blocks 1 get_broken ≡ some (err keys_locked)
list_blocks_surplus_example =
    list_blocks_surplus 0 get_broken (revision_with (take page_size table))
      (revision_with (take page_size (drop page_size table))) keys_locked refl refl refl refl
      (omega arith)

abbrev first_live : LiveSession String
first_live = record { http = "dead"; generation = 0; handshakes = 0 }

abbrev ask_live : ℕ → String → Result ℕ
ask_live zero client =
    err (
      api (record { code = ResponseCode.unknown; http_status = 401; message = ""; details = none }))
ask_live (suc _) client = ok 5

get-Renewed_example :
    Renewed
      (link_session (λ _. ok "new"))
      ask_live
      (λ live. live)
      first_live
      (get (link_session (λ _. ok "new")) ask_live (λ live. live) first_live)
get-Renewed_example = get-Renewed (link_session (λ _. ok "new")) ask_live (λ live. live) first_live

renew_each_once_example :
    renew_each (λ _. ok "new") (0 ∷ 0 ∷ 0 ∷ []) first_live
    ≡ record { http = "new"; generation = 1; handshakes = 1 }
renew_each_once_example =
    renew_each_once (λ _. ok "new") (0 ∷ 0 ∷ []) first_live "new" (omega arith) (refl, (refl, tt))
      refl
