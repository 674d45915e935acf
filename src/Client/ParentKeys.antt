-- ===== src/Client/ParentKeys.antt =====
-- `ParentKeyId` and `resolve_parent_keys` (crates/proton-drive-rs/src/client.rs). What resolving the
-- parent key of a link comes to is `resolve link`; of a link its ids alone are read.
pub mod Resolved
use proton_sdk_rs.Base.{
  String, ◌≡◌, refl, sym, ap, ◌∙◌, Bool, true, false, Option, none, some, List, [], ◌∷◌, str_eq,
  str_eq→eq, str_eq_refl, if◌then◌else◌, arith, Bool-cases, Option-cases, inl, inr, ◌⊎◌,
}
use proton_sdk_rs.Errors.{Result, ok, err}

-- `LinkDto`
pub record LinkDto : Type 0 where
  pub id : String
  pub parent_id : Option String

-- `ParentKeyId`
pub data ParentKeyId : Type 0 where
  parent root : String → ParentKeyId

abbrev pub id_of : String → Option String → ParentKeyId
id_of own none = root own
id_of own (some folder) = parent folder

-- `ParentKeyId::of`
unfoldable pub key_id : LinkDto → ParentKeyId
key_id link = id_of link.id link.parent_id

-- The derived `PartialEq`
unfoldable pub same_id : ParentKeyId → ParentKeyId → Bool
same_id (parent a) (parent b) = str_eq a b
same_id (root a) (root b) = str_eq a b
same_id (parent _) (root _) = false
same_id (root _) (parent _) = false

module _ {K : Type 0} where
  -- A `HashMap` by its entries
  unfoldable pub key_of : ParentKeyId → List (ParentKeyId × K) → Option K
  key_of id [] = none
  key_of id ((other, key) ∷ keys) = if same_id other id then some key else key_of id keys

  insert_resolved : ParentKeyId → Result K → List (ParentKeyId × K) → List (ParentKeyId × K)
  insert_resolved id (err _) keys = keys
  insert_resolved id (ok key) keys = (id, key) ∷ keys

  module _ (resolve : LinkDto → Result K) where
    -- The body of the `for`: nothing for an id that is there, else what resolving the link comes to.
    add_link : LinkDto → Option K → List (ParentKeyId × K) → List (ParentKeyId × K)
    unfolding insert_resolved
    add_link link (some _) keys = keys
    add_link link none keys = insert_resolved (key_id link) (resolve link) keys

    resolve_from : List LinkDto → List (ParentKeyId × K) → List (ParentKeyId × K)
    unfolding add_link
    resolve_from [] keys = keys
    resolve_from (link ∷ links) keys =
        resolve_from links (add_link link (key_of (key_id link) keys) keys)

    -- `resolve_parent_keys`
    unfoldable pub resolve_parent_keys : List LinkDto → List (ParentKeyId × K)
    unfolding resolve_from
    resolve_parent_keys links = resolve_from links []
