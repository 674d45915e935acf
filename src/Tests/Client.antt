-- ===== src/Tests/Client.antt =====
-- Names, paths, volumes and parent keys at small inputs.
use proton_sdk_rs.Base.{
  ℕ, String, ◌≡◌, refl, none, some, List, [], ◌∷◌, ◌++◌, str_eq, if◌then◌else◌,
}
use proton_sdk_rs.Errors.{Result, ok}
use proton_sdk_rs.Client.Links.{
  container, parse_public_link_url, rebuilt_url, split_link_password,
  parse_public_link_url-rebuilt_url,
}
use proton_sdk_rs.Client.Paths.{path_segments, join_node_path, path_segments-join_node_path}
use proton_sdk_rs.Client.ParentKeys.{LinkDto, key_of, key_id, resolve_parent_keys}
use proton_sdk_rs.Client.ParentKeys.Resolved.{ResolvesFor, resolve_parent_keys-ResolvesFor}
use proton_sdk_rs.Client.Names.{file, alternate_name, decimal}

path_segments-join_node_path_example :
    path_segments (join_node_path ((97 ∷ []) ∷ (98 ∷ 99 ∷ []) ∷ []))
    ≡ (97 ∷ []) ∷ (98 ∷ 99 ∷ []) ∷ []
path_segments-join_node_path_example =
    path_segments-join_node_path ((97 ∷ []) ∷ (98 ∷ 99 ∷ []) ∷ []) (refl, refl, (refl, refl, tt))

abbrev root_link : LinkDto
root_link = record { id = "r"; parent_id = none }

abbrev child_link : LinkDto
child_link = record { id = "c"; parent_id = some "r" }

abbrev resolve_link : LinkDto → Result ℕ
resolve_link link = if str_eq link.id "r" then ok 1 else ok 2

resolve_parent_keys-ResolvesFor_example :
    ((key : ℕ)
      → key_of (key_id child_link) (resolve_parent_keys resolve_link (root_link ∷ child_link ∷ []))
        ≡ some key
      → ResolvesFor resolve_link child_link key (root_link ∷ child_link ∷ []))
    × ((key : ℕ)
        → ResolvesFor resolve_link child_link key (root_link ∷ child_link ∷ [])
        → (held : ℕ) × (key_of
              (key_id child_link)
              (resolve_parent_keys resolve_link (root_link ∷ child_link ∷ []))
            ≡ some held))
resolve_parent_keys-ResolvesFor_example =
    resolve_parent_keys-ResolvesFor resolve_link child_link (root_link ∷ child_link ∷ [])

-- `a.b`
abbrev dotted : List ℕ
dotted = 97 ∷ 46 ∷ 98 ∷ []

-- `a (1).b`
abbrev dotted_one : List ℕ
dotted_one = 97 ∷ 32 ∷ 40 ∷ 49 ∷ 41 ∷ 46 ∷ 98 ∷ []

alternate_name-dotted : alternate_name file dotted 1 ≡ dotted_one
unfolding alternate_name decimal
alternate_name-dotted = refl

abbrev hash_of : List ℕ → String
hash_of [] = "empty"
hash_of (c ∷ []) = "one"
hash_of (c ∷ d ∷ []) = "two"
hash_of (c ∷ d ∷ e ∷ []) = "short"
hash_of (c ∷ d ∷ e ∷ f ∷ text) = "long"

abbrev short_is_free : ℕ → List String → Result (List String)
short_is_free n hashes = ok ("short" ∷ [])

abbrev generated_password : List ℕ
generated_password = 65 ∷ 98 ∷ 67 ∷ 100 ∷ 69 ∷ 102 ∷ 49 ∷ 50 ∷ 51 ∷ 52 ∷ 53 ∷ 54 ∷ []

parse_public_link_url-rebuilt_url_example :
    (parse_public_link_url (
        rebuilt_url ((104 ∷ []) ++ (container ++ (84 ∷ []))) (generated_password ++ (35 ∷ 47 ∷ [])))
      ≡ ok (84 ∷ [], generated_password))
    × ((split_link_password (generated_password ++ (35 ∷ 47 ∷ []))).1 ≡ some (35 ∷ 47 ∷ []))
parse_public_link_url-rebuilt_url_example =
    parse_public_link_url-rebuilt_url (104 ∷ []) (84 ∷ []) generated_password (35 ∷ 47 ∷ []) refl
      refl refl refl refl
