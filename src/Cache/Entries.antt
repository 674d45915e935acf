-- ===== src/Cache/Entries.antt =====
-- What the methods of the in-memory cache do to the entries.
use proton_sdk_rs.Base.{
  String, ◌≡◌, refl, ap, ◌∙◌, Bool, true, false, none, some, List, [], ◌∷◌, str_eq, Bool-cases, inl,
  inr,
}
use proton_sdk_rs.Base.Maps.{lookup, or_empty, mem}
use proton_sdk_rs.Cache.{
  Lru, IsLru, InMemoryState, clear_tags_for_key, tag_key, store_entry, set, get, remove_key,
  remove_keys, remove_by_tag,
}
use proton_sdk_rs.Cache.Valid.{
  unless, IsValid, clear_tags_for_key-Cleared, remove_key-IsValid, set-Between,
}

module _ {C : Type 0} where
  module _ (lru : Lru C) (is_lru : IsLru lru) where
    peek-remove_keys :
        (k : String) (keys : List String) (state : InMemoryState C)
        → IsValid lru is_lru state
        → lru.peek k (remove_keys lru keys state).entries
          ≡ unless (mem k keys) (lru.peek k state.entries)
    unfolding remove_keys mem remove_key
    peek-remove_keys k [] state valid = refl
    peek-remove_keys k (key ∷ keys) state (mirrors, held) =
        let popped = record state { entries = lru.pop key state.entries } in
        let (kept, after, tags) = clear_tags_for_key-Cleared popped key mirrors in
        let one = ap (lru.peek k) kept ∙ is_lru.popped k key state.entries in
        let later =
          peek-remove_keys k keys (remove_key lru key state)
            (remove_key-IsValid lru is_lru key state (mirrors, held)) in
        later
        ∙ rw one (elim (Bool-cases (str_eq key k)) [
          | inl e ↦ rw e (go (mem k keys))
          | inr e ↦ rw e refl
        ])
      where
        go : (b : Bool) → unless {A = String} b none ≡ none
        go true = refl
        go false = refl

    -- `remove_by_tag` drops exactly the entries whose key has the tag, and keeps every other, when the
    -- indexes and the entries agree.
    pub peek-remove_by_tag :
        (k tag : String) (state : InMemoryState C)
        → IsValid lru is_lru state
        → lru.peek k (remove_by_tag lru tag state).entries
          ≡ unless (mem tag (or_empty (lookup k state.key_to_tags))) (lru.peek k state.entries)
    unfolding remove_by_tag
    peek-remove_by_tag k tag state (mirrors, held) =
        let tagged = mirrors tag k in
        peek-remove_keys k (or_empty (lookup tag state.tag_to_keys)) state (mirrors, held)
        ∙ ap (λ b. unless b (lru.peek k state.entries)) tagged

    -- What `set` stored under a key is what `get` finds there, whatever was evicted for it, when the
    -- indexes and the entries agree.
    pub get-set :
        (key value : String) (tags : List String) (state : InMemoryState C)
        → IsValid lru is_lru state
        → (get lru key (set lru key value tags state)).0 ≡ some value
    unfolding get set tag_key
    get-set key value tags state valid =
        let (mirrors, untagged, stored, held) = set-Between lru is_lru key value state valid in
        is_lru.get_found key (store_entry lru key value (clear_tags_for_key state key)).entries
        ∙ stored
