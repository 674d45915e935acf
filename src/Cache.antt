-- ===== src/Cache.antt =====
-- The in-memory cache of crates/proton-sdk/src/cache.rs: `InMemoryCacheRepository`. Its `LruCache` is
-- another crate's: the operations are an argument, `Lru`, and what the source relies on is `IsLru`.
pub mod Index
pub mod Valid
pub mod Entries
pub mod Repository
pub mod Encrypted
use proton_sdk_rs.Base.{
  String, ◌≡◌, Bool, true, false, Option, none, some, List, [], ◌∷◌, str_eq, not, if◌then◌else◌,
}
use proton_sdk_rs.Base.Maps.{Map, lookup, erase, put, insert, remove, or_empty, is_nil, to_set}

-- The operations of `LruCache<String, String>` that the source calls.
pub record Lru (C : Type 0) : Type 0 where
  pub push : String → String → C → Option (String × String) × C
  pub get : String → C → Option String × C
  pub peek : String → C → Option String
  pub pop : String → C → C
  pub clear : C → C

-- What the entries are after a `push` that gave back `out`.
abbrev pub pushed :
    String → String → Option (String × String) → String → Option String → Option String
pushed key value none k before = if str_eq key k then some value else before
pushed key value (some (evicted, _)) k before =
    if str_eq key k then some value else if str_eq evicted k then none else before

-- The documented behaviour: `get` finds what `peek` finds and moves no entry out; `pop` and `clear`
-- drop entries; `push` stores its entry, and drops at most the one that it gives back.
pub record IsLru {C : Type 0} (lru : Lru C) : Type 0 where
  pub get_found : (k : String) (c : C) → (lru.get k c).0 ≡ lru.peek k c
  pub get_kept : (k key : String) (c : C) → lru.peek k (lru.get key c).1 ≡ lru.peek k c
  pub popped :
      (k key : String) (c : C)
      → lru.peek k (lru.pop key c) ≡ (if str_eq key k then none else lru.peek k c)
  pub cleared : (k : String) (c : C) → lru.peek k (lru.clear c) ≡ none
  pub stored :
      (k key value : String) (c : C)
      → lru.peek k (lru.push key value c).1
        ≡ pushed key value (lru.push key value c).0 k (lru.peek k c)

-- `InMemoryState`
pub record InMemoryState (C : Type 0) : Type 0 where
  pub entries : C
  pub key_to_tags : Map (List String)
  pub tag_to_keys : Map (List String)

-- The body of the `for` in `clear_tags_for_key`
unfoldable pub clear_found :
    String → String → Map (List String) → Option (List String) → Map (List String)
clear_found key tag keys_by_tag none = keys_by_tag
clear_found key tag keys_by_tag (some keys) =
    if is_nil (remove key keys)
    then erase tag keys_by_tag
    else put tag (remove key keys) keys_by_tag

unfoldable pub clear_tag : String → String → Map (List String) → Map (List String)
unfolding clear_found
clear_tag key tag keys_by_tag = clear_found key tag keys_by_tag (lookup tag keys_by_tag)

unfoldable pub clear_tags : String → List String → Map (List String) → Map (List String)
unfolding clear_tag
clear_tags key [] keys_by_tag = keys_by_tag
clear_tags key (tag ∷ tags) keys_by_tag = clear_tags key tags (clear_tag key tag keys_by_tag)

-- `tag_to_keys.entry(tag).or_default().insert(key)`
unfoldable pub add_tag : String → String → Map (List String) → Map (List String)
add_tag key tag keys_by_tag = put tag (insert key (or_empty (lookup tag keys_by_tag))) keys_by_tag

unfoldable pub add_tags : String → List String → Map (List String) → Map (List String)
unfolding add_tag
add_tags key [] keys_by_tag = keys_by_tag
add_tags key (tag ∷ tags) keys_by_tag = add_tags key tags (add_tag key tag keys_by_tag)

module _ {C : Type 0} where
  unfoldable pub clear_known : InMemoryState C → String → Option (List String) → InMemoryState C
  unfolding clear_tags
  clear_known state key none = state
  clear_known state key (some tags) = record state {
    key_to_tags = erase key state.key_to_tags;
    tag_to_keys = clear_tags key tags state.tag_to_keys;
  }

  -- `clear_tags_for_key`
  unfoldable pub clear_tags_for_key : InMemoryState C → String → InMemoryState C
  unfolding clear_known
  clear_tags_for_key state key = clear_known state key (lookup key state.key_to_tags)

  module _ (lru : Lru C) where
    unfoldable pub drop_evicted :
        String → Option (String × String) → InMemoryState C → InMemoryState C
    unfolding clear_tags_for_key
    drop_evicted key none state = state
    drop_evicted key (some (evicted, _)) state =
        if str_eq evicted key then state else clear_tags_for_key state evicted

    -- The end of `set`: the new tags.
    unfoldable pub tag_key : String → List String → InMemoryState C → InMemoryState C
    unfolding add_tags
    tag_key key tag_set state = record state {
      key_to_tags = put key tag_set state.key_to_tags;
      tag_to_keys = add_tags key tag_set state.tag_to_keys;
    }

    unfoldable pub store_entry : String → String → InMemoryState C → InMemoryState C
    unfolding drop_evicted
    store_entry key value state =
        let (out, entries) = lru.push key value state.entries in
        drop_evicted key out (record state { entries = entries })

    -- `InMemoryCacheRepository::set`
    unfoldable pub set : String → String → List String → InMemoryState C → InMemoryState C
    unfolding store_entry tag_key clear_tags_for_key
    set key value tags state =
        tag_key key (to_set tags) (store_entry key value (clear_tags_for_key state key))

    -- `get`
    unfoldable pub get : String → InMemoryState C → Option String × InMemoryState C
    get key state =
        let (found, entries) = lru.get key state.entries in
        (found, record state { entries = entries })

    -- `remove`
    unfoldable pub remove_key : String → InMemoryState C → InMemoryState C
    unfolding clear_tags_for_key
    remove_key key state =
        clear_tags_for_key (record state { entries = lru.pop key state.entries }) key

    unfoldable pub remove_keys : List String → InMemoryState C → InMemoryState C
    unfolding remove_key
    remove_keys [] state = state
    remove_keys (key ∷ keys) state = remove_keys keys (remove_key key state)

    -- `remove_by_tag`
    unfoldable pub remove_by_tag : String → InMemoryState C → InMemoryState C
    unfolding remove_keys
    remove_by_tag tag state = remove_keys (or_empty (lookup tag state.tag_to_keys)) state

    -- `clear`
    unfoldable pub clear : InMemoryState C → InMemoryState C
    clear state = record { entries = lru.clear state.entries; key_to_tags = []; tag_to_keys = [] }

    -- A call of a method of the repository
    pub data Op : Type 0 where
      op_set : String → String → List String → Op
      op_get op_remove op_remove_by_tag : String → Op
      op_clear : Op

    unfoldable pub apply : Op → InMemoryState C → InMemoryState C
    unfolding set get remove_key remove_by_tag clear
    apply (op_set key value tags) state = set key value tags state
    apply (op_get key) state = (get key state).1
    apply (op_remove key) state = remove_key key state
    apply (op_remove_by_tag tag) state = remove_by_tag tag state
    apply op_clear state = clear state

    -- Calls by several tasks, in the order in which they take the lock
    unfoldable pub apply_all : List Op → InMemoryState C → InMemoryState C
    unfolding apply
    apply_all [] state = state
    apply_all (op ∷ ops) state = apply_all ops (apply op state)
