-- ===== src/Cache/Repository.antt =====
-- The trait `CacheRepository` of crates/proton-sdk/src/cache.rs, as an interface: its operations on a
-- state, and the laws that a caller relies on. The in-memory repository fills it.
use proton_sdk_rs.Base.{
  String, ◌≡◌, refl, ap, ◌∙◌, ◌⊎◌, inl, inr, false, Option, none, some, List, str_eq, str_eq_refl,
  if◌then◌else◌, Bool-cases,
}
use proton_sdk_rs.Base.Maps.{lookup}
use proton_sdk_rs.Errors.{Result, ok}
use proton_sdk_rs.Cache.{
  Lru, IsLru, pushed, InMemoryState, clear_known, clear_tags_for_key, drop_evicted, store_entry,
  tag_key, set, get, remove_key, remove_by_tag, clear, op_set, op_get, op_remove, op_clear, apply,
}
use proton_sdk_rs.Cache.Valid.{IsValid, apply-IsValid}

-- `CacheRepository`, without `get_by_tags`
pub record CacheRepository (S : Type 0) : Type 0 where
  pub set : String → String → List String → S → Result (Unit {0}) × S
  pub get : String → S → Result (Option String) × S
  pub remove : String → S → Result (Unit {0}) × S
  pub remove_by_tag : String → S → Result (Unit {0}) × S
  pub clear : S → Result (Unit {0}) × S

-- Another entry stays, or is evicted.
abbrev pub KeptOrGone : Option String → Option String → Type 0
KeptOrGone before after = (after ≡ before) ⊎ (after ≡ none)

-- A repository whose operations do not fail, with the entries that it holds.
pub record IsRepository {S : Type 0} (repo : CacheRepository S) : Type 1 where
  pub Valid : S → Type 0
  pub peek : String → S → Option String
  pub set_valid :
      (k v : String) (tags : List String) (s : S) → Valid s → Valid (repo.set k v tags s).1
  pub get_valid : (k : String) (s : S) → Valid s → Valid (repo.get k s).1
  pub remove_valid : (k : String) (s : S) → Valid s → Valid (repo.remove k s).1
  pub clear_valid : (s : S) → Valid s → Valid (repo.clear s).1
  pub set_done :
      (k v : String) (tags : List String) (s : S) → Valid s → (repo.set k v tags s).0 ≡ ok tt
  pub set_there :
      (k v : String) (tags : List String) (s : S)
      → Valid s
      → peek k (repo.set k v tags s).1 ≡ some v
  pub set_others :
      (k v : String) (tags : List String) (j : String) (s : S)
      → Valid s
      → str_eq k j ≡ false
      → KeptOrGone (peek j s) (peek j (repo.set k v tags s).1)
  pub get_found : (k : String) (s : S) → Valid s → (repo.get k s).0 ≡ ok (peek k s)
  pub get_kept : (k j : String) (s : S) → Valid s → peek j (repo.get k s).1 ≡ peek j s
  pub removed :
      (k j : String) (s : S)
      → Valid s
      → ((repo.remove k s).0 ≡ ok tt)
        × (peek j (repo.remove k s).1 ≡ (if str_eq k j then none else peek j s))
  pub cleared :
      (j : String) (s : S) → Valid s → ((repo.clear s).0 ≡ ok tt) × (peek j (repo.clear s).1 ≡ none)

module _ {C : Type 0} (lru : Lru C) where
  -- `impl CacheRepository for InMemoryCacheRepository`
  abbrev pub in_memory : CacheRepository (InMemoryState C)
  in_memory = record {
    set = λ k v tags s. (ok tt, set lru k v tags s);
    get = λ k s. let (found, s') = get lru k s in (ok found, s');
    remove = λ k s. (ok tt, remove_key lru k s);
    remove_by_tag = λ tag s. (ok tt, remove_by_tag lru tag s);
    clear = λ s. (ok tt, clear lru s);
  }

  entries-clear_known :
      (s : InMemoryState C) (k : String) (tags : Option (List String))
      → (clear_known s k tags).entries ≡ s.entries
  unfolding clear_known
  entries-clear_known s k none = refl
  entries-clear_known s k (some tags) = refl

  entries-clear_tags_for_key :
      (s : InMemoryState C) (k : String) → (clear_tags_for_key s k).entries ≡ s.entries
  unfolding clear_tags_for_key
  entries-clear_tags_for_key s k = entries-clear_known s k (lookup k s.key_to_tags)

  entries-drop_evicted :
      (k : String) (out : Option (String × String)) (s : InMemoryState C)
      → (drop_evicted lru k out s).entries ≡ s.entries
  unfolding drop_evicted
  entries-drop_evicted k none s = refl
  entries-drop_evicted k (some (evicted, v)) s = elim (Bool-cases (str_eq evicted k)) [
    | inl same ↦ rw same refl
    | inr other ↦ rw other (entries-clear_tags_for_key s evicted)
  ]

  entries-set :
      (k v : String) (tags : List String) (s : InMemoryState C)
      → (set lru k v tags s).entries ≡ (lru.push k v s.entries).1
  unfolding set store_entry tag_key
  entries-set k v tags s =
      let s' = clear_tags_for_key s k in
      entries-drop_evicted k (lru.push k v s'.entries).0
        (record s' { entries = (lru.push k v s'.entries).1 })
      ∙ ap (λ e. (lru.push k v e).1) (entries-clear_tags_for_key s k)

  pushed-KeptOrGone :
      (k v j : String) (out : Option (String × String)) (before : Option String)
      → str_eq k j ≡ false
      → KeptOrGone before (pushed k v out j before)
  pushed-KeptOrGone k v j none before other = inl (rw other refl)
  pushed-KeptOrGone k v j (some (evicted, w)) before other = elim (Bool-cases (str_eq evicted j)) [
    | inl gone ↦ inr (rw (other, gone) refl)
    | inr kept ↦ inl (rw (other, kept) refl)
  ]

  pushed_self :
      (k v : String) (out : Option (String × String)) (before : Option String)
      → pushed k v out k before ≡ some v
  pushed_self k v none before = rw (str_eq_refl k) refl
  pushed_self k v (some (evicted, w)) before = rw (str_eq_refl k) refl

  others :
      (k v : String) (tags : List String) (j : String) (s : InMemoryState C)
      → IsLru lru
      → str_eq k j ≡ false
      → KeptOrGone (lru.peek j s.entries) (lru.peek j (set lru k v tags s).entries)
  others k v tags j s is_lru other =
      let after : lru.peek j (set lru k v tags s).entries
          ≡ pushed k v (lru.push k v s.entries).0 j (lru.peek j s.entries) =
        ap (lru.peek j) (entries-set k v tags s) ∙ is_lru.stored j k v s.entries in
      elim (pushed-KeptOrGone k v j (lru.push k v s.entries).0 (lru.peek j s.entries) other) [
        | inl kept ↦ inl (after ∙ kept)
        | inr gone ↦ inr (after ∙ gone)
      ]

  -- The in-memory repository keeps the laws, over an LRU cache that behaves as documented.
  pub in_memory-IsRepository : IsLru lru → IsRepository in_memory
  unfolding get remove_key clear apply
  in_memory-IsRepository is_lru = record {
    Valid = IsValid lru is_lru;
    peek = λ k s. lru.peek k s.entries;
    set_valid = λ k v tags s valid. apply-IsValid lru is_lru (op_set k v tags) s valid;
    get_valid = λ k s valid. apply-IsValid lru is_lru (op_get k) s valid;
    remove_valid = λ k s valid. apply-IsValid lru is_lru (op_remove k) s valid;
    clear_valid = λ s valid. apply-IsValid lru is_lru op_clear s valid;
    set_done = λ k v tags s valid. refl;
    set_there = λ k v tags s valid.
        ap (lru.peek k) (entries-set k v tags s)
        ∙ is_lru.stored k k v s.entries
        ∙ pushed_self k v (lru.push k v s.entries).0 (lru.peek k s.entries);
    set_others = λ k v tags j s valid other. others k v tags j s is_lru other;
    get_found = λ k s valid. ap ok (is_lru.get_found k s.entries);
    get_kept = λ k j s valid. is_lru.get_kept j k s.entries;
    removed = λ k j s valid. (
      refl,
      ap (lru.peek j) (entries-clear_tags_for_key (record s { entries = lru.pop k s.entries }) k)
          ∙ is_lru.popped j k s.entries,
    );
    cleared = λ j s valid. (refl, is_lru.cleared j s.entries);
  }

  -- Its states are those that `apply_all-IsValid` keeps.
  pub IsValid-Valid :
      (is_lru : IsLru lru) (s : InMemoryState C)
      → IsValid lru is_lru s
      → (in_memory-IsRepository is_lru).Valid s
  unfolding in_memory-IsRepository
  IsValid-Valid is_lru s valid = valid
