-- ===== src/Cache/Valid.antt =====
-- The invariant of the in-memory cache, and what its methods do to the entries.
use proton_sdk_rs.Base.{
  String, ◌≡◌, refl, sym, ap, ◌∙◌, Bool, true, false, Option, none, some, List, [], ◌∷◌, str_eq,
  str_eq→eq, str_eq_refl, str_eq_same, Bool-cases, inl, inr,
}
use proton_sdk_rs.Base.Maps.{lookup, or_empty, to_set, mem, lookup-erase, lookup-put}
use proton_sdk_rs.Cache.Index.{Mirrors, clear-Mirrors, add-Mirrors}
use proton_sdk_rs.Cache.{
  Lru, IsLru, pushed, InMemoryState, clear_known, clear_tags_for_key, drop_evicted, tag_key,
  store_entry, set, get, remove_key, remove_keys, remove_by_tag, clear, Op, op_set, op_get,
  op_remove, op_remove_by_tag, op_clear, apply, apply_all,
}

abbrev pub is_some : {A : Type 0} → Option A → Bool
is_some none = false
is_some (some _) = true

abbrev pub unless : {A : Type 0} → Bool → Option A → Option A
unless true o = none
unless false o = o

module _ {C : Type 0} where
  abbrev pub tags_of : InMemoryState C → String → Option (List String)
  tags_of state k = lookup k state.key_to_tags

  -- Clearing the tags of a key keeps the indexes in step and forgets that key alone.
  abbrev pub Cleared : InMemoryState C → String → InMemoryState C → Type 0
  Cleared state key after =
      (after.entries ≡ state.entries)
      × Mirrors after.key_to_tags after.tag_to_keys
      × ((k : String) → tags_of after k ≡ unless (str_eq key k) (tags_of state k))

  clear_known-Cleared :
      (state : InMemoryState C) (key : String) (found : Option (List String))
      → lookup key state.key_to_tags ≡ found
      → Mirrors state.key_to_tags state.tag_to_keys
      → Cleared state key (clear_known state key found)
  unfolding clear_known
  clear_known-Cleared state key none h mirrors = (
    refl,
    mirrors,
    (λ k. elim (Bool-cases (str_eq key k)) [
      | inl e ↦
          let gone : lookup k state.key_to_tags ≡ none =
            ap (λ x. lookup x state.key_to_tags) (sym (str_eq→eq key k e)) ∙ h in
          simp (e, gone) refl
      | inr e ↦ rw e refl
    ]),
  )
  clear_known-Cleared state key (some tags) h mirrors = (
    refl,
    clear-Mirrors key tags state.key_to_tags state.tag_to_keys h mirrors,
    (λ k.
        lookup-erase k key state.key_to_tags
        ∙ elim (Bool-cases (str_eq key k)) [ inl e ↦ rw e refl | inr e ↦ rw e refl ]),
  )

  pub clear_tags_for_key-Cleared :
      (state : InMemoryState C) (key : String)
      → Mirrors state.key_to_tags state.tag_to_keys
      → Cleared state key (clear_tags_for_key state key)
  unfolding clear_tags_for_key
  clear_tags_for_key-Cleared state key mirrors =
      clear_known-Cleared state key (lookup key state.key_to_tags) refl mirrors

  module _ (lru : Lru C) (is_lru : IsLru lru) where
    -- The tag indexes mirror each other, and the keys that have tags are those that have an entry.
    abbrev pub IsValid : InMemoryState C → Type 0
    IsValid state =
        Mirrors state.key_to_tags state.tag_to_keys
        × ((k : String) → is_some (lookup k state.key_to_tags) ≡ is_some (lru.peek k state.entries))

    pub remove_key-IsValid :
        (key : String) (state : InMemoryState C)
        → IsValid state
        → IsValid (remove_key lru key state)
    unfolding remove_key
    remove_key-IsValid key state (mirrors, held) =
        let popped = record state { entries = lru.pop key state.entries } in
        let (kept, after, tags) = clear_tags_for_key-Cleared popped key mirrors in
        (
          after,
          (λ k.
              let one = tags k in
              let two = ap (lru.peek k) kept ∙ is_lru.popped k key state.entries in
              let three = held k in
              elim (Bool-cases (str_eq key k)) [
                | inl e ↦ simp (one, two, e) refl
                | inr e ↦ simp (one, two, e) three
              ]),
        )

    remove_keys-IsValid :
        (keys : List String) (state : InMemoryState C)
        → IsValid state
        → IsValid (remove_keys lru keys state)
    unfolding remove_keys
    remove_keys-IsValid [] state valid = valid
    remove_keys-IsValid (key ∷ keys) state valid =
        remove_keys-IsValid keys (remove_key lru key state) (remove_key-IsValid key state valid)

    get-IsValid :
        (key : String) (state : InMemoryState C) → IsValid state → IsValid (get lru key state).1
    unfolding get
    get-IsValid key state (mirrors, held) =
        (mirrors, (λ k. held k ∙ sym (ap is_some (is_lru.get_kept k key state.entries))))

    clear-IsValid : (state : InMemoryState C) → IsValid (clear lru state)
    unfolding clear lookup mem
    clear-IsValid state = ((λ t k. refl), (λ k. sym (ap is_some (is_lru.cleared k state.entries))))

    -- The state between the two halves of `set`: the key has no tags, and the rest agrees.
    abbrev pub Between : String → String → InMemoryState C → InMemoryState C → Type 0
    Between key value before state =
        Mirrors state.key_to_tags state.tag_to_keys
        × (lookup key state.key_to_tags ≡ none)
        × (lru.peek key state.entries ≡ some value)
        × ((k : String)
            → str_eq key k ≡ false
            → is_some (lookup k state.key_to_tags) ≡ is_some (lru.peek k state.entries))

    tag_key-IsValid :
        (key value : String) (tags : List String) (before state : InMemoryState C)
        → Between key value before state
        → IsValid (tag_key lru key tags state)
    unfolding tag_key
    tag_key-IsValid key value tags before state (mirrors, untagged, stored, held) = (
      add-Mirrors key tags state.key_to_tags state.tag_to_keys untagged mirrors,
      (λ k.
          let found = lookup-put k key tags state.key_to_tags in
          elim (Bool-cases (str_eq key k)) [
            | inl e ↦
                let here : lru.peek k state.entries ≡ some value =
                  ap (λ x. lru.peek x state.entries) (sym (str_eq→eq key k e)) ∙ stored in
                simp (found, e, here) refl
            | inr e ↦ let other = held k e in simp (found, e) other
          ]),
    )

    drop_evicted-Between :
        (key value : String) (out : Option (String × String)) (before state : InMemoryState C)
        → Mirrors state.key_to_tags state.tag_to_keys
        → lookup key state.key_to_tags ≡ none
        → ((k : String)
            → lru.peek k state.entries ≡ pushed key value out k (lru.peek k before.entries))
        → ((k : String)
            → str_eq key k ≡ false
            → is_some (lookup k state.key_to_tags) ≡ is_some (lru.peek k before.entries))
        → Between key value before (drop_evicted lru key out state)
    unfolding drop_evicted
    drop_evicted-Between key value none before state mirrors untagged entries held = (
      mirrors,
      untagged,
      entries key ∙ rw (str_eq_refl key) refl,
      (λ k e. let one = entries k in let two = held k e in simp (one, e) two),
    )
    drop_evicted-Between key value (some (evicted, old)) before state mirrors untagged entries
          held =
        elim (Bool-cases (str_eq evicted key)) [
          | inl same ↦ rw same (
            mirrors,
            untagged,
            entries key ∙ rw (str_eq_refl key) refl,
            (λ k e.
                let one = entries k in
                let two = held k e in
                let alike = str_eq_same evicted key k same in simp (one, e, alike) two),
          )
          | inr differ ↦
              let (kept, after, tags) = clear_tags_for_key-Cleared state evicted mirrors in
              rw differ (
                after,
                tags key ∙ rw differ untagged,
                ap (lru.peek key) kept ∙ entries key ∙ rw (str_eq_refl key) refl,
                (λ k e.
                    let one = tags k in
                    let two = ap (lru.peek k) kept ∙ entries k in
                    let three = held k e in
                    elim (Bool-cases (str_eq evicted k)) [
                      | inl f ↦ simp (one, two, e, f) refl
                      | inr f ↦ simp (one, two, e, f) three
                    ]),
              )
        ]

    pub store_entry-Between :
        (key value : String) (state : InMemoryState C)
        → Mirrors state.key_to_tags state.tag_to_keys
        → lookup key state.key_to_tags ≡ none
        → ((k : String)
            → str_eq key k ≡ false
            → is_some (lookup k state.key_to_tags) ≡ is_some (lru.peek k state.entries))
        → Between key value state (store_entry lru key value state)
    unfolding store_entry
    store_entry-Between key value state mirrors untagged held =
        let (out, entries) = lru.push key value state.entries in
        drop_evicted-Between key value (lru.push key value state.entries).0 state
          (record state { entries = (lru.push key value state.entries).1 }) mirrors untagged
          (λ k. is_lru.stored k key value state.entries) held

    -- `set` after its first two steps
    pub set-Between :
        (key value : String) (state : InMemoryState C)
        → IsValid state
        → Between key value
            (clear_tags_for_key state key)
            (store_entry lru key value (clear_tags_for_key state key))
    set-Between key value state (mirrors, held) =
        let (kept, after, forgotten) = clear_tags_for_key-Cleared state key mirrors in
        let untagged = forgotten key ∙ rw (str_eq_refl key) refl in
        store_entry-Between key value (clear_tags_for_key state key) after untagged (λ k e.
          let one = forgotten k in
          let two = ap (lru.peek k) kept in let three = held k in simp (one, two, e) three)

    set-IsValid :
        (key value : String) (tags : List String) (state : InMemoryState C)
        → IsValid state
        → IsValid (set lru key value tags state)
    unfolding set
    set-IsValid key value tags state valid =
        let cleared = clear_tags_for_key state key in
        tag_key-IsValid key value (to_set tags) cleared (store_entry lru key value cleared)
          (set-Between key value state valid)

    pub apply-IsValid :
        (op : Op lru) (state : InMemoryState C) → IsValid state → IsValid (apply lru op state)
    unfolding apply remove_by_tag
    apply-IsValid (op_set key value tags) state valid = set-IsValid key value tags state valid
    apply-IsValid (op_get key) state valid = get-IsValid key state valid
    apply-IsValid (op_remove key) state valid = remove_key-IsValid key state valid
    apply-IsValid (op_remove_by_tag tag) state valid =
        remove_keys-IsValid (or_empty (lookup tag state.tag_to_keys)) state valid
    apply-IsValid op_clear state valid = clear-IsValid state

    -- Whatever methods are called in whatever order, evictions included, the tag indexes mirror each
    -- other, and the keys that have tags are those that have an entry, when that holds at first.
    pub apply_all-IsValid :
        (ops : List (Op lru)) (state : InMemoryState C)
        → IsValid state
        → IsValid (apply_all lru ops state)
    unfolding apply_all
    apply_all-IsValid [] state valid = valid
    apply_all-IsValid (op ∷ ops) state valid =
        apply_all-IsValid ops (apply lru op state) (apply-IsValid op state valid)
