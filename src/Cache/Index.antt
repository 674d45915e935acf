-- ===== src/Cache/Index.antt =====
-- What `clear_tags_for_key` and `set` do to the tag indexes, and that the two mirror each other.
use proton_sdk_rs.Base.{
  String, ◌≡◌, refl, sym, ap, ◌∙◌, Bool, true, false, not, ◌&&◌, ◌||◌, Option, none, some, List, [],
  ◌∷◌, str_eq, str_eq→eq, if◌then◌else◌, arith, Bool-cases, inl, inr,
}
use proton_sdk_rs.Base.Maps.{
  Map, lookup, erase, put, insert, remove, or_empty, is_nil, mem, lookup-erase, lookup-put,
  mem-insert, mem-remove, mem_nil,
}
use proton_sdk_rs.Cache.{clear_found, clear_tag, clear_tags, add_tag, add_tags}

-- Whether the index has the key under the tag.
abbrev pub has : Map (List String) → String → String → Bool
has keys_by_tag tag key = mem key (or_empty (lookup tag keys_by_tag))

has-put :
    (keys_by_tag : Map (List String)) (tag t k : String) (keys : List String)
    → has (put tag keys keys_by_tag) t k
      ≡ (if str_eq tag t then mem k keys else has keys_by_tag t k)
has-put keys_by_tag tag t k keys =
    rw (lookup-put t tag keys keys_by_tag)
      (elim (Bool-cases (str_eq tag t)) [ inl e ↦ rw e refl | inr e ↦ rw e refl ])

has-erase :
    (keys_by_tag : Map (List String)) (tag t k : String)
    → has (erase tag keys_by_tag) t k ≡ (if str_eq tag t then false else has keys_by_tag t k)
unfolding mem
has-erase keys_by_tag tag t k =
    rw (lookup-erase t tag keys_by_tag)
      (elim (Bool-cases (str_eq tag t)) [ inl e ↦ rw e refl | inr e ↦ rw e refl ])

has_same :
    (keys_by_tag : Map (List String)) (tag t k : String)
    → str_eq tag t ≡ true
    → has keys_by_tag t k ≡ has keys_by_tag tag k
has_same keys_by_tag tag t k e = ap (λ x. has keys_by_tag x k) (sym (str_eq→eq tag t e))

has-clear_found :
    (key tag t k : String) (keys_by_tag : Map (List String)) (found : Option (List String))
    → lookup tag keys_by_tag ≡ found
    → has (clear_found key tag keys_by_tag found) t k
      ≡ (if str_eq tag t then mem k (remove key (or_empty found)) else has keys_by_tag t k)
unfolding clear_found mem remove
has-clear_found key tag t k keys_by_tag none h = elim (Bool-cases (str_eq tag t)) [
  | inl e ↦
      let nothing : has keys_by_tag t k ≡ false =
        has_same keys_by_tag tag t k e ∙ ap (λ o. mem k (or_empty o)) h in
      rw e nothing
  | inr e ↦ rw e refl
]
has-clear_found key tag t k keys_by_tag (some keys) h =
    elim (Bool-cases (is_nil (remove key keys))) [
      | inl empty ↦
          let gone = mem_nil k (remove key keys) empty in
          rw empty (
            has-erase keys_by_tag tag t k
            ∙ elim (Bool-cases (str_eq tag t)) [ inl e ↦ simp (e, gone) refl | inr e ↦ rw e refl ])
      | inr left ↦ rw left (has-put keys_by_tag tag t k (remove key keys))
    ]

-- Removing a key from one tag.
has-clear_tag :
    (key tag t k : String) (keys_by_tag : Map (List String))
    → has (clear_tag key tag keys_by_tag) t k
      ≡ (has keys_by_tag t k && not (str_eq tag t && str_eq key k))
unfolding clear_tag
has-clear_tag key tag t k keys_by_tag =
    has-clear_found key tag t k keys_by_tag (lookup tag keys_by_tag) refl
    ∙ elim (Bool-cases (str_eq tag t)) [
      | inl e ↦
          let same = has_same keys_by_tag tag t k e in
          let rest = mem-remove k key (or_empty (lookup tag keys_by_tag)) in
          simp (e, same, rest) refl
      | inr e ↦ rw e (ground arith)
    ]

has-clear_tags :
    (key t k : String) (tags : List String) (keys_by_tag : Map (List String))
    → has (clear_tags key tags keys_by_tag) t k
      ≡ (has keys_by_tag t k && not (mem t tags && str_eq key k))
unfolding clear_tags mem
has-clear_tags key t k [] keys_by_tag = ground arith
has-clear_tags key t k (tag ∷ tags) keys_by_tag =
    let later = has-clear_tags key t k tags (clear_tag key tag keys_by_tag) in
    let here = has-clear_tag key tag t k keys_by_tag in
    later ∙ rw here (algebra (has keys_by_tag t k) (str_eq tag t) (mem t tags) (str_eq key k))
  where
    algebra : (h a b c : Bool) → ((h && not (a && c)) && not (b && c)) ≡ (h && not ((a || b) && c))
    algebra true true true true = refl
    algebra true true true false = refl
    algebra true true false true = refl
    algebra true true false false = refl
    algebra true false true true = refl
    algebra true false true false = refl
    algebra true false false true = refl
    algebra true false false false = refl
    algebra false a b c = refl

has-add_tag :
    (key tag t k : String) (keys_by_tag : Map (List String))
    → has (add_tag key tag keys_by_tag) t k
      ≡ (has keys_by_tag t k || (str_eq tag t && str_eq key k))
unfolding add_tag
has-add_tag key tag t k keys_by_tag =
    has-put keys_by_tag tag t k (insert key (or_empty (lookup tag keys_by_tag)))
    ∙ elim (Bool-cases (str_eq tag t)) [
      | inl e ↦
          let same = has_same keys_by_tag tag t k e in
          let rest = mem-insert k key (or_empty (lookup tag keys_by_tag)) in
          simp (e, same, rest) (ground arith)
      | inr e ↦ rw e (ground arith)
    ]

has-add_tags :
    (key t k : String) (tags : List String) (keys_by_tag : Map (List String))
    → has (add_tags key tags keys_by_tag) t k
      ≡ (has keys_by_tag t k || (mem t tags && str_eq key k))
unfolding add_tags mem
has-add_tags key t k [] keys_by_tag = ground arith
has-add_tags key t k (tag ∷ tags) keys_by_tag =
    let later = has-add_tags key t k tags (add_tag key tag keys_by_tag) in
    let here = has-add_tag key tag t k keys_by_tag in
    later ∙ rw here (algebra (has keys_by_tag t k) (str_eq tag t) (mem t tags) (str_eq key k))
  where
    algebra : (h a b c : Bool) → ((h || (a && c)) || (b && c)) ≡ (h || ((a || b) && c))
    algebra true a b c = refl
    algebra false true b true = refl
    algebra false true true false = refl
    algebra false true false false = refl
    algebra false false b c = refl

-- The tag index has a key under a tag exactly when the key's tags have the tag.
abbrev pub Mirrors : Map (List String) → Map (List String) → Type 0
Mirrors tags_by_key keys_by_tag =
    (t k : String) → has keys_by_tag t k ≡ mem t (or_empty (lookup k tags_by_key))

pub clear-Mirrors :
    (key : String) (tags : List String) (tags_by_key keys_by_tag : Map (List String))
    → lookup key tags_by_key ≡ some tags
    → Mirrors tags_by_key keys_by_tag
    → Mirrors (erase key tags_by_key) (clear_tags key tags keys_by_tag)
unfolding mem
clear-Mirrors key tags tags_by_key keys_by_tag found mirrors t k =
    let gone = has-clear_tags key t k tags keys_by_tag in
    let left = lookup-erase k key tags_by_key in
    let before = mirrors t k in
    elim (Bool-cases (str_eq key k)) [
      | inl e ↦
          let of_key : lookup k tags_by_key ≡ some tags =
            ap (λ x. lookup x tags_by_key) (sym (str_eq→eq key k e)) ∙ found in
          simp (gone, left, before, e, of_key) (ground arith)
      | inr e ↦ simp (gone, left, before, e) (ground arith)
    ]

pub add-Mirrors :
    (key : String) (tags : List String) (tags_by_key keys_by_tag : Map (List String))
    → lookup key tags_by_key ≡ none
    → Mirrors tags_by_key keys_by_tag
    → Mirrors (put key tags tags_by_key) (add_tags key tags keys_by_tag)
unfolding mem
add-Mirrors key tags tags_by_key keys_by_tag missing mirrors t k =
    let more = has-add_tags key t k tags keys_by_tag in
    let found = lookup-put k key tags tags_by_key in
    let before = mirrors t k in
    elim (Bool-cases (str_eq key k)) [
      | inl e ↦
          let of_key : lookup k tags_by_key ≡ none =
            ap (λ x. lookup x tags_by_key) (sym (str_eq→eq key k e)) ∙ missing in
          simp (more, found, before, e, of_key) (ground arith)
      | inr e ↦ simp (more, found, before, e) (ground arith)
    ]
