-- ===== src/Tests/Cache.antt =====
-- A cache of one entry, the least one that the LRU of the source can be.
use proton_sdk_rs.Base.{
  String, ◌≡◌, refl, Option, none, some, List, [], ◌∷◌, str_eq, str_eq_same, str_eq_apart,
  if◌then◌else◌, Bool-cases, inl, inr,
}
use proton_sdk_rs.Base.Maps.{lookup, mem}
use proton_sdk_rs.Cache.{
  remove_by_tag, Lru, IsLru, pushed, InMemoryState, Op, op_set, op_get, apply_all,
}
use proton_sdk_rs.Cache.Entries.{peek-remove_by_tag}
use proton_sdk_rs.Cache.Valid.{IsValid, apply_all-IsValid}

abbrev pub Slot : Type 0
Slot = Option (String × String)

abbrev peek_slot : String → Slot → Option String
peek_slot k none = none
peek_slot k (some (key, value)) = if str_eq key k then some value else none

abbrev pop_slot : String → Slot → Slot
pop_slot k none = none
pop_slot k (some (key, value)) = if str_eq key k then none else some (key, value)

abbrev pub slot_lru : Lru Slot
slot_lru = record {
  push = λ key value slot. (slot, some (key, value));
  get = λ k slot. (peek_slot k slot, slot);
  peek = peek_slot;
  pop = pop_slot;
  clear = λ slot. none;
}

pop_slot-peek :
    (k key : String) (slot : Slot)
    → peek_slot k (pop_slot key slot) ≡ (if str_eq key k then none else peek_slot k slot)
pop_slot-peek k key none = elim (Bool-cases (str_eq key k)) [
  | inl e ↦ rw e refl
  | inr e ↦ rw e refl
]
pop_slot-peek k key (some (held, value)) = elim (Bool-cases (str_eq held key)) [
  | inl here ↦
      let alike = str_eq_same held key k here in
      elim (Bool-cases (str_eq key k)) [
        | inl e ↦ simp (here, alike, e) refl
        | inr e ↦ simp (here, alike, e) refl
      ]
  | inr there ↦ elim (Bool-cases (str_eq held k)) [
    | inl e ↦ let differ = str_eq_apart held key k there e in simp (there, e, differ) refl
    | inr e ↦ elim (Bool-cases (str_eq key k)) [
      | inl f ↦ simp (there, e, f) refl
      | inr f ↦ simp (there, e, f) refl
    ]
  ]
]

push_slot-stored :
    (k key value : String) (slot : Slot)
    → peek_slot k (some (key, value)) ≡ pushed key value slot k (peek_slot k slot)
push_slot-stored k key value none = refl
push_slot-stored k key value (some (held, old)) = elim (Bool-cases (str_eq key k)) [
  | inl e ↦ rw e refl
  | inr e ↦ elim (Bool-cases (str_eq held k)) [
    | inl f ↦ simp (e, f) refl
    | inr f ↦ simp (e, f) refl
  ]
]

pub slot-IsLru : IsLru slot_lru
slot-IsLru = record {
  get_found = λ k slot. refl;
  get_kept = λ k key slot. refl;
  popped = pop_slot-peek;
  cleared = λ k slot. refl;
  stored = push_slot-stored;
}

abbrev empty_cache : InMemoryState Slot
empty_cache = record { entries = none; key_to_tags = []; tag_to_keys = [] }

empty_cache-IsValid : IsValid slot_lru slot-IsLru empty_cache
unfolding lookup mem
empty_cache-IsValid = ((λ t k. refl), (λ k. refl))

abbrev three_calls : List (Op slot_lru)
three_calls = op_set "a" "1" ("t" ∷ []) ∷ op_set "b" "2" ("t" ∷ "u" ∷ []) ∷ op_get "b" ∷ []

apply_all-IsValid_example : IsValid slot_lru slot-IsLru (apply_all slot_lru three_calls empty_cache)
apply_all-IsValid_example =
    apply_all-IsValid slot_lru slot-IsLru three_calls empty_cache empty_cache-IsValid

abbrev pub one_entry : InMemoryState Slot
one_entry = record {
  entries = some ("b", "2");
  key_to_tags = ("b", "t" ∷ []) ∷ [];
  tag_to_keys = ("t", "b" ∷ []) ∷ [];
}

pub one_entry-IsValid : IsValid slot_lru slot-IsLru one_entry
unfolding lookup mem
one_entry-IsValid = (
  (λ t k. elim (Bool-cases (str_eq "b" k)) [
    | inl e ↦ elim (Bool-cases (str_eq "t" t)) [
      | inl f ↦ simp (e, f) refl
      | inr f ↦ simp (e, f) refl
    ]
    | inr e ↦ elim (Bool-cases (str_eq "t" t)) [
      | inl f ↦ simp (e, f) refl
      | inr f ↦ simp (e, f) refl
    ]
  ]),
  (λ k. elim (Bool-cases (str_eq "b" k)) [ inl e ↦ rw e refl | inr e ↦ rw e refl ]),
)

peek-remove_by_tag_example : peek_slot "b" (remove_by_tag slot_lru "t" one_entry).entries ≡ none
unfolding lookup mem
peek-remove_by_tag_example =
    peek-remove_by_tag slot_lru slot-IsLru "b" "t" one_entry one_entry-IsValid
