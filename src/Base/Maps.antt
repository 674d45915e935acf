-- ===== src/Base/Maps.antt =====
-- `HashMap<String, V>` by its entries and `HashSet<String>` by its members, of the standard library.
use proton_sdk_rs.Base.{
  String, ◌≡◌, refl, sym, ap, ◌∙◌, Bool, true, false, not, ◌&&◌, ◌||◌, Option, none, some, List, [],
  ◌∷◌, str_eq, str_eq→eq, str_eq_same, str_eq_apart, if◌then◌else◌, arith, Bool-cases, inl, inr,
}

abbrev pub Map : Type 0 → Type 0
Map V = List (String × V)

module _ {V : Type 0} where
  unfoldable pub lookup : String → Map V → Option V
  lookup key [] = none
  lookup key ((k, value) ∷ entries) = if str_eq k key then some value else lookup key entries

  -- `remove`
  unfoldable pub erase : String → Map V → Map V
  erase key [] = []
  erase key ((k, value) ∷ entries) =
      let rest = erase key entries in if str_eq k key then rest else (k, value) ∷ rest

  -- `insert`
  unfoldable pub put : String → V → Map V → Map V
  unfolding erase
  put key value entries = (key, value) ∷ erase key entries

  pub lookup-erase :
      (k key : String) (entries : Map V)
      → lookup k (erase key entries) ≡ (if str_eq key k then none else lookup k entries)
  unfolding lookup erase
  lookup-erase k key [] = elim (Bool-cases (str_eq key k)) [ inl e ↦ rw e refl | inr e ↦ rw e refl ]
  lookup-erase k key ((j, value) ∷ entries) =
      let later = lookup-erase k key entries in
      elim (Bool-cases (str_eq j key)) [
        | inl here ↦
            let alike = str_eq_same j key k here in
            elim (Bool-cases (str_eq key k)) [
              | inl e ↦ simp (here, alike, e, later) refl
              | inr e ↦ simp (here, alike, e, later) refl
            ]
        | inr there ↦ elim (Bool-cases (str_eq j k)) [
          | inl e ↦ let differ = str_eq_apart j key k there e in simp (there, e, differ) refl
          | inr e ↦ simp (there, e, later) refl
        ]
      ]

  pub lookup-put :
      (k key : String) (value : V) (entries : Map V)
      → lookup k (put key value entries) ≡ (if str_eq key k then some value else lookup k entries)
  unfolding lookup put
  lookup-put k key value entries = elim (Bool-cases (str_eq key k)) [
    | inl e ↦ rw e refl
    | inr e ↦ let other = lookup-erase k key entries in simp (e, other) refl
  ]

unfoldable pub mem : String → List String → Bool
mem x [] = false
mem x (y ∷ ys) = str_eq y x || mem x ys

-- `HashSet::insert`
unfoldable pub insert : String → List String → List String
unfolding mem
insert x set = if mem x set then set else x ∷ set

-- `HashSet::remove`
unfoldable pub remove : String → List String → List String
remove x [] = []
remove x (y ∷ ys) = let rest = remove x ys in if str_eq y x then rest else y ∷ rest

abbrev pub is_nil : List String → Bool
is_nil [] = true
is_nil (_ ∷ _) = false

-- `iter().cloned().collect()`
unfoldable pub to_set : List String → List String
unfolding insert
to_set [] = []
to_set (x ∷ xs) = insert x (to_set xs)

abbrev pub or_empty : Option (List String) → List String
or_empty none = []
or_empty (some set) = set

pub mem-insert :
    (x y : String) (set : List String) → mem x (insert y set) ≡ (str_eq y x || mem x set)
unfolding mem insert
mem-insert x y set = elim (Bool-cases (mem y set)) [
  | inl there ↦ elim (Bool-cases (str_eq y x)) [
    | inl same ↦
        let also : mem x set ≡ true = ap (λ z. mem z set) (sym (str_eq→eq y x same)) ∙ there in
        simp (there, same, also) refl
    | inr other ↦ simp (there, other) refl
  ]
  | inr new ↦ simp new refl
]

pub mem-remove :
    (x y : String) (set : List String) → mem x (remove y set) ≡ (mem x set && not (str_eq y x))
unfolding mem remove
mem-remove x y [] = refl
mem-remove x y (z ∷ set) =
    let later = mem-remove x y set in
    elim (Bool-cases (str_eq z y)) [
      | inl here ↦
          let alike = str_eq_same z y x here in
          elim (Bool-cases (str_eq y x)) [
            | inl e ↦ simp (here, alike, e, later) (ground arith)
            | inr e ↦ simp (here, alike, e, later) refl
          ]
      | inr there ↦ elim (Bool-cases (str_eq z x)) [
        | inl e ↦ let differ = str_eq_apart z y x there e in simp (there, e, differ) refl
        | inr e ↦ simp (there, e, later) refl
      ]
    ]

pub mem_nil : (x : String) (set : List String) → is_nil set ≡ true → mem x set ≡ false
unfolding mem
mem_nil x [] h = refl
mem_nil x (y ∷ set) h = absurd (ground arith)
