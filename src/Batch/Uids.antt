-- ===== src/Batch/Uids.antt =====
-- `HashMap<NodeUid, V>` by its entries, and sets of texts as `seen` lists.
use proton_sdk_rs.Base.{
  ℕ, suc, ◌≡◌, refl, sym, ap, ◌∙◌, Bool, true, false, ◌||◌, Option, none, some, List, [], ◌∷◌,
  if◌then◌else◌, arith, Bool-cases, inl, inr,
}
use proton_sdk_rs.Events.{NodeUid}
use proton_sdk_rs.Batch.{uid_eq, uid_eq→eq, uid_eq_refl}

pub uid_eq_same : (a b c : NodeUid) → uid_eq a b ≡ true → uid_eq a c ≡ uid_eq b c
uid_eq_same a b c h = ap (λ x. uid_eq x c) (uid_eq→eq a b h)

pub uid_eq_apart : (a b c : NodeUid) → uid_eq a b ≡ false → uid_eq a c ≡ true → uid_eq b c ≡ false
uid_eq_apart a b c differ same = elim (Bool-cases (uid_eq b c)) [
  | inl other ↦
      let equal : a ≡ b = uid_eq→eq a c same ∙ sym (uid_eq→eq b c other) in
      absurd (ground (arith, uid_eq_refl b, ap (λ x. uid_eq x b) equal))
  | inr no_match ↦ no_match
]

abbrev pub UidMap : Type 0 → Type 0
UidMap V = List (NodeUid × V)

module _ {V : Type 0} where
  unfoldable pub find : NodeUid → UidMap V → Option V
  find uid [] = none
  find uid ((key, value) ∷ entries) = if uid_eq key uid then some value else find uid entries

  -- `remove`
  unfoldable pub drop_uid : NodeUid → UidMap V → UidMap V
  drop_uid uid [] = []
  drop_uid uid ((key, value) ∷ entries) =
      let rest = drop_uid uid entries in if uid_eq key uid then rest else (key, value) ∷ rest

  -- `insert`
  unfoldable pub put_uid : NodeUid → V → UidMap V → UidMap V
  unfolding drop_uid
  put_uid uid value entries = (uid, value) ∷ drop_uid uid entries

  pub find-drop_uid :
      (uid key : NodeUid) (entries : UidMap V)
      → find uid (drop_uid key entries) ≡ (if uid_eq key uid then none else find uid entries)
  unfolding find drop_uid
  find-drop_uid uid key [] = elim (Bool-cases (uid_eq key uid)) [
    | inl e ↦ rw e refl
    | inr e ↦ rw e refl
  ]
  find-drop_uid uid key ((k, value) ∷ entries) =
      let later = find-drop_uid uid key entries in
      elim (Bool-cases (uid_eq k key)) [
        | inl here ↦
            let alike = uid_eq_same k key uid here in
            elim (Bool-cases (uid_eq key uid)) [
              | inl e ↦ simp (here, alike, e, later) refl
              | inr e ↦ simp (here, alike, e, later) refl
            ]
        | inr there ↦ elim (Bool-cases (uid_eq k uid)) [
          | inl e ↦ let differ = uid_eq_apart k key uid there e in simp (there, e, differ) refl
          | inr e ↦ simp (there, e, later) refl
        ]
      ]

  pub find-put_uid :
      (uid key : NodeUid) (value : V) (entries : UidMap V)
      → find uid (put_uid key value entries)
        ≡ (if uid_eq key uid then some value else find uid entries)
  unfolding find put_uid
  find-put_uid uid key value entries = elim (Bool-cases (uid_eq key uid)) [
    | inl e ↦ rw e refl
    | inr e ↦ simp (e, find-drop_uid uid key entries) refl
  ]

-- The node is in the list.
unfoldable pub has_uid : NodeUid → List NodeUid → Bool
has_uid uid [] = false
has_uid uid (other ∷ uids) = uid_eq other uid || has_uid uid uids

-- How often it is.
abbrev pub count_uid : NodeUid → List NodeUid → ℕ
count_uid uid [] = 0
count_uid uid (other ∷ uids) =
    if uid_eq other uid then suc (count_uid uid uids) else count_uid uid uids
