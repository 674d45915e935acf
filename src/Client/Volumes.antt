-- ===== src/Client/Volumes.antt =====
-- `group_by_volume` (crates/proton-drive-rs/src/client.rs).
use proton_sdk_rs.Base.{
  String, ◌≡◌, refl, sym, ap, ◌∙◌, false, List, [], ◌∷◌, ◌++◌, append-nil, append_assoc, str_eq,
  str_eq→eq, str_eq_sym, if◌then◌else◌, Bool-cases, inl, inr,
}
use proton_sdk_rs.Events.{NodeUid}

abbrev pub Groups : Type 0
Groups = List (String × List String)

-- The body of the `for`: the first group of the volume, or a new one at the end.
unfoldable pub add_uid : NodeUid → Groups → Groups
add_uid uid [] = (uid.volume_id, uid.link_id ∷ []) ∷ []
add_uid uid ((volume_id, link_ids) ∷ groups) =
    let rest = add_uid uid groups in
    if str_eq volume_id uid.volume_id
    then (volume_id, link_ids ++ (uid.link_id ∷ [])) ∷ groups
    else (volume_id, link_ids) ∷ rest

unfoldable pub add_uids : List NodeUid → Groups → Groups
unfolding add_uid
add_uids [] groups = groups
add_uids (uid ∷ uids) groups = add_uids uids (add_uid uid groups)

-- `group_by_volume`
unfoldable pub group_by_volume : List NodeUid → Groups
unfolding add_uids
group_by_volume uids = add_uids uids []

-- The links that a list of uids, and one of groups, holds of a volume, in order.
abbrev pub links_of : String → List NodeUid → List String
links_of volume_id [] = []
links_of volume_id (uid ∷ uids) =
    if str_eq uid.volume_id volume_id
    then uid.link_id ∷ links_of volume_id uids
    else links_of volume_id uids

abbrev pub grouped_links : String → Groups → List String
grouped_links volume_id [] = []
grouped_links volume_id ((v, link_ids) ∷ groups) =
    if str_eq v volume_id
    then link_ids ++ grouped_links volume_id groups
    else grouped_links volume_id groups

-- The volume has no group.
abbrev pub NoGroup : String → Groups → Type 0
NoGroup volume_id [] = Unit
NoGroup volume_id ((v, _) ∷ groups) = (str_eq v volume_id ≡ false) × NoGroup volume_id groups

-- No volume has two groups.
abbrev pub AllDistinct : Groups → Type 0
AllDistinct [] = Unit
AllDistinct ((v, _) ∷ groups) = NoGroup v groups × AllDistinct groups

grouped_links_none : (v : String) (groups : Groups) → NoGroup v groups → grouped_links v groups ≡ []
grouped_links_none v [] h = refl
grouped_links_none v ((w, links) ∷ groups) (other, h) = rw other (grouped_links_none v groups h)

add_uid-NoGroup :
    (v : String) (uid : NodeUid) (groups : Groups)
    → str_eq uid.volume_id v ≡ false
    → NoGroup v groups
    → NoGroup v (add_uid uid groups)
unfolding add_uid
add_uid-NoGroup v uid [] new h = (new, tt)
add_uid-NoGroup v uid ((w, links) ∷ groups) new (other, h) =
    elim (Bool-cases (str_eq w uid.volume_id)) [
      | inl same ↦ rw same (other, h)
      | inr differ ↦ rw differ (other, add_uid-NoGroup v uid groups new h)
    ]

add_uid-AllDistinct :
    (uid : NodeUid) (groups : Groups) → AllDistinct groups → AllDistinct (add_uid uid groups)
unfolding add_uid
add_uid-AllDistinct uid [] h = (tt, tt)
add_uid-AllDistinct uid ((w, links) ∷ groups) (alone, h) =
    elim (Bool-cases (str_eq w uid.volume_id)) [
      | inl same ↦ rw same (alone, h)
      | inr differ ↦ rw differ (
        add_uid-NoGroup w uid groups (str_eq_sym w uid.volume_id differ) alone,
        add_uid-AllDistinct uid groups h,
      )
    ]

grouped_links-add_uid :
    (v : String) (uid : NodeUid) (groups : Groups)
    → AllDistinct groups
    → grouped_links v (add_uid uid groups) ≡ grouped_links v groups ++ links_of v (uid ∷ [])
unfolding add_uid
grouped_links-add_uid v uid [] h = refl
grouped_links-add_uid v uid ((w, links) ∷ groups) (alone, h) =
    elim (Bool-cases (str_eq w uid.volume_id)) [
      | inl same ↦
          let at : str_eq uid.volume_id v ≡ str_eq w v =
            ap (λ s. str_eq s v) (sym (str_eq→eq w uid.volume_id same)) in
          elim (Bool-cases (str_eq w v)) [
            | inl here ↦
                let w_is_v = str_eq→eq w v here in
                let only : grouped_links v groups ≡ [] =
                  ap (λ s. grouped_links s groups) (sym w_is_v)
                  ∙ grouped_links_none w groups alone in
                simp (same, at, here, only)
                  (append-nil (links ++ (uid.link_id ∷ []))
                    ∙ ap (λ ls. ls ++ (uid.link_id ∷ [])) (sym (append-nil links)))
            | inr there ↦ simp (same, at, there) (sym (append-nil (grouped_links v groups)))
          ]
      | inr differ ↦
          let later = grouped_links-add_uid v uid groups h in
          elim (Bool-cases (str_eq w v)) [
            | inl here ↦
                simp (differ, here, later)
                  (sym (append_assoc links (grouped_links v groups) (links_of v (uid ∷ []))))
            | inr there ↦ simp (differ, there, later) refl
          ]
    ]

links_of-cons :
    (v : String) (uid : NodeUid) (uids : List NodeUid)
    → links_of v (uid ∷ uids) ≡ links_of v (uid ∷ []) ++ links_of v uids
links_of-cons v uid uids = elim (Bool-cases (str_eq uid.volume_id v)) [
  | inl here ↦ rw here refl
  | inr there ↦ rw there refl
]

add_uids_lem :
    (v : String) (uids : List NodeUid) (groups : Groups)
    → AllDistinct groups
    → AllDistinct (add_uids uids groups)
      × (grouped_links v (add_uids uids groups) ≡ grouped_links v groups ++ links_of v uids)
unfolding add_uids
add_uids_lem v [] groups h = (h, sym (append-nil (grouped_links v groups)))
add_uids_lem v (uid ∷ uids) groups h =
    let (distinct, links) =
      add_uids_lem v uids (add_uid uid groups) (add_uid-AllDistinct uid groups h) in
    (
      distinct,
      links
          ∙ ap (λ ls. ls ++ links_of v uids) (grouped_links-add_uid v uid groups h)
          ∙ append_assoc (grouped_links v groups) (links_of v (uid ∷ [])) (links_of v uids)
          ∙ ap (λ ls. grouped_links v groups ++ ls) (sym (links_of-cons v uid uids)),
    )

-- No volume has two groups, and for every volume the groups hold exactly the links that the uids hold
-- of it, in the order in which they come.
pub group_by_volume-AllDistinct :
    (v : String) (uids : List NodeUid)
    → AllDistinct (group_by_volume uids)
      × (grouped_links v (group_by_volume uids) ≡ links_of v uids)
unfolding group_by_volume
group_by_volume-AllDistinct v uids = add_uids_lem v uids [] tt
