-- ===== src/Client/ParentKeys/Resolved.antt =====
-- Which keys the map of `resolve_parent_keys` (crates/proton-drive-rs/src/client.rs) holds.
use proton_sdk_rs.Base.{
  String, ◌≡◌, refl, sym, ap, ◌∙◌, true, Option, none, some, List, [], ◌∷◌, str_eq→eq, str_eq_refl,
  arith, Bool-cases, Option-cases, inl, inr, ◌⊎◌,
}
use proton_sdk_rs.Errors.{Result, ok, err}
use proton_sdk_rs.Client.ParentKeys.{
  LinkDto, ParentKeyId, parent, root, id_of, key_id, same_id, key_of, insert_resolved, add_link,
  resolve_from, resolve_parent_keys,
}

same_id→eq : (a b : ParentKeyId) → same_id a b ≡ true → a ≡ b
unfolding same_id
same_id→eq (parent a) (parent b) h = ap parent (str_eq→eq a b h)
same_id→eq (root a) (root b) h = ap root (str_eq→eq a b h)
same_id→eq (parent _) (root _) h = absurd (ground arith)
same_id→eq (root _) (parent _) h = absurd (ground arith)

same_id_refl : (a : ParentKeyId) → same_id a a ≡ true
unfolding same_id
same_id_refl (parent a) = str_eq_refl a
same_id_refl (root a) = str_eq_refl a

-- Two links with one parent key: they have the same parent, or none and the same id.
abbrev pub IsAlike : LinkDto → LinkDto → Type 0
IsAlike a b = (a.parent_id ≡ b.parent_id) × (a.parent_id ≡ none → a.id ≡ b.id)

id_of-alike :
    (a b : String) (p q : Option String) → id_of b q ≡ id_of a p → (p ≡ q) × (p ≡ none → a ≡ b)
id_of-alike a b none none h = (refl, λ _. ground arith)
id_of-alike a b none (some q) h = absurd (ground arith)
id_of-alike a b (some p) none h = absurd (ground arith)
id_of-alike a b (some p) (some q) h = (ground arith, λ none_there. absurd (ground arith))

key_id-IsAlike : (a b : LinkDto) → key_id b ≡ key_id a → IsAlike a b
unfolding key_id
key_id-IsAlike a b h = id_of-alike a.id b.id a.parent_id b.parent_id h

alike-id_of :
    (a b : String) (p q : Option String) → p ≡ q → (p ≡ none → a ≡ b) → id_of b q ≡ id_of a p
alike-id_of a b none none h same = ap root (sym (same refl))
alike-id_of a b none (some q) h same = absurd (ground arith)
alike-id_of a b (some p) none h same = absurd (ground arith)
alike-id_of a b (some p) (some q) h same = let e : p ≡ q = ground arith in ap parent (sym e)

IsAlike-key_id : (a b : LinkDto) → IsAlike a b → key_id b ≡ key_id a
unfolding key_id
IsAlike-key_id a b (parents, ids) = alike-id_of a.id b.id a.parent_id b.parent_id parents ids

module _ {K : Type 0} where
  module _ (resolve : LinkDto → Result K) where
    -- Some link of the batch has this id and resolves to this key.
    abbrev pub Resolves : ParentKeyId → K → List LinkDto → Type 0
    Resolves id key [] = ⊥
    Resolves id key (link ∷ links) =
        ((key_id link ≡ id) × (resolve link ≡ ok key)) ⊎ Resolves id key links

    add_link-Sound :
        (id : ParentKeyId) (key : K) (link : LinkDto) (found : Option K)
        (keys : List (ParentKeyId × K))
        → key_of id (add_link resolve link found keys) ≡ some key
        → (key_of id keys ≡ some key) ⊎ ((key_id link ≡ id) × (resolve link ≡ ok key))
    unfolding add_link insert_resolved key_of
    add_link-Sound id key link (some k) keys h = inl h
    add_link-Sound id key link none keys h = go (resolve link) refl h
      where
        go :
            (resolved : Result K)
            → resolve link ≡ resolved
            → key_of id (insert_resolved (key_id link) resolved keys) ≡ some key
            → (key_of id keys ≡ some key) ⊎ ((key_id link ≡ id) × (resolve link ≡ ok key))
        go (err e) r h = inl h
        go (ok k) r h = elim (Bool-cases (same_id (key_id link) id)) [
          | inl same ↦ inr (same_id→eq (key_id link) id same, r ∙ ap ok (ground arith))
          | inr other ↦ inl (ground arith)
        ]

    resolve_from-Sound :
        (id : ParentKeyId) (key : K) (links : List LinkDto) (keys : List (ParentKeyId × K))
        → key_of id (resolve_from resolve links keys) ≡ some key
        → (key_of id keys ≡ some key) ⊎ Resolves id key links
    unfolding resolve_from
    resolve_from-Sound id key [] keys h = inl h
    resolve_from-Sound id key (link ∷ links) keys h =
        elim (resolve_from-Sound id key links
          (add_link resolve link (key_of (key_id link) keys) keys) h) [
            | inr later ↦ inr (inr later)
            | inl before ↦
                elim (add_link-Sound id key link (key_of (key_id link) keys) keys before) [
                  | inl there ↦ inl there
                  | inr here ↦ inr (inl here)
                ]
          ]

    -- A key that the map holds for an id was resolved for a link of the batch that has that id.
    resolve_parent_keys_from :
        (id : ParentKeyId) (key : K) (links : List LinkDto)
        → key_of id (resolve_parent_keys resolve links) ≡ some key
        → Resolves id key links
    unfolding resolve_parent_keys key_of
    resolve_parent_keys_from id key links h = elim (resolve_from-Sound id key links [] h) [
      | inl impossible ↦ absurd (ground arith)
      | inr found ↦ found
    ]

    -- An id that is there keeps its key.
    add_link_keeps :
        (id : ParentKeyId) (key : K) (link : LinkDto) (keys : List (ParentKeyId × K))
        → key_of id keys ≡ some key
        → key_of id (add_link resolve link (key_of (key_id link) keys) keys) ≡ some key
    unfolding add_link insert_resolved key_of
    add_link_keeps id key link keys h = go (key_of (key_id link) keys) refl (resolve link)
      where
        go :
            (found : Option K)
            → key_of (key_id link) keys ≡ found
            → (resolved : Result K) → key_of id (add_link resolve link found keys) ≡ some key
        go (some k) f r = h
        go none f r = keeps (resolve link)
          where
            keeps :
                (resolved : Result K)
                → key_of id (insert_resolved (key_id link) resolved keys) ≡ some key
            keeps (err e) = h
            keeps (ok k) = elim (Bool-cases (same_id (key_id link) id)) [
              | inl same ↦
                  let e : key_of (key_id link) keys ≡ key_of id keys =
                    ap (λ i. key_of i keys) (same_id→eq (key_id link) id same) in
                  let both : none ≡ some key = sym f ∙ e ∙ h in absurd (ground arith)
              | inr other ↦ rw other h
            ]

    resolve_from_keeps :
        (id : ParentKeyId) (key : K) (links : List LinkDto) (keys : List (ParentKeyId × K))
        → key_of id keys ≡ some key
        → key_of id (resolve_from resolve links keys) ≡ some key
    unfolding resolve_from
    resolve_from_keeps id key [] keys h = h
    resolve_from_keeps id key (link ∷ links) keys h =
        resolve_from_keeps id key links (add_link resolve link (key_of (key_id link) keys) keys)
          (add_link_keeps id key link keys h)

    -- After a link that resolves, its id is there.
    add_link_there :
        (id : ParentKeyId) (key : K) (link : LinkDto) (keys : List (ParentKeyId × K))
        → key_id link ≡ id
        → resolve link ≡ ok key
        → (k : K) × (key_of id (add_link resolve link (key_of (key_id link) keys) keys) ≡ some k)
    unfolding add_link insert_resolved key_of
    add_link_there id key link keys e r = elim (Option-cases (key_of (key_id link) keys)) [
      | inl missing ↦
          rw (missing, r)
            (
              key,
              let same : same_id (key_id link) id ≡ true =
                    ap (λ i. same_id i id) e ∙ same_id_refl id in
                  rw same refl,
            )
      | inr (k, there) ↦ rw there (k, ap (λ i. key_of i keys) (sym e) ∙ there)
    ]

    resolve_from_there :
        (id : ParentKeyId) (key : K) (links : List LinkDto) (keys : List (ParentKeyId × K))
        → Resolves id key links
        → (k : K) × (key_of id (resolve_from resolve links keys) ≡ some k)
    unfolding resolve_from
    resolve_from_there id key [] keys h = absurd h
    resolve_from_there id key (link ∷ links) keys (inl (e, r)) =
        let (k, there) = add_link_there id key link keys e r in
        (
          k,
          resolve_from_keeps id k links (add_link resolve link (key_of (key_id link) keys) keys)
              there,
        )
    resolve_from_there id key (link ∷ links) keys (inr later) =
        resolve_from_there id key links (add_link resolve link (key_of (key_id link) keys) keys)
          later

    resolve_parent_keys_there :
        (id : ParentKeyId) (key : K) (links : List LinkDto)
        → Resolves id key links
        → (k : K) × (key_of id (resolve_parent_keys resolve links) ≡ some k)
    unfolding resolve_parent_keys
    resolve_parent_keys_there id key links h = resolve_from_there id key links [] h

    -- Some link of the batch with the same parent resolves to this key; of a root, the root itself.
    abbrev pub ResolvesFor : LinkDto → K → List LinkDto → Type 0
    ResolvesFor link key [] = ⊥
    ResolvesFor link key (other ∷ links) =
        (IsAlike link other × (resolve other ≡ ok key)) ⊎ ResolvesFor link key links

    ResolvesFor-Resolves :
        (link : LinkDto) (key : K) (links : List LinkDto)
        → Resolves (key_id link) key links
        → ResolvesFor link key links
    ResolvesFor-Resolves link key [] h = h
    ResolvesFor-Resolves link key (other ∷ links) (inl (same, resolved)) =
        inl (key_id-IsAlike link other same, resolved)
    ResolvesFor-Resolves link key (other ∷ links) (inr later) =
        inr (ResolvesFor-Resolves link key links later)

    Resolves-ResolvesFor :
        (link : LinkDto) (key : K) (links : List LinkDto)
        → ResolvesFor link key links
        → Resolves (key_id link) key links
    Resolves-ResolvesFor link key [] h = h
    Resolves-ResolvesFor link key (other ∷ links) (inl (alike, resolved)) =
        inl (IsAlike-key_id link other alike, resolved)
    Resolves-ResolvesFor link key (other ∷ links) (inr later) =
        inr (Resolves-ResolvesFor link key links later)

    -- A key that a link finds in the map was resolved for a link of the batch with the same parent, or,
    -- for a link without a parent, for a link without a parent that has its very id; and where one such
    -- link of the batch resolves, the link finds a key, whichever other links failed.
    pub resolve_parent_keys-ResolvesFor :
        (link : LinkDto) (links : List LinkDto)
        → ((key : K)
            → key_of (key_id link) (resolve_parent_keys resolve links) ≡ some key
            → ResolvesFor link key links)
          × ((key : K)
              → ResolvesFor link key links
              → (held : K) × (key_of (key_id link) (resolve_parent_keys resolve links) ≡ some held))
    resolve_parent_keys-ResolvesFor link links = (
      λ key found.
          ResolvesFor-Resolves link key links
            (resolve_parent_keys_from (key_id link) key links found),
      λ key resolves.
          resolve_parent_keys_there (key_id link) key links
            (Resolves-ResolvesFor link key links resolves),
    )
