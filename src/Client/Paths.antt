-- ===== src/Client/Paths.antt =====
-- `path_segments` and `join_node_path` (crates/proton-drive-rs/src/client.rs), on lists of characters.
use proton_sdk_rs.Base.{
  ℕ, ◌≡◌, refl, ap, ◌∙◌, Bool, true, false, List, [], ◌∷◌, ◌++◌, ◌==◌, if◌then◌else◌, arith,
  Bool-cases, inl, inr,
}

-- `'/'`
abbrev pub slash : ℕ
slash = 47

push_front : ℕ → List (List ℕ) → List (List ℕ)
push_front c [] = (c ∷ []) ∷ []
push_front c (segment ∷ segments) = (c ∷ segment) ∷ segments

-- `str::split('/')`
unfoldable pub split : List ℕ → List (List ℕ)
unfolding push_front
split [] = [] ∷ []
split (c ∷ path) = if c == slash then [] ∷ split path else push_front c (split path)

abbrev pub is_empty : List ℕ → Bool
is_empty [] = true
is_empty (_ ∷ _) = false

unfoldable pub drop_empty : List (List ℕ) → List (List ℕ)
drop_empty [] = []
drop_empty (segment ∷ segments) =
    if is_empty segment then drop_empty segments else segment ∷ drop_empty segments

-- `path_segments`
unfoldable pub path_segments : List ℕ → List (List ℕ)
unfolding split drop_empty
path_segments path = drop_empty (split path)

push_names : List (List ℕ) → List ℕ
push_names [] = []
push_names (name ∷ names) = slash ∷ (name ++ push_names names)

or_root : List ℕ → List ℕ
or_root [] = slash ∷ []
or_root (c ∷ path) = c ∷ path

-- `join_node_path`
unfoldable pub join_node_path : List (List ℕ) → List ℕ
unfolding push_names or_root
join_node_path names = or_root (push_names names)

abbrev pub has_slash : List ℕ → Bool
has_slash [] = false
has_slash (c ∷ name) = if c == slash then true else has_slash name

-- Names that are not empty and hold no separator.
abbrev pub AllNames : List (List ℕ) → Type 0
AllNames [] = Unit
AllNames (name ∷ names) = (is_empty name ≡ false) × (has_slash name ≡ false) × AllNames names

-- What stands before the first separator is in front of the first segment.
abbrev prepended : List ℕ → List (List ℕ) → List (List ℕ)
prepended [] segments = segments
prepended (c ∷ name) segments = push_front c (prepended name segments)

split-append :
    (name rest : List ℕ)
    → has_slash name ≡ false
    → split (name ++ rest) ≡ prepended name (split rest)
unfolding split push_front
split-append [] rest h = refl
split-append (c ∷ name) rest h = elim (Bool-cases (c == slash)) [
  | inl separator ↦ absurd (ground arith)
  | inr other ↦ rw other (ap (push_front c) (split-append name rest (ground arith)))
]

-- `prepended` meets the empty segment before a separator, or the one at the end.
prepended-cons :
    (name : List ℕ) (segments : List (List ℕ)) → prepended name ([] ∷ segments) ≡ name ∷ segments
unfolding push_front
prepended-cons [] segments = refl
prepended-cons (c ∷ name) segments = ap (push_front c) (prepended-cons name segments)

-- Each name is a segment of its own.
split-push_names : (names : List (List ℕ)) → AllNames names → split (push_names names) ≡ [] ∷ names
unfolding split push_names
split-push_names [] h = refl
split-push_names (name ∷ names) (full, plain, h) =
    ap (λ segments. [] ∷ segments)
      (split-append name (push_names names) plain
        ∙ ap (prepended name) (split-push_names names h)
        ∙ prepended-cons name names)

drop_empty_names : (names : List (List ℕ)) → AllNames names → drop_empty names ≡ names
unfolding drop_empty
drop_empty_names [] h = refl
drop_empty_names (name ∷ names) (full, plain, h) =
    rw full (ap (λ rest. name ∷ rest) (drop_empty_names names h))

-- The segments of a joined path are the names again, when none is empty or holds a separator; the
-- path of no names is the root, which has no segment.
pub path_segments-join_node_path :
    (names : List (List ℕ)) → AllNames names → path_segments (join_node_path names) ≡ names
unfolding path_segments join_node_path split drop_empty
path_segments-join_node_path [] h = refl
path_segments-join_node_path (name ∷ names) h =
    ap drop_empty (split-push_names (name ∷ names) h) ∙ drop_empty_names (name ∷ names) h
