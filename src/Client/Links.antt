-- ===== src/Client/Links.antt =====
-- `parse_public_link_url` of crates/proton-drive-rs/src/client.rs, on lists of characters, with
-- `split_link_password` and the URL that a client rebuilds from the stored secret of a public link.
use proton_sdk_rs.Base.{
  ℕ, ◌≡◌, refl, ap, Bool, true, false, ◌||◌, ◌&&◌, Option, none, some, List, [], ◌∷◌, ◌++◌, length,
  take, drop, zero, suc, ◌==◌, if◌then◌else◌, arith, Bool-cases, inl, inr,
}
use proton_sdk_rs.Errors.{Result, ok, refuse}
use proton_sdk_rs.Client.Paths.{slash, is_empty, has_slash}

-- `'#'`
abbrev pub hash_sign : ℕ
hash_sign = 35

-- `CONTAINER`, which is "/urls/"
abbrev pub container : List ℕ
container = 47 ∷ 117 ∷ 114 ∷ 108 ∷ 115 ∷ 47 ∷ []

abbrev pub in_front : ℕ → Option (List ℕ × List ℕ) → Option (List ℕ × List ℕ)
in_front c none = none
in_front c (some (before, after)) = some (c ∷ before, after)

-- `split_once('#')`
unfoldable pub split_once : List ℕ → Option (List ℕ × List ℕ)
split_once [] = none
split_once (c ∷ text) = if c == hash_sign then some ([], text) else in_front c (split_once text)

-- `strip_prefix`, at one place of the search
unfoldable pub strip_prefix : List ℕ → List ℕ → Option (List ℕ)
strip_prefix [] text = some text
strip_prefix (p ∷ part) [] = none
strip_prefix (p ∷ part) (c ∷ text) = if p == c then strip_prefix part text else none

abbrev pub or_here : Option (List ℕ) → Option (List ℕ) → Option (List ℕ)
or_here none here = here
or_here (some later) here = some later

-- `rsplit_once(CONTAINER)`: what follows the last container
unfoldable pub after_last : List ℕ → Option (List ℕ)
unfolding strip_prefix
after_last [] = none
after_last (c ∷ text) = or_here (after_last text) (strip_prefix container (c ∷ text))

-- `trim_end_matches('/')`
unfoldable pub trim_end_slashes : List ℕ → List ℕ
trim_end_slashes [] = []
trim_end_slashes (c ∷ text) =
    let rest = trim_end_slashes text in if (c == slash) && is_empty rest then [] else c ∷ rest

abbrev pub checked : List ℕ → List ℕ → Result (List ℕ × List ℕ)
checked token password =
    if is_empty token || has_slash token || is_empty password
    then refuse "invalid public link url"
    else ok (token, password)

abbrev pub on_container : List ℕ → Option (List ℕ) → Result (List ℕ × List ℕ)
on_container password none = refuse "invalid public link url"
on_container password (some after) = checked (trim_end_slashes after) password

abbrev pub on_hash : Option (List ℕ × List ℕ) → Result (List ℕ × List ℕ)
on_hash none = refuse "invalid public link url"
on_hash (some (before, password)) = on_container password (after_last before)

-- `parse_public_link_url`
unfoldable pub parse_public_link_url : List ℕ → Result (List ℕ × List ℕ)
unfolding split_once after_last trim_end_slashes
parse_public_link_url url = on_hash (split_once url)

-- `PUBLIC_LINK_PASSWORD_LEN`
abbrev pub public_link_password_len : ℕ
public_link_password_len = 12

abbrev pub if_not_empty : List ℕ → Option (List ℕ)
if_not_empty [] = none
if_not_empty (c ∷ custom) = some (c ∷ custom)

-- `split_link_password`
unfoldable pub split_link_password : List ℕ → List ℕ × Option (List ℕ)
split_link_password password =
    (take public_link_password_len password, if_not_empty (drop public_link_password_len password))

-- `format!("{}#{generated}", dto.public_url)`, where the API's URL is not empty
unfoldable pub rebuilt_url : List ℕ → List ℕ → List ℕ
unfolding split_link_password
rebuilt_url public_url password = public_url ++ (hash_sign ∷ (split_link_password password).0)

abbrev pub has_hash : List ℕ → Bool
has_hash [] = false
has_hash (c ∷ text) = if c == hash_sign then true else has_hash text

split_once-append :
    (before password : List ℕ)
    → has_hash before ≡ false
    → split_once (before ++ (hash_sign ∷ password)) ≡ some (before, password)
unfolding split_once
split_once-append [] password plain = refl
split_once-append (c ∷ before) password plain = elim (Bool-cases (c == hash_sign)) [
  | inl here ↦ absurd (ground arith)
  | inr later ↦ rw later (ap (in_front c) (split_once-append before password (ground arith)))
]

-- A text without a slash does not start with a pattern that has one.
strip_prefix-none :
    (part text : List ℕ)
    → has_slash part ≡ true
    → has_slash text ≡ false
    → strip_prefix part text ≡ none
unfolding strip_prefix
strip_prefix-none [] text here plain = absurd (ground arith)
strip_prefix-none (p ∷ part) [] here plain = refl
strip_prefix-none (p ∷ part) (c ∷ text) here plain = elim (Bool-cases (p == c)) [
  | inl same ↦ rw same (strip_prefix-none part text (ground arith) (ground arith))
  | inr other ↦ rw other refl
]

after_last-none : (text : List ℕ) → has_slash text ≡ false → after_last text ≡ none
unfolding after_last
after_last-none [] plain = refl
after_last-none (c ∷ text) plain =
    let rest = after_last-none text (ground arith) in
    let here = strip_prefix-none container (c ∷ text) refl plain in rw rest here

after_last-container :
    (token : List ℕ) → has_slash token ≡ false → after_last (container ++ token) ≡ some token
unfolding after_last strip_prefix
after_last-container token plain =
    let rest = after_last-none token plain in
    let urls = strip_prefix-none (117 ∷ 114 ∷ 108 ∷ 115 ∷ 47 ∷ []) token refl plain in
    simp (rest, urls) refl

after_last-append :
    (before token : List ℕ)
    → has_slash token ≡ false
    → after_last (before ++ (container ++ token)) ≡ some token
unfolding after_last
after_last-append [] token plain = after_last-container token plain
after_last-append (c ∷ before) token plain = rw (after_last-append before token plain) refl

trim_end_slashes_plain : (text : List ℕ) → has_slash text ≡ false → trim_end_slashes text ≡ text
unfolding trim_end_slashes
trim_end_slashes_plain [] plain = refl
trim_end_slashes_plain (c ∷ text) plain =
    let other : (c == slash) ≡ false = ground arith in
    rw (other, trim_end_slashes_plain text (ground arith)) refl

has_hash-append :
    (xs ys : List ℕ) → has_hash xs ≡ false → has_hash ys ≡ false → has_hash (xs ++ ys) ≡ false
has_hash-append [] ys h g = g
has_hash-append (x ∷ xs) ys h g = elim (Bool-cases (x == hash_sign)) [
  | inl here ↦ absurd (ground arith)
  | inr later ↦ rw later (has_hash-append xs ys (ground arith) g)
]

take_exact : (n : ℕ) (xs ys : List ℕ) → length xs ≡ n → take n (xs ++ ys) ≡ xs
take_exact zero [] ys h = refl
take_exact zero (x ∷ xs) ys h = absurd (omega arith)
take_exact (suc n) [] ys h = absurd (omega arith)
take_exact (suc n) (x ∷ xs) ys h = ap (λ rest. x ∷ rest) (take_exact n xs ys (omega arith))

drop_exact : (n : ℕ) (xs ys : List ℕ) → length xs ≡ n → drop n (xs ++ ys) ≡ ys
drop_exact zero [] ys h = refl
drop_exact zero (x ∷ xs) ys h = absurd (omega arith)
drop_exact (suc n) [] ys h = absurd (omega arith)
drop_exact (suc n) (x ∷ xs) ys h = drop_exact n xs ys (omega arith)

some_of :
    (password : List ℕ) → length password ≡ public_link_password_len → is_empty password ≡ false
some_of [] h = absurd (omega arith)
some_of (c ∷ password) h = refl

parse_joined :
    (before token password : List ℕ)
    → has_hash before ≡ false
    → has_hash token ≡ false
    → has_slash token ≡ false
    → is_empty token ≡ false
    → is_empty password ≡ false
    → parse_public_link_url ((before ++ (container ++ token)) ++ (hash_sign ∷ password))
      ≡ ok (token, password)
unfolding parse_public_link_url
parse_joined before token password plain plain_token no_slash some_token some_password =
    let front = has_hash-append before (container ++ token) plain plain_token in
    rw
      (
        split_once-append (before ++ (container ++ token)) password front,
        after_last-append before token no_slash,
        trim_end_slashes_plain token no_slash,
        some_token,
        no_slash,
        some_password,
      )
      refl

-- From a stored secret of 12 generated characters and a custom password, the URL of a public link is
-- rebuilt such that `parse_public_link_url` finds the link's token and the generated characters in it,
-- whatever these are, and the custom password is told apart, or none where it is empty. The token is
-- not empty and holds no slash, and no hash sign stands before the one of the password.
pub parse_public_link_url-rebuilt_url :
    (before token generated custom : List ℕ)
    → has_hash before ≡ false
    → has_hash token ≡ false
    → has_slash token ≡ false
    → is_empty token ≡ false
    → length generated ≡ public_link_password_len
    → (parse_public_link_url (rebuilt_url (before ++ (container ++ token)) (generated ++ custom))
        ≡ ok (token, generated))
      × ((split_link_password (generated ++ custom)).1 ≡ if_not_empty custom)
unfolding rebuilt_url split_link_password
parse_public_link_url-rebuilt_url before token generated custom plain plain_token no_slash
      some_token long =
    (
      rw (take_exact public_link_password_len generated custom long) (
          parse_joined before token generated plain plain_token no_slash some_token
            (some_of generated long)),
      ap if_not_empty (drop_exact public_link_password_len generated custom long),
    )
