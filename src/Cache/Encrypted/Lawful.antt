-- ===== src/Cache/Encrypted/Lawful.antt =====
-- The encrypted cache of crates/proton-sdk/src/cache.rs is a repository itself, as long as every entry
-- was written under its key.
use proton_sdk_rs.Base.{
  ℕ, zero, suc, ◌+◌, ◌≤◌, ◌≡◌, refl, ap, ◌∙◌, sym, inl, inr, String, false, Option, none, some,
  List, [], ◌∷◌, ◌++◌, length, take, drop, length-append, ltb, ge→ltb, str_eq, str_eq→eq,
  if◌then◌else◌, arith, Bool-cases,
}
use proton_sdk_rs.Errors.{Result, ok, err}
use proton_sdk_rs.Revision.{Bytes}
use proton_sdk_rs.Cache.Repository.{CacheRepository, KeptOrGone, IsRepository}
use proton_sdk_rs.Cache.Encrypted.{
  Cipher, salt_len, tag_len, Encrypted, encrypt, decrypt, store, on_decrypted, on_found, set, get,
  encrypted,
}

-- What the source relies on of its libraries: a salt has its length, keys are derived, what is sealed
-- is unsealed under the same key and carries a tag, and the encodings are read back.
pub record IsCipher {K : Type 0} (cipher : Cipher K) : Type 0 where
  pub salted : (n : ℕ) → (salt : Bytes) × (cipher.salt n ≡ ok salt) × (length salt ≡ salt_len)
  pub derived : (salt : Bytes) (key : String) → (k : K) × (cipher.derive salt key ≡ ok k)
  pub sealed :
      (k : K) (plaintext : Bytes)
      → (c : Bytes) × (cipher.seal k plaintext ≡ ok c)
        × (tag_len ≤ length c)
        × (cipher.unseal k c ≡ some plaintext)
  pub decoded : (bytes : Bytes) → cipher.decode (cipher.encode bytes) ≡ ok bytes
  pub text : (t : String) → cipher.from_utf8 (cipher.as_bytes t) ≡ ok t

take_first : (n : ℕ) (xs ys : Bytes) → length xs ≡ n → take n (xs ++ ys) ≡ xs
take_first zero [] ys h = refl
take_first zero (x ∷ xs) ys h = absurd (omega arith)
take_first (suc n) [] ys h = absurd (omega arith)
take_first (suc n) (x ∷ xs) ys h = ap (λ t. x ∷ t) (take_first n xs ys (omega arith))

drop_first : (n : ℕ) (xs ys : Bytes) → length xs ≡ n → drop n (xs ++ ys) ≡ ys
drop_first zero [] ys h = refl
drop_first zero (x ∷ xs) ys h = absurd (omega arith)
drop_first (suc n) [] ys h = absurd (omega arith)
drop_first (suc n) (x ∷ xs) ys h = drop_first n xs ys (omega arith)

module _ {K : Type 0} (cipher : Cipher K) (is_cipher : IsCipher cipher) where
  -- What is encrypted under a key is decrypted under it.
  decrypt-encrypt :
      (n : ℕ) (key value : String)
      → (c : String) × (encrypt cipher n key value ≡ ok c)
        × (decrypt cipher key c ≡ ok (some value))
  unfolding encrypt decrypt
  decrypt-encrypt n key value =
      let (salt, salt_ok, salt_long) = is_cipher.salted n in
      let (k, key_ok) = is_cipher.derived salt key in
      let (sealed, seal_ok, tagged, unsealed) = is_cipher.sealed k (cipher.as_bytes value) in
      let long : ltb (length (salt ++ sealed)) (salt_len + tag_len) ≡ false =
        ge→ltb _ _ (omega (arith, length-append salt sealed)) in
      (
        cipher.encode (salt ++ sealed),
        rw (salt_ok, key_ok, seal_ok) refl,
        rw
            (
              is_cipher.decoded (salt ++ sealed),
              long,
              take_first salt_len salt sealed salt_long,
              drop_first salt_len salt sealed salt_long,
              key_ok,
              unsealed,
              is_cipher.text value,
            )
            refl,
      )

  -- An entry that is there can be read.
  abbrev pub Readable : String → Option String → Type 0
  Readable key none = Unit
  Readable key (some c) = (value : String) × (decrypt cipher key c ≡ ok (some value))

  abbrev pub plain_of : Result (Option String) → Option String
  plain_of (ok value) = value
  plain_of (err e) = none

  abbrev pub plain : String → Option String → Option String
  plain key none = none
  plain key (some c) = plain_of (decrypt cipher key c)

  module _ {S : Type 0} (repo : CacheRepository S) (laws : IsRepository repo) where
    abbrev pub AllReadable : S → Type 0
    AllReadable s = (key : String) → Readable key (laws.peek key s)

    -- Of an entry that stays or is gone.
    kept-Readable :
        (key : String) (before after : Option String)
        → KeptOrGone before after
        → Readable key before
        → Readable key after
    kept-Readable key before after (inl same) h = rw same h
    kept-Readable key before after (inr gone) h = rw gone tt

    stored_readable :
        (key c value : String) (tags : List String) (s : S)
        → laws.Valid s
        → AllReadable s
        → decrypt cipher key c ≡ ok (some value)
        → AllReadable (repo.set key c tags s).1
    stored_readable key c value tags s valid readable written j = elim (Bool-cases (str_eq key j)) [
      | inl same ↦
          let e = str_eq→eq key j same in
          let there : laws.peek j (repo.set key c tags s).1 ≡ some c =
            ap (λ k. laws.peek k (repo.set key c tags s).1) (sym e)
            ∙ laws.set_there key c tags s valid in
          rw there (value, ap (λ k. decrypt cipher k c) (sym e) ∙ written)
      | inr other ↦
          kept-Readable j (laws.peek j s) (laws.peek j (repo.set key c tags s).1)
            (laws.set_others key c tags j s valid other) (readable j)
    ]

    -- What `get` finds where all can be read
    on_found-plain :
        (key : String) (entry : Option String) (s : Encrypted S)
        → Readable key entry
        → on_found cipher repo key (ok entry) s ≡ (ok (plain key entry), s)
    unfolding on_found on_decrypted
    on_found-plain key none s h = refl
    on_found-plain key (some c) s (value, h) = rw h refl

    -- A state whose entries can all be read.
    record IsWhole (s : Encrypted S) : Type 0 where
      valid : laws.Valid s.inner
      readable : AllReadable s.inner

    written : (key value : String) (s : Encrypted S) → String
    written key value s = (decrypt-encrypt s.salts key value).0

    written_back :
        (key value : String) (s : Encrypted S)
        → decrypt cipher key (written key value s) ≡ ok (some value)
    unfolding written
    written_back key value s = (decrypt-encrypt s.salts key value).2

    set_written :
        (key value : String) (tags : List String) (s : Encrypted S)
        → set cipher repo key value tags s ≡ (
          (repo.set key (written key value s) tags s.inner).0,
          record {
            inner = (repo.set key (written key value s) tags s.inner).1;
            salts = suc s.salts;
          },
        )
    unfolding set store written
    set_written key value tags s =
        let (c, is_ok, back) = decrypt-encrypt s.salts key value in rw is_ok refl

    get_plain :
        (key : String) (s : Encrypted S)
        → IsWhole s
        → get cipher repo key s
          ≡ (ok (plain key (laws.peek key s.inner)), record s { inner = (repo.get key s.inner).1 })
    unfolding get
    get_plain key s whole =
        ap (λ found. on_found cipher repo key found (record s { inner = (repo.get key s.inner).1 }))
          (laws.get_found key s.inner whole.valid)
        ∙ on_found-plain key (laws.peek key s.inner) (record s { inner = (repo.get key s.inner).1 })
            (whole.readable key)

    plain-KeptOrGone :
        (key : String) (before after : Option String)
        → KeptOrGone before after
        → KeptOrGone (plain key before) (plain key after)
    plain-KeptOrGone key before after (inl same) = inl (ap (plain key) same)
    plain-KeptOrGone key before after (inr gone) = inr (ap (plain key) gone)

    removed_plain :
        (k j : String) (before after : Option String)
        → after ≡ (if str_eq k j then none else before)
        → plain j after ≡ (if str_eq k j then none else plain j before)
    removed_plain k j before after h = elim (Bool-cases (str_eq k j)) [
      | inl e ↦ let gone : after ≡ none = ground arith in rw (gone, e) refl
      | inr e ↦ let kept : after ≡ before = ground arith in rw (kept, e) refl
    ]

    removed-Readable :
        (k j : String) (before after : Option String)
        → after ≡ (if str_eq k j then none else before)
        → Readable j before
        → Readable j after
    removed-Readable k j before after h readable = elim (Bool-cases (str_eq k j)) [
      | inl e ↦ let gone : after ≡ none = ground arith in rw gone tt
      | inr e ↦ let kept : after ≡ before = ground arith in rw kept readable
    ]

    set-IsWhole :
        (key value : String) (tags : List String) (s : Encrypted S)
        → IsWhole s
        → IsWhole (set cipher repo key value tags s).1
    set-IsWhole key value tags s whole =
        let c = written key value s in
        rw (ap (λ r. r.1) (set_written key value tags s)) (record {
          valid = laws.set_valid key c tags s.inner whole.valid;
          readable =
              stored_readable key c value tags s.inner whole.valid whole.readable
                (written_back key value s);
        })

    -- Wrapped around a repository that keeps the laws, the encrypted repository keeps them too: what was
    -- set is found, no other entry is changed, and what is removed or cleared is gone.
    pub encrypted-IsRepository : IsRepository (encrypted cipher repo)
    encrypted-IsRepository = record {
      Valid = IsWhole;
      peek = λ key s. plain key (laws.peek key s.inner);
      set_valid = set-IsWhole;
      get_valid = λ k s w. rw (ap (λ r. r.1) (get_plain k s w)) (record {
        valid = laws.get_valid k s.inner w.valid;
        readable = λ j. rw (laws.get_kept k j s.inner w.valid) (w.readable j);
      });
      remove_valid = λ k s w. record {
        valid = laws.remove_valid k s.inner w.valid;
        readable = λ j.
            removed-Readable k j (laws.peek j s.inner) (laws.peek j (repo.remove k s.inner).1)
              (laws.removed k j s.inner w.valid).1 (w.readable j);
      };
      clear_valid = λ s w. record {
        valid = laws.clear_valid s.inner w.valid;
        readable = λ j. rw ((laws.cleared j s.inner w.valid).1) tt;
      };
      set_done = λ k v tags s w.
          ap (λ r. r.0) (set_written k v tags s)
          ∙ laws.set_done k (written k v s) tags s.inner w.valid;
      set_there = λ k v tags s w.
          ap (λ r. plain k (laws.peek k r.1.inner)) (set_written k v tags s)
          ∙ ap (plain k) (laws.set_there k (written k v s) tags s.inner w.valid)
          ∙ ap plain_of (written_back k v s);
      set_others = λ k v tags j s w other. rw (ap (λ r. r.1) (set_written k v tags s)) (
          plain-KeptOrGone j (laws.peek j s.inner)
            (laws.peek j (repo.set k (written k v s) tags s.inner).1)
            (laws.set_others k (written k v s) tags j s.inner w.valid other));
      get_found = λ k s w. ap (λ r. r.0) (get_plain k s w);
      get_kept = λ k j s w.
          ap (λ r. plain j (laws.peek j r.1.inner)) (get_plain k s w)
          ∙ ap (plain j) (laws.get_kept k j s.inner w.valid);
      removed = λ k j s w. (
        (laws.removed k j s.inner w.valid).0,
        removed_plain k j (laws.peek j s.inner) (laws.peek j (repo.remove k s.inner).1)
            (laws.removed k j s.inner w.valid).1,
      );
      cleared = λ j s w.
          ((laws.cleared j s.inner w.valid).0, ap (plain j) (laws.cleared j s.inner w.valid).1);
    }
