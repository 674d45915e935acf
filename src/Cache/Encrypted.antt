-- ===== src/Cache/Encrypted.antt =====
-- `EncryptedCacheRepository` of crates/proton-sdk/src/cache.rs, around any repository. HKDF, AES-GCM, base64
-- and the random salts are arguments; the salts come by the number of the call.
pub mod Lawful
use proton_sdk_rs.Base.{
  ℕ, suc, ◌+◌, String, Bool, true, false, Option, none, some, List, [], ◌∷◌, ◌++◌, length, take,
  drop, ltb, if◌then◌else◌,
}
use proton_sdk_rs.Errors.{ProtonError, Result, ok, err, refuse, ◌>>=◌}
use proton_sdk_rs.Revision.{Bytes}
use proton_sdk_rs.Cache.Repository.{CacheRepository}

-- What `derive`, `encrypt` and `decrypt` call.
pub record Cipher (K : Type 0) : Type 0 where
  pub salt : ℕ → Result Bytes
  pub derive : Bytes → String → Result K
  pub seal : K → Bytes → Result Bytes
  pub unseal : K → Bytes → Option Bytes
  pub encode : Bytes → String
  pub decode : String → Result Bytes
  pub as_bytes : String → Bytes
  pub from_utf8 : Bytes → Result String

-- `SALT_LEN`
abbrev pub salt_len : ℕ
salt_len = 16

-- `TAG_LEN`
abbrev pub tag_len : ℕ
tag_len = 16

-- The repository that is wrapped, and how many salts were drawn.
pub record Encrypted (S : Type 0) : Type 0 where
  pub inner : S
  pub salts : ℕ

module _ {K : Type 0} (cipher : Cipher K) where
  -- `encrypt`
  unfoldable pub encrypt : ℕ → String → String → Result String
  encrypt n entry_key plaintext = do
    salt ← cipher.salt n
    key ← cipher.derive salt entry_key
    sealed ← cipher.seal key (cipher.as_bytes plaintext)
    ok (cipher.encode (salt ++ sealed))

  -- The `match` on what `cipher.decrypt` gives
  unfoldable pub opened : Option Bytes → Result (Option String)
  opened none = ok none
  opened (some plaintext) = do text ← cipher.from_utf8 plaintext; ok (some text)

  -- `decrypt`: no value where the authentication fails
  unfoldable pub decrypt : String → String → Result (Option String)
  unfolding opened
  decrypt entry_key encoded = cipher.decode encoded >>= λ combined.
      if ltb (length combined) (salt_len + tag_len)
      then refuse "cache value too short"
      else (cipher.derive (take salt_len combined) entry_key >>= λ key.
          opened (cipher.unseal key (drop salt_len combined)))

  module _ {S : Type 0} (repo : CacheRepository S) where
    unfoldable pub store :
        String → List String → Result String → Encrypted S → Result (Unit {0}) × Encrypted S
    store key tags (err e) s = (err e, s)
    store key tags (ok encrypted) s =
        let (done, inner) = repo.set key encrypted tags s.inner in
        (done, record s { inner = inner })

    unfoldable pub cleared : Encrypted S → Result (Option String) × Encrypted S
    cleared s =
        let (done, inner) = repo.clear s.inner in
        ((done >>= λ _. ok none), record s { inner = inner })

    unfoldable pub on_decrypted :
        Result (Option String) → Encrypted S → Result (Option String) × Encrypted S
    unfolding cleared
    on_decrypted (err e) s = (err e, s)
    on_decrypted (ok (some value)) s = (ok (some value), s)
    on_decrypted (ok none) s = cleared s

    unfoldable pub on_found :
        String → Result (Option String) → Encrypted S → Result (Option String) × Encrypted S
    unfolding on_decrypted decrypt
    on_found key (err e) s = (err e, s)
    on_found key (ok none) s = (ok none, s)
    on_found key (ok (some encrypted)) s = on_decrypted (decrypt key encrypted) s

    -- `impl CacheRepository for EncryptedCacheRepository`
    unfoldable pub set :
        String → String → List String → Encrypted S → Result (Unit {0}) × Encrypted S
    unfolding store encrypt
    set key value tags s =
        store key tags (encrypt s.salts key value) (record s { salts = suc s.salts })

    unfoldable pub get : String → Encrypted S → Result (Option String) × Encrypted S
    unfolding on_found
    get key s =
        let (found, inner) = repo.get key s.inner in on_found key found (record s { inner = inner })

    abbrev pub passed : (S → Result (Unit {0}) × S) → Encrypted S → Result (Unit {0}) × Encrypted S
    passed f s = let (done, inner) = f s.inner in (done, record s { inner = inner })

    abbrev pub encrypted : CacheRepository (Encrypted S)
    encrypted = record {
      set = set;
      get = get;
      remove = λ key. passed (repo.remove key);
      remove_by_tag = λ tag. passed (repo.remove_by_tag tag);
      clear = passed repo.clear;
    }
