-- ===== src/Upload/Token.antt =====
-- `verification_token` (crates/proton-drive-rs/src/client.rs).
use proton_sdk_rs.Base.{
  ℕ, zero, suc, ◌+◌, ◌*◌, ◌/◌, ◌%◌, ◌<◌, ◌≡◌, refl, ap, ap₂, List, [], ◌∷◌, length, arith,
}

-- Exclusive or of the low `n` bits
xor_bits : ℕ → ℕ → ℕ → ℕ
xor_bits zero a b = 0
xor_bits (suc n) a b = (a % 2 + b % 2) % 2 + 2 * xor_bits n (a / 2) (b / 2)

-- `^` on bytes
unfoldable pub xor : ℕ → ℕ → ℕ
unfolding xor_bits
xor a b = xor_bits 8 a b

-- `verification_token`: `ciphertext.get(i)` is 0 past the end.
unfoldable pub verification_token : List ℕ → List ℕ → List ℕ
unfolding xor
verification_token [] ciphertext = []
verification_token (c ∷ code) [] = xor c 0 ∷ verification_token code []
verification_token (c ∷ code) (x ∷ ciphertext) = xor c x ∷ verification_token code ciphertext

abbrev pub AllBytes : List ℕ → Type 0
AllBytes [] = Unit
AllBytes (c ∷ bytes) = (c < 256) × AllBytes bytes

abbrev pow2 : ℕ → ℕ
pow2 zero = 1
pow2 (suc n) = 2 * pow2 n

xor_bits_twice : (n a b : ℕ) → a < pow2 n → xor_bits n (xor_bits n a b) b ≡ a
unfolding xor_bits
xor_bits_twice zero a b h = ground arith
xor_bits_twice (suc n) a b h =
    let half = xor_bits_twice n (a / 2) (b / 2) (omega arith) in
    let upper : xor_bits (suc n) a b / 2 ≡ xor_bits n (a / 2) (b / 2) = omega arith in
    let lower : xor_bits (suc n) a b % 2 ≡ (a % 2 + b % 2) % 2 = omega arith in
    rw (upper, lower, half) (omega arith)

xor_twice : (a b : ℕ) → a < 256 → xor (xor a b) b ≡ a
unfolding xor
xor_twice a b h = xor_bits_twice 8 a b h

-- For a code of bytes, the token of the token under the same ciphertext is the code again, and the
-- token has the length of the code.
pub verification_token_twice :
    (code ciphertext : List ℕ)
    → AllBytes code
    → (verification_token (verification_token code ciphertext) ciphertext ≡ code)
      × (length (verification_token code ciphertext) ≡ length code)
unfolding verification_token
verification_token_twice [] ciphertext h = (refl, refl)
verification_token_twice (c ∷ code) [] (h, hs) =
    let (again, same) = verification_token_twice code [] hs in
    (ap₂ (λ b bs. b ∷ bs) (xor_twice c 0 h) again, ap suc same)
verification_token_twice (c ∷ code) (x ∷ ciphertext) (h, hs) =
    let (again, same) = verification_token_twice code ciphertext hs in
    (ap₂ (λ b bs. b ∷ bs) (xor_twice c x h) again, ap suc same)
