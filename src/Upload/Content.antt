-- ===== src/Upload/Content.antt =====
-- The reading half of an upload: `read_full_block`, `encrypt_content_block` and `encrypt_content_blocks`
-- of crates/proton-drive-rs/src/client.rs. A reader is what its calls of `read` will give. Whether the
-- client-wide limit has a permit, and whether the uploader still receives, are arguments by round;
-- the semaphore is never closed. An i32 or i64 is its bits, and its sums wrap around.
pub mod Cut
pub mod Added
pub mod Rounds
pub mod Loop
pub mod RoundTrip
use proton_sdk_rs.Base.{
  ℕ, zero, suc, ◌+◌, ◌-◌, ◌%◌, ◌^◌, ltb, u64_mod, String, Bool, true, false, ◌||◌, Option, none,
  some, List, [], ◌∷◌, ◌++◌, length, take, drop, leb, if◌then◌else◌,
}
use proton_sdk_rs.Base.Int.{ℤ, pos, negsuc}
use proton_sdk_rs.Errors.{ProtonError, Result, ok, err, refuse, ◌>>=◌}
use proton_sdk_rs.Revision.{Bytes}
use proton_sdk_rs.Upload.{PreparedBlock}
use proton_sdk_rs.Upload.Token.{verification_token}

abbrev pub i32_mod : ℕ
i32_mod = 2 ^ 32

abbrev pub i32_top : ℕ
i32_top = 2 ^ 31

abbrev pub i64_top : ℕ
i64_top = 2 ^ 63

-- The numbers that the bits of an i32 and of an i64 stand for.
abbrev pub as_i32 : ℕ → ℤ
as_i32 w = if ltb w i32_top then pos w else negsuc (i32_mod - 1 - w)

abbrev pub as_i64 : ℕ → ℤ
as_i64 w = if ltb w i64_top then pos w else negsuc (u64_mod - 1 - w)

-- What `read` gives: bytes that are there (none of them is the end), an interruption, or a failure.
pub data Piece : Type 0 where
  bytes : Bytes → Piece
  interrupted failed : Piece

-- The loop of `read_full_block`: `room` is what is left of the buffer, `out` what is in it.
unfoldable pub fill_buffer : ℕ → List Piece → Bytes → Result (Bytes × List Piece)
fill_buffer room [] out = ok (out, [])
fill_buffer zero (piece ∷ reader) out = ok (out, piece ∷ reader)
fill_buffer (suc room) (interrupted ∷ reader) out = fill_buffer (suc room) reader out
fill_buffer (suc room) (failed ∷ reader) out = refuse "read block"
fill_buffer (suc room) (bytes [] ∷ reader) out = ok (out, reader)
fill_buffer (suc room) (bytes (b ∷ bs) ∷ reader) out =
    let whole = fill_buffer (suc room - length (b ∷ bs)) reader (out ++ (b ∷ bs)) in
    if leb (length (b ∷ bs)) (suc room)
    then whole
    else ok (out ++ take (suc room) (b ∷ bs), bytes (drop (suc room) (b ∷ bs)) ∷ reader)

-- `read_full_block`, with a buffer of `size` bytes
unfoldable pub read_full_block : ℕ → List Piece → Result (Bytes × List Piece)
unfolding fill_buffer
read_full_block size reader = fill_buffer size reader []

-- The cryptography of one block: the content key, SHA-256, the signing key, the node key, base64.
pub record BlockCrypto : Type 0 where
  pub encrypt_block : Bytes → Result Bytes
  pub digest : Bytes → Bytes
  pub sign_detached : Bytes → Result Bytes
  pub encrypt_signature : Bytes → Result String
  pub base64 : Bytes → String

-- `encrypt_content_block`
unfoldable pub encrypt_content_block : BlockCrypto → Bytes → ℕ → Bytes → Result PreparedBlock
encrypt_content_block crypto verification_code index plaintext = do
  ciphertext ← crypto.encrypt_block plaintext
  signature ← crypto.sign_detached plaintext
  encrypted_signature ← crypto.encrypt_signature signature
  ok (record {
    ciphertext = ciphertext;
    digest = crypto.digest ciphertext;
    request = record {
      index = as_i32 index;
      size = as_i32 (length ciphertext % i32_mod);
      encrypted_signature = encrypted_signature;
      hash = crypto.base64 (crypto.digest ciphertext);
      verifier_token = crypto.base64 (verification_token verification_code ciphertext);
    };
  })

-- The variables of `encrypt_content_blocks`, its integers by their bits. `hashed` is what SHA-1 was
-- given, and `encrypting` the blocks whose encryption runs, by index and plaintext.
pub record Cutting : Type 0 where
  pub reader : List Piece
  pub reader_drained : Bool
  pub index : ℕ
  pub hashed : Bytes
  pub total_size : ℕ
  pub block_sizes : List ℕ
  pub encrypting : List (ℕ × Bytes)

-- `MAX_CONCURRENT_BLOCK_ENCRYPTS`
abbrev pub max_concurrent_encrypts : ℕ
max_concurrent_encrypts = 4

-- The end of the inner loop's body: `n == 0` drains the reader, else the block is hashed, counted and
-- given to an encryption task.
unfoldable pub add_block : Bytes → List Piece → Cutting → Cutting
add_block [] reader s = record s { reader = reader; reader_drained = true }
add_block (b ∷ bs) reader s = record s {
  reader = reader;
  index = (s.index + 1) % i32_mod;
  hashed = s.hashed ++ (b ∷ bs);
  total_size = (s.total_size + length (b ∷ bs)) % u64_mod;
  block_sizes = s.block_sizes ++ (length (b ∷ bs) % i32_mod ∷ []);
  encrypting = s.encrypting ++ ((s.index, b ∷ bs) ∷ []);
}

abbrev pub is_idle : List (ℕ × Bytes) → Bool
is_idle [] = true
is_idle (_ ∷ _) = false

-- What an upload of content finds around it.
pub record Surroundings : Type 0 where
  pub permit : ℕ → ℕ → Bool
  pub receives : ℕ → Bool
  pub encrypt : ℕ → Bytes → Result PreparedBlock

module _ (size : ℕ) (around : Surroundings) where
  -- The inner loop: with nothing in flight it waits for a permit, else it takes one if there is one.
  unfoldable pub fill_window : ℕ → ℕ → Cutting → Result Cutting
  unfolding read_full_block add_block
  fill_window zero k s = ok s
  fill_window (suc room) k s =
      if s.reader_drained
      then ok s
      else if is_idle s.encrypting || around.permit k s.index
      then (read_full_block size s.reader >>= λ filled.
          fill_window room k (add_block filled.0 filled.1 s))
      else ok s

  -- `encrypting.next()`: the first block in order
  unfoldable pub take_next : List (ℕ × Bytes) → Cutting → Result (Option PreparedBlock × Cutting)
  take_next [] s = ok (none, s)
  take_next ((index, plaintext) ∷ rest) s = do
    prepared ← around.encrypt index plaintext
    ok (some prepared, record s { encrypting = rest })

  unfoldable pub cut_round : ℕ → Cutting → Result (Option PreparedBlock × Cutting)
  unfolding fill_window take_next
  cut_round k s = fill_window (max_concurrent_encrypts - length s.encrypting) k s >>= λ filled.
      take_next filled.encrypting filled

  abbrev pub Sent : Type 0
  Sent = List PreparedBlock × Cutting

  -- The end of a round: what is sent, and whether the loop goes on.
  unfoldable pub send_next :
      (Cutting → List PreparedBlock → Option (Result Sent))
      → Bool
      → List PreparedBlock
      → Result (Option PreparedBlock × Cutting)
      → Option (Result Sent)
  send_next go open_ sent (err e) = some (err e)
  send_next go open_ sent (ok (none, s)) = some (ok (sent, s))
  send_next go open_ sent (ok (some prepared, s)) =
      if open_ then go s (sent ++ (prepared ∷ [])) else some (ok (sent, s))

  unfoldable pub cut_loop : ℕ → ℕ → Cutting → List PreparedBlock → Option (Result Sent)
  unfolding cut_round send_next
  cut_loop zero k s sent = none
  cut_loop (suc fuel) k s sent =
      send_next (cut_loop fuel (k + 1)) (around.receives k) sent (cut_round k s)

abbrev pub cutting : List Piece → Cutting
cutting reader = record {
  reader = reader;
  reader_drained = false;
  index = 1;
  hashed = [];
  total_size = 0;
  block_sizes = [];
  encrypting = [];
}

-- `encrypt_content_blocks`, with blocks of `size` bytes: what it sends, and its variables at the end
unfoldable pub encrypt_content_blocks :
    ℕ → Surroundings → ℕ → List Piece → Option (Result (List PreparedBlock × Cutting))
unfolding cut_loop
encrypt_content_blocks size around fuel reader = cut_loop size around fuel 0 (cutting reader) []
