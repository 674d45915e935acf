-- ===== src/Tests/Content.antt =====
-- An upload of five bytes in blocks of two, over a reader that gives them in two pieces.
use proton_sdk_rs.Base.{
  ◌+◌, ◌<◌, ℕ, suc, ◌≡◌, refl, true, none, some, List, [], ◌∷◌, length, take, drop, arith,
}
use proton_sdk_rs.Base.Int.{pos}
use proton_sdk_rs.Errors.{ok}
use proton_sdk_rs.Revision.{Bytes, read_at}
use proton_sdk_rs.Revision.Read.{lengths}
use proton_sdk_rs.Transport.Sizes.{rank_block_sizes}
use proton_sdk_rs.Upload.{PreparedBlock}
use proton_sdk_rs.Upload.Content.{
  i32_top, Piece, bytes, interrupted, Cutting, Surroundings, encrypt_content_blocks,
}
use proton_sdk_rs.Upload.Content.Cut.{contents, cut_all, standard_blocks}
use proton_sdk_rs.Upload.Content.Added.{numbered}
use proton_sdk_rs.Upload.Content.Loop.{prepared_all, encrypt_content_blocks-Sends}
use proton_sdk_rs.Upload.Content.RoundTrip.{
  sealed_attributes, stored_block, encrypt_content_blocks-read_at,
}

-- The cipher puts one byte in front.
abbrev prepare : ℕ → Bytes → PreparedBlock
prepare index plaintext = record {
  ciphertext = 255 ∷ plaintext;
  digest = [];
  request = record {
    index = pos index;
    size = pos (suc (length plaintext));
    encrypted_signature = "";
    hash = "";
    verifier_token = "";
  };
}

abbrev around : Surroundings
around = record {
  permit = λ k index. true;
  receives = λ k. true;
  encrypt = λ index plaintext. ok (prepare index plaintext);
}

abbrev reader : List Piece
reader = bytes (1 ∷ 2 ∷ 3 ∷ []) ∷ interrupted ∷ bytes (4 ∷ 5 ∷ []) ∷ []

two_pieces : 1 + length (standard_blocks 2 (contents reader)) < i32_top
unfolding cut_all
two_pieces = omega arith

encrypt_content_blocks-Sends_example :
    (t : Cutting) × (encrypt_content_blocks 2 around 9 reader
      ≡ some (ok (prepared_all prepare (numbered 1 (standard_blocks 2 (contents reader))), t)))
    × (t.block_sizes ≡ lengths (standard_blocks 2 (contents reader)))
    × (t.hashed ≡ contents reader)
    × (t.total_size ≡ 5)
encrypt_content_blocks-Sends_example =
    encrypt_content_blocks-Sends 1 around prepare 9 reader (λ index plaintext. refl) (λ k. refl) tt
      (omega arith) (omega arith) two_pieces (omega arith)

encrypt_content_blocks-read_at_example :
    (sent : List PreparedBlock) × (s : Cutting) × (encrypt_content_blocks 2 around 9 reader
      ≡ some (ok (sent, s)))
    × (rank_block_sizes (some (sealed_attributes (λ _. "sha1") none s)) (length sent)
        ≡ ok s.block_sizes)
    × ((offset len : ℕ)
        → read_at (stored_block (λ c. ok (drop 1 c)) sent) s.block_sizes offset len
          ≡ ok (take len (drop offset (contents reader))))
encrypt_content_blocks-read_at_example =
    encrypt_content_blocks-read_at 1 around prepare (λ c. ok (drop 1 c)) (λ _. "sha1") none 9 reader
      (λ index plaintext. refl) (λ index plaintext. refl) (λ k. refl) tt (omega arith) (omega arith)
      two_pieces (omega arith)
