-- ===== src/Upload.antt =====
-- Uploading a revision's content: crates/proton-drive-rs/src/client.rs, from `write_blocks` to
-- `upload_one_block`. Encryption, hashing and the network are arguments of the definitions.
pub mod Token
pub mod Manifest
pub mod Targets
pub mod Block
pub mod Content
use proton_sdk_rs.Base.{ℕ, String, Option, List}
use proton_sdk_rs.Base.Int.{ℤ}

-- `BlockUploadTarget`
pub record BlockUploadTarget : Type 0 where
  pub bare_url : String
  pub token : String
  pub index : Option ℤ
  pub thumbnail_type : Option ℤ

-- `BlockCreationRequest`, with its signature, hash and verifier token as encoded texts
pub record BlockCreationRequest : Type 0 where
  pub index : ℤ
  pub size : ℤ
  pub encrypted_signature : String
  pub hash : String
  pub verifier_token : String

-- `UploadJob`, without the permit of the client-wide limit
pub record UploadJob : Type 0 where
  pub index : Option ℤ
  pub ciphertext : List ℕ
  pub digest : List ℕ
  pub request : Option BlockCreationRequest
  pub target : BlockUploadTarget

-- `PreparedBlock`, without the permit
pub record PreparedBlock : Type 0 where
  pub ciphertext : List ℕ
  pub digest : List ℕ
  pub request : BlockCreationRequest

-- `EncryptedThumbnail`; of its request the upload reads the type alone.
pub record EncryptedThumbnail : Type 0 where
  pub thumbnail_type : ℤ
  pub ciphertext : List ℕ
  pub digest : List ℕ
