-- ===== src/Aux/File.antt =====
-- src/aux/file: the errors and the configuration of the file programs. A string is its UTF-8 bytes.
pub mod Header
pub mod Send
pub mod Receive
pub mod Digest
pub mod Transfer
pub mod Delivery
pub mod Programs
use lidi_4d8d19daa.Common.{ℕ, List, Bool, String, IoError}

-- `file::protocol::Error`
pub data ProtocolError : Type 0 where
  io : IoError → ProtocolError
  string_format : ProtocolError
  invalid_file_size : ℕ → ℕ → ProtocolError
  invalid_hash : ℕ → ℕ → ProtocolError

-- `file::Error`
pub data Error : Type 0 where
  failed : IoError → Error
  diode : ProtocolError → Error
  other : String → Error

pub record Config : Type 0 where
  pub buffer_size : ℕ
  pub hash : Bool

-- The hasher of the fasthash crate: `write`, `Vec::hash`, which also hashes the length, and
-- `finish_ext`; and the test of `String::from_utf8`.
pub record Library : Type 1 where
  pub Hash : Type 0
  pub fresh : Hash
  pub write : List ℕ → Hash → Hash
  pub hash_vec : List ℕ → Hash → Hash
  pub finish : Hash → ℕ
  pub is_utf8 : List ℕ → Bool
