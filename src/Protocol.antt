-- ===== src/Protocol.antt =====
-- src/protocol.rs: the errors of the protocol; the block parameters and the blocks are in the
-- children.
pub mod Raptorq
pub mod Block
use lidi_4d8d19daa.Common.{ℕ, Option, String, Result, ok, err, ltb, if◌then◌else◌, IoError}

-- `Other` keeps the label of its message, the text before the first colon.
pub data Error : Type 0 where
  io : IoError → Error
  invalid_block_type : Option ℕ → Error
  other : String → Error

-- `u16::try_from(n).map_err(|e| Error::Other(format!("label: {e}")))`
unfoldable pub u16_try_from : ℕ → String → Result Error ℕ
u16_try_from n label = if ltb n 65536 then ok n else err (other label)
