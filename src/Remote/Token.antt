-- ===== src/Remote/Token.antt =====
-- crates/treesync/src/remote/protocol.rs: one frame of a delta transfer.
pub mod Meaning
use treesync.Prelude.{ℕ}
use treesync.FilePath.{Bytes}
use treesync.Error.{Text}
use treesync.Remote.Wire.{WireTime}

pub data Token : Type 0 where
  copy : (offset len : ℕ) → Token
  literal : Bytes → Token
  commit : (mtime : WireTime) (hash : Bytes) → Token
  abort : (reason : Text) → Token
