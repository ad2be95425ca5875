-- ===== src/Remote/Signature.antt =====
-- crates/treesync/src/remote/delta.rs: the description of a file, block by block. The digest of the
-- crate `blake3` is a parameter. A file is read through a loop that fills a block or meets the end,
-- so the model takes the file's bytes; the fuel is their number.
pub mod Blocks
pub mod Wire
use treesync.Prelude.{
  ℕ, zero, suc, ◌+◌, List, [], ◌∷◌, Bool, ltb, leb, length, take, drop, if◌then◌else◌,
}
use treesync.FilePath.{Bytes}
use treesync.Remote.Rolling.{digest}
use treesync.Remote.Rolling

abbrev pub strong_len : ℕ
strong_len = 16

-- `strong`: the front of the digest of a block.
abbrev pub strong : (Bytes → Bytes) → Bytes → Bytes
strong blake3 block = take strong_len (blake3 block)

pub record BlockSig : Type 0 where
  pub weak : ℕ
  pub strong : Bytes

pub record Signature : Type 0 where
  pub block_size : ℕ
  pub blocks : List BlockSig

unfoldable pub describe : (Bytes → Bytes) → Bytes → BlockSig
unfolding digest Rolling.new
describe blake3 block = record { weak = digest (Rolling.new block); strong = strong blake3 block }

-- The loop of `signature_of`: a block that cannot be filled ends it.
unfoldable pub blocks_of : (Bytes → Bytes) → ℕ → ℕ → Bytes → List BlockSig
unfolding describe
blocks_of blake3 block_size zero content = []
blocks_of blake3 block_size (suc fuel) content =
    let rest = blocks_of blake3 block_size fuel (drop block_size content) in
    if ltb (length content) block_size then [] else describe blake3 (take block_size content) ∷ rest

unfoldable pub signature_of : (Bytes → Bytes) → ℕ → Bytes → Signature
unfolding blocks_of
signature_of blake3 block_size content = record {
  block_size = block_size;
  blocks = blocks_of blake3 block_size (length content) content;
}
