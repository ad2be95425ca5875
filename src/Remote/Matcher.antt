-- ===== src/Remote/Matcher.antt =====
-- crates/treesync/src/remote/delta.rs: `Matcher`, which turns a source into tokens against the
-- signature of what the target holds. The hasher is the bytes that it has taken in.
-- The source is the list of what its reads give, one after the other: bytes, none at its end, or a
-- failure. When the list is used up, the source is at its end.
pub mod Move
pub mod Loop
pub mod Sound
pub mod Window
pub mod Match
pub mod Round
pub mod Filled
pub mod Rebuild
pub mod Deliver
pub mod Whole
use treesync.Prelude.{
  ℕ, zero, suc, ◌+◌, ◌-◌, ◌*◌, List, [], ◌∷◌, ◌++◌, Bool, true, false, not, ◌&&◌, ◌||◌, Option,
  none, some, ltb, leb, length, take, drop, get_elem?, map, ◌==◌, nat_eq, list_eq, if◌then◌else◌,
}
use treesync.FilePath.{Bytes}
use treesync.Error.{codes, Error, IoKind, from_io, Result, ok, err, ◌>>=◌}
use treesync.Remote.Rolling.{Rolling, roll, digest}
use treesync.Remote.Rolling
use treesync.Remote.Signature.{BlockSig, Signature, strong}
use treesync.Remote.Token.{Token, copy, literal}

abbrev pub read_ahead : ℕ
read_ahead = 256 * 1024

abbrev pub literal_flush : ℕ
literal_flush = 256 * 1024

pub data Read : Type 0 where
  bytes : Bytes → Read
  fault : IoKind → Read

-- The map from weak checksums to the blocks that have them.
abbrev pub Candidates : Type 0
Candidates = List (ℕ × List ℕ)

pub record Matcher : Type 0 where
  pub reader : List Read
  pub block_size : ℕ
  pub candidates : Candidates
  pub strong : List Bytes
  pub buffer : Bytes
  pub pos : ℕ
  pub literal : Bytes
  pub rolling : Option Rolling
  pub run : Option (ℕ × ℕ)
  pub ready : List Token
  pub hasher : Bytes
  pub eof : Bool
  pub finished : Bool

-- `candidates.entry(weak).or_default().push(index)`
unfoldable pub add_candidate : ℕ → ℕ → Candidates → Candidates
add_candidate weak index [] = (weak, index ∷ []) ∷ []
add_candidate weak index ((w, is) ∷ cs) =
    if w == weak then (w, is ++ (index ∷ [])) ∷ cs else (w, is) ∷ add_candidate weak index cs

unfoldable pub candidates_from : ℕ → List BlockSig → Candidates → Candidates
unfolding add_candidate
candidates_from index [] cs = cs
candidates_from index (b ∷ bs) cs = candidates_from (index + 1) bs (add_candidate b.weak index cs)

unfoldable pub strongs : List BlockSig → List Bytes
strongs [] = []
strongs (b ∷ bs) = b.strong ∷ strongs bs

-- `max(1)`
unfoldable pub at_least_one : ℕ → ℕ
at_least_one zero = 1
at_least_one (suc n) = suc n

unfoldable pub new : List Read → Signature → Matcher
unfolding candidates_from strongs at_least_one
new reader signature = record {
  reader = reader;
  block_size = at_least_one signature.block_size;
  candidates = candidates_from 0 signature.blocks [];
  strong = strongs signature.blocks;
  buffer = [];
  pos = 0;
  literal = [];
  rolling = none;
  run = none;
  ready = [];
  hasher = [];
  eof = false;
  finished = false;
}

-- The bytes of the buffer that the window has not passed.
abbrev pub ahead : Matcher → Bytes
ahead m = drop m.pos m.buffer

unfoldable pub drain_passed : Matcher → Matcher
drain_passed m =
    if ltb read_ahead m.pos then record m { buffer = drop m.pos m.buffer; pos = 0 } else m

abbrev pub is_short : Matcher → Bool
is_short m = not m.eof && ltb (length m.buffer - m.pos) (m.block_size + read_ahead)

-- The loop of `fill`, over what the reads give.
unfoldable pub fill_loop : List Read → Matcher → Result Matcher
unfolding from_io
fill_loop [] m = ok (if is_short m then record m { eof = true } else m)
fill_loop (bytes [] ∷ rs) m = ok (if is_short m then record m { eof = true; reader = rs } else m)
fill_loop (bytes (b ∷ bs) ∷ rs) m =
    let more =
      fill_loop rs
        (record m { reader = rs; hasher = m.hasher ++ (b ∷ bs); buffer = m.buffer ++ (b ∷ bs) }) in
    if is_short m then more else ok m
fill_loop (fault k ∷ rs) m =
    if is_short m then err (from_io k (codes "reading the source")) else ok m

unfoldable pub fill : Matcher → Result Matcher
unfolding drain_passed fill_loop
fill m = fill_loop m.reader (drain_passed m)
