-- ===== src/Remote/Wire.antt =====
-- crates/treesync/src/remote/protocol.rs: the types that cross the wire, and their conversions.
-- A time is its nanoseconds from the Unix epoch.
pub mod Time
pub mod RoundTrip
use treesync.Prelude.{
  ℕ, ◌+◌, ◌-◌, ◌*◌, ◌/◌, ◌%◌, ◌^◌, zero, suc, List, [], ◌∷◌, Bool, Option, ltb, if◌then◌else◌,
}
use treesync.Prelude.Int.{ℤ, pos, negsuc}
use treesync.FilePath.{FilePath, Bytes}
use treesync.Reconcile.Config.{Scope, Verify, quick, checksum, Preserve}
use treesync.Reconcile.Config
use treesync.Reconcile.Entry.{Metadata, Entry}
use treesync.Reconcile.Entry
use treesync.Reconcile.Index.{Index, insert}

abbrev pub second : ℕ
second = 1_000_000_000

pub record WireTime : Type 0 where
  pub secs : ℤ
  pub nanos : ℕ

-- `as i64`, in two's complement.
unfoldable pub as_i64 : ℤ → ℤ
as_i64 (pos n) = let r = n % 2 ^ 64 in if ltb r (2 ^ 63) then pos r else negsuc (2 ^ 64 - 1 - r)
as_i64 (negsuc n) = let r = n % 2 ^ 64 in if ltb r (2 ^ 63) then negsuc r else pos (2 ^ 64 - 1 - r)

-- `WireTime::new`, with `div_euclid` and `rem_euclid`.
unfoldable pub wire_time : ℤ → WireTime
unfolding as_i64
wire_time (pos n) = record { secs = as_i64 (pos (n / second)); nanos = n % second % 2 ^ 32 }
wire_time (negsuc n) = record {
  secs = as_i64 (negsuc (n / second));
  nanos = (second - 1 - n % second) % 2 ^ 32;
}

unfoldable pub minus : ℕ → ℤ
minus zero = pos zero
minus (suc n) = negsuc n

-- `UNIX_EPOCH + Duration::from_nanos(total as u64)`, and the same before the epoch.
unfoldable pub before_epoch : ℕ → ℕ → ℤ
unfolding minus
before_epoch magnitude nanos =
    if ltb nanos magnitude
    then minus ((magnitude - nanos) % 2 ^ 64)
    else pos ((nanos - magnitude) % 2 ^ 64)

-- `WireTime::into_system_time`
unfoldable pub into_system_time : WireTime → ℤ
unfolding before_epoch
into_system_time t = elim t.secs [
  | pos s ↦ pos ((s * second + t.nanos) % 2 ^ 64)
  | negsuc s ↦ before_epoch (suc s * second) t.nanos
]

-- A path crosses as the bytes it is made of; here, as its components.
abbrev pub WirePath : Type 0
WirePath = FilePath

pub data WireScope : Type 0 where
  paths : List WirePath → WireScope
  subtree : WirePath → WireScope

unfoldable pub wire_scope : Scope → WireScope
wire_scope (Config.paths ps) = paths ps
wire_scope (Config.subtree p) = subtree p

unfoldable pub into_scope : WireScope → Scope
into_scope (paths ps) = Config.paths ps
into_scope (subtree p) = Config.subtree p

pub data WireVerify : Type 0 where
  wire_quick wire_checksum : WireVerify

unfoldable pub wire_verify : Verify → WireVerify
wire_verify quick = wire_quick
wire_verify checksum = wire_checksum

unfoldable pub into_verify : WireVerify → Verify
into_verify wire_quick = quick
into_verify wire_checksum = checksum

pub record WirePreserve : Type 0 where
  pub mode : Bool
  pub ownership : Bool

unfoldable pub wire_preserve : Preserve → WirePreserve
wire_preserve p = record { mode = p.mode; ownership = p.ownership }

unfoldable pub into_preserve : WirePreserve → Preserve
into_preserve p = record { mode = p.mode; ownership = p.ownership }

pub record WireMetadata : Type 0 where
  pub mode : ℕ
  pub uid : ℕ
  pub gid : ℕ

unfoldable pub wire_metadata : Metadata → WireMetadata
wire_metadata m = record { mode = m.mode; uid = m.uid; gid = m.gid }

unfoldable pub into_metadata : WireMetadata → Metadata
into_metadata m = record { mode = m.mode; uid = m.uid; gid = m.gid }

pub data WireEntry : Type 0 where
  file : (size : ℕ) (mtime : WireTime) (hash : Option Bytes) (meta : WireMetadata) → WireEntry
  dir : (meta : WireMetadata) → WireEntry
  symlink : (target : WirePath) → WireEntry

unfoldable pub wire_entry : Entry → WireEntry
unfolding wire_time wire_metadata
wire_entry (Entry.file size mtime hash meta) = file size (wire_time mtime) hash (wire_metadata meta)
wire_entry (Entry.dir meta) = dir (wire_metadata meta)
wire_entry (Entry.symlink target) = symlink target

unfoldable pub into_entry : WireEntry → Entry
unfolding into_system_time into_metadata
into_entry (file size mtime hash meta) =
    Entry.file size (into_system_time mtime) hash (into_metadata meta)
into_entry (dir meta) = Entry.dir (into_metadata meta)
into_entry (symlink target) = Entry.symlink target

abbrev pub WireIndex : Type 0
WireIndex = List (WirePath × WireEntry)

unfoldable pub wire_index : Index → WireIndex
unfolding wire_entry
wire_index [] = []
wire_index ((p, e) ∷ i) = (p, wire_entry e) ∷ wire_index i

-- The loop of `into_index`.
unfoldable pub insert_all : Index → WireIndex → Index
unfolding insert into_entry
insert_all index [] = index
insert_all index ((p, e) ∷ es) = insert_all (insert p (into_entry e) index) es

unfoldable pub into_index : WireIndex → Index
unfolding insert_all
into_index entries = insert_all [] entries
