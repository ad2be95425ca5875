-- ===== src/Remote/Wire/RoundTrip.antt =====
-- crates/treesync/src/remote/protocol.rs: entries and indexes on the wire.
use treesync.Prelude.{
  [], ◌∷◌, false, Bool-cases, Option, none, some, ◌≡◌, refl, ap, ◌∙◌, inl, inr, arith, ◌==◌, beq→eq,
  beq_refl, if◌then◌else◌,
}
use treesync.FilePath.{FilePath, component_eq}
use treesync.Prelude.{list_eq}
use treesync.Reconcile.Entry.{Entry, file, dir, symlink}
use treesync.Reconcile.Index.{Index, insert, get, contains}
use treesync.Remote.Wire.{
  wire_metadata, into_metadata, wire_entry, into_entry, wire_index, insert_all, into_index,
}
use treesync.Remote.Wire.Time.{IsNear, time-roundtrip}

abbrev pub IsNearEntry : Entry → Type 0
IsNearEntry (file size mtime hash meta) = IsNear mtime
IsNearEntry (dir meta) = Unit
IsNearEntry (symlink target) = Unit

pub entry-roundtrip : (e : Entry) → IsNearEntry e → into_entry (wire_entry e) ≡ e
unfolding wire_entry into_entry wire_metadata into_metadata
entry-roundtrip (file size mtime hash meta) h =
    ap (λ t. file size t hash meta) (time-roundtrip mtime h)
entry-roundtrip (dir meta) h = refl
entry-roundtrip (symlink target) h = refl

-- An index has one entry for each of its paths, and no time in it is far from the epoch.
abbrev pub IsPlain : Index → Type 0
IsPlain [] = Unit
IsPlain ((p, e) ∷ i) = (contains i p ≡ false) × IsNearEntry e × IsPlain i

get-insert :
    (p q : FilePath) (e : Entry) (i : Index)
    → get (insert p e i) q ≡ (if p == q then some e else get i q)
unfolding get insert
get-insert p q e [] = refl
get-insert p q e ((r, f) ∷ i) =
    ground (arith, get-insert p q e i, beq→eq r p, beq→eq p q, beq→eq r q, beq_refl p, beq_refl q)

abbrev first_of : Option Entry → Option Entry → Option Entry
first_of (some e) o = some e
first_of none o = o

get-absent : (i : Index) (p : FilePath) → contains i p ≡ false → get i p ≡ none
unfolding get contains
get-absent [] p h = refl
get-absent ((q, f) ∷ i) p h = ground (arith, get-absent i p)

get-insert_all :
    (i acc : Index) (p : FilePath)
    → IsPlain i
    → get (insert_all acc (wire_index i)) p ≡ first_of (get i p) (get acc p)
unfolding insert_all wire_index get
get-insert_all [] acc p h = refl
get-insert_all ((q, e) ∷ i) acc p (fresh, near, plain) =
    get-insert_all i (insert q (into_entry (wire_entry e)) acc) p plain
    ∙ rw (get-insert q p (into_entry (wire_entry e)) acc, entry-roundtrip e near)
        (elim (Bool-cases (q == p)) [
          | inl same ↦ rw (same, get-absent i p (rw (beq→eq q p same) at fresh))
          | inr other ↦ rw other
        ])

-- An index that crosses the wire says the same of every path: what the agent's reply rebuilds has
-- an entry exactly where the agent's index has one, and the same entry. Each path has one entry,
-- and no time lies 2 ^ 64 nanoseconds or more from the epoch.
pub index-roundtrip :
    (i : Index) (p : FilePath) → IsPlain i → get (into_index (wire_index i)) p ≡ get i p
unfolding into_index get
index-roundtrip i p h = get-insert_all i [] p h ∙ first_of-none (get i p)
  where
    first_of-none : (o : Option Entry) → first_of o (get [] p) ≡ o
    first_of-none none = refl
    first_of-none (some e) = refl
