-- ===== src/Remote/Agent/Copy.antt =====
-- crates/treesync/src/remote/agent.rs: `copy_range`, `resume` and `reabsorb`. The hasher is the
-- bytes that it has taken in.
-- The loops run on fuel: each round takes at least one byte, so as many rounds as there are bytes
-- are enough. What they come to without fuel is an error.
use treesync.Prelude.{
  ℕ, zero, suc, ◌+◌, ◌-◌, ◌*◌, ◌^◌, ◌++◌, Option, none, some, ltb, leb, length, take, ◌==◌, nat_eq,
  if◌then◌else◌,
}
use Prim.Native.Nat.{min}
use treesync.FilePath.{Bytes}
use treesync.Error.{codes, not_found, invalid_path, internal, Result, ok, err, require, ◌>>=◌, ◌>>◌}
use treesync.Remote.Token.Meaning.{range}
use treesync.Remote.Agent.{Disk, Os, Entry, regular, irregular, answer, write_all}

abbrev pub chunk_size : ℕ
chunk_size = 256 * 1024

-- The answer of an operation, what it leaves on the disk, and what was hashed.
abbrev pub Outcome : Type 0
Outcome = Result (Unit {0}) × Disk × Bytes

-- `?`, for an operation that also leaves something when it fails.
unfoldable pub and_then : Outcome → (Disk → Bytes → Outcome) → Outcome
and_then (err e, d, hashed) next = (err e, d, hashed)
and_then (ok u, d, hashed) next = next d hashed

-- One piece: read, written, hashed.
unfoldable pub copy_piece : Os → ℕ → ℕ → Bytes → Disk → Bytes → Outcome
unfolding and_then answer write_all
copy_piece os offset want piece d hashed =
    and_then (answer (os.reads offset want d), d, hashed)
      (λ r h.
        and_then ((write_all os piece r).0, (write_all os piece r).1, h)
          (λ t i. (ok tt, t, i ++ piece)))

unfoldable pub copy_loop : Os → Bytes → ℕ → ℕ → ℕ → Disk → Bytes → Outcome
unfolding and_then copy_piece
copy_loop os source zero offset remaining d hashed =
    if remaining == 0 then (ok tt, d, hashed) else (err (internal (codes "out of fuel")), d, hashed)
copy_loop os source (suc fuel) offset remaining d hashed =
    let want = min remaining chunk_size in
    let step =
      and_then (copy_piece os offset want (range source offset want) d hashed)
        (λ r h. copy_loop os source fuel (offset + want) (remaining - want) r h) in
    if remaining == 0 then (ok tt, d, hashed) else step

-- `checked_add` on `u64`, then the range against the file.
unfoldable pub check_range : Os → Bytes → ℕ → ℕ → Disk → Result (Unit {0})
unfolding answer
check_range os source offset len d = do
  require (ltb (offset + len) (2 ^ 64)) (internal (codes "a copy overflows"))
  _ ← answer (os.stats_existing d)
  require (leb (offset + len) (length source))
      (internal (codes "the stream reuses bytes past the end"))
  answer (os.seeks offset d)

unfoldable pub copy_range : Os → Bytes → ℕ → ℕ → Disk → Bytes → Outcome
unfolding and_then check_range copy_loop
copy_range os source offset len d hashed =
    and_then (check_range os source offset len d, d, hashed)
      (λ r h. copy_loop os source len offset len r h)

-- The loop of `reabsorb`.
unfoldable pub reabsorb_loop : Os → Bytes → ℕ → ℕ → ℕ → Disk → Bytes → Outcome
unfolding and_then answer
reabsorb_loop os content zero offset remaining d hashed =
    if remaining == 0 then (ok tt, d, hashed) else (err (internal (codes "out of fuel")), d, hashed)
reabsorb_loop os content (suc fuel) offset remaining d hashed =
    let want = min remaining chunk_size in
    let step =
      and_then (answer (os.reads offset want d), d, hashed)
        (λ r h.
          reabsorb_loop os content fuel (offset + want) (remaining - want) r
            (h ++ range content offset want)) in
    if remaining == 0 then (ok tt, d, hashed) else step

unfoldable pub reabsorb : Os → Bytes → ℕ → Disk → Bytes → Outcome
unfolding and_then answer reabsorb_loop
reabsorb os content count d hashed =
    and_then (answer (os.opens_again d), d, hashed)
      (λ r h. reabsorb_loop os content count 0 count r h)

-- The file cut to the agreed point, and read back.
unfoldable pub resume_regular : Os → Bytes → ℕ → Disk → Bytes → Outcome
unfolding and_then answer reabsorb
resume_regular os content count d hashed =
    let cut = record d { temporary = some (regular (take count content) none) } in
    and_then
      (
        require (leb count (length content)) (internal (codes "only so many bytes are here")),
        d,
        hashed,
      )
      (λ r h.
        and_then (answer (os.opens_temporary r), r, h)
          (λ r h.
            and_then (answer (os.cuts count r), r, h)
              (λ r h.
                and_then (reabsorb os (take count content) count cut h)
                  (λ r h. (answer (os.seeks_temporary r), r, h)))))

unfoldable pub resume_entry : Os → Option Entry → ℕ → Disk → Bytes → Outcome
unfolding resume_regular
resume_entry os none count d hashed = (err (not_found (codes "nothing left to resume")), d, hashed)
resume_entry os (some irregular) count d hashed =
    (err (invalid_path (codes "not a regular file")), d, hashed)
resume_entry os (some (regular content mtime)) count d hashed =
    resume_regular os content count d hashed

unfoldable pub resume : Os → ℕ → Disk → Bytes → Outcome
unfolding and_then answer resume_entry
resume os count d hashed =
    and_then (answer (os.stats_temporary d), d, hashed)
      (λ r h. resume_entry os r.temporary count r h)
