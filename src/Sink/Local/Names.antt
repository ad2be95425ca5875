-- ===== src/Sink/Local/Names.antt =====
-- crates/treesync/src/sink/local.rs: the length of a temporary's name.
use treesync.Prelude.{
  ℕ, zero, suc, ◌+◌, ◌-◌, ◌≤◌, ◌++◌, Bool-cases, inl, inr, arith, leb, length, length-append,
  length-take, take,
}
use treesync.FilePath.{Bytes}
use treesync.Sink.Local.{
  name_max, digest_len, is_char_boundary, boundary_below, truncate_bytes, temporary_name,
}

boundary_below-le : (value : Bytes) (n : ℕ) → boundary_below value n ≤ n
unfolding boundary_below
boundary_below-le value zero = omega arith
boundary_below-le value (suc n) = elim (Bool-cases (is_char_boundary value (suc n))) [
  | inl q ↦ rw (q, boundary_below) (omega arith)
  | inr q ↦ rw (q, boundary_below) (omega (arith, boundary_below-le value n))
]

length-truncate_bytes : (value : Bytes) (n : ℕ) → length (truncate_bytes value n) ≤ n
unfolding truncate_bytes
length-truncate_bytes value n = elim (Bool-cases (leb (length value) n)) [
  | inl q ↦ rw (q, truncate_bytes) (ground (arith, q))
  | inr q ↦
      rw (q, truncate_bytes)
        (omega (arith, length-take (boundary_below value n) value, boundary_below-le value n))
]

-- The name of a temporary fits the file system's limit on a name, whatever the file is called, if
-- the prefix leaves room for the digest.
pub length-temporary_name :
    (hex : Bytes → Bytes) (prefix name : Bytes)
    → length prefix + digest_len ≤ name_max
    → length (temporary_name hex prefix name) ≤ name_max
unfolding temporary_name
length-temporary_name hex prefix name l =
    elim (Bool-cases (leb (length (prefix ++ name)) name_max)) [
      | inl q ↦ rw (q, temporary_name) (ground (arith, q))
      | inr q ↦
          let cut = truncate_bytes name (name_max - (length prefix + digest_len)) in
          rw (q, temporary_name)
            (omega (
              arith,
              l,
              length-append prefix (cut ++ take digest_len (hex name)),
              length-append cut (take digest_len (hex name)),
              length-take digest_len (hex name),
              length-truncate_bytes name (name_max - (length prefix + digest_len)),
            ))
    ]
