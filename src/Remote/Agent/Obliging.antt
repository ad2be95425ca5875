-- ===== src/Remote/Agent/Obliging.antt =====
-- crates/treesync/src/remote/agent.rs: `receive_patch` where no call of the system fails.
use treesync.Prelude.{
  ℕ, zero, suc, ◌+◌, ◌-◌, ◌^◌, ◌≤◌, ◌<◌, true, Bool-cases, Option, none, some, ◌≡◌, refl, sym, inl,
  inr, arith, ltb, leb, length, ◌==◌, nat_eq,
}
use Prim.Native.Nat.{min}
use mathlib.Core.Path.{subst}
use treesync.FilePath.{Bytes}
use treesync.Error.{ok, err}
use treesync.Remote.Token.Meaning.{range}
use treesync.Remote.Agent.{Disk, Os, answer, write_all}
use treesync.Remote.Agent.Copy.{
  chunk_size, Outcome, and_then, copy_piece, copy_loop, check_range, copy_range,
}
use treesync.Remote.Agent.Copied.{otherwise, chosen}

-- No call fails, and the destination reads as `old`.
pub record IsObliging (os : Os) (old : Bytes) : Type 0 where
  pub can_make_parent : (d : Disk) → os.makes_parent d ≡ none
  pub can_remove : (d : Disk) → os.removes d ≡ none
  pub can_create : (d : Disk) → os.creates d ≡ none
  pub can_date : (d : Disk) → os.dates d ≡ none
  pub can_rename : (d : Disk) → os.renames d ≡ none
  pub can_flush : (d : Disk) → os.flushes d ≡ none
  pub can_stat : (d : Disk) → os.stats_existing d ≡ none
  pub can_seek : (n : ℕ) (d : Disk) → os.seeks n d ≡ none
  pub can_read : (m n : ℕ) (d : Disk) → os.reads m n d ≡ none
  pub can_write : (bs : Bytes) (d : Disk) → os.writes bs d ≡ none
  pub can_stat_temporary : (d : Disk) → os.stats_temporary d ≡ none
  pub can_open_temporary : (d : Disk) → os.opens_temporary d ≡ none
  pub can_open_again : (d : Disk) → os.opens_again d ≡ none
  pub can_seek_temporary : (d : Disk) → os.seeks_temporary d ≡ none
  pub can_cut : (n : ℕ) (d : Disk) → os.cuts n d ≡ none
  pub reads_as : (d : Disk) → os.existing d ≡ some old

abbrev pub IsOk : Outcome → Type 0
IsOk o = o.0 ≡ ok tt

pub and_then-IsOk :
    (o : Outcome) (next : Disk → Bytes → Outcome)
    → IsOk o
    → ((d : Disk) (h : Bytes) → IsOk (next d h))
    → IsOk (and_then o next)
unfolding and_then
and_then-IsOk (ok u, d, h) next e more = more d h
and_then-IsOk (err x, d, h) next e more = absurd (cc e)

pub answer-none : (o : Option _) → o ≡ none → answer o ≡ ok tt
unfolding answer
answer-none o e = rw e

module _ (os : Os) (old : Bytes) (nice : IsObliging os old) where
  pub write_all_lem : (bs : Bytes) (d : Disk) → (write_all os bs d).0 ≡ ok tt
  unfolding write_all
  write_all_lem bs d = rw (nice.can_write bs d, write_all)

  copy_piece-IsOk :
      (offset want : ℕ) (piece : Bytes) (d : Disk) (h : Bytes)
      → IsOk (copy_piece os offset want piece d h)
  unfolding copy_piece
  copy_piece-IsOk offset want piece d h =
      and_then-IsOk _ _ (answer-none _ (nice.can_read offset want d))
        (λ r i. and_then-IsOk _ _ (write_all_lem piece r) (λ t j. refl))

  copy_loop-IsOk :
      (source : Bytes) (fuel offset len : ℕ) (d : Disk) (h : Bytes)
      → len ≤ fuel
      → IsOk (copy_loop os source fuel offset len d h)
  unfolding copy_loop
  copy_loop-IsOk source zero offset len d h l =
      let none_left : (len == 0) ≡ true = ground (arith, l) in
      subst IsOk (sym (chosen (len == 0) _ _ none_left)) refl
  copy_loop-IsOk source (suc fuel) offset len d h l = elim (Bool-cases (len == 0)) [
    | inl q ↦ subst IsOk (sym (chosen (len == 0) _ _ q)) refl
    | inr q ↦
        let want : ℕ = min len chunk_size in
        let some_left : 1 ≤ len = ground (arith, q) in
        subst IsOk (sym (otherwise (len == 0) _ _ q)) (
          and_then-IsOk _ _ (copy_piece-IsOk offset want (range source offset want) d h) (λ r i.
            copy_loop-IsOk source fuel (offset + want) (len - want) r i
              (omega (arith, l, some_left))))
  ]

  check_range-ok :
      (source : Bytes) (offset len : ℕ) (d : Disk)
      → offset + len ≤ length source
      → length source < 2 ^ 64
      → check_range os source offset len d ≡ ok tt
  unfolding check_range
  check_range-ok source offset len d l k =
      let small : ltb (offset + len) (2 ^ 64) ≡ true = ground (arith, l, k) in
      let inside : leb (offset + len) (length source) ≡ true = ground (arith, l) in
      rw (small, answer-none _ (nice.can_stat d), inside, answer-none _ (nice.can_seek offset d))

  pub copy_range-IsOk :
      (source : Bytes) (offset len : ℕ) (d : Disk) (h : Bytes)
      → offset + len ≤ length source
      → length source < 2 ^ 64
      → IsOk (copy_range os source offset len d h)
  unfolding copy_range
  copy_range-IsOk source offset len d h l k =
      and_then-IsOk _ _ (check_range-ok source offset len d l k)
        (λ r i. copy_loop-IsOk source len offset len r i (omega arith))
