-- ===== src/Remote/Rolling.antt =====
-- crates/treesync/src/remote/delta.rs: the weak checksum. `u32` arithmetic wraps at 2 ^ 32, and
-- `& 0xffff` is written as the remainder by 2 ^ 16.
pub mod Laws
use Prim.Native.Nat.{bit_or}
use treesync.Prelude.{ℕ, ◌+◌, ◌-◌, ◌*◌, ◌%◌, ◌^◌, List, [], ◌∷◌, length}
use treesync.FilePath.{Bytes}

abbrev pub u32_mod : ℕ
u32_mod = 2 ^ 32

abbrev pub half_mod : ℕ
half_mod = 2 ^ 16

pub record Rolling : Type 0 where
  pub a : ℕ
  pub b : ℕ
  pub len : ℕ

-- The loop of `Rolling::new`, at an offset in a window of length `len`.
unfoldable pub sum_window : (len offset a b : ℕ) → Bytes → ℕ × ℕ
sum_window len offset a b [] = (a, b)
sum_window len offset a b (byte ∷ rest) =
    sum_window len (offset + 1) ((a + byte) % u32_mod)
      ((b + (len - offset) * byte % u32_mod) % u32_mod) rest

unfoldable pub new : Bytes → Rolling
unfolding sum_window
new window =
    let len = length window % u32_mod in
    let (a, b) = sum_window len 0 0 0 window in
    record { a = a % half_mod; b = b % half_mod; len = len }

unfoldable pub roll : Rolling → (out inbound : ℕ) → Rolling
roll r out inbound =
    let a : ℕ = ((r.a + u32_mod - out) % u32_mod + inbound) % u32_mod % half_mod in
    record {
      a = a;
      b = ((r.b + u32_mod - r.len * out % u32_mod) % u32_mod + a) % u32_mod % half_mod;
      len = r.len;
    }

-- `self.a | (self.b << 16)`
unfoldable pub digest : Rolling → ℕ
digest r = bit_or r.a (r.b * 2 ^ 16 % u32_mod)
