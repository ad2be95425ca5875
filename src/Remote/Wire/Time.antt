-- ===== src/Remote/Wire/Time.antt =====
-- crates/treesync/src/remote/protocol.rs: times on the wire.
use treesync.Prelude.{ℕ, suc, zero, ◌+◌, ◌-◌, ◌*◌, ◌/◌, ◌%◌, ◌^◌, ◌<◌, ◌≡◌, ap, arith, lt→ltb}
use treesync.Prelude.Int.{ℤ, pos, negsuc}
use treesync.Remote.Wire.{second, as_i64, wire_time, minus, before_epoch, into_system_time}

-- Less than 2 ^ 64 nanoseconds, some 584 years, away from the epoch.
abbrev pub IsNear : ℤ → Type 0
IsNear (pos n) = n < 2 ^ 64
IsNear (negsuc n) = n + 1 < 2 ^ 64

minus_suc : (m n : ℕ) → m ≡ n + 1 → minus m ≡ negsuc n
unfolding minus
minus_suc zero n h = absurd (omega arith)
minus_suc (suc m) n h = ap negsuc (omega (arith, h))

-- A time survives the trip: converted for the wire and back, a time less than 2 ^ 64 nanoseconds
-- from the epoch on either side is the same time.
pub time-roundtrip : (t : ℤ) → IsNear t → into_system_time (wire_time t) ≡ t
unfolding wire_time into_system_time as_i64 before_epoch
time-roundtrip (pos n) h =
    rw (lt→ltb (n / second % 2 ^ 64) (2 ^ 63) (omega (arith, h))) (ap pos (omega (arith, h)))
time-roundtrip (negsuc n) h =
    rw
      (
        lt→ltb (n / second % 2 ^ 64) (2 ^ 63) (omega (arith, h)),
        lt→ltb ((second - 1 - n % second) % 2 ^ 32) (suc (n / second % 2 ^ 64) * second)
            (omega (arith, h)),
      )
      (minus_suc _ n (omega (arith, h)))
