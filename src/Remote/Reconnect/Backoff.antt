-- ===== src/Remote/Reconnect/Backoff.antt =====
-- crates/treesync/src/remote/ssh.rs: `Reconnect::wait_before` grows to its ceiling.
use treesync.Prelude.{
  ℕ, zero, suc, ◌-◌, ◌*◌, ◌^◌, ◌≤◌, ◌<◌, Bool-cases, ◌≡◌, ap, ◌∙◌, ◌⊎◌, inl, inr, arith, ltb,
}
use Prim.Native.Nat.{min}
use Prim.Native.Nat.pow
use treesync.Remote.Reconnect.{duration_limit, Reconnect, checked_mul_or, wait_before}

checked_mul_or-cases :
    (i f c : ℕ)
    → ((checked_mul_or i f c ≡ i * f) × (i * f < duration_limit))
      ⊎ ((checked_mul_or i f c ≡ c) × (duration_limit ≤ i * f))
unfolding checked_mul_or
checked_mul_or-cases i f c = elim (Bool-cases (ltb (i * f) duration_limit)) [
  | inl q ↦ inl (ground (arith, q), ground (arith, q))
  | inr q ↦ inr (ground (arith, q), ground (arith, q))
]

doubled : (i n : ℕ) → i * 2 ^ suc n ≡ 2 * (i * 2 ^ n)
doubled i n = ap (λ (x : ℕ). i * x) (pow.suc 2 n) ∙ omega arith

doublings-cases :
    (n : ℕ) → (min (suc n - 1) 31 ≡ min (n - 1) 31) ⊎ (min (suc n - 1) 31 ≡ suc (min (n - 1) 31))
doublings-cases n = elim (Bool-cases (ltb n 1)) [
  | inl q ↦ inl (ground (arith, q))
  | inr q ↦
      let l : 1 ≤ n = ground (arith, q) in
      elim (Bool-cases (ltb n 32)) [
        | inl p ↦ let k : n < 32 = ground (arith, p) in inr (omega (arith, l, k))
        | inr p ↦ let k : 32 ≤ n = ground (arith, p) in inl (omega (arith, k))
      ]
]

at_least : (i k : ℕ) → i ≤ i * 2 ^ k
at_least i zero = omega (arith, ap (λ (x : ℕ). i * x) (pow.zero 2))
at_least i (suc k) = omega (arith, doubled i k, at_least i k)

factor-grows : (i n : ℕ) → i * 2 ^ min (n - 1) 31 ≤ i * 2 ^ min (suc n - 1) 31
factor-grows i n = elim (doublings-cases n) [
  | inl e ↦ omega (arith, ap (λ (k : ℕ). i * 2 ^ k) e)
  | inr e ↦ omega (arith, ap (λ (k : ℕ). i * 2 ^ k) e, doubled i (min (n - 1) 31))
]

-- The wait before an attempt never falls below the wait before the attempt ahead of it, is never
-- above the ceiling, and never below the smaller of the first interval and the ceiling, however many
-- attempts there were and wherever the multiplication overflows.
pub wait_before-bounds :
    (r : Reconnect) (n : ℕ)
    → (wait_before r n ≤ wait_before r (suc n))
      × (wait_before r n ≤ r.max_interval)
      × (min r.interval r.max_interval ≤ wait_before r n)
unfolding wait_before
wait_before-bounds r n =
    let grows = factor-grows r.interval n in
    let first = at_least r.interval (min (n - 1) 31) in
    elim (checked_mul_or-cases r.interval (2 ^ min (n - 1) 31) r.max_interval) [
      | inl (e, l) ↦
          elim (checked_mul_or-cases r.interval (2 ^ min (suc n - 1) 31) r.max_interval) [
            | inl (f, k) ↦ (omega (arith, e, f, grows), omega arith, omega (arith, e, first))
            | inr (f, k) ↦ (omega (arith, e, f), omega arith, omega (arith, e, first))
          ]
      | inr (e, l) ↦
          elim (checked_mul_or-cases r.interval (2 ^ min (suc n - 1) 31) r.max_interval) [
            | inl (f, k) ↦ absurd (omega (arith, l, k, grows))
            | inr (f, k) ↦ (omega (arith, e, f), omega arith, omega (arith, e))
          ]
    ]
