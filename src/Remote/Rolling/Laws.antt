-- ===== src/Remote/Rolling/Laws.antt =====
-- crates/treesync/src/remote/delta.rs: the weak checksum as two sums, and its update.
use treesync.Prelude.{
  ℕ, ◌+◌, ◌-◌, ◌*◌, ◌%◌, ◌<◌, [], ◌∷◌, ◌++◌, length, length-append, ◌≡◌, ap, arith,
}
use treesync.FilePath.{Bytes}
use treesync.Remote.Rolling.{Rolling, u32_mod, half_mod, sum_window, new, roll}

abbrev pub sum : Bytes → ℕ
sum [] = 0
sum (x ∷ xs) = x + sum xs

-- Every byte counts as often as there are bytes from it to the end.
abbrev pub weighted : Bytes → ℕ
weighted [] = 0
weighted (x ∷ xs) = (length xs + 1) * x + weighted xs

sum_window_lem :
    (len offset a b : ℕ) (w : Bytes)
    → len ≡ offset + length w
    → ((sum_window len offset a b w).0 % half_mod ≡ (a + sum w) % half_mod)
      × ((sum_window len offset a b w).1 % half_mod ≡ (b + weighted w) % half_mod)
unfolding sum_window
sum_window_lem len offset a b [] h = omega arith
sum_window_lem len offset a b (x ∷ w) h =
    let (p, q) =
      sum_window_lem len (offset + 1) ((a + x) % u32_mod)
        ((b + (len - offset) * x % u32_mod) % u32_mod) w (omega arith) in
    let e : len - offset ≡ length w + 1 = omega arith in
    let f : (len - offset) * x ≡ (length w + 1) * x = ap (λ (k : ℕ). k * x) e in
    (omega (arith, p), omega (arith, q, f))

rolling_eq : (r s : Rolling) → r.a ≡ s.a → r.b ≡ s.b → r.len ≡ s.len → r ≡ s
rolling_eq r s p q l = λ i. record { a = p i; b = q i; len = l i }

-- The two halves of the checksum of a window are its sum and its weighted sum, modulo 2 ^ 16.
new_lem :
    (w : Bytes)
    → length w < u32_mod
    → new w ≡ record { a = sum w % half_mod; b = weighted w % half_mod; len = length w }
unfolding new
new_lem w h =
    let len = length w % u32_mod in
    let e : len ≡ 0 + length w = omega arith in
    let (p, q) = sum_window_lem len 0 0 0 w e in
    rolling_eq _ _ (omega (arith, p)) (omega (arith, q)) (omega arith)

sum-snoc : (w : Bytes) (x : ℕ) → sum (w ++ (x ∷ [])) ≡ sum w + x
sum-snoc [] x = omega arith
sum-snoc (y ∷ w) x = omega (arith, sum-snoc w x)

weighted-snoc : (w : Bytes) (x : ℕ) → weighted (w ++ (x ∷ [])) ≡ weighted w + sum w + x
weighted-snoc [] x = omega arith
weighted-snoc (y ∷ w) x =
    let e : length (w ++ (x ∷ [])) ≡ length w + 1 = length-append w (x ∷ []) in
    let f : (length (w ++ (x ∷ [])) + 1) * y ≡ (length w + 1 + 1) * y =
      ap (λ (k : ℕ). (k + 1) * y) e in
    omega (arith, weighted-snoc w x, f)

-- Rolling is exact: the checksum of a window, rolled over the byte that leaves at the front and the
-- byte that comes in at the end, is the checksum of the window that results. Bytes are below 256
-- and the window is shorter than 2 ^ 32.
pub roll-new :
    (out inbound : ℕ) (w : Bytes)
    → out < 256
    → inbound < 256
    → length w + 1 < u32_mod
    → roll (new (out ∷ w)) out inbound ≡ new (w ++ (inbound ∷ []))
unfolding roll
roll-new out inbound w ho hi h =
    rw
      (
        new_lem (out ∷ w) (omega arith),
        new_lem (w ++ (inbound ∷ [])) (omega (arith, length-append w (inbound ∷ []))),
      )
      (rolling_eq _ _ (omega (arith, sum-snoc w inbound))
        (omega (arith, sum-snoc w inbound, weighted-snoc w inbound))
        (omega (arith, length-append w (inbound ∷ []))))
