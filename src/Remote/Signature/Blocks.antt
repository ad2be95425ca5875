-- ===== src/Remote/Signature/Blocks.antt =====
-- crates/treesync/src/remote/delta.rs: which blocks `signature_of` describes.
use treesync.Prelude.{
  ℕ, zero, suc, ◌+◌, ◌*◌, ◌≤◌, ◌∷◌, Bool-cases, some, ◌≡◌, sym, ap, ◌∙◌, inl, inr, arith, ltb,
  length, length-drop, take, drop, drop-drop, get_elem?,
}
use mathlib.Core.Option.{some-injective}
use treesync.FilePath.{Bytes}
use treesync.Remote.Token.Meaning.{range}
use treesync.Remote.Signature.{describe, strong, blocks_of}
use treesync.Remote.Matcher.{strongs}

mul-suc : (i n : ℕ) → suc i * n ≡ n + i * n
mul-suc i n = omega arith

mul-zero : (n : ℕ) → 0 ≡ 0 * n
mul-zero n = omega arith

module _ (blake3 : Bytes → Bytes) (size : ℕ) where
  -- The content has a block at `i`, and its hash is `h`.
  abbrev pub IsBlockOf : Bytes → ℕ → Bytes → Type 0
  IsBlockOf content i h =
      (i * size + size ≤ length content) × (h ≡ strong blake3 (range content (i * size) size))

  IsBlockOf-suc :
      (content : Bytes) (i : ℕ) (h : Bytes)
      → size ≤ length content
      → IsBlockOf (drop size content) i h
      → IsBlockOf content (suc i) h
  IsBlockOf-suc content i h l (k, e) = (
    omega (arith, l, k, mul-suc i size, length-drop size content),
    e
        ∙ ap (λ (x : Bytes). strong blake3 (take size x))
            (drop-drop (i * size) size content
              ∙ ap (λ (n : ℕ). drop n content) (sym (mul-suc i size))),
  )

  pub strongs-IsBlockOf :
      (fuel : ℕ) (content : Bytes) (i : ℕ) (h : Bytes)
      → get_elem? (strongs (blocks_of blake3 size fuel content)) i ≡ some h
      → IsBlockOf content i h
  unfolding blocks_of strongs describe
  strongs-IsBlockOf zero content i h e = cc e
  strongs-IsBlockOf (suc fuel) content i h e = elim (Bool-cases (ltb (length content) size)) [
    | inl q ↦ cc (rw q at e)
    | inr q ↦
        let l : size ≤ length content = ground (arith, q) in
        cases i l (rw q at e) (λ j d. strongs-IsBlockOf fuel (drop size content) j h d)
  ]
    where
      cases :
          (i : ℕ)
          → size ≤ length content
          → get_elem?
              (strong blake3 (take size content)
                ∷ strongs (blocks_of blake3 size fuel (drop size content)))
              i
            ≡ some h
          → ((j : ℕ)
              → get_elem? (strongs (blocks_of blake3 size fuel (drop size content))) j ≡ some h
              → IsBlockOf (drop size content) j h)
          → IsBlockOf content i h
      cases zero l d more = (
        omega (arith, l),
        sym (some-injective _ _ d)
            ∙ ap (λ (n : ℕ). strong blake3 (take size (drop n content))) (mul-zero size),
      )
      cases (suc j) l d more = IsBlockOf-suc content j h l (more j d)
