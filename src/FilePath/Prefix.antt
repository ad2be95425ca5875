-- ===== src/FilePath/Prefix.antt =====
-- `std::path`: `starts_with` as the order of prefixes.
use treesync.Prelude.{
  [], ◌∷◌, ◌++◌, true, ◌≡◌, refl, ◌||◌, arith, beq→eq, beq_refl, some, Option-cases, inl, inr,
  length, ◌≤◌,
}
use treesync.FilePath.{
  FilePath, component_eq, starts_with, parent, root_dir, cur_dir, parent_dir, normal,
}

pub starts_with_refl : (p : FilePath) → starts_with p p ≡ true
unfolding starts_with
starts_with_refl [] = refl
starts_with_refl (c ∷ cs) = ground (arith, beq_refl c, starts_with_refl cs)

pub starts_with_trans :
    (p q r : FilePath) → starts_with p q ≡ true → starts_with q r ≡ true → starts_with p r ≡ true
unfolding starts_with
starts_with_trans p q [] h k = refl
starts_with_trans p [] (d ∷ r) h k = cc
starts_with_trans [] (c ∷ q) (d ∷ r) h k = cc
starts_with_trans (b ∷ p) (c ∷ q) (d ∷ r) h k =
    ground (arith, beq→eq b c, beq→eq c d, beq_refl b, starts_with_trans p q r)

pub starts_with_antisymm :
    (p q : FilePath) → starts_with p q ≡ true → starts_with q p ≡ true → p ≡ q
unfolding starts_with
starts_with_antisymm [] [] h k = refl
starts_with_antisymm [] (c ∷ q) h k = cc
starts_with_antisymm (c ∷ p) [] h k = cc
starts_with_antisymm (b ∷ p) (c ∷ q) h k = ground (arith, beq→eq b c, starts_with_antisymm p q)

-- What a path starts with is no longer than the path.
pub length-starts_with : (p q : FilePath) → starts_with p q ≡ true → length q ≤ length p
unfolding starts_with
length-starts_with p [] h = omega arith
length-starts_with [] (c ∷ q) h = cc
length-starts_with (b ∷ p) (c ∷ q) h = ground (arith, length-starts_with p q)

pub starts_with-append : (p q : FilePath) → starts_with (p ++ q) p ≡ true
unfolding starts_with
starts_with-append [] q = refl
starts_with-append (c ∷ p) q = ground (arith, beq_refl c, starts_with-append p q)

-- A path lies in its parent directory.
pub starts_with-parent : (p d : FilePath) → parent p ≡ some d → starts_with p d ≡ true
unfolding starts_with parent
starts_with-parent [] d h = cc
starts_with-parent (root_dir ∷ []) d h = cc
starts_with-parent (cur_dir ∷ []) d h = ground arith
starts_with-parent (parent_dir ∷ []) d h = ground arith
starts_with-parent (normal n ∷ []) d h = ground arith
starts_with-parent (c ∷ b ∷ p) d h = elim (Option-cases (parent (b ∷ p))) [
  | inl e ↦ ground (arith, e)
  | inr (q, e) ↦ ground (arith, e, beq_refl c, starts_with-parent (b ∷ p) q e)
]

-- Two directories that contain one path: one of them contains the other.
pub starts_with_total :
    (p a b : FilePath)
    → starts_with p a ≡ true
    → starts_with p b ≡ true
    → (starts_with a b || starts_with b a) ≡ true
unfolding starts_with
starts_with_total p a [] h k = ground arith
starts_with_total p [] (d ∷ b) h k = refl
starts_with_total [] (c ∷ a) (d ∷ b) h k = cc
starts_with_total (x ∷ p) (c ∷ a) (d ∷ b) h k =
    ground (arith, starts_with_total p a b, beq→eq x c, beq→eq x d, beq_refl x)
