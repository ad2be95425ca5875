-- ===== src/Sink/Local/Confined.antt =====
-- crates/treesync/src/sink/local.rs: `resolve` stays below the root.
use treesync.Prelude.{
  [], ◌∷◌, ◌++◌, Bool, true, false, Bool-cases, ◌≡◌, ◌≢◌, refl, sym, ap, ◌∙◌, inl, inr, arith,
  append_assoc, append-nil, All, if◌then◌else◌,
}
use mathlib.Core.Path.{subst}
use treesync.FilePath.{
  FilePath, Component, normal, root_dir, cur_dir, parent_dir, Bytes, join, push, push_all,
}
use treesync.Error.{Error, Text, invalid_path, Result, ok, err, ◌>>=◌}
use treesync.Sink.Local.{
  is_normal, all_normal, refuse_from, refuse_symlinked_ancestors, is_empty, resolve,
}

-- The component is a plain name.
abbrev IsName : Component → Type 0
IsName (normal name) = Unit
IsName root_dir = ⊥
IsName cur_dir = ⊥
IsName parent_dir = ⊥

-- No directory on the way from `ancestor` along the path is a symlink; its end may be one.
abbrev NoLinks : (FilePath → Bool) → FilePath → FilePath → Type 0
NoLinks is_symlink ancestor [] = Unit
NoLinks is_symlink ancestor (c ∷ []) = Unit
NoLinks is_symlink ancestor (c ∷ d ∷ cs) =
    (is_symlink (ancestor ++ (c ∷ [])) ≡ false) × NoLinks is_symlink (ancestor ++ (c ∷ [])) (d ∷ cs)

-- A path that is not empty, made of plain names, and reached through no symlink.
abbrev pub IsConfined : (FilePath → Bool) → FilePath → FilePath → Type 0
IsConfined is_symlink root relative =
    (relative ≢ []) × All IsName relative × NoLinks is_symlink root relative

abbrev pub IsInvalidPath : Error → Type 0
IsInvalidPath e = (m : Text) × (e ≡ invalid_path m)

-- What `resolve` comes to: a confined path below the root, or a refusal of one that is not.
abbrev pub IsResolved : (FilePath → Bool) → FilePath → FilePath → Result FilePath → Type 0
IsResolved is_symlink root relative (ok p) =
    (p ≡ root ++ relative) × IsConfined is_symlink root relative
IsResolved is_symlink root relative (err e) =
    IsInvalidPath e × (IsConfined is_symlink root relative → ⊥)

all_normal-All : (p : FilePath) → all_normal p ≡ true → All IsName p
unfolding all_normal is_normal
all_normal-All [] e = tt
all_normal-All (normal name ∷ cs) e = (tt, all_normal-All cs e)
all_normal-All (root_dir ∷ cs) e = absurd (cc e)
all_normal-All (cur_dir ∷ cs) e = absurd (cc e)
all_normal-All (parent_dir ∷ cs) e = absurd (cc e)

all_normal_complete : (p : FilePath) → All IsName p → all_normal p ≡ true
unfolding all_normal is_normal
all_normal_complete [] h = refl
all_normal_complete (normal name ∷ cs) (h, hs) = all_normal_complete cs hs
all_normal_complete (root_dir ∷ cs) (h, hs) = absurd h
all_normal_complete (cur_dir ∷ cs) (h, hs) = absurd h
all_normal_complete (parent_dir ∷ cs) (h, hs) = absurd h

push-normal : (p : FilePath) (name : Bytes) → push p (normal name) ≡ p ++ (normal name ∷ [])
unfolding push
push-normal [] name = refl
push-normal (c ∷ cs) name = refl

push_all-names : (base p : FilePath) → All IsName p → push_all base p ≡ base ++ p
unfolding push_all
push_all-names base [] h = sym (append-nil base)
push_all-names base (normal name ∷ cs) (h, hs) =
    ap (λ (b : FilePath). push_all b cs) (push-normal base name)
    ∙ push_all-names (base ++ (normal name ∷ [])) cs hs
    ∙ append_assoc base (normal name ∷ []) cs
push_all-names base (root_dir ∷ cs) (h, hs) = absurd h
push_all-names base (cur_dir ∷ cs) (h, hs) = absurd h
push_all-names base (parent_dir ∷ cs) (h, hs) = absurd h

-- What the walk over the ancestors comes to.
abbrev IsWalked : (FilePath → Bool) → FilePath → FilePath → Result (Unit {0}) → Type 0
IsWalked is_symlink ancestor p (ok u) = NoLinks is_symlink ancestor p
IsWalked is_symlink ancestor p (err e) = IsInvalidPath e × (NoLinks is_symlink ancestor p → ⊥)

then-IsWalked :
    (is_symlink : FilePath → Bool) (ancestor p : FilePath) (c d : Component) (cs : FilePath)
    (r : Result (Unit {0}))
    → is_symlink (ancestor ++ (c ∷ [])) ≡ false
    → IsWalked is_symlink (ancestor ++ (c ∷ [])) (d ∷ cs) r
    → IsWalked is_symlink ancestor (c ∷ d ∷ cs) r
then-IsWalked is_symlink ancestor p c d cs (ok u) q h = (q, h)
then-IsWalked is_symlink ancestor p c d cs (err e) q (i, h) = (i, λ k. h k.1)

refuse_from-IsWalked :
    (is_symlink : FilePath → Bool) (ancestor p : FilePath)
    → IsWalked is_symlink ancestor p (refuse_from is_symlink ancestor p)
unfolding refuse_from
refuse_from-IsWalked is_symlink ancestor [] = tt
refuse_from-IsWalked is_symlink ancestor (c ∷ []) = tt
refuse_from-IsWalked is_symlink ancestor (c ∷ d ∷ cs) =
    elim (Bool-cases (is_symlink (ancestor ++ (c ∷ [])))) [
      | inl q ↦
          subst (IsWalked is_symlink ancestor (c ∷ d ∷ cs)) (sym (if-true _ _ _ q))
            ((_, refl), λ k. cc (k.0, q))
      | inr q ↦ subst (IsWalked is_symlink ancestor (c ∷ d ∷ cs)) (sym (if-false _ _ _ q)) (
          then-IsWalked is_symlink ancestor [] c d cs _ q
            (refuse_from-IsWalked is_symlink (ancestor ++ (c ∷ [])) (d ∷ cs)))
    ]
  where
    if-true : (b : Bool) (x y : Result (Unit {0})) → b ≡ true → (if b then x else y) ≡ x
    if-true b x y e = ground (arith, e)

    if-false : (b : Bool) (x y : Result (Unit {0})) → b ≡ false → (if b then x else y) ≡ y
    if-false b x y e = ground (arith, e)

-- A path from a plan or from the wire resolves just if it is not empty, is made of plain names
-- only, and no directory on the way is a symlink; what it resolves to is then the root with the path
-- behind it, and any other path is refused as invalid.
pub resolve-IsResolved :
    (is_symlink : FilePath → Bool) (root relative : FilePath)
    → IsResolved is_symlink root relative (resolve is_symlink root relative)
unfolding resolve is_empty
resolve-IsResolved is_symlink root [] = ((_, refl), λ k. k.0 refl)
resolve-IsResolved is_symlink root (c ∷ cs) = elim (Bool-cases (all_normal (c ∷ cs))) [
  | inr q ↦ rw (q, resolve) ((_, refl), λ k. cc (q, all_normal_complete (c ∷ cs) k.1))
  | inl q ↦
      rw (q, resolve)
        (go (refuse_symlinked_ancestors is_symlink root (c ∷ cs))
          (unfold refuse_symlinked_ancestors in refuse_from-IsWalked is_symlink root (c ∷ cs))
          (all_normal-All (c ∷ cs) q))
]
  where
    go :
        (r : Result (Unit {0}))
        → IsWalked is_symlink root (c ∷ cs) r
        → All IsName (c ∷ cs)
        → IsResolved is_symlink root (c ∷ cs) (r >>= λ u. ok (join root (c ∷ cs)))
    go (ok u) h names = (push_all-names root (c ∷ cs) names, ((λ e. cc e), names, h))
    go (err e) (i, h) names = (i, λ k. h k.2)
