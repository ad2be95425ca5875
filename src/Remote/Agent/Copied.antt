-- ===== src/Remote/Agent/Copied.antt =====
-- crates/treesync/src/remote/agent.rs: what `copy_range` leaves in the temporary.
use treesync.Prelude.{
  ℕ, zero, suc, ◌+◌, ◌-◌, ◌≤◌, ◌++◌, Bool, true, false, Bool-cases, Option, Option-cases, none,
  some, ◌≡◌, refl, sym, ap, ◌∙◌, ◌⊎◌, inl, inr, arith, take, drop, drop-drop, take_add,
  append_assoc, append-nil, ◌==◌, nat_eq, if◌then◌else◌,
}
use Prim.Native.Nat.{min}
use mathlib.Core.Path.{subst}
use treesync.Prelude.Int.{ℤ}
use treesync.FilePath.{Bytes}
use treesync.Error.{Error, codes, from_io, Result, ok, err}
use treesync.Remote.Token.Meaning.{range}
use treesync.Remote.Agent.{Disk, Os, regular, answer, append, extend, write_all}
use treesync.Remote.Agent.Copy.{
  chunk_size, Outcome, and_then, copy_piece, copy_loop, check_range, copy_range,
}

-- Nothing but the temporary was touched.
abbrev pub Kept : Disk → Disk → Type 0
Kept d r = (r.destination ≡ d.destination) × (r.mode ≡ d.mode)

-- The temporary is a file of these bytes.
abbrev pub Holds : Disk → Bytes → Type 0
Holds d bs = (m : Option ℤ) × (d.temporary ≡ some (regular bs m))

-- Of an operation on `d` that should leave `bs` in the temporary, and the same in the hasher.
abbrev pub IsOutcome : Disk → Bytes → Outcome → Type 0
IsOutcome d bs (err e, r, hashed) = Kept d r
IsOutcome d bs (ok u, r, hashed) = Kept d r × (hashed ≡ bs) × Holds r bs

-- Of one that only reads.
abbrev pub IsUnchanged : Disk → Bytes → Outcome → Type 0
IsUnchanged d bs (err e, r, hashed) = (r ≡ d)
IsUnchanged d bs (ok u, r, hashed) = (r ≡ d) × (hashed ≡ bs)

pub and_then-IsOutcome :
    (d : Disk) (bs cs : Bytes) (o : Outcome) (next : Disk → Bytes → Outcome)
    → IsOutcome d bs o
    → ((r : Disk) (h : Bytes) → Kept d r → h ≡ bs → Holds r bs → IsOutcome d cs (next r h))
    → IsOutcome d cs (and_then o next)
unfolding and_then
and_then-IsOutcome d bs cs (err e, r, h) next k more = k
and_then-IsOutcome d bs cs (ok u, r, h) next (k, e, t) more = more r h k e t

pub checked-IsOutcome :
    (d : Disk) (r : Disk) (h bs : Bytes) (a : Result (Unit {0}))
    → Kept d r
    → h ≡ bs
    → Holds r bs
    → IsOutcome d bs (a, r, h)
checked-IsOutcome d r h bs (err x) k e t = k
checked-IsOutcome d r h bs (ok u) k e t = (k, e, t)

extend-Holds : (d : Disk) (bs piece : Bytes) → Holds d bs → Holds (append piece d) (bs ++ piece)
unfolding extend
extend-Holds d bs piece (m, e) = (none, ap (extend piece) e)

write_all-cases :
    (os : Os) (piece : Bytes) (r : Disk)
    → (write_all os piece r ≡ (ok tt, append piece r))
      ⊎ ((x : Error) × (n : ℕ) × (write_all os piece r ≡ (err x, append (take n piece) r)))
unfolding write_all
write_all-cases os piece r = elim (Option-cases (os.writes piece r)) [
  | inl q ↦ inl (rw (q, write_all))
  | inr ((x, n), q) ↦ inr (from_io x (codes "a file operation"), n, rw (q, write_all))
]

pub write_all-Kept : (os : Os) (piece : Bytes) (d : Disk) → Kept d (write_all os piece d).1
write_all-Kept os piece d = elim (write_all-cases os piece d) [
  | inl q ↦ subst (λ (w : Result (Unit {0}) × Disk). Kept d w.1) (sym q) (refl, refl)
  | inr (x, n, q) ↦ subst (λ (w : Result (Unit {0}) × Disk). Kept d w.1) (sym q) (refl, refl)
]

pub write_all-Holds :
    (os : Os) (d : Disk) (bs piece : Bytes)
    → Holds d bs
    → (write_all os piece d).0 ≡ ok tt
    → Holds (write_all os piece d).1 (bs ++ piece)
write_all-Holds os d bs piece t e = elim (write_all-cases os piece d) [
  | inl q ↦
      subst (λ (w : Result (Unit {0}) × Disk). Holds w.1 (bs ++ piece)) (sym q)
        (extend-Holds d bs piece t)
  | inr (x, n, q) ↦ absurd (err_not_ok x (sym (ap (λ (w : Result (Unit {0}) × Disk). w.0) q) ∙ e))
]
  where
    err_not_ok : (x : Error) → Path (Result (Unit {0})) (err x) (ok tt) → ⊥
    err_not_ok x h = cc h

write_all-IsOutcome :
    (os : Os) (d r : Disk) (h bs piece : Bytes)
    → Kept d r
    → h ≡ bs
    → Holds r bs
    → IsOutcome d (bs ++ piece) (
        and_then
          ((write_all os piece r).0, (write_all os piece r).1, h)
          (λ t i. (ok tt, t, i ++ piece)))
write_all-IsOutcome os d r h bs piece k e t =
    go (write_all os piece r) (write_all-Kept os piece r) (λ q. write_all-Holds os r bs piece t q)
  where
    go :
        (w : Result (Unit {0}) × Disk)
        → Kept r w.1
        → (w.0 ≡ ok tt → Holds w.1 (bs ++ piece))
        → IsOutcome d (bs ++ piece) (and_then (w.0, w.1, h) (λ t i. (ok tt, t, i ++ piece)))
    go (err x, u) l m = unfold and_then in (l.0 ∙ k.0, l.1 ∙ k.1)
    go (ok v, u) l m =
        unfold and_then in ((l.0 ∙ k.0, l.1 ∙ k.1), ap (λ (x : Bytes). x ++ piece) e, m refl)

copy_piece-IsOutcome :
    (os : Os) (offset want : ℕ) (d r : Disk) (h bs piece : Bytes)
    → Kept d r
    → h ≡ bs
    → Holds r bs
    → IsOutcome d (bs ++ piece) (copy_piece os offset want piece r h)
unfolding copy_piece
copy_piece-IsOutcome os offset want d r h bs piece k e t =
    and_then-IsOutcome d bs (bs ++ piece) _ _
      (checked-IsOutcome d r h bs (answer (os.reads offset want r)) k e t)
      (λ u i k1 e1 t1. write_all-IsOutcome os d u i bs piece k1 e1 t1)

pub range-split :
    (source : Bytes) (offset want len : ℕ)
    → want ≤ len
    → range source offset want ++ range source (offset + want) (len - want)
      ≡ range source offset len
range-split source offset want len l =
    ap (λ (x : Bytes). range source offset want ++ take (len - want) x)
      (sym (drop-drop want offset source))
    ∙ sym (take_add want (len - want) (drop offset source))
    ∙ ap (λ (n : ℕ). take n (drop offset source)) (omega (arith, l))

pub otherwise : (b : Bool) (x y : Outcome) → b ≡ false → (if b then x else y) ≡ y
otherwise b x y e = ground (arith, e)

pub chosen : (b : Bool) (x y : Outcome) → b ≡ true → (if b then x else y) ≡ x
chosen b x y e = ground (arith, e)

finished-IsOutcome :
    (source : Bytes) (offset len : ℕ) (d r : Disk) (h bs : Bytes)
    → len ≡ 0
    → Kept d r
    → h ≡ bs
    → Holds r bs
    → IsOutcome d (bs ++ range source offset len) (ok tt, r, h)
finished-IsOutcome source offset len d r h bs z k e t =
    let same : bs ++ range source offset len ≡ bs =
      ap (λ (n : ℕ). bs ++ range source offset n) z ∙ append-nil bs in
    (k, e ∙ sym same, subst (Holds r) (sym same) t)

pub copy_loop-IsOutcome :
    (os : Os) (source : Bytes) (fuel offset len : ℕ) (d r : Disk) (h bs : Bytes)
    → len ≤ fuel
    → Kept d r
    → h ≡ bs
    → Holds r bs
    → IsOutcome d (bs ++ range source offset len) (copy_loop os source fuel offset len r h)
unfolding copy_loop
copy_loop-IsOutcome os source zero offset len d r h bs l k e t =
    let none_left : (len == 0) ≡ true = ground (arith, l) in
    subst (IsOutcome d (bs ++ range source offset len)) (sym (chosen (len == 0) _ _ none_left))
      (finished-IsOutcome source offset len d r h bs (omega (arith, l)) k e t)
copy_loop-IsOutcome os source (suc fuel) offset len d r h bs l k e t =
    elim (Bool-cases (len == 0)) [
      | inl q ↦
          subst (IsOutcome d (bs ++ range source offset len)) (sym (chosen (len == 0) _ _ q))
            (finished-IsOutcome source offset len d r h bs (ground (arith, q)) k e t)
      | inr q ↦
          let want : ℕ = min len chunk_size in
          let some_left : 1 ≤ len = ground (arith, q) in
          let piece : Bytes = range source offset want in
          subst (λ (o : Outcome). IsOutcome d (bs ++ range source offset len) o)
            (sym (otherwise (len == 0) _ _ q))
            (and_then-IsOutcome d (bs ++ piece) (bs ++ range source offset len) _ _
              (copy_piece-IsOutcome os offset want d r h bs piece k e t)
              (λ u i k1 e1 t1.
                subst
                  (λ (x : Bytes).
                    IsOutcome d x (copy_loop os source fuel (offset + want) (len - want) u i))
                  (append_assoc bs piece (range source (offset + want) (len - want))
                    ∙ ap (λ (x : Bytes). bs ++ x)
                        (range-split source offset want len (omega arith)))
                  (copy_loop-IsOutcome os source fuel (offset + want) (len - want) d u i
                    (bs ++ piece) (omega (arith, l, some_left)) k1 e1 t1)))
    ]

-- A range of the old file, copied behind what the temporary holds.
pub copy_range-IsOutcome :
    (os : Os) (source : Bytes) (offset len : ℕ) (d : Disk) (bs : Bytes)
    → Holds d bs
    → IsOutcome d (bs ++ range source offset len) (copy_range os source offset len d bs)
unfolding copy_range
copy_range-IsOutcome os source offset len d bs t =
    and_then-IsOutcome d bs (bs ++ range source offset len) _ _
      (checked-IsOutcome d d bs bs (check_range os source offset len d) (refl, refl) refl t)
      (λ r h k e u. copy_loop-IsOutcome os source len offset len d r h bs (omega arith) k e u)
