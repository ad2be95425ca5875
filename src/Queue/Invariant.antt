-- ===== src/Queue/Invariant.antt =====
-- crates/treesync/src/queue/mod.rs: the invariant of the window, and its sets and maps.
use treesync.Prelude.{
  ℕ, List, [], ◌∷◌, ◌++◌, true, false, Bool-cases, Option, none, some, ◌≡◌, ◌≢◌, refl, inl, inr,
  All, IsIn, arith, ◌==◌, beq→eq, beq_refl, nat_eq, list_eq,
}
use mathlib.Core.Path.{subst}
use mathlib.Core.Option.{some-injective}
use treesync.FilePath.{FilePath, component_eq}
use treesync.Queue.{EventQueue, Rename, HalfMove, from, to, contains, insert, half_at, forget}

abbrev pub IsDistinct : List FilePath → Type 0
IsDistinct [] = Unit
IsDistinct (p ∷ ps) = (contains p ps ≡ false) × IsDistinct ps

abbrev pub half_path : HalfMove → FilePath
half_path (from p) = p
half_path (to p) = p

abbrev pub RenameIn : List FilePath → Rename → Type 0
RenameIn ps r = IsIn r.source ps × IsIn r.target ps

abbrev pub HalfIn : List FilePath → ℕ × HalfMove → Type 0
HalfIn ps h = IsIn (half_path h.1) ps

-- A window is open exactly when a path is pending.
abbrev pub IsDated : List FilePath → Option ℕ → Type 0
IsDated [] t = t ≡ none
IsDated (p ∷ ps) t = t ≢ none

pub record IsConsistent (q : EventQueue) : Type 0 where
  pub distinct : IsDistinct q.pending
  pub renamed : All (RenameIn q.pending) q.renames
  pub halves : All (HalfIn q.pending) q.half_moves
  pub dated : IsDated q.pending q.window_opened

pub contains→IsIn : (p : FilePath) (ps : List FilePath) → contains p ps ≡ true → IsIn p ps
unfolding contains
contains→IsIn p [] h = cc
contains→IsIn p (q ∷ qs) h = ground (arith, beq→eq p q, contains→IsIn p qs)

pub IsIn→contains : (p : FilePath) (ps : List FilePath) → IsIn p ps → contains p ps ≡ true
unfolding contains
IsIn→contains p [] h = absurd h
IsIn→contains p (q ∷ qs) (inl e) = ground (arith, beq_refl p)
IsIn→contains p (q ∷ qs) (inr h) = ground (arith, IsIn→contains p qs h)

pub insert-IsIn : (p : FilePath) (ps : List FilePath) → IsIn p (insert p ps)
unfolding insert
insert-IsIn p ps = elim (Bool-cases (contains p ps)) [
  | inl e ↦ rw e (contains→IsIn p ps e)
  | inr e ↦ rw e (inl refl)
]

pub insert-keeps : (p q : FilePath) (ps : List FilePath) → IsIn q ps → IsIn q (insert p ps)
unfolding insert
insert-keeps p q ps h = elim (Bool-cases (contains p ps)) [ inl e ↦ rw e h | inr e ↦ rw e (inr h) ]

pub insert-IsDistinct :
    (p : FilePath) (ps : List FilePath) → IsDistinct ps → IsDistinct (insert p ps)
unfolding insert
insert-IsDistinct p ps d = elim (Bool-cases (contains p ps)) [
  | inl e ↦ rw e d
  | inr e ↦ rw e (e, d)
]

pub insert-IsDated : (p : FilePath) (ps : List FilePath) (t : ℕ) → IsDated (insert p ps) (some t)
unfolding insert contains
insert-IsDated p [] t = λ e. cc
insert-IsDated p (q ∷ qs) t = elim (Bool-cases (contains p (q ∷ qs))) [
  | inl e ↦ rw e (λ x. cc)
  | inr e ↦ rw e (λ x. cc)
]

pub renames-insert :
    (p : FilePath) (ps : List FilePath) (rs : List Rename)
    → All (RenameIn ps) rs
    → All (RenameIn (insert p ps)) rs
renames-insert p ps [] h = tt
renames-insert p ps (r ∷ rs) ((a, b), hs) =
    ((insert-keeps p r.source ps a, insert-keeps p r.target ps b), renames-insert p ps rs hs)

pub halves-insert :
    (p : FilePath) (ps : List FilePath) (hs : List (ℕ × HalfMove))
    → All (HalfIn ps) hs
    → All (HalfIn (insert p ps)) hs
halves-insert p ps [] k = tt
halves-insert p ps (h ∷ hs) (k, ks) =
    (insert-keeps p (half_path h.1) ps k, halves-insert p ps hs ks)

pub forget-HalfIn :
    (ps : List FilePath) (cookie : ℕ) (hs : List (ℕ × HalfMove))
    → All (HalfIn ps) hs
    → All (HalfIn ps) (forget cookie hs)
unfolding forget
forget-HalfIn ps cookie [] k = tt
forget-HalfIn ps cookie ((c, h) ∷ hs) (k, ks) = elim (Bool-cases (c == cookie)) [
  | inl e ↦ rw e (forget-HalfIn ps cookie hs ks)
  | inr e ↦ rw e (k, forget-HalfIn ps cookie hs ks)
]

pub half_at-IsIn :
    (ps : List FilePath) (cookie : ℕ) (hs : List (ℕ × HalfMove)) (h : HalfMove)
    → All (HalfIn ps) hs
    → half_at cookie hs ≡ some h
    → IsIn (half_path h) ps
unfolding half_at
half_at-IsIn ps cookie [] h k e = cc
half_at-IsIn ps cookie ((c, g) ∷ hs) h (k, ks) e = elim (Bool-cases (c == cookie)) [
  | inl q ↦ subst (λ x. IsIn (half_path x) ps) (some-injective g h (rw q at e)) k
  | inr q ↦ half_at-IsIn ps cookie hs h ks (rw q at e)
]

pub renames-append :
    (ps : List FilePath) (rs : List Rename) (r : Rename)
    → All (RenameIn ps) rs
    → RenameIn ps r
    → All (RenameIn ps) (rs ++ (r ∷ []))
renames-append ps [] r h k = (k, tt)
renames-append ps (x ∷ rs) r (h, hs) k = (h, renames-append ps rs r hs k)
