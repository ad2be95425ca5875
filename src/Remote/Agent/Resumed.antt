-- ===== src/Remote/Agent/Resumed.antt =====
-- crates/treesync/src/remote/agent.rs: what `resume` leaves in the temporary.
use treesync.Prelude.{
  ℕ, zero, suc, ◌+◌, ◌-◌, ◌≤◌, [], ◌++◌, true, Bool-cases, Option, none, some, ◌≡◌, refl, sym, ap,
  ◌∙◌, inl, inr, arith, leb, length, take, take_all, length-take, append_assoc, append-nil, ◌==◌,
  nat_eq,
}
use Prim.Native.Nat.{min}
use mathlib.Core.Path.{subst}
use treesync.FilePath.{Bytes}
use treesync.Error.{Error, Result, ok, err, require}
use treesync.Remote.Token.Meaning.{range}
use treesync.Remote.Agent.{Disk, Os, Entry, regular, irregular, answer}
use treesync.Remote.Agent.Copy.{
  chunk_size, Outcome, and_then, reabsorb_loop, reabsorb, resume_regular, resume_entry, resume,
}
use treesync.Remote.Agent.Copied.{Kept, Holds, IsUnchanged, range-split, otherwise, chosen}

pub and_then-IsUnchanged :
    (d : Disk) (bs cs : Bytes) (o : Outcome) (next : Disk → Bytes → Outcome)
    → IsUnchanged d bs o
    → IsUnchanged d cs (next d bs)
    → IsUnchanged d cs (and_then o next)
unfolding and_then
and_then-IsUnchanged d bs cs (err e, r, h) next k more = k
and_then-IsUnchanged d bs cs (ok u, r, h) next (k, e) more =
    subst (λ (x : Disk). IsUnchanged d cs (next x h)) (sym k)
      (subst (λ (x : Bytes). IsUnchanged d cs (next d x)) (sym e) more)

checked-IsUnchanged : (d : Disk) (h : Bytes) (a : Result (Unit {0})) → IsUnchanged d h (a, d, h)
checked-IsUnchanged d h (err x) = refl
checked-IsUnchanged d h (ok u) = (refl, refl)

reabsorb_loop-IsUnchanged :
    (os : Os) (content : Bytes) (fuel offset len : ℕ) (d : Disk) (h : Bytes)
    → len ≤ fuel
    → IsUnchanged d (h ++ range content offset len) (reabsorb_loop os content fuel offset len d h)
unfolding reabsorb_loop
reabsorb_loop-IsUnchanged os content zero offset len d h l =
    let none_left : (len == 0) ≡ true = ground (arith, l) in
    subst (IsUnchanged d (h ++ range content offset len)) (sym (chosen (len == 0) _ _ none_left)) (
      let z : 0 ≡ len = omega (arith, l) in
      (refl, sym (append-nil h) ∙ ap (λ (n : ℕ). h ++ range content offset n) z))
reabsorb_loop-IsUnchanged os content (suc fuel) offset len d h l = elim (Bool-cases (len == 0)) [
  | inl q ↦
      let z : 0 ≡ len = ground (arith, q) in
      subst (IsUnchanged d (h ++ range content offset len)) (sym (chosen (len == 0) _ _ q))
        (refl, sym (append-nil h) ∙ ap (λ (n : ℕ). h ++ range content offset n) z)
  | inr q ↦
      let want : ℕ = min len chunk_size in
      let some_left : 1 ≤ len = ground (arith, q) in
      subst (IsUnchanged d (h ++ range content offset len)) (sym (otherwise (len == 0) _ _ q)) (
        and_then-IsUnchanged d h (h ++ range content offset len) _ _
          (checked-IsUnchanged d h (answer (os.reads offset want d)))
          (subst
            (λ (x : Bytes). IsUnchanged d x (
              reabsorb_loop os content fuel (offset + want) (len - want) d
                (h ++ range content offset want)))
            (append_assoc h (range content offset want) (range content (offset + want) (len - want))
              ∙ ap (λ (x : Bytes). h ++ x) (range-split content offset want len (omega arith)))
            (reabsorb_loop-IsUnchanged os content fuel (offset + want) (len - want) d
              (h ++ range content offset want) (omega (arith, l, some_left)))))
]

-- An operation that left in the temporary what it hashed, or failed.
abbrev pub IsOpened : Disk → Outcome → Type 0
IsOpened d (err e, r, h) = Kept d r
IsOpened d (ok u, r, h) = Kept d r × Holds r h

checked-then :
    (P : Outcome → Type 0) (a : Result (Unit {0})) (d : Disk) (h : Bytes)
    (next : Disk → Bytes → Outcome)
    → ((e : Error) → P (err e, d, h))
    → P (next d h)
    → P (and_then (a, d, h) next)
unfolding and_then
checked-then P (err e) d h next failed more = failed e
checked-then P (ok u) d h next failed more = more

reabsorbed-IsOpened :
    (d cut : Disk) (bs : Bytes) (o : Outcome) (next : Disk → Bytes → Outcome)
    → Kept d cut
    → IsUnchanged cut bs o
    → ((e : Error) → IsOpened d (err e, cut, bs))
    → IsOpened d (next cut bs)
    → IsOpened d (and_then o next)
unfolding and_then
reabsorbed-IsOpened d cut bs (err e, r, h) next k u failed more = subst (Kept d) (sym u) k
reabsorbed-IsOpened d cut bs (ok u, r, h) next k (e, f) failed more =
    subst (λ (x : Disk). IsOpened d (next x h)) (sym e)
      (subst (λ (x : Bytes). IsOpened d (next cut x)) (sym f) more)

seeked-IsOpened :
    (d cut : Disk) (bs : Bytes) (a : Result (Unit {0}))
    → Kept d cut
    → Holds cut bs
    → IsOpened d (a, cut, bs)
seeked-IsOpened d cut bs (err e) k t = k
seeked-IsOpened d cut bs (ok u) k t = (k, t)

pub reabsorb-IsUnchanged :
    (os : Os) (content : Bytes) (count : ℕ) (d : Disk) (h : Bytes)
    → IsUnchanged d (h ++ range content 0 count) (reabsorb os content count d h)
unfolding reabsorb
reabsorb-IsUnchanged os content count d h =
    and_then-IsUnchanged d h (h ++ range content 0 count) _ _
      (checked-IsUnchanged d h (answer (os.opens_again d)))
      (reabsorb_loop-IsUnchanged os content count 0 count d h (omega arith))

resume_regular-IsOpened :
    (os : Os) (content : Bytes) (count : ℕ) (d : Disk)
    → IsOpened d (resume_regular os content count d [])
unfolding resume_regular
resume_regular-IsOpened os content count d =
    checked-then (IsOpened d) (require (leb count (length content)) _) d [] _ (λ e. (refl, refl))
      (checked-then (IsOpened d) (answer (os.opens_temporary d)) d [] _ (λ e. (refl, refl))
        (checked-then (IsOpened d) (answer (os.cuts count d)) d [] _ (λ e. (refl, refl))
          (reabsorbed-IsOpened d cut kept _ _ (refl, refl) read_back (λ e. (refl, refl))
            (seeked-IsOpened d cut kept (answer (os.seeks_temporary cut)) (refl, refl)
              (none, refl)))))
  where
    kept : Bytes
    kept = take count content

    cut : Disk
    cut = record d { temporary = some (regular (take count content) none) }

    read_back : IsUnchanged cut kept (reabsorb os kept count cut [])
    read_back =
        subst (λ (x : Bytes). IsUnchanged cut x (reabsorb os kept count cut []))
          (take_all count kept (omega (arith, length-take count content)))
          (reabsorb-IsUnchanged os kept count cut [])

pub resume-IsOpened : (os : Os) (count : ℕ) (d : Disk) → IsOpened d (resume os count d [])
unfolding resume
resume-IsOpened os count d =
    checked-then (IsOpened d) (answer (os.stats_temporary d)) d [] _ (λ e. (refl, refl))
      (go d.temporary)
  where
    go : (e : Option Entry) → IsOpened d (resume_entry os e count d [])
    go none = unfold resume_entry in (refl, refl)
    go (some irregular) = unfold resume_entry in (refl, refl)
    go (some (regular content mtime)) =
        unfold resume_entry in resume_regular-IsOpened os content count d
