-- ===== src/Remote/Agent/Start.antt =====
-- crates/treesync/src/remote/agent.rs: where the loop of `receive_patch` starts when no call fails.
use treesync.Prelude.{
  ℕ, zero, suc, ◌+◌, ◌-◌, ◌≤◌, [], ◌++◌, Bool, true, Bool-cases, Option, Option-cases, none, some,
  ◌≡◌, refl, sym, ap, ◌∙◌, inl, inr, arith, length, length-take, leb, take, take_all, ◌==◌, nat_eq,
}
use Prim.Native.Nat.{bit_and, bit_or, min}
use mathlib.Core.Path.{subst}
use treesync.Prelude.Int.{ℤ}
use treesync.FilePath.{Bytes}
use treesync.Error.{codes, internal, IoKind, Result, ok, err, require}
use treesync.Remote.Token.Meaning.{range}
use treesync.Remote.Agent.{
  Disk, Os, Entry, regular, answer, owner_may_write, relax_dir, removed, create_new,
  create_temporary, widen_for,
}
use treesync.Remote.Agent.Copy.{
  chunk_size, Outcome, and_then, reabsorb_loop, reabsorb, resume_regular, resume_entry, resume,
}
use treesync.Remote.Agent.Copied.{IsUnchanged, otherwise, chosen}
use treesync.Remote.Agent.Resumed.{reabsorb-IsUnchanged}
use treesync.Remote.Agent.Obliging.{IsObliging, IsOk, and_then-IsOk, answer-none}
use treesync.Remote.Agent.Patch.{with_outcome, open_patch}
use treesync.Remote.Agent.Ahead.{IsAhead}

relax_dir-temporary : (os : Os) (d : Disk) → (relax_dir os d).1.temporary ≡ d.temporary
unfolding relax_dir
relax_dir-temporary os d = elim (Bool-cases (os.stats_parent d)) [
  | inr q ↦ rw (q, relax_dir)
  | inl q ↦ elim (Bool-cases (bit_and (bit_and d.mode 4095) owner_may_write == owner_may_write)) [
    | inl p ↦ rw (q, p, relax_dir)
    | inr p ↦
        elim (Option-cases (os.changes_mode (bit_or (bit_and d.mode 4095) owner_may_write) d)) [
          | inl e ↦ rw (q, p, e, relax_dir)
          | inr (k, e) ↦ rw (q, p, e, relax_dir)
        ]
  ]
]

-- What there is to resume from: nothing is asked for, or the temporary starts with `done`.
abbrev pub Resumes : ℕ → Disk → Bytes → Type 0
Resumes zero d done = done ≡ []
Resumes (suc n) d done =
    (content : Bytes) × (m : Option ℤ) × (d.temporary ≡ some (regular content m))
    × (suc n ≤ length content)
    × (take (suc n) content ≡ done)

and_then_ok :
    (o : Outcome) (d : Disk) (h : Bytes) (next : Disk → Bytes → Outcome) (z : Outcome)
    → o ≡ (ok tt, d, h)
    → next d h ≡ z
    → and_then o next ≡ z
and_then_ok o d h next z e more = ap (λ (x : Outcome). and_then x next) e ∙ unfold and_then in more

passed :
    (o : Option IoKind) (d : Disk) (h : Bytes)
    → o ≡ none
    → Path Outcome (answer o, d, h) (ok tt, d, h)
passed o d h e = ap (λ (a : Result (Unit {0})). (a, d, h)) (answer-none o e)

module _ (os : Os) (old : Bytes) (nice : IsObliging os old) where
  create_temporary_lem :
      (d : Disk) → create_temporary os d ≡ (ok tt, record d { temporary = some (regular [] none) })
  unfolding create_temporary removed create_new
  create_temporary_lem d =
      rw (nice.can_remove d, nice.can_create (record d { temporary = none }), create_temporary)

  reabsorb_loop-IsOk :
      (content : Bytes) (fuel offset len : ℕ) (d : Disk) (h : Bytes)
      → len ≤ fuel
      → IsOk (reabsorb_loop os content fuel offset len d h)
  unfolding reabsorb_loop
  reabsorb_loop-IsOk content zero offset len d h l =
      let none_left : (len == 0) ≡ true = ground (arith, l) in
      subst IsOk (sym (chosen (len == 0) _ _ none_left)) refl
  reabsorb_loop-IsOk content (suc fuel) offset len d h l = elim (Bool-cases (len == 0)) [
    | inl q ↦ subst IsOk (sym (chosen (len == 0) _ _ q)) refl
    | inr q ↦
        let want : ℕ = min len chunk_size in
        let some_left : 1 ≤ len = ground (arith, q) in
        subst IsOk (sym (otherwise (len == 0) _ _ q)) (
          and_then-IsOk _ _ (answer-none _ (nice.can_read offset want d)) (λ r i.
            reabsorb_loop-IsOk content fuel (offset + want) (len - want) r
              (i ++ range content offset want) (omega (arith, l, some_left))))
  ]

  reabsorb-IsOk :
      (content : Bytes) (count : ℕ) (d : Disk) (h : Bytes) → IsOk (reabsorb os content count d h)
  unfolding reabsorb
  reabsorb-IsOk content count d h =
      and_then-IsOk _ _ (answer-none _ (nice.can_open_again d))
        (λ r i. reabsorb_loop-IsOk content count 0 count r i (omega arith))

  reabsorb_lem :
      (content : Bytes) (count : ℕ) (d : Disk)
      → length content ≤ count
      → reabsorb os content count d [] ≡ (ok tt, d, content)
  reabsorb_lem content count d l =
      go (reabsorb os content count d []) (reabsorb-IsOk content count d [])
        (reabsorb-IsUnchanged os content count d [])
    where
      go :
          (o : Outcome) → IsOk o → IsUnchanged d (range content 0 count) o → o ≡ (ok tt, d, content)
      go (err x, r, h) e u = absurd (cc e)
      go (ok v, r, h) e (same, hashed) =
          ap (λ (x : Disk). (ok tt, x, h)) same
          ∙ ap (λ (x : Bytes). (ok tt, d, x)) (hashed ∙ take_all count content l)

  resume_regular_lem :
      (n : ℕ) (d : Disk) (content : Bytes)
      → n ≤ length content
      → resume_regular os content n d []
        ≡ (ok tt, record d { temporary = some (regular (take n content) none) }, take n content)
  unfolding resume_regular
  resume_regular_lem n d content l =
      let cut : Disk = record d { temporary = some (regular (take n content) none) } in
      let there : leb n (length content) ≡ true = ground (arith, l) in
      and_then_ok _ d [] _ _
        (ap (λ (b : Bool). (require b (internal (codes "only so many bytes are here")), d, []))
          there)
        (and_then_ok _ d [] _ _ (passed (os.opens_temporary d) d [] (nice.can_open_temporary d)) (
          and_then_ok _ d [] _ _ (passed (os.cuts n d) d [] (nice.can_cut n d)) (
            and_then_ok _ cut (take n content) _ _
              (reabsorb_lem (take n content) n cut (omega (arith, length-take n content)))
              (passed (os.seeks_temporary cut) cut (take n content)
                (nice.can_seek_temporary cut)))))

  resume_lem :
      (n : ℕ) (d : Disk) (content : Bytes) (m : Option ℤ)
      → d.temporary ≡ some (regular content m)
      → n ≤ length content
      → resume os n d []
        ≡ (ok tt, record d { temporary = some (regular (take n content) none) }, take n content)
  unfolding resume
  resume_lem n d content m e l =
      and_then_ok _ d [] _ _ (passed (os.stats_temporary d) d [] (nice.can_stat_temporary d)) (
        ap (λ (x : Option Entry). resume_entry os x n d []) e
        ∙ unfold resume_entry in resume_regular_lem n d content l)

  pub open_patch-IsAhead :
      (n : ℕ) (d : Disk) (done : Bytes)
      → Resumes n d done
      → IsAhead done (open_patch os n (ok tt) d).0
  unfolding open_patch
  open_patch-IsAhead zero d done e =
      subst (λ (x : Bytes). IsAhead x (open_patch os zero (ok tt) d).0) (sym e)
        (subst
          (λ (w : Result (Unit {0}) × Option ℕ × Disk). IsAhead [] (with_outcome (w.0, w.2, [])))
          (sym (ap (widen_for os) (create_temporary_lem d)))
          (unfold widen_for with_outcome in
            record { no_failure = refl; is_open = refl; hashed = refl; held = (none, refl) }))
  open_patch-IsAhead (suc n) d done (content, m, e, l, same) =
      let r : Disk = (relax_dir os d).1 in
      subst (λ (x : Bytes). IsAhead x (with_outcome (resume os (suc n) r []))) same
        (subst (λ (o : Outcome). IsAhead (take (suc n) content) (with_outcome o))
          (sym (resume_lem (suc n) r content m (relax_dir-temporary os d ∙ e) l))
          (unfold with_outcome in
            record { no_failure = refl; is_open = refl; hashed = refl; held = (none, refl) }))
