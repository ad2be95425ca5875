-- ===== src/Remote/Agent/Opened.antt =====
-- crates/treesync/src/remote/agent.rs: the temporary and its directory when the loop of
-- `receive_patch` starts.
use treesync.Prelude.{
  ℕ, zero, suc, [], true, Bool-cases, Option, Option-cases, none, some, ◌≡◌, refl, ap, ◌∙◌, inl,
  inr, ◌==◌, nat_eq,
}
use Prim.Native.Nat.{bit_and, bit_or}
use mathlib.Core.Path.{subst}
use treesync.Error.{
  Error, IoKind, io_not_found, io_permission_denied, io_already_exists, io_unexpected_eof, io_other,
  Result, ok, err, Result-cases, ok-injective,
}
use treesync.Remote.Agent.{
  Disk, Os, owner_may_write, relax_dir, create_temporary, create_new, removed, retried, widen_for,
  open_temporary, is_permission_denied,
}
use treesync.Remote.Agent.Copy.{Outcome, resume}
use treesync.Remote.Agent.Copied.{Kept, Holds}
use treesync.Remote.Agent.Resumed.{IsOpened, resume-IsOpened}
use treesync.Remote.Agent.Patch.{Patch, with_outcome, open_patch}

-- The directory of `r` against that of `d`: what is to be put back are the bits that it had.
abbrev pub WasMode : Option ℕ → Disk → Disk → Type 0
WasMode none d r = r.mode ≡ d.mode
WasMode (some original) d r = original ≡ bit_and d.mode 4095

pub record IsRelaxed (d : Disk) (o : Option ℕ × Disk) : Type 0 where
  pub same_files : o.1.destination ≡ d.destination
  pub was_mode : WasMode o.0 d o.1

pub relax_dir-IsRelaxed : (os : Os) (d : Disk) → IsRelaxed d (relax_dir os d)
unfolding relax_dir
relax_dir-IsRelaxed os d = elim (Bool-cases (os.stats_parent d)) [
  | inr q ↦ rw (q, relax_dir) (record { same_files = refl; was_mode = refl })
  | inl q ↦ elim (Bool-cases (bit_and (bit_and d.mode 4095) owner_may_write == owner_may_write)) [
    | inl p ↦ rw (q, p, relax_dir) (record { same_files = refl; was_mode = refl })
    | inr p ↦
        elim (Option-cases (os.changes_mode (bit_or (bit_and d.mode 4095) owner_may_write) d)) [
          | inl e ↦ rw (q, p, e, relax_dir) (record { same_files = refl; was_mode = refl })
          | inr (k, e) ↦ rw (q, p, e, relax_dir) (record { same_files = refl; was_mode = refl })
        ]
  ]
]

create_new-Holds : (os : Os) (d t : Disk) → create_new os d ≡ ok t → Kept d t × Holds t []
unfolding create_new
create_new-Holds os d t e = elim (Option-cases (os.creates d)) [
  | inr (k, q) ↦ cc (rw (q, create_new) at e)
  | inl q ↦ elim (Option-cases d.temporary) [
    | inr (x, p) ↦ cc (rw (q, p, create_new) at e)
    | inl p ↦
        let same = ok-injective (rw (q, p, create_new) at e) in
        subst (λ (x : Disk). Kept d x × Holds x []) same ((refl, refl), (none, refl))
  ]
]

removed-Kept : (o : Option IoKind) (d r : Disk) → removed o d ≡ ok r → Kept d r
unfolding removed
removed-Kept none d r e = subst (Kept d) (ok-injective e) (refl, refl)
removed-Kept (some io_not_found) d r e = subst (Kept d) (ok-injective e) (refl, refl)
removed-Kept (some io_permission_denied) d r e = cc e
removed-Kept (some io_already_exists) d r e = cc e
removed-Kept (some io_unexpected_eof) d r e = cc e
removed-Kept (some io_other) d r e = cc e

pub create_temporary-IsOpened :
    (os : Os) (d : Disk) → IsOpened d ((create_temporary os d).0, (create_temporary os d).1, [])
unfolding create_temporary
create_temporary-IsOpened os d = elim (Result-cases (removed (os.removes d) d)) [
  | inr (x, q) ↦ rw (q, create_temporary) (refl, refl)
  | inl (r, q) ↦
      let (k0, k1) = removed-Kept (os.removes d) d r q in
      elim (Result-cases (create_new os r)) [
        | inr (x, p) ↦ rw (q, p, create_temporary) (k0, k1)
        | inl (t, p) ↦
            let ((l0, l1), h) = create_new-Holds os r t p in
            rw (q, p, create_temporary) ((l0 ∙ k0, l1 ∙ k1), h)
      ]
]

-- What there is when the loop starts, and the mode that is to be put back.
pub record IsReady (d : Disk) (o : Patch × Option ℕ) : Type 0 where
  pub same_destination : o.0.disk.destination ≡ d.destination
  pub was_mode : WasMode o.1 d o.0.disk
  pub not_committed : o.0.committed ≡ none
  pub open_unless_failed : o.0.failure ≡ none → o.0.opened ≡ true
  pub holds : o.0.failure ≡ none → Holds o.0.disk o.0.hasher

opened-IsReady :
    (d : Disk) (o : Outcome) (original : Option ℕ)
    → (o.1.destination ≡ d.destination)
    → WasMode original d o.1
    → (o.0 ≡ ok tt → Holds o.1 o.2)
    → IsReady d (with_outcome o, original)
unfolding with_outcome
opened-IsReady d (ok u, r, h) original k m t = record {
  same_destination = k;
  was_mode = m;
  not_committed = refl;
  open_unless_failed = λ q. refl;
  holds = λ q. t refl;
}
opened-IsReady d (err e, r, h) original k m t = record {
  same_destination = k;
  was_mode = m;
  not_committed = refl;
  open_unless_failed = λ q. absurd (cc q);
  holds = λ q. absurd (cc q);
}

IsOpened-Kept : (d : Disk) (o : Outcome) → IsOpened d o → Kept d o.1
IsOpened-Kept d (ok u, r, h) (k, t) = k
IsOpened-Kept d (err e, r, h) k = k

IsOpened-Holds : (d : Disk) (o : Outcome) → IsOpened d o → o.0 ≡ ok tt → Holds o.1 o.2
IsOpened-Holds d (ok u, r, h) (k, t) e = t
IsOpened-Holds d (err x, r, h) k e = absurd (cc e)

WasMode-same : (o : Option ℕ) (d r t : Disk) → t.mode ≡ r.mode → WasMode o d r → WasMode o d t
WasMode-same none d r t e m = e ∙ m
WasMode-same (some original) d r t e m = m

-- Of a temporary that was opened, with the mode to put back.
abbrev pub IsWidened : Disk → Result (Unit {0}) × Option ℕ × Disk → Type 0
IsWidened d (a, original, r) =
    (r.destination ≡ d.destination) × WasMode original d r × (a ≡ ok tt → Holds r [])

retried-IsWidened :
    (os : Os) (d : Disk) (e : Error) (o : Option ℕ × Disk)
    → IsRelaxed d o
    → IsWidened d (retried os e o)
unfolding retried
retried-IsWidened os d e (none, r) l = (l.same_files, l.was_mode, λ q. absurd (cc q))
retried-IsWidened os d e (some original, r) l =
    let t = create_temporary-IsOpened os r in
    let o : Outcome = ((create_temporary os r).0, (create_temporary os r).1, []) in
    let (k0, k1) = IsOpened-Kept r o t in (k0 ∙ l.same_files, l.was_mode, IsOpened-Holds r o t)

widen_for-IsWidened :
    (os : Os) (d : Disk) (w : Result (Unit {0}) × Disk)
    → IsOpened d (w.0, w.1, [])
    → IsWidened d (widen_for os w)
unfolding widen_for
widen_for-IsWidened os d (ok u, r) ((k0, k1), t) = (k0, k1, λ q. t)
widen_for-IsWidened os d (err e, r) (k0, k1) = elim (Bool-cases (is_permission_denied e)) [
  | inr q ↦ rw (q, widen_for) (k0, k1, λ p. absurd (cc p))
  | inl q ↦
      let l = relax_dir-IsRelaxed os r in
      let same : IsRelaxed d (relax_dir os r) = record {
        same_files = l.same_files ∙ k0;
        was_mode = WasMode_from (relax_dir os r).0 d r (relax_dir os r).1 k1 l.was_mode;
      } in
      rw (q, widen_for) (retried-IsWidened os d e (relax_dir os r) same)
]
  where
    WasMode_from : (o : Option ℕ) (d r t : Disk) → r.mode ≡ d.mode → WasMode o r t → WasMode o d t
    WasMode_from none d r t e m = m ∙ e
    WasMode_from (some original) d r t e m = m ∙ ap (λ (n : ℕ). bit_and n 4095) e

pub open_temporary-IsWidened : (os : Os) (d : Disk) → IsWidened d (open_temporary os d)
unfolding open_temporary
open_temporary-IsWidened os d =
    widen_for-IsWidened os d (create_temporary os d) (create_temporary-IsOpened os d)

pub open_patch-IsReady :
    (os : Os) (resume_from : ℕ) (made : Result (Unit {0})) (d : Disk)
    → IsReady d (open_patch os resume_from made d)
unfolding open_patch
open_patch-IsReady os resume_from (err e) d =
    opened-IsReady d (err e, d, []) none refl refl (λ q. absurd (cc q))
open_patch-IsReady os zero (ok u) d =
    let (opened, original, r) = open_temporary os d in
    let (k, m, t) = open_temporary-IsWidened os d in opened-IsReady d (opened, r, []) original k m t
open_patch-IsReady os (suc n) (ok u) d =
    let (o, r) = relax_dir os d in
    let was = relax_dir-IsRelaxed os d in
    let t = resume-IsOpened os (suc n) r in
    let (k0, k1) = IsOpened-Kept r (resume os (suc n) r []) t in
    opened-IsReady d (resume os (suc n) r []) o (k0 ∙ was.same_files)
      (WasMode-same o d r _ k1 was.was_mode) (IsOpened-Holds r (resume os (suc n) r []) t)
