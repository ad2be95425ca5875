-- ===== src/Remote/Agent/Committed.antt =====
-- crates/treesync/src/remote/agent.rs: what `outcome` of `receive_patch` comes to.
use treesync.Prelude.{
  List, Bool, true, false, Bool-cases, IsIn, Option, none, some, ◌≡◌, refl, sym, ap, inl, inr, ◌==◌,
  list_eq, nat_eq, beq→eq,
}
use mathlib.Core.Path.{subst}
use treesync.FilePath.{Bytes}
use treesync.Error.{Error, Result, ok, err, ◌>>=◌, ◌>>◌}
use treesync.Remote.Wire.{WireTime, into_system_time}
use treesync.Remote.Token.{Token, commit}
use treesync.Remote.Agent.{Disk, Os, regular, answer, date, set_file_mtime, rename}
use treesync.Remote.Agent.Copied.{Kept, Holds}
use treesync.Remote.Agent.Building.{IsNamed}
use treesync.Remote.Agent.Patch.{and_rename, publish, if_same, commit_from}

-- Of a temporary that held `bs`: published with its timestamp, or nothing but the temporary touched.
abbrev pub IsPublished : Disk → Bytes → WireTime → Result (Unit {0}) × Disk → Type 0
IsPublished d bs mtime (ok u, r) =
    (r.destination ≡ some (regular bs (some (into_system_time mtime)))) × (r.mode ≡ d.mode)
IsPublished d bs mtime (err e, r) = Kept d r

date-regular :
    (mtime : WireTime) (d : Disk) (bs : Bytes)
    → Holds d bs
    → date (into_system_time mtime) d.temporary ≡ some (regular bs (some (into_system_time mtime)))
unfolding date
date-regular mtime d bs (m, e) = ap (date (into_system_time mtime)) e

rename-IsPublished :
    (os : Os) (d r : Disk) (bs : Bytes) (mtime : WireTime)
    → Kept d r
    → r.temporary ≡ some (regular bs (some (into_system_time mtime)))
    → IsPublished d bs mtime (and_rename os (ok r) d)
unfolding and_rename rename
rename-IsPublished os d r bs mtime k e = go (answer (os.renames r))
  where
    go :
        (a : Result (Unit {0}))
        → IsPublished d bs mtime
            (elim (a >>= λ u. ok (record r { destination = r.temporary; temporary = none })) [
              | err x ↦ (err x, r)
              | ok t ↦ (ok tt, t)
            ])
    go (err x) = k
    go (ok u) = (e, k.1)

pub publish-IsPublished :
    (os : Os) (d : Disk) (bs : Bytes) (mtime : WireTime)
    → Holds d bs
    → IsPublished d bs mtime (publish os mtime d)
unfolding publish set_file_mtime
publish-IsPublished os d bs mtime t = go (answer (os.flushes d)) (answer (os.dates d))
  where
    go :
        (a b : Result (Unit {0}))
        → IsPublished d bs mtime (
            and_rename os
              (a
                >> (b >>= λ u.
                    ok (record d { temporary = date (into_system_time mtime) d.temporary })))
              d)
    go (err x) b = unfold and_rename in (refl, refl)
    go (ok u) (err x) = unfold and_rename in (refl, refl)
    go (ok u) (ok v) =
        rename-IsPublished os d (record d { temporary = date (into_system_time mtime) d.temporary })
          bs mtime (refl, refl) (date-regular mtime d bs t)

-- What `outcome` comes to: published as what a token of `ts` committed, or left.
abbrev pub IsCommitted : (Bytes → Bytes) → List Token → Disk → Result (Unit {0}) × Disk → Type 0
IsCommitted blake3 ts d (ok u, r) =
    (content : Bytes) × (mtime : WireTime) × (r.destination
      ≡ some (regular content (some (into_system_time mtime))))
    × IsIn (commit mtime (blake3 content)) ts
    × (r.mode ≡ d.mode)
IsCommitted blake3 ts d (err e, r) = Kept d r

if_same-IsCommitted :
    (blake3 : Bytes → Bytes) (ts : List Token) (d : Disk) (content expected : Bytes)
    (mtime : WireTime)
    → (w : Result (Unit {0}) × Disk) → IsIn (commit mtime expected) ts
    → IsPublished d content mtime w
    → IsCommitted blake3 ts d (if_same (blake3 content == expected) w d)
unfolding if_same
if_same-IsCommitted blake3 ts d content expected mtime w i h =
    elim (Bool-cases (blake3 content == expected)) [
      | inr q ↦ rw (q, if_same) (refl, refl)
      | inl q ↦
          rw (q, if_same)
            (found w h (
              subst (λ (x : Bytes). IsIn (commit mtime x) ts)
                (sym (beq→eq (blake3 content) expected q)) i))
    ]
  where
    found :
        (w : Result (Unit {0}) × Disk)
        → IsPublished d content mtime w
        → IsIn (commit mtime (blake3 content)) ts
        → IsCommitted blake3 ts d w
    found (ok u, r) (e, m) i = (content, mtime, e, i, m)
    found (err x, r) k i = k

pub commit_from-IsCommitted :
    (os : Os) (blake3 : Bytes → Bytes) (ts : List Token) (failure : Option Error)
    → (committed : Option (WireTime × Bytes)) (opened : Bool) (hasher : Bytes) (d : Disk)
    → IsNamed ts committed
    → (failure ≡ none → Holds d hasher)
    → IsCommitted blake3 ts d (commit_from os blake3 failure committed opened hasher d)
unfolding commit_from
commit_from-IsCommitted os blake3 ts (some e) committed opened hasher d n h = (refl, refl)
commit_from-IsCommitted os blake3 ts none none opened hasher d n h = (refl, refl)
commit_from-IsCommitted os blake3 ts none (some (mtime, expected)) false hasher d n h = (refl, refl)
commit_from-IsCommitted os blake3 ts none (some (mtime, expected)) true hasher d n h =
    if_same-IsCommitted blake3 ts d hasher expected mtime (publish os mtime d) n
      (publish-IsPublished os d hasher mtime (h refl))
