-- ===== src/Remote/Agent/Mode.antt =====
-- crates/treesync/src/remote/agent.rs: the permissions of the directory that takes a transfer.
use treesync.Prelude.{ℕ, List, [], Option, none, some, ◌≡◌, refl, sym, ◌∙◌}
use Prim.Native.Nat.{bit_and}
use mathlib.Core.Path.{subst}
use treesync.FilePath.{Bytes}
use treesync.Error.{Result, ok, err}
use treesync.Remote.Token.{Token}
use treesync.Remote.Frame.{Codec, Zstd, Stream}
use treesync.Remote.Agent.{Disk, Os, answer, restore_mode, discard}
use treesync.Remote.Agent.Opened.{WasMode, IsReady, open_patch-IsReady}
use treesync.Remote.Agent.Frames.{token_ends, Received, finished, died, out_of_fuel}
use treesync.Remote.Agent.Aligned.{fold, map_received, recorded, receive-recorded}
use treesync.Remote.Agent.Building.{fold-IsBuilding, IsNamed, fold-IsNamed}
use treesync.Remote.Agent.Committed.{IsCommitted, commit_from-IsCommitted}
use treesync.Remote.Agent.Publish.{ready-IsBuilding, discard-Kept}
use treesync.Remote.Agent.Patch.{
  Patch, take_token, open_patch, commit_patch, end_transfer, conclude, receive_patch,
}

module _ (os : Os) (d : Disk) (can_change : (m : ℕ) (r : Disk) → os.changes_mode m r ≡ none)
    (only_permissions : bit_and d.mode 4095 ≡ d.mode) where
  restore_mode-mode :
      (original : Option ℕ) (r x : Disk)
      → WasMode original d r
      → x.mode ≡ r.mode
      → (restore_mode os original x).mode ≡ d.mode
  unfolding restore_mode
  restore_mode-mode none r x w e = e ∙ w
  restore_mode-mode (some original) r x w e =
      rw (can_change original x, restore_mode) (w ∙ only_permissions)

  end_transfer-mode :
      (blake3 : Bytes → Bytes) (original : Option ℕ) (ts : List Token) (r b : Disk)
      (w : Result (Unit {0}) × Disk)
      → WasMode original d r
      → b.mode ≡ r.mode
      → IsCommitted blake3 ts b w
      → (end_transfer os original w).1.mode ≡ d.mode
  unfolding end_transfer
  end_transfer-mode blake3 original ts r b (ok u, x) w e (content, mtime, h, i, m) =
      restore_mode-mode original r x w (m ∙ e)
  end_transfer-mode blake3 original ts r b (err y, x) w e k =
      restore_mode-mode original r (discard os x) w ((discard-Kept os x).1 ∙ k.1 ∙ e)

  conclude-mode :
      (blake3 : Bytes → Bytes) (existing : Option Bytes) (p : Patch) (original : Option ℕ)
      → (r : Received (List Token) × Stream) → IsReady d (p, original)
      → (conclude os blake3 original (map_received (fold (take_token os existing) p) r)).2.mode
        ≡ d.mode
  unfolding conclude commit_patch
  conclude-mode blake3 existing p original (finished ts, rest) ready =
      let q : Patch = fold (take_token os existing) p ts in
      let built = fold-IsBuilding os p.disk existing ts p (ready-IsBuilding d p original ready) in
      end_transfer-mode blake3 original ts p.disk q.disk _ ready.was_mode built.untouched.1 (
        commit_from-IsCommitted os blake3 ts q.failure q.committed q.opened q.hasher q.disk
          (fold-IsNamed os existing ts [] p
            (subst (λ o. IsNamed [] o) (sym ready.not_committed) tt))
          built.holds)
  conclude-mode blake3 existing p original (died e ts, rest) ready =
      restore_mode-mode original p.disk (fold (take_token os existing) p ts).disk ready.was_mode
        (fold-IsBuilding os p.disk existing ts p (ready-IsBuilding d p original ready)).untouched.1
  conclude-mode blake3 existing p original (out_of_fuel ts, rest) ready =
      restore_mode-mode original p.disk (fold (take_token os existing) p ts).disk ready.was_mode
        (fold-IsBuilding os p.disk existing ts p (ready-IsBuilding d p original ready)).untouched.1

-- A directory that was widened to take a patch has its old permissions back when the patch is over,
-- published, refused or broken off, for a fresh transfer and for a resumed one. The system lets the
-- permissions be changed, and the mode of the directory is permission bits only.
pub receive_patch-mode :
    (codec : Codec Token) (zstd : Zstd) (blake3 : Bytes → Bytes) (os : Os)
    → (paths : Result (Unit {0})) (resume_from : ℕ) (s : Stream) (d : Disk)
    → ((m : ℕ) (r : Disk) → os.changes_mode m r ≡ none)
    → bit_and d.mode 4095 ≡ d.mode
    → (receive_patch codec zstd blake3 os paths resume_from s d).2.mode ≡ d.mode
unfolding receive_patch
receive_patch-mode codec zstd blake3 os (err e) resume_from s d c o = refl
receive_patch-mode codec zstd blake3 os (ok u) resume_from s d c o =
    let (p, original) = open_patch os resume_from (answer (os.makes_parent d)) d in
    subst (λ (r : Received Patch × Stream). (conclude os blake3 original r).2.mode ≡ d.mode)
      (sym (receive-recorded codec zstd token_ends (take_token os (os.existing d)) s p))
      (conclude-mode os d c o blake3 (os.existing d) p original (recorded codec zstd token_ends s)
        (open_patch-IsReady os resume_from (answer (os.makes_parent d)) d))
