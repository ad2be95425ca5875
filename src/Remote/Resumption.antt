-- ===== src/Remote/Resumption.antt =====
-- crates/treesync/src/remote/agent.rs: `resume_state`, and crates/treesync/src/remote/ssh.rs:
-- `resumable_from` and `hash_prefix`. Whether the root is there, what the path resolves to and what
-- the source reads as are parameters.
pub mod Agreement
use treesync.Prelude.{
  ℕ, zero, suc, List, [], ◌∷◌, Bool, true, false, Option, none, some, ltb, length, take, ◌==◌,
  list_eq, nat_eq, if◌then◌else◌,
}
use treesync.FilePath.{Bytes}
use treesync.Error.{
  Error, IoKind, io_not_found, io_permission_denied, io_already_exists, io_unexpected_eof, io_other,
  Result, ok, err, ◌>>=◌,
}
use treesync.Remote.Message.{
  Response, hello, done, index, error, signature, resume_state, from_error, into_result,
}
use treesync.Remote.Agent.{Disk, Os, Entry, regular, irregular, answer}
use treesync.Remote.Agent.Copy.{Outcome, reabsorb}

unfoldable pub nothing : (Bytes → Bytes) → Result Response
nothing blake3 = ok (resume_state 0 (blake3 []))

-- The digest of what was read back, with how many bytes it is of.
unfoldable pub reported : (Bytes → Bytes) → ℕ → Outcome → Result Response
reported blake3 count (ok u, d, hashed) = ok (resume_state count (blake3 hashed))
reported blake3 count (err e, d, hashed) = err e

-- By what is at the temporary's path.
unfoldable pub state_of : Os → (Bytes → Bytes) → Option Entry → Disk → Result Response
unfolding nothing reported reabsorb
state_of os blake3 none d = nothing blake3
state_of os blake3 (some irregular) d = nothing blake3
state_of os blake3 (some (regular [] mtime)) d = nothing blake3
state_of os blake3 (some (regular (b ∷ bs) mtime)) d =
    reported blake3 (length (b ∷ bs)) (reabsorb os (b ∷ bs) (length (b ∷ bs)) d [])

-- By what `symlink_metadata` answers.
unfoldable pub state_at : Os → (Bytes → Bytes) → Option IoKind → Disk → Result Response
unfolding nothing state_of answer
state_at os blake3 none d = state_of os blake3 d.temporary d
state_at os blake3 (some io_not_found) d = nothing blake3
state_at os blake3 (some io_permission_denied) d =
    answer (some io_permission_denied) >>= λ u. nothing blake3
state_at os blake3 (some io_already_exists) d =
    answer (some io_already_exists) >>= λ u. nothing blake3
state_at os blake3 (some io_unexpected_eof) d =
    answer (some io_unexpected_eof) >>= λ u. nothing blake3
state_at os blake3 (some io_other) d = answer (some io_other) >>= λ u. nothing blake3

-- `Agent::resume_state`
unfoldable pub agent_state :
    Os → (Bytes → Bytes) → Bool → Result (Unit {0}) → Disk → Result Response
unfolding nothing state_at
agent_state os blake3 false resolved d = nothing blake3
agent_state os blake3 true resolved d = do _ ← resolved; state_at os blake3 (os.stats_temporary d) d

-- What the agent sends: a failed request is answered.
unfoldable pub reply_of : Result Response → Response
unfolding from_error
reply_of (ok response) = response
reply_of (err e) = from_error e

unfoldable pub hash_prefix : (Bytes → Bytes) → Result Bytes → ℕ → Result (Option Bytes)
hash_prefix blake3 source count = do
  content ← source
  ok (if ltb (length content) count then none else some (blake3 (take count content)))

-- `resumable_from`, for a partial file of `count` bytes.
unfoldable pub agreed : ℕ → Bytes → Option Bytes → ℕ
agreed count hash none = 0
agreed count hash (some local) = if local == hash then count else 0

unfoldable pub resumable : (Bytes → Bytes) → Result Bytes → ℕ → Bytes → Result ℕ
unfolding hash_prefix agreed
resumable blake3 source zero hash = ok 0
resumable blake3 source (suc count) hash = do
  local ← hash_prefix blake3 source (suc count)
  ok (agreed (suc count) hash local)

unfoldable pub resumable_of : (Bytes → Bytes) → Result Bytes → Response → Result ℕ
unfolding resumable
resumable_of blake3 source (resume_state count hash) = resumable blake3 source count hash
resumable_of blake3 source (hello version build) = ok 0
resumable_of blake3 source done = ok 0
resumable_of blake3 source (index i) = ok 0
resumable_of blake3 source (error kind message) = ok 0
resumable_of blake3 source (signature s) = ok 0

unfoldable pub resumable_from : (Bytes → Bytes) → Result Bytes → Response → Result ℕ
unfolding into_result resumable_of
resumable_from blake3 source response = do
  state ← into_result response
  resumable_of blake3 source state
