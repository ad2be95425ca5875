-- ===== src/Lib.antt =====
-- A model of treesync, which mirrors a tree of files into a local or a remote target, and what is
-- proved of it.
--
-- How the program works. The watcher turns the operating system's events into a bounded stream; what
-- does not fit is lost and remembered as a directory that must be walked again. The queue collects
-- the stream's events over a window into batches of changed paths. A batch becomes a scope; both
-- trees are indexed within it, a plan of actions is made from the two indexes and put in an order in
-- which it can be carried out. A remote target is reached through an agent, over frames on one
-- stream. The configuration says which trees are mirrored where.
--
-- The files and what they model, with paths from the root of the repository:
--   Error             crates/treesync/src/error.rs
--   FilePath          `std::path::Path` as its components, on Unix, as far as the program uses it:
--                     starts_with, parent, push, join, strip_prefix, the order of paths
--   Watcher.Event     crates/treesync/src/watcher/event.rs
--   Watcher.Scope     crates/treesync/src/watcher/scope.rs: RescanSignal and each of its methods,
--                     common_ancestor. A method holds the lock throughout, so it is one step
--   Watcher.Dispatch  crates/treesync/src/watcher/mod.rs: translate, dispatch. An event of the crate
--                     `notify` has the kinds, paths, cookie and flag that the code reads
--   Watcher.Stream    crates/treesync/src/watcher/mod.rs: EventStream
--   Queue             crates/treesync/src/queue/mod.rs: EventQueue; Queue.Wait: next_batch, where an
--                     `await` is a list of turns (the backend reports, the watcher stops, the task is
--                     polled at a time and with a branch of the `select!` first) in any order
--   Reconcile         crates/treesync/src/reconcile: Config and Plan for mod.rs, Entry and Index for
--                     index.rs, Action, Sort and Order for action.rs
--   Filter            crates/treesync/src/reconcile/filter.rs
--   Config            crates/treesync/src/config/file.rs: the types; Config.Resolve: resolve;
--                     Config.Validate: validate
--   Remote.Rolling    crates/treesync/src/remote/delta.rs: the weak checksum
--   Remote.Signature  crates/treesync/src/remote/delta.rs: strong, signature_of
--   Remote.Signature.Wire  crates/treesync/src/remote/protocol.rs: conversions of WireSignature;
--     agent.rs: Agent::signature
--   Remote.Matcher    crates/treesync/src/remote/delta.rs: Matcher, its state, new and fill;
--                     Remote.Matcher.Move: the moves on its run and literal (extend_run, flush_run,
--                     flush_literal and the blocks of step); Remote.Matcher.Loop: match_at, step,
--                     next_token. The source is the list of what its reads give, in any pieces
--   Remote.Token      crates/treesync/src/remote/protocol.rs: Token
--   Remote.Sender     crates/treesync/src/remote/ssh.rs: the tokens and frames of send_patch
--   Remote.Reconnect  crates/treesync/src/remote/ssh.rs: Reconnect
--   Remote.Agent      crates/treesync/src/remote/agent.rs with the helpers of
--                     crates/treesync/src/sink/local.rs: the disk and the calls of the system;
--                     Remote.Agent.Copy: copy_range, resume, reabsorb; Remote.Agent.Frames: the loop
--                     over a transfer's frames, discard_transfer; Remote.Agent.Patch: receive_patch;
--                     Remote.Agent.File: receive_file
--   Remote.Options    crates/treesync/src/remote/delta.rs: the options of a delta transfer
--   Remote.Wire       crates/treesync/src/remote/protocol.rs: conversions to and from the wire
--   Remote.Message    crates/treesync/src/remote/protocol.rs: requests, replies and failures
--   Remote.Shell      crates/treesync/src/remote/ssh.rs: shell_quote
--   Remote.Frame      crates/treesync/src/remote/protocol.rs: encode_frame, read_frame
--   Remote.Resumption crates/treesync/src/remote/agent.rs and ssh.rs: resume_state, resumable_from
--   Sink              crates/treesync/src/sink/mod.rs: the interface of a sink, apply, its report
--   Sink.Local        crates/treesync/src/sink/local.rs: resolve, temporary_name
--   Prelude           numbers, lists, tests and equality, shared by all
--   Examples          the theorems at concrete inputs
--
-- Conventions. State is passed explicitly: an operation on `&mut self` takes the record and returns
-- it. Hash maps and sets are lists, since nothing modelled depends on their order. A machine
-- integer wraps where the source wraps (the checksum in `u32`, times in `i64` and `u64`, lengths in
-- frame headers); elsewhere numbers are natural numbers. Instants and durations are numbers.
--
-- The agent's disk. A transfer works on three things of the file system: the destination, the
-- temporary beside it, and the permission bits of their directory. What a call of the system answers
-- is a function of the call and of the disk that it meets, so each may fail at any point; a failed
-- write leaves any part of its bytes. The hasher is the list of the bytes that it has taken in.
--
-- Fuel. The loop of `drain` has one more than the number of queued events, since every round but the
-- last takes an event from the queue. The loops of the matcher: `scan` has one more than the buffer
-- has bytes, each round passing one; `next_token` two more than the bytes that remain, since a step
-- takes some of them or finishes; the caller's loop more than the source has bytes, since a token
-- stands for at least one. The loops over a file's content have as many rounds as bytes, a piece
-- being a byte at least, and the loop over frames one more than the stream has bytes, a frame being
-- four at least. A theorem that a loop returns needs no more than that.
--
-- Parameters. `globset`, `bincode`, `zstd` and the parser of a socket address are arguments; where
-- a theorem relies on one of them, its hypothesis says for what: that `bincode` decodes what it
-- encoded, and that `zstd` expands what it compressed. The digest of `blake3` is any function; the
-- delta transfer needs that no window of the source has the strong hash of a different block of the
-- old file, which is what the program relies on.
--
-- Not modelled: the agent's loop over requests, its sweep of old temporaries and its resolution of
-- paths, the local sink's operations on the tree, the rest of the ssh client, the syncer and the
-- walk of a file system; metrics, telemetry and the command line, which are glue and I/O. The
-- messages of errors are shortened where only their category matters, except on the wire. A time
-- beyond the range of `i64` seconds does not exist in the program.
pub mod Config
pub mod Error
pub mod Examples
pub mod FilePath
pub mod Filter
pub mod Prelude
pub mod Queue
pub mod Reconcile
pub mod Remote
pub mod Sink
pub mod Watcher
