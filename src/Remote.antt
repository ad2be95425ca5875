-- ===== src/Remote.antt =====
-- crates/treesync/src/remote: the delta algorithm and the wire protocol.
pub mod Sender
pub mod Reconnect
pub mod Resumption
pub mod Agent
pub mod Wire
pub mod Message
pub mod Frame
pub mod Token
pub mod Signature
pub mod Matcher
pub mod Rolling
pub mod Shell
pub mod Options
