-- ===== src/Watcher.antt =====
-- crates/treesync/src/watcher: what the backend reports, as events (`Event`), the record of what
-- was lost (`Scope`), the translation of backend events (`Dispatch`) and the receiving half (`Stream`).
pub mod Event
pub mod Scope
pub mod Dispatch
pub mod Stream
