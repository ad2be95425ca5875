-- ===== src/Remote/Options.antt =====
-- crates/treesync/src/remote/delta.rs: the options of a delta transfer.
use treesync.Prelude.{ℕ, ◌*◌, Bool, true, Option, none}

pub record Options : Type 0 where
  pub enabled : Bool
  pub min_size : ℕ
  pub block_size : Option ℕ

abbrev pub default_options : Options
default_options = record { enabled = true; min_size = 1024 * 1024; block_size = none }
