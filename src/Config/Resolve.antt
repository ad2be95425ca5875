-- ===== src/Config/Resolve.antt =====
-- crates/treesync/src/config/file.rs: `Config::resolve`.
use treesync.Prelude.{◌*◌, List, [], ◌∷◌, true, false, Option, none, some, ◌≡◌, refl, ap₂}
use treesync.Queue.{default_config}
use treesync.Reconcile.Config.{quick, default_preserve}
use treesync.Remote.Options.{Options}
use treesync.Config.{Delta, Defaults, no_defaults, Sync, Config, ResolvedSync}

abbrev pub default_delta : Delta
default_delta = record { enabled = true; min_size = 1024 * 1024; block_size = none }

-- `Delta::options`
unfoldable pub options : Delta → Options
options d = record { enabled = d.enabled; min_size = d.min_size; block_size = d.block_size }

-- `Option::or` and `Option::unwrap_or`
unfoldable pub or_else : {A : Type 0} → Option A → Option A → Option A
or_else (some a) o = some a
or_else none o = o

unfoldable pub unwrap_or : {A : Type 0} → Option A → A → A
unwrap_or (some a) b = a
unwrap_or none b = b

unfoldable pub resolve_sync : Defaults → Sync → ResolvedSync
unfolding options or_else unwrap_or
resolve_sync defaults sync = record {
  name = sync.name;
  source = sync.source;
  target = sync.target;
  exclude = sync.exclude;
  queue = record {
    delay = unwrap_or (or_else sync.delay defaults.delay) default_config.delay;
    max_pending =
        unwrap_or (or_else sync.max_pending defaults.max_pending) default_config.max_pending;
  };
  reconcile = record {
    delete = unwrap_or (or_else sync.delete defaults.delete) false;
    verify = unwrap_or (or_else sync.verify defaults.verify) quick;
    preserve = unwrap_or (or_else sync.preserve defaults.preserve) default_preserve;
  };
  delta = options (unwrap_or (or_else sync.delta defaults.delta) default_delta);
}

unfoldable pub resolve_all : Defaults → List Sync → List ResolvedSync
unfolding resolve_sync
resolve_all defaults [] = []
resolve_all defaults (s ∷ ss) = resolve_sync defaults s ∷ resolve_all defaults ss

unfoldable pub resolve : Config → List ResolvedSync
unfolding resolve_all
resolve config = resolve_all config.defaults config.syncs

-- The sync with what it does not set itself written out from the defaults.
abbrev pub spelled_out : Defaults → Sync → Sync
spelled_out d s = record s {
  delay = or_else s.delay d.delay;
  max_pending = or_else s.max_pending d.max_pending;
  delete = or_else s.delete d.delete;
  verify = or_else s.verify d.verify;
  preserve = or_else s.preserve d.preserve;
  delta = or_else s.delta d.delta;
}

abbrev pub all_spelled_out : Defaults → List Sync → List Sync
all_spelled_out d [] = []
all_spelled_out d (s ∷ ss) = spelled_out d s ∷ all_spelled_out d ss

or_else-none : {A : Type 0} (o : Option A) → or_else o none ≡ o
unfolding or_else
or_else-none none = refl
or_else-none (some a) = refl

resolve_sync-spelled_out :
    (d : Defaults) (s : Sync) → resolve_sync no_defaults (spelled_out d s) ≡ resolve_sync d s
unfolding resolve_sync
resolve_sync-spelled_out d s = rw (
  or_else-none (or_else s.delay d.delay),
  or_else-none (or_else s.max_pending d.max_pending),
  or_else-none (or_else s.delete d.delete),
  or_else-none (or_else s.verify d.verify),
  or_else-none (or_else s.preserve d.preserve),
  or_else-none (or_else s.delta d.delta),
)

resolve_all-spelled_out :
    (d : Defaults) (ss : List Sync)
    → resolve_all no_defaults (all_spelled_out d ss) ≡ resolve_all d ss
unfolding resolve_all
resolve_all-spelled_out d [] = refl
resolve_all-spelled_out d (s ∷ ss) =
    ap₂ ◌∷◌ (resolve_sync-spelled_out d s) (resolve_all-spelled_out d ss)

-- Defaults are only a shorthand: a configuration resolves to the same syncs, in the same order, as
-- the one with no defaults in which every sync spells out the values that it would inherit.
pub resolve-spelled_out :
    (c : Config)
    → resolve (record c { defaults = no_defaults; syncs = all_spelled_out c.defaults c.syncs })
      ≡ resolve c
unfolding resolve
resolve-spelled_out c = resolve_all-spelled_out c.defaults c.syncs
