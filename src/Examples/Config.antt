-- ===== src/Examples/Config.antt =====
-- The theorems on the configuration at concrete inputs.
use treesync.Prelude.{[], ◌∷◌, true, false, ◌&&◌, Option, none, some, ◌≡◌, refl, inl, list_beq}
use treesync.FilePath.{starts_with, component_beq}
use treesync.Error.{Text, codes, ok, is_ok}
use treesync.Filter
use treesync.Filter.{Globs, trim, trim_start, trim_end, is_whitespace, is_blank}
use treesync.Config.{Config, Sync, local, no_defaults, target_path}
use treesync.Config.Resolve.{resolve, all_spelled_out, resolve-spelled_out}
use treesync.Config.Validate.{
  validate, listen_addr, parsed, has_syncs, check_syncs, check_sync, is_named, has_empty_host,
  overlaps_target, overlaps,
}
use treesync.Config.Validate.Accepts.{
  is_listenable, distinct_names, all_sound, validate-accepts, validate-separates,
}
use treesync.Config.Validate.Refusal.{IsRefusal, validate-IsRefusal}
use treesync.Examples.Paths.{dir_a, file_b, file_x}

-- /w/a is mirrored to /w/b.
abbrev sample_sync : Sync
sample_sync = record {
  name = codes "www";
  source = dir_a;
  target = local file_b;
  exclude = [];
  delay = none;
  max_pending = some 50;
  delete = none;
  verify = none;
  preserve = none;
  delta = none;
}

abbrev sample_config : Config
sample_config = record {
  defaults = record no_defaults { delay = some 2000; max_pending = some 70 };
  syncs = sample_sync ∷ [];
  metrics = record { listen = some (codes ":9099") };
}

abbrev no_globs : Globs
no_globs = record { valid = λ t. false; buildable = λ ts. true; matches = λ t p. false }

-- Every text is an address.
abbrev any_address : Text → Option Text
any_address t = some t

abbrev no_address : Text → Option Text
no_address t = none

resolve-spelled_out_example :
    resolve (record sample_config {
      defaults = no_defaults;
      syncs = all_spelled_out sample_config.defaults sample_config.syncs;
    })
    ≡ resolve sample_config
resolve-spelled_out_example = resolve-spelled_out sample_config

validate-accepts_example : is_ok (validate no_globs any_address sample_config) ≡ (
    is_listenable any_address sample_config.metrics.listen
    && has_syncs sample_config.syncs
    && distinct_names sample_config.syncs
    && all_sound no_globs sample_config.syncs)
validate-accepts_example = validate-accepts no_globs any_address sample_config

validate-IsRefusal_example : IsRefusal (validate no_globs no_address sample_config)
validate-IsRefusal_example = validate-IsRefusal no_globs no_address sample_config

sample_config-valid : validate no_globs any_address sample_config ≡ ok tt
unfolding validate listen_addr parsed has_syncs check_syncs check_sync is_named has_empty_host
    overlaps_target overlaps target_path trim trim_start trim_end is_whitespace is_blank Filter.new
    starts_with component_beq list_beq
sample_config-valid = refl

validate-separates_example : (starts_with file_x dir_a && starts_with file_x file_b) ≡ false
validate-separates_example =
    validate-separates no_globs any_address sample_config sample_sync file_b file_x
      sample_config-valid (inl refl) refl
