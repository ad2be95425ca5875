-- ===== src/Config/Validate/Refusal.antt =====
-- crates/treesync/src/config/file.rs: the category of the errors of `validate`.
use treesync.Prelude.{List, [], ◌∷◌, Bool, true, false, not, Option, none, some, list_eq, nat_eq}
use treesync.FilePath.{is_absolute, component_eq}
use treesync.Error.{Text, Error, Result, ok, err, require, map_err, ◌>>=◌}
use treesync.Filter
use treesync.Filter.{Globs, trim, is_blank}
use treesync.Config.{target_path, Sync, Config}
use treesync.Config.Validate.{
  refused, in_sync, has_empty_host, is_named, parsed, listen_addr, check_sync, check_syncs,
  has_syncs, validate,
}

-- The failure is one of configuration.
abbrev pub IsRefusal {ℓ} : {A : Type ℓ} → Result A → Type 0
IsRefusal (ok a) = Unit
IsRefusal (err (Error.config m)) = Unit
IsRefusal (err _) = ⊥

IsRefusal-bind :
    {A B : Type 0} (m : Result A) (k : Result B)
    → IsRefusal m
    → IsRefusal k
    → IsRefusal (m >>= λ _. k)
IsRefusal-bind (ok a) k h g = g
IsRefusal-bind (err (Error.config m)) k h g = tt
IsRefusal-bind (err _) k h g = absurd h

IsRefusal-require : (b : Bool) (m : Text) → IsRefusal (require b (refused m))
IsRefusal-require true m = tt
IsRefusal-require false m = tt

IsRefusal-in_sync : {A : Type 0} (m : Result A) → IsRefusal (map_err in_sync m)
unfolding in_sync
IsRefusal-in_sync (ok a) = tt
IsRefusal-in_sync (err e) = tt

IsRefusal-listen_addr :
    {Address : Type 0} (parse_address : Text → Option Address) (t : Option Text)
    → IsRefusal (listen_addr parse_address t)
unfolding listen_addr parsed
IsRefusal-listen_addr parse_address none = tt
IsRefusal-listen_addr parse_address (some t) = go (parse_address t)
  where
    go : {Address : Type 0} (o : Option Address) → IsRefusal (parsed o)
    go none = tt
    go (some a) = tt

module _ (globs : Globs) where
  check_sync-IsRefusal : (seen : List Text) (s : Sync) → IsRefusal (check_sync globs seen s)
  unfolding check_sync
  check_sync-IsRefusal seen s =
      IsRefusal-bind (require (not (is_blank (trim s.name))) _) _ (IsRefusal-require _ _) (
        IsRefusal-bind (require (not (is_named s.name seen)) _) _ (IsRefusal-require _ _) (
          IsRefusal-bind (require (is_absolute s.source) _) _ (IsRefusal-require _ _) (
            IsRefusal-bind (require (is_absolute (target_path s.target)) _) _
              (IsRefusal-require _ _)
              (IsRefusal-bind (map_err in_sync (Filter.new globs s.exclude)) _ (IsRefusal-in_sync _)
                (IsRefusal-bind (require (not (has_empty_host s.target)) _) _
                  (IsRefusal-require _ _) (IsRefusal-require _ _))))))

  check_syncs-IsRefusal :
      (seen : List Text) (ss : List Sync) → IsRefusal (check_syncs globs seen ss)
  unfolding check_syncs
  check_syncs-IsRefusal seen [] = tt
  check_syncs-IsRefusal seen (s ∷ ss) =
      IsRefusal-bind (check_sync globs seen s) _ (check_sync-IsRefusal seen s)
        (check_syncs-IsRefusal (s.name ∷ seen) ss)

  -- Whatever is wrong with a configuration, also where a pattern or an address does not parse,
  -- `validate` fails with an error of the category `Config`.
  pub validate-IsRefusal :
      {Address : Type 0} (parse_address : Text → Option Address) (c : Config)
      → IsRefusal (validate globs parse_address c)
  unfolding validate
  validate-IsRefusal parse_address c =
      IsRefusal-bind (listen_addr parse_address c.metrics.listen) _
        (IsRefusal-listen_addr parse_address c.metrics.listen)
        (IsRefusal-bind (require (has_syncs c.syncs) _) _ (IsRefusal-require _ _)
          (check_syncs-IsRefusal [] c.syncs))
