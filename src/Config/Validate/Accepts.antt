-- ===== src/Config/Validate/Accepts.antt =====
-- crates/treesync/src/config/file.rs: which configurations `validate` takes.
use treesync.Prelude.{
  List, [], ◌∷◌, Bool, true, false, not, ◌&&◌, ◌||◌, Option, none, some, ◌≡◌, refl, ap, ap₂, sym,
  ◌∙◌, inl, inr, IsIn, arith, ◌==◌, list_eq, nat_eq, beq→eq, beq_refl,
}
use mathlib.Core.Path.{subst}
use treesync.FilePath.{FilePath, is_absolute, starts_with, component_eq}
use treesync.FilePath.Prefix.{starts_with_total}
use treesync.Error.{Text, Error, Result, ok, err, require, map_err, ◌>>=◌, ◌>>◌, is_ok}
use treesync.Filter
use treesync.Filter.{Globs, trim, is_blank}
use treesync.Filter.Laws.{accepts, new-accepts}
use treesync.Config.{Target, local, target_path, Sync, Config}
use treesync.Config.Validate.{
  overlaps, in_sync, has_empty_host, overlaps_target, is_named, parsed, listen_addr, check_sync,
  check_syncs, has_syncs, validate,
}

is_ok-bind :
    {A B : Type 0} (m : Result A) (k : Result B) → is_ok (m >>= λ _. k) ≡ (is_ok m && is_ok k)
is_ok-bind (ok a) k = refl
is_ok-bind (err e) k = refl

-- A check in front of a computation of which it is known when it succeeds.
is_ok-check :
    (b : Bool) (e : Error) (k : Result (Unit {0})) (c : Bool)
    → is_ok k ≡ c
    → is_ok (require b e >> k) ≡ (b && c)
is_ok-check true e k c h = h
is_ok-check false e k c h = refl

is_ok-require : (b : Bool) (e : Error) → is_ok (require b e) ≡ b
is_ok-require true e = refl
is_ok-require false e = refl

abbrev is_some : {A : Type 0} → Option A → Bool
is_some none = false
is_some (some a) = true

is_ok-map_err : {A : Type 0} (f : Error → Error) (m : Result A) → is_ok (map_err f m) ≡ is_ok m
is_ok-map_err f (ok a) = refl
is_ok-map_err f (err e) = refl

-- The address of the metrics endpoint, if there is one, is an address.
abbrev pub is_listenable : {Address : Type 0} → (Text → Option Address) → Option Text → Bool
is_listenable parse_address none = true
is_listenable parse_address (some t) = is_some (parse_address t)

parsed-accepts : {Address : Type 0} (o : Option Address) → is_ok (parsed o) ≡ is_some o
unfolding parsed
parsed-accepts none = refl
parsed-accepts (some a) = refl

listen_addr-accepts :
    {Address : Type 0} (parse_address : Text → Option Address) (t : Option Text)
    → is_ok (listen_addr parse_address t) ≡ is_listenable parse_address t
unfolding listen_addr
listen_addr-accepts parse_address none = refl
listen_addr-accepts parse_address (some t) = parsed-accepts (parse_address t)

abbrev pub has_name : Text → List Sync → Bool
has_name name [] = false
has_name name (s ∷ ss) = name == s.name || has_name name ss

-- No two syncs have one name.
abbrev pub distinct_names : List Sync → Bool
distinct_names [] = true
distinct_names (s ∷ ss) = not (has_name s.name ss) && distinct_names ss

-- None of the names is among those seen before.
abbrev fresh : List Text → List Sync → Bool
fresh seen [] = true
fresh seen (s ∷ ss) = not (is_named s.name seen) && fresh seen ss

fresh-cons :
    (name : Text) (seen : List Text) (ss : List Sync)
    → fresh (name ∷ seen) ss ≡ (not (has_name name ss) && fresh seen ss)
unfolding is_named
fresh-cons name seen [] = refl
fresh-cons name seen (s ∷ ss) =
    ground (arith, fresh-cons name seen ss, beq→eq s.name name, beq→eq name s.name, beq_refl name)

fresh-nil : (ss : List Sync) → fresh [] ss ≡ true
unfolding is_named
fresh-nil [] = refl
fresh-nil (s ∷ ss) = fresh-nil ss

module _ (globs : Globs) where
  -- What a sync must satisfy by itself.
  abbrev pub is_sound : Sync → Bool
  is_sound s =
      not (is_blank (trim s.name))
      && is_absolute s.source
      && is_absolute (target_path s.target)
      && accepts globs s.exclude
      && not (has_empty_host s.target)
      && not (overlaps_target s.source s.target)

  abbrev pub all_sound : List Sync → Bool
  all_sound [] = true
  all_sound (s ∷ ss) = is_sound s && all_sound ss

  check_sync-accepts :
      (seen : List Text) (s : Sync)
      → is_ok (check_sync globs seen s) ≡ (not (is_named s.name seen) && is_sound s)
  unfolding check_sync
  check_sync-accepts seen s =
      is_ok-check (not (is_blank (trim s.name))) _ _ _ (
        is_ok-check (not (is_named s.name seen)) _ _ _ (
          is_ok-check (is_absolute s.source) _ _ _ (
            is_ok-check (is_absolute (target_path s.target)) _ _ _ (
              is_ok-bind (map_err in_sync (Filter.new globs s.exclude)) _
              ∙ ap₂ ◌&&◌
                  (is_ok-map_err in_sync (Filter.new globs s.exclude) ∙ new-accepts globs s.exclude)
                  (is_ok-check (not (has_empty_host s.target)) _ _ _
                    (is_ok-require (not (overlaps_target s.source s.target)) _))))))
      ∙ ground arith

  check_syncs-accepts :
      (seen : List Text) (ss : List Sync)
      → is_ok (check_syncs globs seen ss) ≡ (fresh seen ss && distinct_names ss && all_sound ss)
  unfolding check_syncs
  check_syncs-accepts seen [] = refl
  check_syncs-accepts seen (s ∷ ss) =
      is_ok-bind (check_sync globs seen s) _
      ∙ rw
          (
            check_sync-accepts seen s,
            check_syncs-accepts (s.name ∷ seen) ss,
            fresh-cons s.name seen ss,
          )
          (ground arith)

  -- `validate` accepts exactly the configurations whose metrics address, if any, parses, that have
  -- a sync, whose syncs have distinct names, and each of whose syncs has a name that is not blank,
  -- absolute paths, exclude patterns that make a filter, a host that is not blank, and a local
  -- target that does not overlap its source.
  pub validate-accepts :
      {Address : Type 0} (parse_address : Text → Option Address) (c : Config)
      → is_ok (validate globs parse_address c) ≡ (
          is_listenable parse_address c.metrics.listen
          && has_syncs c.syncs
          && distinct_names c.syncs
          && all_sound c.syncs)
  unfolding validate
  validate-accepts parse_address c =
      is_ok-bind (listen_addr parse_address c.metrics.listen) _
      ∙ ap₂ ◌&&◌ (listen_addr-accepts parse_address c.metrics.listen)
          (is_ok-check (has_syncs c.syncs) _ _ _ (check_syncs-accepts [] c.syncs))
      ∙ rw (fresh-nil c.syncs) (ground arith)

  all_sound-at : (s : Sync) (ss : List Sync) → IsIn s ss → all_sound ss ≡ true → is_sound s ≡ true
  all_sound-at s (r ∷ ss) (inl e) h = rw e (ground (arith, h))
  all_sound-at s (r ∷ ss) (inr i) h = all_sound-at s ss i (ground (arith, h))
  all_sound-at s [] i h = absurd i

  -- In a configuration that `validate` accepts, no path has both the source of a sync and its local
  -- target as a prefix, component by component, as the paths are written: what a symlink or a `..`
  -- makes of them is not looked at.
  pub validate-separates :
      {Address : Type 0} (parse_address : Text → Option Address) (c : Config) (s : Sync)
      (target p : FilePath)
      → validate globs parse_address c ≡ ok tt
      → IsIn s c.syncs
      → s.target ≡ local target
      → (starts_with p s.source && starts_with p target) ≡ false
  unfolding overlaps_target overlaps
  validate-separates parse_address c s target p e i t =
      let accepted = sym (validate-accepts parse_address c) ∙ ap is_ok e in
      let sound = all_sound-at s c.syncs i (ground (arith, accepted)) in
      let apart : overlaps_target s.source (local target) ≡ false =
        subst (λ (x : Target). overlaps_target s.source x ≡ false) t (ground (arith, sound)) in
      ground (arith, apart, starts_with_total p s.source target)
