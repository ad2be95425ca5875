-- ===== src/Reconcile/Plan/Comparison.antt =====
-- crates/treesync/src/reconcile/mod.rs: the actions of one comparison at its path.
use treesync.Prelude.{
  List, ◌++◌, true, Option, none, some, ◌≡◌, sym, ◌↔◌, ◌⊎◌, inl, inr, IsIn, IsIn-append_left,
  IsIn-append_right, IsIn-append_cases, append_assoc, list_eq,
}
use mathlib.Core.Path.{subst}
use treesync.FilePath.{FilePath, component_eq}
use treesync.Reconcile.Config.{ReconcileConfig}
use treesync.Reconcile.Entry.{Entry}
use treesync.Reconcile.Index.{Index, get}
use treesync.Reconcile.Action.{
  Action, path, create_dir, copy_file, create_symlink, remove, rename, set_metadata,
}
use treesync.Reconcile.Plan.{content_actions, metadata_actions, push_comparison, plan}
use treesync.Reconcile.Plan.Parts.{
  wanted, ContentExact, MetadataExact, content-exact_none, content-exact_new, content-exact_old,
  metadata-exact,
}

content-exact :
    (config : ReconcileConfig) (p : FilePath) (source target : Option Entry) (a : Action)
    → ContentExact config p source target a
content-exact config p none target a = content-exact_none config p target a
content-exact config p (some e) none a = content-exact_new config p e a
content-exact config p (some e) (some f) a = content-exact_old config p e f a

-- One comparison pushes exactly what is wanted at its path.
compared :
    (config : ReconcileConfig) (p : FilePath) (source target : Option Entry) (a : Action)
    → IsIn a (content_actions config p source target ++ metadata_actions config p source target)
      ↔ (path a ≡ p) × (wanted config source target a ≡ true)
compared config p source target a = (
  λ i. elim (IsIn-append_cases a (content_actions config p source target) _ i) [
    | inl c ↦ content_half a (content-exact config p source target a) c
    | inr m ↦ metadata_half a (metadata-exact config p source target a) m
  ],
  λ h. back a (content-exact config p source target a) (metadata-exact config p source target a) h,
)
  where
    content_half :
        (a : Action)
        → ContentExact config p source target a
        → IsIn a (content_actions config p source target)
        → (path a ≡ p) × (wanted config source target a ≡ true)
    content_half (set_metadata q m) e i = absurd (e i)
    content_half (create_dir q) e i = e.0 i
    content_half (copy_file q) e i = e.0 i
    content_half (create_symlink q t) e i = e.0 i
    content_half (remove q) e i = e.0 i
    content_half (rename s t) e i = e.0 i

    metadata_half :
        (a : Action)
        → MetadataExact config p source target a
        → IsIn a (metadata_actions config p source target)
        → (path a ≡ p) × (wanted config source target a ≡ true)
    metadata_half (set_metadata q m) e i = unfold path in e.0 i
    metadata_half (create_dir q) e i = absurd (e i)
    metadata_half (copy_file q) e i = absurd (e i)
    metadata_half (create_symlink q t) e i = absurd (e i)
    metadata_half (remove q) e i = absurd (e i)
    metadata_half (rename s t) e i = absurd (e i)

    back :
        (a : Action)
        → ContentExact config p source target a
        → MetadataExact config p source target a
        → (path a ≡ p) × (wanted config source target a ≡ true)
        → IsIn a (content_actions config p source target ++ metadata_actions config p source target)
    back (set_metadata q m) c e h = IsIn-append_right _ _ _ (e.1 (unfold path in h))
    back (create_dir q) c e h = IsIn-append_left _ _ _ (c.1 h)
    back (copy_file q) c e h = IsIn-append_left _ _ _ (c.1 h)
    back (create_symlink q t) c e h = IsIn-append_left _ _ _ (c.1 h)
    back (remove q) c e h = IsIn-append_left _ _ _ (c.1 h)
    back (rename s t) c e h = IsIn-append_left _ _ _ (c.1 h)

module _ (source target : Index) (config : ReconcileConfig) where
  -- What the two trees call for at the path of the action.
  abbrev pub Wants : Action → Type 0
  Wants a = wanted config (get source (path a)) (get target (path a)) a ≡ true

  pub push_comparison-exact :
      (plan : List Action) (p : FilePath) (a : Action)
      → IsIn a (push_comparison plan source target p config)
        ↔ IsIn a plan ⊎ ((path a ≡ p) × Wants a)
  unfolding push_comparison
  push_comparison-exact plan p a = rw (append_assoc plan _ _) (
    λ i. elim (IsIn-append_cases a plan _ i) [
      | inl h ↦ inl h
      | inr h ↦
          (let (e, w) = (compared config p _ _ a).0 h in
            inr (
              e,
              subst (λ (q : FilePath). wanted config (get source q) (get target q) a ≡ true) (sym e)
                  w,
            ))
    ],
    λ h. elim h [
      | inl i ↦ IsIn-append_left a plan _ i
      | inr (e, w) ↦ IsIn-append_right a plan _ (
          (compared config p _ _ a).1
            (e, subst (λ (q : FilePath). wanted config (get source q) (get target q) a ≡ true) e w))
    ],
  )
