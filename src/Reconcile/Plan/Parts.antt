-- ===== src/Reconcile/Plan/Parts.antt =====
-- crates/treesync/src/reconcile/mod.rs: the actions of one comparison, and a description of them
-- action by action.
use treesync.Prelude.{
  [], ◌∷◌, Bool, true, false, not, ◌&&◌, ◌||◌, Option, none, some, ◌≡◌, refl, ◌↔◌, inl, inr, IsIn,
  arith, ◌==◌, nat_eq, list_eq, beq→eq, beq_refl, if◌then◌else◌,
}
use treesync.FilePath.{FilePath, component_eq}
use treesync.Reconcile.Config.{Preserve, ReconcileConfig}
use treesync.Reconcile.Entry.{
  Entry, Metadata, file, dir, symlink, differs_from, is_dir, metadata, metadata_differs,
}
use treesync.Reconcile.Action.{
  Action, path, create_dir, copy_file, create_symlink, remove, set_metadata,
}
use treesync.Reconcile.Plan.{content_actions, metadata_of, metadata_actions}

unfoldable pub metadata_beq : Metadata → Metadata → Bool
metadata_beq a b = (a.mode == b.mode) && (a.uid == b.uid) && (a.gid == b.gid)

-- Whether `m` is what the path's mode and owner must be set to.
abbrev pub stamp : Preserve → Option Metadata → Option Metadata → Metadata → Bool
stamp preserve none current m = false
stamp preserve (some w) none m = (preserve.mode || preserve.ownership) && metadata_beq w m
stamp preserve (some w) (some c) m =
    (preserve.mode || preserve.ownership) && metadata_beq w m && metadata_differs w c preserve

-- Whether the target must get new content: it has nothing at the path, or something that differs.
abbrev pub is_stale : Entry → Option Entry → Bool
is_stale entry none = true
is_stale entry (some existing) = differs_from entry existing

-- What a plan should hold for one path, given what the two trees have there: said action by action,
-- and not in the order in which the code looks.
abbrev pub wanted : ReconcileConfig → Option Entry → Option Entry → Action → Bool
wanted config (some (file s m h d)) target (copy_file p) = is_stale (file s m h d) target
wanted config (some (dir d)) target (create_dir p) = is_stale (dir d) target
wanted config (some (symlink t)) target (create_symlink p u) =
    is_stale (symlink t) target && (t == u)
wanted config none (some e) (remove p) = config.delete
wanted config (some (dir d)) (some e) (remove p) = config.delete && not (is_dir e)
wanted config (some (file s m h d)) (some e) (remove p) = config.delete && is_dir e
wanted config (some (symlink t)) (some e) (remove p) = config.delete && is_dir e
wanted config (some e) target (set_metadata p m) =
    stamp config.preserve (metadata e) (metadata_of target) m
wanted config _ _ _ = false

IsIn-if : (a x : Action) (b : Bool) → IsIn a (if b then x ∷ [] else []) ↔ (b ≡ true) × (a ≡ x)
IsIn-if a x true = (λ h. elim h [ inl e ↦ (refl, e) | inr f ↦ absurd f ], λ h. inl h.1)
IsIn-if a x false = (λ h. absurd h, λ h. cc (h.0))

kind-differs :
    (e f : Entry)
    → (is_dir f && not (is_dir e) || not (is_dir f) && is_dir e) ≡ true
    → differs_from e f ≡ true
unfolding is_dir differs_from
kind-differs (file _ _ _ _) (file _ _ _ _) h = cc
kind-differs (file _ _ _ _) (dir _) h = refl
kind-differs (file _ _ _ _) (symlink _) h = cc
kind-differs (dir _) (file _ _ _ _) h = refl
kind-differs (dir _) (dir _) h = cc
kind-differs (dir _) (symlink _) h = refl
kind-differs (symlink _) (file _ _ _ _) h = cc
kind-differs (symlink _) (dir _) h = refl
kind-differs (symlink _) (symlink _) h = cc

-- The two halves for the actions on content, one action at a time.
abbrev pub ContentExact : ReconcileConfig → FilePath → Option Entry → Option Entry → Action → Type 0
ContentExact config p source target (set_metadata q m) =
    ¬ IsIn (set_metadata q m) (content_actions config p source target)
ContentExact config p source target a =
    IsIn a (content_actions config p source target)
    ↔ (path a ≡ p) × (wanted config source target a ≡ true)

pub content-exact_none :
    (config : ReconcileConfig) (p : FilePath) (target : Option Entry) (a : Action)
    → ContentExact config p none target a
unfolding content_actions path
content-exact_none config p none (create_dir q) = ground arith
content-exact_none config p _ _ = ground arith

pub content-exact_new :
    (config : ReconcileConfig) (p : FilePath) (entry : Entry) (a : Action)
    → ContentExact config p (some entry) none a
unfolding content_actions path
content-exact_new config p (file s m h d) (create_dir q) = ground arith
content-exact_new config p (symlink t) (create_symlink q u) = ground (arith, beq→eq t u, beq_refl t)
content-exact_new config p _ _ = ground arith

pub content-exact_old :
    (config : ReconcileConfig) (p : FilePath) (entry existing : Entry) (a : Action)
    → ContentExact config p (some entry) (some existing) a
unfolding content_actions path is_dir
content-exact_old config p (file s m h d) (file t n k e) (create_dir q) = ground arith
content-exact_old config p (symlink t) (file s m h d) (create_symlink q u) =
    ground (arith, beq→eq t u, beq_refl t, kind-differs (symlink t) (file s m h d))
content-exact_old config p (symlink t) (dir d) (create_symlink q u) =
    ground (arith, beq→eq t u, beq_refl t, kind-differs (symlink t) (dir d))
content-exact_old config p (symlink t) (symlink v) (create_symlink q u) =
    ground (arith, beq→eq t u, beq_refl t, kind-differs (symlink t) (symlink v))
content-exact_old config p e f a = ground (arith, kind-differs e f)

metadata_beq_sound : (a b : Metadata) → metadata_beq a b ≡ true → a ≡ b
unfolding metadata_beq
metadata_beq_sound a b h =
    ground (arith, beq→eq a.mode b.mode, beq→eq a.uid b.uid, beq→eq a.gid b.gid)

metadata_beq_refl : (a : Metadata) → metadata_beq a a ≡ true
unfolding metadata_beq
metadata_beq_refl a = ground arith

abbrev pub MetadataExact :
    ReconcileConfig → FilePath → Option Entry → Option Entry → Action → Type 0
MetadataExact config p source target (set_metadata q m) =
    IsIn (set_metadata q m) (metadata_actions config p source target)
    ↔ (q ≡ p) × (wanted config source target (set_metadata q m) ≡ true)
MetadataExact config p source target a = ¬ IsIn a (metadata_actions config p source target)

pub metadata-exact :
    (config : ReconcileConfig) (p : FilePath) (source target : Option Entry) (a : Action)
    → MetadataExact config p source target a
unfolding metadata_actions metadata
metadata-exact config p (some (file s n h w)) none (set_metadata q m) =
    ground (arith, metadata_beq_sound w m, metadata_beq_refl w)
metadata-exact config p (some (file s n h w)) (some (file t k i c)) (set_metadata q m) =
    ground (arith, metadata_beq_sound w m, metadata_beq_refl w)
metadata-exact config p (some (dir w)) (some (dir c)) (set_metadata q m) =
    ground (arith, metadata_beq_sound w m, metadata_beq_refl w)
metadata-exact config p (some (file s n h w)) t (set_metadata q m) =
    ground (arith, metadata_beq_sound w m, metadata_beq_refl w)
metadata-exact config p (some (dir w)) t (set_metadata q m) =
    ground (arith, metadata_beq_sound w m, metadata_beq_refl w)
metadata-exact config p _ _ _ = ground arith
