-- ===== src/Reconcile/Plan/Exact.antt =====
-- crates/treesync/src/reconcile/mod.rs: the actions of a whole plan.
use treesync.Prelude.{
  List, [], ◌∷◌, Bool, true, false, Bool-cases, ◌||◌, ◌≡◌, ◌↔◌, ◌⊎◌, inl, inr, IsIn, Memᴰ→IsIn,
  IsIn→Mem, arith, list_eq,
}
use mathlib.Core.Bool.{Bool-set}
use mathlib.Core.HLevel.{×_prop}
use mathlib.Core.Logic.{∥∥₁_elim}
use mathlib.Core.List.{Mem}
use mathlib.Core.List.Perm
use treesync.FilePath.{FilePath, component_eq, starts_with}
use treesync.Reconcile.Config.{Scope, paths, subtree, ReconcileConfig}
use treesync.Reconcile.Index.{Index}
use treesync.Reconcile.Action.{Action, path}
use treesync.Reconcile.Order.Laws.{order-perm}
use treesync.Reconcile.Plan.{plan_under, plan_paths, gathered, plan}
use treesync.Reconcile.Plan.Parts.{}
use treesync.Reconcile.Plan.Comparison.{Wants}
use treesync.Reconcile.Plan.Under.{plan_under-exact}

-- The scope covers the path.
unfoldable pub any_starts : FilePath → List FilePath → Bool
any_starts p [] = false
any_starts p (q ∷ qs) = starts_with p q || any_starts p qs

abbrev pub in_scope : Scope → FilePath → Bool
in_scope (subtree prefix) p = starts_with p prefix
in_scope (paths qs) p = any_starts p qs

module _ (source target : Index) (config : ReconcileConfig) where
  plan_paths-exact :
      (actions : List Action) (ps : List FilePath) (a : Action)
      → IsIn a (plan_paths actions source target config ps)
        ↔ IsIn a actions ⊎ ((any_starts (path a) ps ≡ true) × Wants source target config a)
  unfolding plan_paths any_starts
  plan_paths-exact actions [] a = (inl, λ h. elim h [ inl i ↦ i | inr (f, w) ↦ cc f ])
  plan_paths-exact actions (p ∷ ps) a =
      let here = plan_under-exact source target config actions p a in
      let rest = plan_paths-exact (plan_under actions source target config p) ps a in
      (
        λ i. elim (rest.0 i) [
          | inl j ↦ elim (here.0 j) [ inl k ↦ inl k | inr (s, w) ↦ inr ((rw s), w) ]
          | inr (s, w) ↦ inr (ground (arith, s), w)
        ],
        λ h. elim h [
          | inl k ↦ rest.1 (inl (here.1 (inl k)))
          | inr (s, w) ↦ elim (Bool-cases (starts_with (path a) p)) [
            | inl t ↦ rest.1 (inl (here.1 (inr (t, w))))
            | inr f ↦ rest.1 (inr (rw f at s, w))
          ]
        ],
      )

  gathered-exact :
      (scope : Scope) (a : Action)
      → IsIn a (gathered source target scope config)
        ↔ (in_scope scope (path a) ≡ true) × Wants source target config a
  unfolding gathered
  gathered-exact (paths ps) a =
      let e = plan_paths-exact [] ps a in
      (λ i. elim (e.0 i) [ inl f ↦ absurd f | inr h ↦ h ], λ h. e.1 (inr h))
  gathered-exact (subtree prefix) a =
      let e = plan_under-exact source target config [] prefix a in
      (λ i. elim (e.0 i) [ inl f ↦ absurd f | inr h ↦ h ], λ h. e.1 (inr h))

  -- A plan holds an action exactly if its path is in the scope and the two trees call for it there:
  -- a copy, a directory or a link of the source's kind where the target has nothing or something
  -- that differs; a removal, with deletions on, of what the source lacks and of what changes between
  -- directory and other; the source's metadata where it is mirrored and not yet the target's.
  pub plan-exact :
      (scope : Scope) (a : Action)
      → Mem a (plan source target scope config)
        ↔ (in_scope scope (path a) ≡ true) × Wants source target config a
  unfolding plan
  plan-exact scope a = (
    λ m.
        ∥∥₁_elim ((Perm.mem_iff (order-perm (gathered source target scope config))).0 m)
          (×_prop (Bool-set _ _) (Bool-set _ _)) (λ d. (gathered-exact scope a).0 (Memᴰ→IsIn d)),
    λ h.
        (Perm.mem_iff (order-perm (gathered source target scope config))).1
          (IsIn→Mem _ ((gathered-exact scope a).1 h)),
  )
