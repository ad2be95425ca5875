-- ===== src/Reconcile/Plan/Under.antt =====
-- crates/treesync/src/reconcile/mod.rs: what one prefix contributes to a plan.
use treesync.Prelude.{
  List, [], ◌∷◌, ◌++◌, true, false, Bool-cases, ◌||◌, Option, none, some, ◌≡◌, ◌≢◌, refl, ◌∙◌, ap,
  sym, ◌↔◌, ◌⊎◌, inl, inr, IsIn, IsIn-append_left, IsIn-append_right, IsIn-append_cases, arith,
  ◌==◌, list_eq, beq→eq, beq_refl,
}
use mathlib.Core.Path.{subst}
use treesync.FilePath.{FilePath, component_eq, starts_with}
use treesync.Reconcile.Config.{ReconcileConfig}
use treesync.Reconcile.Entry.{Entry}
use treesync.Reconcile.Index.{Index, get, contains, under, is_empty_path}
use treesync.Reconcile.Action.{Action, path, remove}
use treesync.Reconcile.Plan.{push_comparison, compare_all, remove_all, plan_under, plan}
use treesync.Reconcile.Plan.Parts.{wanted}
use treesync.Reconcile.Plan.Comparison.{Wants, push_comparison-exact}

contains-get : (i : Index) (p : FilePath) → contains i p ≡ false → get i p ≡ none
unfolding contains get
contains-get [] p h = refl
contains-get ((q, f) ∷ i) p h = ground (arith, contains-get i p)

get-contains : (i : Index) (p : FilePath) (e : Entry) → get i p ≡ some e → contains i p ≡ true
unfolding contains get
get-contains [] p e h = cc
get-contains ((q, f) ∷ i) p e h = ground (arith, get-contains i p e)

empty-starts_with : (p q : FilePath) → is_empty_path p ≡ true → starts_with q p ≡ true
unfolding is_empty_path starts_with
empty-starts_with [] q h = refl
empty-starts_with (c ∷ p) q h = cc

-- `under` selects the paths that the index holds at or beneath the prefix.
under-exact :
    (prefix : FilePath) (i : Index) (p : FilePath)
    → (IsIn p (under prefix i) → (contains i p ≡ true) × (starts_with p prefix ≡ true))
      × (contains i p ≡ true → starts_with p prefix ≡ true → IsIn p (under prefix i))
unfolding under contains
under-exact prefix [] p = (λ h. absurd h, λ h k. cc)
under-exact prefix ((q, f) ∷ i) p =
    let rest = under-exact prefix i p in
    elim (Bool-cases (is_empty_path prefix || starts_with q prefix)) [
      | inl t ↦ rw t (
        λ h. elim h [
          | inl e ↦ ground (arith, beq_refl p, e, empty-starts_with prefix q)
          | inr k ↦ ground (arith, rest.0 k)
        ],
        λ h k. elim (Bool-cases (q == p)) [
          | inl e ↦ inl (sym (beq→eq q p e))
          | inr n ↦ inr (rest.1 (rw n at h) k)
        ],
      )
      | inr t ↦ rw t (
        λ h. ground (arith, rest.0 h),
        λ h k. elim (Bool-cases (q == p)) [
          | inl e ↦ ground (arith, beq→eq q p e)
          | inr n ↦ rest.1 (rw n at h) k
        ],
      )
    ]

module _ (source target : Index) (config : ReconcileConfig) where
  compare_all-exact :
      (plan : List Action) (ps : List FilePath) (a : Action)
      → IsIn a (compare_all plan source target config ps)
        ↔ IsIn a plan ⊎ (IsIn (path a) ps × Wants source target config a)
  unfolding compare_all
  compare_all-exact plan [] a = (inl, λ h. elim h [ inl i ↦ i | inr (f, w) ↦ absurd f ])
  compare_all-exact plan (p ∷ ps) a =
      let step = push_comparison-exact source target config plan p a in
      let rest = compare_all-exact (push_comparison plan source target p config) ps a in
      (
        λ i. elim (rest.0 i) [
          | inl j ↦ elim (step.0 j) [ inl k ↦ inl k | inr (e, w) ↦ inr (inl e, w) ]
          | inr (m, w) ↦ inr (inr m, w)
        ],
        λ h. elim h [
          | inl k ↦ rest.1 (inl (step.1 (inl k)))
          | inr (inl e, w) ↦ rest.1 (inl (step.1 (inr (e, w))))
          | inr (inr m, w) ↦ rest.1 (inr (m, w))
        ],
      )

-- A removal of something that the source does not have.
abbrev Lost : Index → Action → Type 0
Lost source a = (contains source (path a) ≡ false) × (a ≡ remove (path a))

remove_all-exact :
    (plan : List Action) (source : Index) (ps : List FilePath) (a : Action)
    → IsIn a (remove_all plan source ps) ↔ IsIn a plan ⊎ (IsIn (path a) ps × Lost source a)
unfolding remove_all
remove_all-exact plan source [] a = (inl, λ h. elim h [ inl i ↦ i | inr (f, w) ↦ absurd f ])
remove_all-exact plan source (p ∷ ps) a = elim (Bool-cases (contains source p)) [
  | inl has ↦
      let rest = remove_all-exact plan source ps a in
      rw has (
        λ i. elim (rest.0 i) [ inl j ↦ inl j | inr (m, l) ↦ inr (inr m, l) ],
        λ h. elim h [
          | inl j ↦ rest.1 (inl j)
          | inr (inl e, l) ↦ ground (arith, ap (contains source) e, l.0)
          | inr (inr m, l) ↦ rest.1 (inr (m, l))
        ],
      )
  | inr lacks ↦
      let rest = remove_all-exact (plan ++ (remove p ∷ [])) source ps a in
      rw lacks (
        λ i. elim (rest.0 i) [
          | inl j ↦ elim (IsIn-append_cases a plan (remove p ∷ []) j) [
            | inl k ↦ inl k
            | inr (inl e) ↦ inr (inl (at p e), removed p e lacks)
            | inr (inr f) ↦ absurd f
          ]
          | inr (m, l) ↦ inr (inr m, l)
        ],
        λ h. elim h [
          | inl j ↦ rest.1 (inl (IsIn-append_left a plan _ j))
          | inr (inl e, l) ↦ rest.1 (inl (IsIn-append_right a plan _ (inl (l.1 ∙ ap remove e))))
          | inr (inr m, l) ↦ rest.1 (inr (m, l))
        ],
      )
]
  where
    at : (q : FilePath) → a ≡ remove q → path a ≡ q
    at q e = unfold path in ap path e

    removed : (q : FilePath) → a ≡ remove q → contains source q ≡ false → Lost source a
    removed q e h = (ap (contains source) (at q e) ∙ h, e ∙ ap remove (sym (at q e)))

-- Nothing but a removal is wanted where the source has nothing.
wanted-none :
    (config : ReconcileConfig) (target : Option Entry) (a : Action)
    → wanted config none target a ≡ true
    → (config.delete ≡ true) × (target ≢ none) × (a ≡ remove (path a))
unfolding path
wanted-none config none (remove p) h = cc
wanted-none config (some e) (remove p) h = (h, (λ x. cc), refl)
wanted-none config _ _ h = cc

wanted-lost :
    (config : ReconcileConfig) (target : Option Entry) (p : FilePath)
    → config.delete ≡ true
    → target ≢ none
    → wanted config none target (remove p) ≡ true
wanted-lost config none p d n = absurd (n refl)
wanted-lost config (some e) p d n = d

get-ne_none : (i : Index) (p : FilePath) → contains i p ≡ true → get i p ≢ none
unfolding contains get
get-ne_none [] p h = λ e. cc
get-ne_none ((q, f) ∷ i) p h = ground (arith, get-ne_none i p)

ne_none-contains : (i : Index) (p : FilePath) → get i p ≢ none → contains i p ≡ true
unfolding contains get
ne_none-contains [] p h = absurd (h refl)
ne_none-contains ((q, f) ∷ i) p h = ground (arith, ne_none-contains i p)

module _ (source target : Index) (config : ReconcileConfig) where
  Lost-Wants :
      (a : Action)
      → config.delete ≡ true
      → contains target (path a) ≡ true
      → Lost source a
      → Wants source target config a
  Lost-Wants a d t (s, e) =
      subst (λ (b : Action). wanted config (get source (path a)) (get target (path a)) b ≡ true)
        (sym e)
        (rw (contains-get source (path a) s)
          (wanted-lost config (get target (path a)) (path a) d (get-ne_none target (path a) t)))

  Wants-Lost :
      (a : Action)
      → contains source (path a) ≡ false
      → Wants source target config a
      → (config.delete ≡ true) × (contains target (path a) ≡ true) × Lost source a
  Wants-Lost a s w =
      let (d, t, e) =
        wanted-none config (get target (path a)) a (rw (contains-get source (path a) s) at w) in
      (d, ne_none-contains target (path a) t, (s, e))

  plan_under-delete :
      (actions : List Action) (prefix : FilePath)
      → config.delete ≡ true
      → plan_under actions source target config prefix
        ≡ remove_all
            (compare_all actions source target config (under prefix source))
            source
            (under prefix target)
  unfolding plan_under
  plan_under-delete actions prefix h = ground arith

  plan_under-keep :
      (actions : List Action) (prefix : FilePath)
      → config.delete ≡ false
      → plan_under actions source target config prefix
        ≡ compare_all actions source target config (under prefix source)
  unfolding plan_under
  plan_under-keep actions prefix h = ground arith

  -- What the comparison of the source's paths contributes.
  compared_under :
      (actions : List Action) (prefix : FilePath) (a : Action)
      → IsIn a (compare_all actions source target config (under prefix source))
      → IsIn a actions ⊎ ((starts_with (path a) prefix ≡ true) × Wants source target config a)
  compared_under actions prefix a i =
      elim ((compare_all-exact source target config actions (under prefix source) a).0 i) [
        | inl k ↦ inl k
        | inr (m, w) ↦ inr (((under-exact prefix source (path a)).0 m).1, w)
      ]

  under_compared :
      (actions : List Action) (prefix : FilePath) (a : Action)
      → contains source (path a) ≡ true
      → starts_with (path a) prefix ≡ true
      → Wants source target config a
      → IsIn a (compare_all actions source target config (under prefix source))
  under_compared actions prefix a has s w =
      (compare_all-exact source target config actions (under prefix source) a).1
        (inr ((under-exact prefix source (path a)).1 has s, w))

  pub plan_under-exact :
      (actions : List Action) (prefix : FilePath) (a : Action)
      → IsIn a (plan_under actions source target config prefix)
        ↔ IsIn a actions ⊎ ((starts_with (path a) prefix ≡ true) × Wants source target config a)
  plan_under-exact actions prefix a =
      let kept = compare_all-exact source target config actions (under prefix source) a in
      elim (Bool-cases config.delete) [
        | inl d ↦
            let gone =
              remove_all-exact (compare_all actions source target config (under prefix source))
                source (under prefix target) a in
            let at = under-exact prefix target (path a) in
            rw (plan_under-delete actions prefix d) (
              λ i. elim (gone.0 i) [
                | inl j ↦ compared_under actions prefix a j
                | inr (m, l) ↦ inr ((at.0 m).1, Lost-Wants a d (at.0 m).0 l)
              ],
              λ h. elim h [
                | inl k ↦ gone.1 (inl (kept.1 (inl k)))
                | inr (s, w) ↦ elim (Bool-cases (contains source (path a))) [
                  | inl has ↦ gone.1 (inl (under_compared actions prefix a has s w))
                  | inr lacks ↦ let (_, t, l) = Wants-Lost a lacks w in gone.1 (inr (at.1 t s, l))
                ]
              ],
            )
        | inr n ↦ rw (plan_under-keep actions prefix n) (
          compared_under actions prefix a,
          λ h. elim h [
            | inl k ↦ kept.1 (inl k)
            | inr (s, w) ↦ elim (Bool-cases (contains source (path a))) [
              | inl has ↦ under_compared actions prefix a has s w
              | inr lacks ↦ cc ((Wants-Lost a lacks w).0)
            ]
          ],
        )
      ]
