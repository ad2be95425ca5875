-- ===== src/Filter/Laws.antt =====
-- crates/treesync/src/reconcile/filter.rs: when a filter is built, and what it excludes.
use treesync.Prelude.{
  ◌≢◌, List, [], ◌∷◌, ◌++◌, Bool, true, false, Bool-cases, not, ◌&&◌, ◌||◌, some, ◌≡◌, refl, sym,
  ap, ◌∙◌, inl, inr, append-nil, append_assoc, arith,
}
use mathlib.Core.Path.{subst}
use treesync.FilePath.{FilePath}
use treesync.Error.{Text, ok, ◌>>=◌, Result-cases, ok-injective, is_ok}
use treesync.Filter.{
  Globs, Filter, trimmed, expand, is_blank, has_slash, beneath, anywhere, add_globs, add_patterns,
  built, new, any_matches, excludes,
}

-- Whether one configured pattern excludes the path: it does so with everything beneath what it
-- matches, and at every depth unless it has a separator.
abbrev pub excluded_by : Globs → Text → FilePath → Bool
excluded_by globs t path =
    globs.matches t path
    || globs.matches (beneath t) path
    || not (has_slash t)
      && (globs.matches (anywhere t) path || globs.matches (anywhere (beneath t)) path)

abbrev pub any_excludes : Globs → List Text → FilePath → Bool
any_excludes globs [] path = false
any_excludes globs (p ∷ ps) path = excluded_by globs (trimmed p) path || any_excludes globs ps path

module _ (globs : Globs) where
  any_matches-append :
      (gs hs : List Text) (path : FilePath)
      → any_matches globs (gs ++ hs) path ≡ any_matches globs gs path || any_matches globs hs path
  unfolding any_matches
  any_matches-append [] hs path = refl
  any_matches-append (g ∷ gs) hs path = ground (arith, any_matches-append gs hs path)

  any_matches-expand :
      (t : Text) (path : FilePath) → any_matches globs (expand t) path ≡ excluded_by globs t path
  unfolding any_matches expand
  any_matches-expand t path = ground arith

  abbrev pub all_valid : List Text → Bool
  all_valid [] = true
  all_valid (g ∷ gs) = globs.valid g && all_valid gs

  add_globs-valid :
      (builder gs : List Text)
      → all_valid gs ≡ true
      → add_globs globs builder gs ≡ ok (builder ++ gs)
  unfolding add_globs
  add_globs-valid builder [] h = rw append-nil
  add_globs-valid builder (g ∷ gs) h =
      ground (arith, add_globs-valid (builder ++ (g ∷ [])) gs, append_assoc builder (g ∷ []) gs)

  add_globs-invalid :
      (builder gs set : List Text) → all_valid gs ≡ false → add_globs globs builder gs ≢ ok set
  unfolding add_globs
  add_globs-invalid builder [] set h = cc
  add_globs-invalid builder (g ∷ gs) set h =
      ground (arith, add_globs-invalid (builder ++ (g ∷ [])) gs set)

  -- A pattern is accepted if it is not blank and its globs are valid.
  abbrev pub acceptable : Text → Bool
  acceptable p = not (is_blank (trimmed p)) && all_valid (expand (trimmed p))

  abbrev pub all_acceptable : List Text → Bool
  all_acceptable [] = true
  all_acceptable (p ∷ ps) = acceptable p && all_acceptable ps

  abbrev pub all_globs : List Text → List Text
  all_globs [] = []
  all_globs (p ∷ ps) = expand (trimmed p) ++ all_globs ps

  add_patterns-accepted :
      (builder ps : List Text)
      → all_acceptable ps ≡ true
      → add_patterns globs builder ps ≡ ok (builder ++ all_globs ps)
  unfolding add_patterns
  add_patterns-accepted builder [] h = rw append-nil
  add_patterns-accepted builder (p ∷ ps) h = ground (
    arith,
    add_globs-valid builder (expand (trimmed p)),
    add_patterns-accepted (builder ++ expand (trimmed p)) ps,
    append_assoc builder (expand (trimmed p)) (all_globs ps),
  )

  add_patterns-refused :
      (builder ps set : List Text)
      → all_acceptable ps ≡ false
      → add_patterns globs builder ps ≢ ok set
  unfolding add_patterns
  add_patterns-refused builder [] set h = cc
  add_patterns-refused builder (p ∷ ps) set h = elim (Bool-cases (all_valid (expand (trimmed p)))) [
    | inl v ↦ ground (
      arith,
      v,
      add_globs-valid builder (expand (trimmed p)) v,
      add_patterns-refused (builder ++ expand (trimmed p)) ps set,
    )
    | inr v ↦ elim (Result-cases (add_globs globs builder (expand (trimmed p)))) [
      | inl (set', e) ↦ absurd (add_globs-invalid builder (expand (trimmed p)) set' v e)
      | inr (x, e) ↦ ground (arith, e)
    ]
  ]

  any_matches-all_globs :
      (ps : List Text) (path : FilePath)
      → any_matches globs (all_globs ps) path ≡ any_excludes globs ps path
  unfolding any_matches
  any_matches-all_globs [] path = refl
  any_matches-all_globs (p ∷ ps) path =
      any_matches-append (expand (trimmed p)) (all_globs ps) path
      ∙ rw (any_matches-expand (trimmed p) path, any_matches-all_globs ps path)

  -- Exactly which lists of patterns make a filter: every pattern is accepted and, if there is one,
  -- the set of all their globs can be built.
  abbrev pub accepts : List Text → Bool
  accepts [] = true
  accepts (p ∷ ps) = all_acceptable (p ∷ ps) && globs.buildable (all_globs (p ∷ ps))

  new-accepted :
      (p : Text) (ps : List Text)
      → all_acceptable (p ∷ ps) ≡ true
      → new globs (p ∷ ps) ≡ built globs (p ∷ ps) (all_globs (p ∷ ps))
  unfolding new
  new-accepted p ps h = rw (add_patterns-accepted [] (p ∷ ps) h)

  new-refused :
      (p : Text) (ps : List Text) (f : Filter)
      → all_acceptable (p ∷ ps) ≡ false
      → new globs (p ∷ ps) ≢ ok f
  unfolding new
  new-refused p ps f h = elim (Result-cases (add_patterns globs [] (p ∷ ps))) [
    | inl (set, e) ↦ absurd (add_patterns-refused [] (p ∷ ps) set h e)
    | inr (x, e) ↦ rw (e, ◌>>=◌) (λ q. cc)
  ]

  abbrev Follows : List Text → Filter → FilePath → Type 0
  Follows ps f path =
      (new globs f.patterns ≡ ok f) × (excludes globs f path ≡ any_excludes globs ps path)

  -- `Filter::new` succeeds exactly on the lists of patterns that are accepted: every pattern has
  -- something left once it is trimmed and expands to valid globs, and, if there is a pattern, the
  -- set of all the globs can be built.
  pub new-accepts : (ps : List Text) → is_ok (new globs ps) ≡ accepts ps
  unfolding new built
  new-accepts [] = refl
  new-accepts (p ∷ ps) = elim (Bool-cases (all_acceptable (p ∷ ps))) [
    | inl good ↦
        ap is_ok (new-accepted p ps good)
        ∙ rw good (elim (Bool-cases (globs.buildable (all_globs (p ∷ ps)))) [
          | inl b ↦ rw b
          | inr b ↦ rw b
        ])
    | inr bad ↦ elim (Result-cases (new globs (p ∷ ps))) [
      | inl (f, e) ↦ absurd (new-refused p ps f bad e)
      | inr (x, e) ↦ ap is_ok e ∙ rw bad
    ]
  ]

  -- A filter that was built keeps its patterns, so that building from them again, as the agent does
  -- in its own process, gives the same filter; and it excludes a path exactly if one of the
  -- patterns does: the path or a directory above it is matched, at any depth where the pattern has
  -- no separator.
  pub new-follows :
      (ps : List Text) (f : Filter) (path : FilePath)
      → new globs ps ≡ ok f
      → (new globs f.patterns ≡ ok f) × (excludes globs f path ≡ any_excludes globs ps path)
  unfolding new built excludes
  new-follows [] f path e = subst (λ (g : Filter). Follows [] g path) (ok-injective e) (refl, refl)
  new-follows (p ∷ ps) f path e = elim (Bool-cases (all_acceptable (p ∷ ps))) [
    | inr bad ↦ absurd (new-refused p ps f bad e)
    | inl good ↦ elim (Bool-cases (globs.buildable (all_globs (p ∷ ps)))) [
      | inl b ↦
          let made : Filter = record { patterns = p ∷ ps; set = some (all_globs (p ∷ ps)) } in
          let q : new globs (p ∷ ps) ≡ ok made = new-accepted p ps good ∙ rw b in
          subst (λ (g : Filter). Follows (p ∷ ps) g path) (ok-injective (sym q ∙ e))
            (q, any_matches-all_globs (p ∷ ps) path)
      | inr b ↦ cc (e, new-accepted p ps good, b)
    ]
  ]
