-- ===== src/Deps/Resolvers/Outcome.antt =====
-- What `resolve_dependency` achieves, and which strategy decides.
use cumulus_ci.Prelude.{
  String, ◌≡◌, refl, sym, subst, ap₂, append-nil, ok-injective, ◌∙◌, ap, Option, none, some, List,
  [], ◌∷◌, ◌++◌, true, false, ◌⊎◌, inl, inr, Result, ok, err, ◌>>=◌, >>=-eq-ok, if◌then◌else◌,
  arith, All, Bool-cases,
}
use cumulus_ci.Deps.Model.{
  DepError, dependency_resolution_error, dependency_missing_version, vcs_not_found,
  validation_error, key_error, value_error, stack_not_found, too_many_iterations, other_error,
  Package, Dynamic, is_set,
}
use cumulus_ci.Deps.Resolvers.{
  Resolver, Context, Found, assign, can_resolve, run_resolver, get_resolver, attempt, caught,
  try_strategies, resolve_dependency,
}

-- Nothing but the ref and the package differs.
abbrev pub SameRequest : Dynamic → Dynamic → Type 0
SameRequest d d' = d' ≡ record d { ref = d'.ref; package_dependency = d'.package_dependency }

assign-SameRequest : (d : Dynamic) (found : Found) → SameRequest d (assign found d)
unfolding assign
assign-SameRequest d (ref, none) = refl
assign-SameRequest d (ref, some p) = refl

caught-SameRequest :
    (d d' : Dynamic) (r : Result DepError Found) → caught d r ≡ ok d' → SameRequest d d'
unfolding caught
caught-SameRequest d d' (ok found) h =
    subst (SameRequest d) (ok-injective h) (assign-SameRequest d found)
caught-SameRequest d d' (err dependency_resolution_error) h =
    subst (SameRequest d) (ok-injective h) refl
caught-SameRequest d d' (err dependency_missing_version) h = cc
caught-SameRequest d d' (err vcs_not_found) h = cc
caught-SameRequest d d' (err validation_error) h = cc
caught-SameRequest d d' (err key_error) h = cc
caught-SameRequest d d' (err value_error) h = cc
caught-SameRequest d d' (err stack_not_found) h = cc
caught-SameRequest d d' (err too_many_iterations) h = cc
caught-SameRequest d d' (err (other_error e)) h = cc

attempt-SameRequest :
    (resolver : Resolver) (context : Context) (d d' : Dynamic)
    → attempt resolver context d ≡ ok d'
    → SameRequest d d'
unfolding attempt
attempt-SameRequest resolver context d d' h = elim (Bool-cases (can_resolve resolver d)) [
  | inl can ↦ caught-SameRequest d d' (run_resolver resolver context d) (ground arith)
  | inr cannot ↦
      let same : ok d ≡ ok d' = ground arith in
      subst (SameRequest d) (ok-injective {E = DepError} same) refl
]

SameRequest-trans : (a b c : Dynamic) → SameRequest a b → SameRequest b c → SameRequest a c
SameRequest-trans a b c hb hc =
    let now : Dynamic → Dynamic =
      λ x. record x { ref = c.ref; package_dependency = c.package_dependency } in
    hc ∙ ap now hb

try_strategies-SameRequest :
    (context : Context) (strategies : List String) (d d' : Dynamic)
    → try_strategies context strategies d ≡ ok d'
    → SameRequest d d'
unfolding try_strategies
try_strategies-SameRequest context [] d d' h = subst (SameRequest d) (ok-injective h) refl
try_strategies-SameRequest context (s ∷ strategies) d d' h =
    let (resolver, got, h1) =
      >>=-eq-ok (get_resolver context s d)
        (λ r. attempt r context d >>= λ x.
          if is_set x.ref then ok x else try_strategies context strategies x)
        h in
    let (x, tried, h2) =
      >>=-eq-ok (attempt resolver context d)
        (λ x. if is_set x.ref then ok x else try_strategies context strategies x) h1 in
    SameRequest-trans d x d' (attempt-SameRequest resolver context d x tried)
      (elim (Bool-cases (is_set x.ref)) [
        | inl set ↦
            let same : ok x ≡ ok d' = ground arith in
            subst (SameRequest x) (ok-injective {E = DepError} same) refl
        | inr unset ↦ try_strategies-SameRequest context strategies x d' (ground arith)
      ])

-- Where `resolve_dependency` succeeds, the dependency has a ref, and only its ref and its package
-- were set: the repository, the VCS, the tag and everything else are those that were asked for.
pub resolve_dependency-Resolved :
    (context : Context) (strategies : List String) (d d' : Dynamic)
    → resolve_dependency context strategies d ≡ ok d'
    → (is_set d'.ref ≡ true) × SameRequest d d'
unfolding resolve_dependency
resolve_dependency-Resolved context strategies d d' h = elim (Bool-cases (is_set d.ref)) [
  | inl set ↦
      let returned : ok d ≡ ok d' = ground arith in
      let same = ok-injective {E = DepError} returned in
      (subst (λ x. is_set x.ref ≡ true) same set, subst (SameRequest d) same refl)
  | inr unset ↦
      let ran : (try_strategies context strategies d >>= λ x.
      if is_set x.ref then ok x else err dependency_resolution_error)
          ≡ ok d' =
        ground arith in
      let (x, tried, h2) =
        >>=-eq-ok (try_strategies context strategies d)
          (λ x. if is_set x.ref then ok x else err dependency_resolution_error) ran in
      elim (Bool-cases (is_set x.ref)) [
        | inl found ↦
            let returned : ok x ≡ ok d' = ground arith in
            let same = ok-injective {E = DepError} returned in
            (
              subst (λ y. is_set y.ref ≡ true) same found,
              subst (SameRequest d) same (try_strategies-SameRequest context strategies d x tried),
            )
        | inr failed ↦ ground arith
      ]
]

-- A strategy from which a dependency without ref and package comes out as it went in: it does not
-- apply, it raises a DependencyResolutionError, or it finds nothing.
abbrev pub Fails : Context → Dynamic → String → Type 0
Fails context d s =
    (r : Resolver) × (get_resolver context s d ≡ ok r)
    × ((can_resolve r d ≡ false)
        ⊎ (run_resolver r context d ≡ err dependency_resolution_error)
        ⊎ (run_resolver r context d ≡ ok (none, none)))

attempt-fails :
    (context : Context) (d : Dynamic) (r : Resolver)
    → d.ref ≡ none
    → d.package_dependency ≡ none
    → ((can_resolve r d ≡ false)
        ⊎ (run_resolver r context d ≡ err dependency_resolution_error)
        ⊎ (run_resolver r context d ≡ ok (none, none)))
    → attempt r context d ≡ ok d
unfolding attempt caught assign
attempt-fails context d r ref none_yet fails = elim fails [
  | inl cannot ↦ ground arith
  | inr (inl failed) ↦ elim (Bool-cases (can_resolve r d)) [
    | inl can ↦ cc
    | inr cannot ↦ ground arith
  ]
  | inr (inr nothing) ↦
      let cleared : Option String → Option Package → Dynamic =
        λ r p. record d { ref = r; package_dependency = p } in
      let same : cleared none none ≡ d = ap₂ cleared (sym ref) (sym none_yet) in
      elim (Bool-cases (can_resolve r d)) [
        | inl can ↦ rw (can, nothing) (ap ok same)
        | inr cannot ↦ ground arith
      ]
]

try_strategies-skips :
    (context : Context) (d : Dynamic) (before after : List String)
    → d.ref ≡ none
    → d.package_dependency ≡ none
    → All (Fails context d) before
    → try_strategies context (before ++ after) d ≡ try_strategies context after d
unfolding try_strategies is_set
try_strategies-skips context d [] after ref none_yet fails = refl
try_strategies-skips context d (s ∷ before) after ref none_yet ((r, got, why), fails) =
    let unchanged = attempt-fails context d r ref none_yet why in
    let rest = try_strategies-skips context d before after ref none_yet fails in
    let unset : is_set d.ref ≡ false = rw ref refl in rw (got, unchanged, unset) rest

is_set-none : (d : Dynamic) → d.ref ≡ none → is_set d.ref ≡ false
unfolding is_set
is_set-none d h = rw h refl

is_set-assign :
    (d : Dynamic) (ref : String) (found : Option Package)
    → is_set (some ref) ≡ true
    → is_set (assign (some ref, found) d).ref ≡ true
unfolding assign
is_set-assign d ref none h = h
is_set-assign d ref (some p) h = h

-- The strategies are tried in order, and the first that finds a ref decides: for a dependency
-- without ref and package, if every strategy before `s` fails and the resolver of `s` finds a ref
-- that is not empty, then the dependency gets that ref and that package, whatever comes after `s`.
pub resolve_dependency-first :
    (context : Context) (d : Dynamic) (before after : List String) (s ref : String)
    (found : Option Package) (r : Resolver)
    → d.ref ≡ none
    → d.package_dependency ≡ none
    → All (Fails context d) before
    → get_resolver context s d ≡ ok r
    → can_resolve r d ≡ true
    → run_resolver r context d ≡ ok (some ref, found)
    → is_set (some ref) ≡ true
    → resolve_dependency context (before ++ s ∷ after) d ≡ ok (assign (some ref, found) d)
unfolding resolve_dependency try_strategies attempt caught
resolve_dependency-first context d before after s ref found r unset none_yet fails got can ran set =
    let no_ref : is_set d.ref ≡ false = is_set-none d unset in
    let has_ref : is_set (assign (some ref, found) d).ref ≡ true = is_set-assign d ref found set in
    let tried : try_strategies context (s ∷ after) d ≡ ok (assign (some ref, found) d) =
      rw (got, can, ran, has_ref) refl in
    rw
      (
        no_ref,
        try_strategies-skips context d before (s ∷ after) unset none_yet fails,
        tried,
        has_ref,
      )
      refl

-- If every strategy fails for a dependency without ref and package, the dependency is not resolved:
-- `resolve_dependency` raises a DependencyResolutionError.
pub resolve_dependency-exhausted :
    (context : Context) (d : Dynamic) (strategies : List String)
    → d.ref ≡ none
    → d.package_dependency ≡ none
    → All (Fails context d) strategies
    → resolve_dependency context strategies d ≡ err dependency_resolution_error
unfolding resolve_dependency try_strategies
resolve_dependency-exhausted context d strategies unset none_yet fails =
    let skipped : try_strategies context strategies d ≡ ok d =
      subst (λ l. try_strategies context l d ≡ ok d) (append-nil strategies)
        (try_strategies-skips context d strategies [] unset none_yet fails) in
    rw (is_set-none d unset, skipped, is_set-none d unset) refl
