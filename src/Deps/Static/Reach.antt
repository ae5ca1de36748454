-- ===== src/Deps/Static/Reach.antt =====
-- Where the static dependencies come from.
use cumulus_ci.Prelude.{
  String, ℕ, zero, suc, ◌≡◌, refl, subst, List, [], ◌∷◌, ◌++◌, Bool, true, false, inl, inr, Result,
  ok, ◌>>=◌, >>=-eq-ok, ok-injective, arith, All, All-append, Among, All-of_Among, Bool-cases, any,
  keep,
}
use cumulus_ci.Flow.Sort.{StepOrder}
use cumulus_ci.Deps.Model.{DepError, Dependency, static, dynamic, Static, is_flattened}
use cumulus_ci.Deps.Resolvers.{Context}
use cumulus_ci.Deps.Pins.{Pin, get_resolver_stack}
use cumulus_ci.Deps.Flatten.{flatten}
use cumulus_ci.Deps.Static.{
  resolve_one, resolve_each, flatten_each, unique, round, is_pending, iterate,
  get_static_dependencies, max_iterations,
}

module _ (order : StepOrder) (same : Dependency → Dependency → Bool) (context : Context)
    (strategies : List String) (pins : List Pin) (filter_function : Dependency → Bool)
    (roots : List Dependency) where
  -- A dependency of the project, one of these resolved, or what a resolved one that passes the
  -- filter needs in turn.
  pub data Needed : Dependency → Type 0 where
    root : (d : Dependency) → Among d roots → Needed d
    resolved :
        (d d' : Dependency)
        → Needed d
        → resolve_one order same context strategies pins filter_function d ≡ ok d'
        → Needed d'
    flattened :
        (d e : Dependency) (ds : List Dependency)
        → Needed d
        → filter_function d ≡ true
        → flatten order context d ≡ ok ds
        → Among e ds
        → Needed e

  resolve_each-Needed :
      (ds out : List Dependency)
      → resolve_each order same context strategies pins filter_function ds ≡ ok out
      → All Needed ds
      → All Needed out
  unfolding resolve_each
  resolve_each-Needed [] out h needed = subst (All Needed) (ok-injective {E = DepError} h) tt
  resolve_each-Needed (d ∷ ds) out h (hd, hds) =
      let (d', one, h1) =
        >>=-eq-ok (resolve_one order same context strategies pins filter_function d) _ h in
      let (rest, each, h2) =
        >>=-eq-ok (resolve_each order same context strategies pins filter_function ds) _ h1 in
      subst (All Needed) (ok-injective {E = DepError} h2)
        (resolved d d' hd one, resolve_each-Needed ds rest each hds)

  flatten_each-Needed :
      (ds out : List Dependency)
      → flatten_each order same context strategies pins filter_function ds ≡ ok out
      → All Needed ds
      → All Needed out
  unfolding flatten_each
  flatten_each-Needed [] out h needed = subst (All Needed) (ok-injective {E = DepError} h) tt
  flatten_each-Needed (d ∷ ds) out h (hd, hds) = elim (Bool-cases (filter_function d)) [
    | inl passes ↦
        let rest = flatten_each order same context strategies pins filter_function ds in
        let flat : (flatten order context d >>= λ here. rest >>= λ more. ok (here ++ more))
            ≡ ok out =
          ground arith in
        let (here, one, h1) = >>=-eq-ok (flatten order context d) _ flat in
        let (more, each, h2) = >>=-eq-ok rest _ h1 in
        subst (All Needed) (ok-injective {E = DepError} h2) (
          All-append Needed here more
            (All-of_Among Needed here λ e m. flattened d e here hd passes one m)
            (flatten_each-Needed ds more each hds))
    | inr ignored ↦ flatten_each-Needed ds out (ground arith) hds
  ]

  unique-Needed :
      (seen ds : List Dependency)
      → All Needed ds
      → All Needed (unique order same context strategies pins filter_function seen ds)
  unfolding unique
  unique-Needed seen [] h = tt
  unique-Needed seen (d ∷ ds) (hd, hds) = elim (Bool-cases (any (same d) seen)) [
    | inl again ↦ rw again (unique-Needed seen ds hds)
    | inr fresh ↦ rw fresh (hd, unique-Needed (d ∷ seen) ds hds)
  ]

  round-Needed :
      (ds out : List Dependency)
      → round order same context strategies pins filter_function ds ≡ ok out
      → All Needed ds
      → All Needed out
  unfolding round
  round-Needed ds out h needed =
      let (rs, each, h1) =
        >>=-eq-ok (resolve_each order same context strategies pins filter_function ds) _ h in
      let (flat, flats, h2) =
        >>=-eq-ok (flatten_each order same context strategies pins filter_function rs) _ h1 in
      subst (All Needed) (ok-injective {E = DepError} h2) (
        unique-Needed [] flat
          (flatten_each-Needed rs flat flats (resolve_each-Needed ds rs each needed)))

  -- What the caller may rely on.
  abbrev pub IsAnswer : Dependency → Type 0
  IsAnswer d = ((s : Static) × (d ≡ static s)) × (filter_function d ≡ true) × Needed d

  static-of_settled :
      (d : Dependency)
      → is_pending order same context strategies pins filter_function d ≡ false
      → (s : Static) × (d ≡ static s)
  unfolding is_pending is_flattened
  static-of_settled (static s) h = (s, refl)
  static-of_settled (dynamic d) h = ground arith

  keep-IsAnswer :
      (ds : List Dependency)
      → any (is_pending order same context strategies pins filter_function) ds ≡ false
      → All Needed ds
      → All IsAnswer (keep filter_function ds)
  keep-IsAnswer [] h needed = tt
  keep-IsAnswer (d ∷ ds) h (hd, hds) = elim (Bool-cases (filter_function d)) [
    | inl passes ↦
        rw passes
          ((static-of_settled d (ground arith), passes, hd), keep-IsAnswer ds (ground arith) hds)
    | inr ignored ↦ rw ignored (keep-IsAnswer ds (ground arith) hds)
  ]

  kept-IsAnswer :
      (ds out : List Dependency)
      → any (is_pending order same context strategies pins filter_function) ds ≡ false
      → Path (Result DepError (List Dependency)) (ok (keep filter_function ds)) (ok out)
      → All Needed ds
      → All IsAnswer out
  kept-IsAnswer ds out settled h needed =
      subst (All IsAnswer) (ok-injective {E = DepError} h) (keep-IsAnswer ds settled needed)

  pub iterate-IsAnswer :
      (rounds : ℕ) (ds out : List Dependency)
      → iterate order same context strategies pins filter_function rounds ds ≡ ok out
      → All Needed ds
      → All IsAnswer out
  unfolding iterate
  iterate-IsAnswer zero ds out h needed =
      elim (Bool-cases (any (is_pending order same context strategies pins filter_function) ds)) [
        | inr settled ↦ kept-IsAnswer ds out settled (ground arith) needed
        | inl pending ↦ ground arith
      ]
  iterate-IsAnswer (suc rounds) ds out h needed =
      elim (Bool-cases (any (is_pending order same context strategies pins filter_function) ds)) [
        | inr settled ↦ kept-IsAnswer ds out settled (ground arith) needed
        | inl pending ↦
            let again : (round order same context strategies pins filter_function ds >>= λ next.
            iterate order same context strategies pins filter_function rounds next)
                ≡ ok out =
              ground arith in
            let (next, one, rest) =
              >>=-eq-ok (round order same context strategies pins filter_function ds) _ again in
            iterate-IsAnswer rounds next out rest (round-Needed ds next one needed)
      ]

-- Every dependency that `get_static_dependencies` returns is static, passes the filter, and is
-- needed: it is one of the project's own, or it comes from resolving and flattening dependencies
-- that are needed and of which each flattened one passes the filter. So what only an ignored
-- dependency needs is not returned.
pub get_static_dependencies-IsAnswer :
    (order : StepOrder) (same : Dependency → Dependency → Bool) (context : Context)
    (strategy : String) (pins : List Pin) (filter_function : Dependency → Bool)
    (dependencies out : List Dependency)
    → get_static_dependencies order same context strategy pins filter_function dependencies ≡ ok out
    → (strategies : List String) × (get_resolver_stack context strategy ≡ ok strategies)
      × All (IsAnswer order same context strategies pins filter_function dependencies) out
unfolding get_static_dependencies
get_static_dependencies-IsAnswer order same context strategy pins filter_function dependencies out
      h =
    let (strategies, stack, loop) = >>=-eq-ok (get_resolver_stack context strategy) _ h in
    (
      strategies,
      stack,
      iterate-IsAnswer order same context strategies pins filter_function dependencies
          max_iterations dependencies out loop
          (All-of_Among (Needed order same context strategies pins filter_function dependencies)
            dependencies λ d m. root d m),
    )
