-- ===== src/Deps/Static.antt =====
-- `get_static_dependencies` and `dependency_filter_ignore_deps` of
-- cumulusci/core/dependencies/resolvers.py.
-- `same` is the equality of dependencies by which `unique` drops one: pydantic's, a parameter.
use cumulus_ci.Prelude.{
  String, ℕ, zero, suc, Option, none, some, List, [], ◌∷◌, ◌++◌, Bool, true, false, not, ◌||◌, ◌==◌,
  Result, ok, err, ◌>>=◌, if◌then◌else◌, contains, any, keep,
}
use cumulus_ci.Flow.Sort.{StepOrder}
use cumulus_ci.Deps.Model.{
  DepError, too_many_iterations, Package, by_namespace, by_id, Static, package_version,
  unmanaged_vcs, vcs_flow, unmanaged_zip, Dynamic, Dependency, static, dynamic, is_set, is_resolved,
  is_flattened,
}
use cumulus_ci.Deps.Resolvers.{Context}
use cumulus_ci.Deps.Pins.{Pin, resolve, get_resolver_stack}
use cumulus_ci.Deps.Flatten.{flatten}
pub mod Reach
pub mod Kept

-- One entry of `ignore_deps`; `none` for a key that is not there.
pub record Ignore : Type 0 where
  pub github : Option String
  pub namespace : Option String

unfoldable pub given : List (Option String) → List String
given [] = []
given (none ∷ names) = given names
given (some n ∷ names) = n ∷ given names

abbrev pub map_ignores : (Ignore → Option String) → List Ignore → List (Option String)
map_ignores f [] = []
map_ignores f (i ∷ is) = f i ∷ map_ignores f is

-- `should_include` of `dependency_filter_ignore_deps`. The `github` of a GitHub dependency is its
-- URL, and its VCS is "github".
unfoldable pub should_include : List Ignore → Dependency → Bool
unfolding contains given
should_include ignores (static (package_version (by_namespace p))) =
    not (contains (given (map_ignores (λ i. i.namespace) ignores)) p.namespace)
should_include ignores (static s) = true
should_include ignores (dynamic d) =
    if d.vcs == "github"
    then not (contains (given (map_ignores (λ i. i.github) ignores)) d.url)
    else true

module _ (order : StepOrder) (same : Dependency → Dependency → Bool) (context : Context)
    (strategies : List String) (pins : List Pin) (filter_function : Dependency → Bool) where
  -- The first loop of a round resolves in place what is dynamic and not resolved.
  unfoldable pub resolve_one : Dependency → Result DepError Dependency
  unfolding is_set resolve
  resolve_one (static s) = ok (static s)
  resolve_one (dynamic d) =
      if is_set d.ref
      then ok (dynamic d)
      else (resolve context strategies pins d >>= λ d'. ok (dynamic d'))

  unfoldable pub resolve_each : List Dependency → Result DepError (List Dependency)
  unfolding resolve_one
  resolve_each [] = ok []
  resolve_each (d ∷ ds) = do d' ← resolve_one d; rest ← resolve_each ds; ok (d' ∷ rest)

  unfoldable pub flatten_each : List Dependency → Result DepError (List Dependency)
  unfolding flatten
  flatten_each [] = ok []
  flatten_each (d ∷ ds) =
      let rest = flatten_each ds in
      if filter_function d
      then (flatten order context d >>= λ here. rest >>= λ more. ok (here ++ more))
      else rest

  -- `unique`, with what was seen so far
  unfoldable pub unique : List Dependency → List Dependency → List Dependency
  unique seen [] = []
  unique seen (d ∷ ds) =
      let skipped = unique seen ds in
      let kept = unique (d ∷ seen) ds in if any (same d) seen then skipped else d ∷ kept

  unfoldable pub round : List Dependency → Result DepError (List Dependency)
  unfolding resolve_each flatten_each unique
  round ds = do resolved ← resolve_each ds; flat ← flatten_each resolved; ok (unique [] flat)

  -- `not d.is_flattened or not d.is_resolved`
  unfoldable pub is_pending : Dependency → Bool
  unfolding is_resolved is_flattened
  is_pending d = not (is_flattened d) || not (is_resolved d)

  -- The `while` loop: `rounds` is what is left of `max_iterations`.
  unfoldable pub iterate : ℕ → List Dependency → Result DepError (List Dependency)
  unfolding round is_pending
  iterate zero ds =
      if any is_pending ds then err too_many_iterations else ok (keep filter_function ds)
  iterate (suc rounds) ds =
      if any is_pending ds
      then (round ds >>= λ next. iterate rounds next)
      else ok (keep filter_function ds)

abbrev pub max_iterations : ℕ
max_iterations = 50

-- With the dependencies and the pins parsed, and the name of a resolution strategy.
unfoldable pub get_static_dependencies :
    StepOrder
    → (Dependency → Dependency → Bool)
    → Context
    → String
    → List Pin
    → (Dependency → Bool)
    → List Dependency
    → Result DepError (List Dependency)
unfolding iterate get_resolver_stack
get_static_dependencies order same context resolution_strategy pins filter_function dependencies =
    do
      strategies ← get_resolver_stack context resolution_strategy
      iterate order same context strategies pins filter_function max_iterations dependencies
