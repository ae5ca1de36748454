-- ===== src/Deps/Pins.antt =====
-- The pins and `resolve` of cumulusci/core/dependencies/base.py, and the named stacks of strategies of
-- cumulusci/core/dependencies/resolvers.py.
pub mod Pinned
use cumulus_ci.Prelude.{
  String, Option, none, some, List, [], ◌∷◌, Bool, true, false, not, ◌&&◌, ◌||◌, ◌==◌, Result, ok,
  err, ◌>>=◌, if◌then◌else◌, contains, all,
}
use cumulus_ci.Prelude.Dict
use cumulus_ci.Prelude.Dict.{Dict}
use cumulus_ci.Deps.Model.{
  DepError, dependency_resolution_error, dependency_missing_version, vcs_not_found,
  validation_error, key_error, value_error, stack_not_found, PackageType, first_gen, second_gen,
  SourceInfo, Package, by_namespace, by_id, Kind, whole, subfolder, Dynamic, is_set, is_unmanaged,
  set_password, Release, Tag, Branch, RemoteConfig, Repo,
}
use cumulus_ci.Deps.Resolvers.{Context, Found, resolve_tag, resolve_dependency}

-- VcsDependencyPin
pub record Pin : Type 0 where
  pub url : String
  pub tag : String

unfoldable pub can_pin : Pin → Dynamic → Bool
can_pin pin d = d.url == pin.url

unfoldable pub conflicts : Pin → Option String → Bool
conflicts pin none = false
conflicts pin (some t) = not (t == "") && not (t == pin.tag)

unfoldable pub pin_to : Context → Pin → Dynamic → Result DepError Dynamic
unfolding conflicts resolve_tag
pin_to context pin d =
    if conflicts pin d.tag
    then err dependency_resolution_error
    else (let tagged = record d { tag = some pin.tag } in
        resolve_tag context tagged >>= λ found.
        ok (record tagged { ref = found.0; package_dependency = found.1 }))

-- DynamicDependency.resolve
unfoldable pub resolve : Context → List String → List Pin → Dynamic → Result DepError Dynamic
unfolding can_pin pin_to resolve_dependency
resolve context strategies [] d = resolve_dependency context strategies d
resolve context strategies (pin ∷ pins) d =
    let rest = resolve context strategies pins d in
    if can_pin pin d then pin_to context pin d else rest

-- `get_resolver_stack`: an alias is followed once
unfoldable pub alias : Dict String → String → String
unfolding Dict.lookup
alias resolutions name =
    if name == "resolution_strategies"
    then name
    else elim (Dict.lookup name resolutions) [ none ↦ name | some n ↦ n ]

-- the values of DependencyResolutionStrategy
abbrev pub strategy_names : List String
strategy_names =
    "tag" ∷ "commit_status_exact_branch" ∷ "commit_status_release_branch"
    ∷ "commit_status_previous_release_branch" ∷ "commit_status_default_branch"
    ∷ "unlocked_exact_branch" ∷ "unlocked_release_branch" ∷ "unlocked_previous_release_branch"
    ∷ "unlocked_default_branch" ∷ "latest_beta" ∷ "latest_release" ∷ "unmanaged" ∷ []

unfoldable pub get_resolver_stack : Context → String → Result DepError (List String)
unfolding alias Dict.lookup contains
get_resolver_stack context name = elim context.strategies [
  | none ↦ err stack_not_found
  | some stacks ↦ elim (Dict.lookup (alias context.resolutions name) stacks) [
    | none ↦ err stack_not_found
    | some stack ↦ if all (contains strategy_names) stack then ok stack else err value_error
  ]
]
