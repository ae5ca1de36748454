-- ===== src/Deps/Resolvers.antt =====
-- The resolvers of cumulusci/core/dependencies/resolvers.py, and `resolve_dependency` over
-- a stack of strategies.
-- A VCS is known by the repositories it opens. The classes registered for it are data: which
-- resolver each strategy names.
use cumulus_ci.Prelude.{
  String, Option, none, some, List, [], ◌∷◌, Bool, true, false, not, ◌&&◌, ◌||◌, ◌==◌, Result, ok,
  err, ◌>>=◌, if◌then◌else◌, contains, all,
}
use cumulus_ci.Prelude.Dict
use cumulus_ci.Prelude.Dict.{Dict}
use cumulus_ci.Deps.Model.{
  DepError, dependency_resolution_error, dependency_missing_version, vcs_not_found,
  validation_error, key_error, value_error, stack_not_found, PackageType, first_gen, second_gen,
  SourceInfo, Package, by_namespace, by_id, Kind, whole, subfolder, Dynamic, is_set, is_unmanaged,
  set_password, Release, Tag, Branch, RemoteConfig, Repo,
}
pub mod Outcome

-- What a resolver returns: a ref and a package, both optional.
abbrev pub Found : Type 0
Found = Option String × Option Package

-- The concrete subclasses. `commit_status` carries its name, the context of the remote statuses, whether the
-- project's branch is one it can work from, and its `get_branches`.
pub data Resolver : Type 0 where
  tag_resolver : String → Resolver
  release_resolver : String → Bool → Resolver
  unmanaged_head : String → Resolver
  commit_status : String → String → Bool → (Dynamic → Result DepError (List Branch)) → Resolver

-- What the project's configuration and the VCS services supply. `get_repo` opens the repository
-- of a URL. `classes` is RESOLVER_CLASSES, by VCS and then by strategy.
pub record Context : Type 0 where
  pub get_repo : String → Result DepError Repo
  pub classes : Dict (Dict Resolver)
  pub stop_on_missing_version : List String
  pub resolutions : Dict String
  pub strategies : Option (Dict (List String))

-- `a or b` of two optional texts
unfoldable pub or_else : Option String → Option String → Option String
unfolding is_set
or_else a b = if is_set a then a else b

unfoldable pub get_package_name : RemoteConfig → Option String
unfolding or_else
get_package_name c = or_else c.name_managed (or_else c.name (some "Package"))

unfoldable pub is_second_gen : Option PackageType → Bool
is_second_gen (some second_gen) = true
is_second_gen (some first_gen) = false
is_second_gen none = false

unfoldable pub text_or_empty : Option String → String
text_or_empty none = ""
text_or_empty (some s) = s

-- The package that a release's tag and the configuration at its commit describe.
-- A PackageNamespaceVersionDependency without a namespace does not validate.
unfoldable pub package_of_release :
    Repo → Dynamic → Release → Tag → RemoteConfig → Result DepError Found
unfolding is_set is_unmanaged get_package_name is_second_gen text_or_empty
package_of_release repo d release tag config =
    if is_unmanaged d.kind || not (is_set config.namespace || is_set tag.version_id)
    then ok (some tag.sha, none)
    else if is_second_gen tag.package_type
    then ok (
      some tag.sha,
      some (
          by_id (record {
            version_id = text_or_empty tag.version_id;
            package_name = get_package_name config;
            version_number = some release.name;
            password_env_name = none;
            source_info = some (record { url = repo.clone_url; commit = tag.sha; vcs = d.vcs });
          })),
    )
    else elim config.namespace [
      | none ↦ err validation_error
      | some namespace ↦ ok (
        some tag.sha,
        some (
            by_namespace (record {
              namespace = namespace;
              version = release.name;
              package_name = get_package_name config;
              version_id = tag.version_id;
              password_env_name = none;
            })),
      )
    ]

unfoldable pub resolve_release : Repo → Dynamic → Release → Result DepError Found
unfolding package_of_release
resolve_release repo d release = do
  tag ← repo.get_tag_by_name release.tag_name
  config ← repo.get_remote_project_config tag.sha
  package_of_release repo d release tag config

-- `except VcsNotFoundError: raise DependencyResolutionError`
unfoldable pub not_found_fails : Result DepError Found → Result DepError Found
not_found_fails (err vcs_not_found) = err dependency_resolution_error
not_found_fails r = r

unfoldable pub resolve_tag : Context → Dynamic → Result DepError Found
unfolding not_found_fails resolve_release text_or_empty
resolve_tag context d = not_found_fails (do
  repo ← context.get_repo d.url
  release ← repo.release_from_tag (text_or_empty d.tag)
  resolve_release repo d release)

unfoldable pub resolve_latest : Context → Bool → Dynamic → Result DepError Found
unfolding resolve_release
resolve_latest context include_beta d = do
  repo ← context.get_repo d.url
  release ← repo.find_latest_release include_beta
  elim release [ none ↦ ok (none, none) | some r ↦ resolve_release repo d r ]

unfoldable pub resolve_head : Context → Dynamic → Result DepError Found
resolve_head context d = do
  repo ← context.get_repo d.url
  branch ← repo.branch repo.default_branch
  ok (some branch.sha, none)

-- AbstractVcsCommitStatusPackageResolver.resolve: the loop over the branches
unfoldable pub located : Repo → Dynamic → String → String → Result DepError Found
unfolding get_package_name
located repo d version_id commit = do
  config ← repo.get_remote_project_config commit
  ok (
    some commit,
    some (
        by_id (record {
          version_id = version_id;
          package_name = get_package_name config;
          version_number = none;
          password_env_name = none;
          source_info = some (record { url = repo.clone_url; commit = commit; vcs = d.vcs });
        })),
  )

-- The hook for a branch without a version
unfoldable pub handle_missing_branch_metadata : Context → String → Result {0, 0} DepError Unit
unfolding contains
handle_missing_branch_metadata context name =
    if contains context.stop_on_missing_version name then err dependency_missing_version else ok tt

-- The body of the loop over the branches; `rest` is the loop over those that are left.
unfoldable pub try_branch :
    Context
    → String
    → Repo
    → Dynamic
    → Branch
    → Option String × Option String
    → Result DepError Found
    → Result DepError Found
unfolding located is_set text_or_empty handle_missing_branch_metadata
try_branch context name repo d branch (version_id, commit) rest =
    if is_set version_id && is_set commit
    then located repo d (text_or_empty version_id) (text_or_empty commit)
    else if d.is_vcs_source
    then ok (some branch.sha, none)
    else (handle_missing_branch_metadata context name >>= λ _. rest)

unfoldable pub resolve_branches :
    Context → String → String → Repo → Dynamic → List Branch → Result DepError Found
unfolding try_branch
resolve_branches context name status repo d [] = ok (none, none)
resolve_branches context name status repo d (branch ∷ branches) =
    let rest = resolve_branches context name status repo d branches in
    repo.locate_commit_status_package_id branch status >>= λ found.
    try_branch context name repo d branch found rest

-- AbstractTagResolver.can_resolve: a VcsDynamicDependency with a tag
unfoldable pub can_resolve_tag : String → Dynamic → Bool
can_resolve_tag vcs d = elim d.kind [
  | whole unmanaged skip ↦ elim d.tag [ none ↦ false | some t ↦ vcs == d.vcs ]
  | subfolder path ↦ false
]

-- AbstractReleaseTagResolver.can_resolve: one without a tag
unfoldable pub can_resolve_latest : String → Dynamic → Bool
can_resolve_latest vcs d = elim d.kind [
  | whole unmanaged skip ↦ elim d.tag [ none ↦ vcs == d.vcs | some t ↦ false ]
  | subfolder path ↦ false
]

unfoldable pub can_resolve : Resolver → Dynamic → Bool
unfolding can_resolve_tag can_resolve_latest
can_resolve (tag_resolver vcs) d = can_resolve_tag vcs d
can_resolve (release_resolver vcs include_beta) d = can_resolve_latest vcs d
can_resolve (unmanaged_head vcs) d = vcs == d.vcs
can_resolve (commit_status name status valid branches) d = valid

unfoldable pub run_resolver : Resolver → Context → Dynamic → Result DepError Found
unfolding resolve_tag resolve_latest resolve_head resolve_branches
run_resolver (tag_resolver vcs) context d = resolve_tag context d
run_resolver (release_resolver vcs include_beta) context d = resolve_latest context include_beta d
run_resolver (unmanaged_head vcs) context d = resolve_head context d
run_resolver (commit_status name status valid get_branches) context d = do
  branches ← get_branches d
  repo ← context.get_repo d.url
  resolve_branches context name status repo d branches

-- RESOLVER_CLASSES[dependency.vcs][strategy]
unfoldable pub get_resolver : Context → String → Dynamic → Result DepError Resolver
unfolding Dict.lookup
get_resolver context strategy d = elim (Dict.lookup d.vcs context.classes) [
  | none ↦ err key_error
  | some classes ↦ elim (Dict.lookup strategy classes) [ none ↦ err key_error | some r ↦ ok r ]
]

-- `dependency.ref, dependency.package_dependency = ...`, and the password of the package
unfoldable pub assign : Found → Dynamic → Dynamic
unfolding set_password
assign (ref, none) d = record d { ref = ref; package_dependency = none }
assign (ref, some p) d = record d {
  ref = ref;
  package_dependency = some (set_password d.password_env_name p);
}

-- One strategy of the loop: a DependencyResolutionError is logged, and the next one is tried.
unfoldable pub caught : Dynamic → Result DepError Found → Result DepError Dynamic
unfolding assign
caught d (ok found) = ok (assign found d)
caught d (err dependency_resolution_error) = ok d
caught d (err e) = err e

unfoldable pub attempt : Resolver → Context → Dynamic → Result DepError Dynamic
unfolding can_resolve run_resolver caught
attempt resolver context d =
    if can_resolve resolver d then caught d (run_resolver resolver context d) else ok d

unfoldable pub try_strategies : Context → List String → Dynamic → Result DepError Dynamic
unfolding get_resolver attempt is_set
try_strategies context [] d = ok d
try_strategies context (s ∷ strategies) d = do
  resolver ← get_resolver context s d
  d' ← attempt resolver context d
  if is_set d'.ref then ok d' else try_strategies context strategies d'

unfoldable pub resolve_dependency : Context → List String → Dynamic → Result DepError Dynamic
unfolding try_strategies is_set
resolve_dependency context strategies d =
    if is_set d.ref
    then ok d
    else (try_strategies context strategies d >>= λ d'.
        if is_set d'.ref then ok d' else err dependency_resolution_error)
