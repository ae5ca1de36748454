-- ===== src/Deps/Flatten.antt =====
-- `flatten` of the dependencies of cumulusci/core/dependencies/base.py.
-- The order of the folder names is Python's on texts, a parameter as in Flow/Sort.antt.
use cumulus_ci.Prelude.{
  String, Option, none, some, List, [], ◌∷◌, ◌++◌, Bool, true, false, not, ◌&&◌, ◌==◌, Result, ok,
  err, ◌>>=◌, if◌then◌else◌, contains, ◌<>◌,
}
use cumulus_ci.Flow.Sort.{StepOrder, sorted}
use cumulus_ci.Deps.Model.{
  DepError, dependency_resolution_error, vcs_not_found, Package, Static, UnmanagedVcs,
  package_version, unmanaged_vcs, vcs_flow, Kind, whole, subfolder, Dynamic, Dependency, static,
  dynamic, is_set, RemoteConfig, Repo,
}
use cumulus_ci.Deps.Resolvers.{Context, text_or_empty}
pub mod Around
pub mod Shape

-- `namespace if namespace and condition else None`
unfoldable pub namespace_if : Option String → Bool → Option String
unfolding is_set
namespace_if namespace condition = if is_set namespace && condition then namespace else none

unfoldable pub flatten_dependency_flow :
    Dynamic → Option String → Bool → Option String → List Dependency
unfolding is_set namespace_if text_or_empty
flatten_dependency_flow d flow managed namespace =
    if is_set flow
    then static (
        vcs_flow (record {
          url = d.url;
          vcs = d.vcs;
          commit = text_or_empty d.ref;
          flow_name = text_or_empty flow;
          unmanaged = some (not managed);
          namespace_inject = namespace_if namespace managed;
          namespace_strip = namespace_if namespace (not managed);
          package_dependency = d.package_dependency;
        }))
      ∷ []
    else []

unfoldable pub unpackaged :
    Dynamic → String → List String → Bool → Option String → List String → List Dependency
unfolding contains namespace_if text_or_empty
unpackaged d folder skip managed namespace [] = []
unpackaged d folder skip managed namespace (name ∷ names) =
    let rest = unpackaged d folder skip managed namespace names in
    if contains skip (folder <> ("/" <> name))
    then rest
    else static (
        unmanaged_vcs (record {
          url = d.url;
          ref = text_or_empty d.ref;
          subfolder = some (folder <> ("/" <> name));
          unmanaged = some (not managed);
          namespace_inject = namespace_if namespace managed;
          namespace_strip = namespace_if namespace (not managed);
          package_dependency = d.package_dependency;
        }))
      ∷ rest

-- `directory_contents`, with None where the folder is not there
unfoldable pub directory_contents : Repo → String → Dynamic → Result DepError (List String)
unfolding text_or_empty
directory_contents repo folder d = elim (repo.directory_contents folder (text_or_empty d.ref)) [
  | ok (some names) ↦ ok names
  | ok none ↦ ok []
  | err vcs_not_found ↦ ok []
  | err e ↦ err e
]

unfoldable pub flatten_unpackaged :
    StepOrder
    → Dynamic
    → Repo
    → String
    → List String
    → Bool
    → Option String
    → Result DepError (List Dependency)
unfolding unpackaged directory_contents sorted
flatten_unpackaged order d repo folder skip managed namespace = do
  names ← directory_contents repo folder d
  ok (unpackaged d folder skip managed namespace (sorted order (λ name. name) names))

-- The metadata before or after the package: that of the flow, where there is one.
unfoldable pub around :
    StepOrder
    → Dynamic
    → Repo
    → Option String
    → String
    → List String
    → Bool
    → Option String
    → Option String
    → Result DepError (List Dependency)
unfolding flatten_dependency_flow flatten_unpackaged is_set
around order d repo flow folder skip managed flow_namespace namespace =
    if is_set flow
    then ok (flatten_dependency_flow d flow managed flow_namespace)
    else flatten_unpackaged order d repo folder skip managed namespace

-- `if None in deps`
unfoldable pub all_parsed : List (Option Dependency) → Result DepError (List Dependency)
all_parsed [] = ok []
all_parsed (none ∷ ds) = err dependency_resolution_error
all_parsed (some d ∷ ds) = do rest ← all_parsed ds; ok (d ∷ rest)

-- The source of the repository, where there is no package.
unfoldable pub own_source : Dynamic → Bool → UnmanagedVcs
unfolding text_or_empty
own_source d unmanaged = record {
  url = d.url;
  ref = text_or_empty d.ref;
  subfolder = none;
  unmanaged = some unmanaged;
  namespace_inject = d.namespace_inject;
  namespace_strip = d.namespace_strip;
  package_dependency = none;
}

unfoldable pub main_dependency : Dynamic → Bool → Bool → Result DepError Dependency
unfolding own_source
main_dependency d unmanaged managed = elim d.package_dependency [
  | some p ↦ ok (static (package_version p))
  | none ↦
      if managed
      then err dependency_resolution_error
      else ok (static (unmanaged_vcs (own_source d unmanaged)))
]

-- VcsDynamicDependency.flatten, after its check that the dependency is resolved
unfoldable pub flatten_whole :
    StepOrder → Context → Dynamic → Bool → List String → Result DepError (List Dependency)
unfolding all_parsed around main_dependency is_set text_or_empty
flatten_whole order context d unmanaged skip = do
  repo ← context.get_repo d.url
  config ← repo.get_remote_project_config (text_or_empty d.ref)
  upstream ← all_parsed config.dependencies
  let managed = is_set config.namespace && not unmanaged
  pre ←
      around order d repo config.dependency_flow_pre "unpackaged/pre" skip false config.namespace
        none
  main ← main_dependency d unmanaged managed
  post ←
      around order d repo config.dependency_flow_post "unpackaged/post" skip managed
        config.namespace config.namespace
  ok (upstream ++ (pre ++ (main ∷ post)))

-- VcsDynamicSubfolderDependency.flatten, after the same check
unfoldable pub flatten_subfolder : Dynamic → String → List Dependency
unfolding text_or_empty
flatten_subfolder d path =
    static (
      unmanaged_vcs (record {
        url = d.url;
        ref = text_or_empty d.ref;
        subfolder = some path;
        unmanaged = none;
        namespace_inject = d.namespace_inject;
        namespace_strip = d.namespace_strip;
        package_dependency = none;
      }))
    ∷ []

unfoldable pub flatten : StepOrder → Context → Dependency → Result DepError (List Dependency)
unfolding flatten_whole flatten_subfolder is_set
flatten order context (static s) = ok (static s ∷ [])
flatten order context (dynamic d) =
    if is_set d.ref
    then (elim d.kind [
      | whole unmanaged skip ↦ flatten_whole order context d unmanaged skip
      | subfolder path ↦ ok (flatten_subfolder d path)
    ])
    else err dependency_resolution_error
