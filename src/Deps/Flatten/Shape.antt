-- ===== src/Deps/Flatten/Shape.antt =====
-- What a flattened dependency consists of, and in which order.
use cumulus_ci.Prelude.{
  String, ◌≡◌, refl, sym, subst, ◌∙◌, none, some, List, ◌∷◌, ◌++◌, Bool, false, inl, inr, Result,
  ok, >>=-eq-ok, ok-injective, arith, Bool-cases, Option-cases, not, ◌&&◌,
}
use cumulus_ci.Flow.Sort.{StepOrder}
use cumulus_ci.Deps.Model.{
  DepError, package_version, unmanaged_vcs, vcs_flow, unmanaged_zip, Dynamic, Dependency, static,
  dynamic, is_set, RemoteConfig, Repo,
}
use cumulus_ci.Deps.Resolvers.{Context, text_or_empty}
use cumulus_ci.Deps.Flatten.{around, all_parsed, own_source, main_dependency, flatten_whole}
use cumulus_ci.Deps.Flatten.Around.{IsAround, around-IsAround}

-- The project itself, from its package or from its source.
abbrev pub IsMain : Dynamic → Bool → Dependency → Type 0
IsMain d managed (static (package_version p)) = d.package_dependency ≡ some p
IsMain d managed (static (unmanaged_vcs u)) =
    (d.package_dependency ≡ none)
    × (managed ≡ false)
    × (u.url ≡ d.url)
    × (u.ref ≡ text_or_empty d.ref)
    × (u.subfolder ≡ none)
IsMain d managed (static (vcs_flow f)) = ⊥
IsMain d managed (static (unmanaged_zip u s)) = ⊥
IsMain d managed (dynamic e) = ⊥

main_dependency-IsMain :
    (d : Dynamic) (unmanaged managed : Bool) (main : Dependency)
    → main_dependency d unmanaged managed ≡ ok main
    → IsMain d managed main
unfolding main_dependency own_source
main_dependency-IsMain d unmanaged managed main h = elim (Option-cases d.package_dependency) [
  | inr (p, found) ↦
      let made : Path (Result DepError Dependency) (ok (static (package_version p))) (ok main) =
        sym (rw found refl) ∙ h in
      subst (IsMain d managed) (ok-injective {E = DepError} made) found
  | inl missing ↦ elim (Bool-cases managed) [
    | inl is_managed ↦ ground arith
    | inr is_not ↦
        let own : Dependency = static (unmanaged_vcs (own_source d unmanaged)) in
        let made : Path (Result DepError Dependency) (ok own) (ok main) = ground arith in
        subst (IsMain d managed) (ok-injective {E = DepError} made)
          (missing, is_not, refl, refl, refl)
  ]
]

-- Where a resolved dependency on a whole repository is flattened, the result is, in this order: the
-- dependencies of the repository's cumulusci.yml, all of which could be parsed; its "pre" metadata,
-- unmanaged; the project itself; and its "post" metadata, managed exactly if the repository has a
-- namespace and the dependency is not declared unmanaged. The "pre" metadata is the flow that the
-- configuration names as `dependency_flow_pre`, alone, and if it names none the folders in
-- unpackaged/pre that are not to be skipped, each once and in the order of their names; the "post"
-- metadata likewise with `dependency_flow_post` and unpackaged/post. The repository's namespace is
-- injected into what is managed and stripped from what is not, except in unpackaged/pre. The
-- project's source is deployed only if there is no package and it is not managed: a managed one
-- without a package is an error.
pub flatten_whole-shape :
    (order : StepOrder) (context : Context) (d : Dynamic) (unmanaged : Bool) (skip : List String)
    (out : List Dependency)
    → flatten_whole order context d unmanaged skip ≡ ok out
    → (repo : Repo) × (config : RemoteConfig) × (upstream : List Dependency) × (pre : List
        Dependency)
      × (main : Dependency) × (post : List Dependency) × (context.get_repo d.url ≡ ok repo)
      × (repo.get_remote_project_config (text_or_empty d.ref) ≡ ok config)
      × (all_parsed config.dependencies ≡ ok upstream)
      × (out ≡ upstream ++ (pre ++ (main ∷ post)))
      × IsAround order d repo config.dependency_flow_pre "unpackaged/pre" skip false
          config.namespace none pre
      × IsMain d (is_set config.namespace && not unmanaged) main
      × IsAround order d repo config.dependency_flow_post "unpackaged/post" skip
          (is_set config.namespace && not unmanaged)
          config.namespace
          config.namespace
          post
unfolding flatten_whole
flatten_whole-shape order context d unmanaged skip out h =
    let (repo, h0, h) = >>=-eq-ok (context.get_repo d.url) _ h in
    let (config, h1, h) = >>=-eq-ok (repo.get_remote_project_config (text_or_empty d.ref)) _ h in
    let (upstream, h2, h) = >>=-eq-ok (all_parsed config.dependencies) _ h in
    let managed = is_set config.namespace && not unmanaged in
    let (pre, h3, h) =
      >>=-eq-ok
        (around order d repo config.dependency_flow_pre "unpackaged/pre" skip false config.namespace
          none)
        _ h in
    let (main, h4, h) = >>=-eq-ok (main_dependency d unmanaged managed) _ h in
    let (post, h5, h) =
      >>=-eq-ok
        (around order d repo config.dependency_flow_post "unpackaged/post" skip managed
          config.namespace config.namespace)
        _ h in
    (
      repo,
      config,
      upstream,
      pre,
      main,
      post,
      h0,
      h1,
      h2,
      sym (ok-injective {E = DepError} h),
      around-IsAround order d repo "unpackaged/pre" skip false config.namespace none
          config.dependency_flow_pre pre h3,
      main_dependency-IsMain d unmanaged managed main h4,
      around-IsAround order d repo "unpackaged/post" skip managed config.namespace config.namespace
          config.dependency_flow_post post h5,
    )
