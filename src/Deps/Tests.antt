-- ===== src/Deps/Tests.antt =====
-- A concrete repository and its dependencies, for the theorems on resolution.
use cumulus_ci.Prelude.{
  String, ◌≡◌, refl, ap, Option, none, some, List, [], ◌∷◌, ◌++◌, Bool, true, false, not, ◌&&◌,
  ◌==◌, Result, ok, err, All, Among, inl, inr, eq_iff, if◌then◌else◌, arith,
}
use cumulus_ci.Flow.Sort.{StepOrder}
use cumulus_ci.Deps.Model.{
  DepError, dependency_resolution_error, vcs_not_found, Static, unmanaged_zip, whole, Dynamic,
  Dependency, static, dynamic, is_set, RemoteConfig, Repo, Package,
}
use cumulus_ci.Deps.Resolvers.{
  tag_resolver, release_resolver, unmanaged_head, Context, Found, assign, can_resolve, run_resolver,
  get_resolver, resolve_dependency, resolve_tag, text_or_empty,
}
use cumulus_ci.Deps.Pins.{Pin, can_pin, conflicts, resolve, get_resolver_stack}
use cumulus_ci.Deps.Resolvers.Outcome.{
  SameRequest, Fails, resolve_dependency-Resolved, resolve_dependency-first,
  resolve_dependency-exhausted,
}
use cumulus_ci.Deps.Pins.Pinned.{resolve-pinned}
use cumulus_ci.Deps.Flatten.{flatten_whole, all_parsed}
use cumulus_ci.Deps.Flatten.Around.{IsAround}
use cumulus_ci.Deps.Flatten.Shape.{IsMain, flatten_whole-shape}
use cumulus_ci.Deps.Static.{get_static_dependencies}
use cumulus_ci.Deps.Static.Reach.{IsAnswer, get_static_dependencies-IsAnswer}
use cumulus_ci.Deps.Static.Kept.{get_static_dependencies-keeps}

abbrev any_order : StepOrder
any_order = record { lt = λ a b. false; not_both = λ a b h. refl; not_less = λ a b c h g. refl }

abbrev config : RemoteConfig
config = record {
  namespace = some "ns";
  name_managed = none;
  name = some "Pkg";
  dependencies = some (static (unmanaged_zip "https://zip" none)) ∷ [];
  dependency_flow_pre = none;
  dependency_flow_post = some "finish";
}

-- A repository with one release, "1.0", and a folder to deploy before it.
abbrev repo : Repo
repo = record {
  clone_url = "https://repo.git";
  default_branch = "main";
  release_from_tag =
      λ t. if t == "rel/1.0" then ok (record { tag_name = t; name = "1.0" }) else err vcs_not_found;
  get_tag_by_name = λ t. ok (record { sha = "abc"; version_id = none; package_type = none });
  find_latest_release = λ beta. ok (some (record { tag_name = "rel/1.0"; name = "1.0" }));
  branch = λ b. ok (record { name = b; sha = "head" });
  directory_contents = λ folder ref. ok (some ("first" ∷ "skipped" ∷ []));
  get_remote_project_config = λ ref. ok config;
  locate_commit_status_package_id = λ branch status. ok (none, none);
}

abbrev context : Context
context = record {
  get_repo = λ url. ok repo;
  classes =
      (
        "github",
        ("tag", tag_resolver "github")
            ∷ ("latest_release", release_resolver "github" false)
            ∷ ("unmanaged", unmanaged_head "github")
            ∷ [],
      )
      ∷ [];
  stop_on_missing_version = [];
  resolutions = ("production", "latest") ∷ [];
  strategies = some (("latest", "tag" ∷ "latest_release" ∷ []) ∷ []);
}

abbrev wanted : Dynamic
wanted = record {
  kind = whole false ("unpackaged/pre/skipped" ∷ []);
  url = "https://repo";
  vcs = "github";
  tag = none;
  ref = none;
  package_dependency = none;
  password_env_name = some "KEY";
  namespace_inject = none;
  namespace_strip = none;
  is_vcs_source = false;
}

abbrev dynamic_of : Result DepError Dynamic → Dynamic
dynamic_of (ok d) = d
dynamic_of (err e) = wanted

abbrev list_of : Result DepError (List Dependency) → List Dependency
list_of (ok ds) = ds
list_of (err e) = []

abbrev resolved : Result DepError Dynamic
resolved = resolve_dependency context ("tag" ∷ "latest_release" ∷ []) wanted

resolved-ok : resolved ≡ ok (dynamic_of resolved)
unfolding resolve_dependency
resolved-ok = refl

resolve_dependency-Resolved_example :
    (is_set (dynamic_of resolved).ref ≡ true) × SameRequest wanted (dynamic_of resolved)
resolve_dependency-Resolved_example =
    resolve_dependency-Resolved context ("tag" ∷ "latest_release" ∷ []) wanted (dynamic_of resolved)
      resolved-ok

-- The dependency has no tag, so that the strategy "tag" does not apply.
tag-Fails : Fails context wanted "tag"
unfolding get_resolver can_resolve
tag-Fails = (tag_resolver "github", refl, inl refl)

abbrev package_of : Result DepError Found → Option Package
package_of (ok (ref, p)) = p
package_of (err e) = none

abbrev latest : Option Package
latest = package_of (run_resolver (release_resolver "github" false) context wanted)

resolve_dependency-first_example :
    resolve_dependency context (("tag" ∷ []) ++ "latest_release" ∷ "unmanaged" ∷ []) wanted
    ≡ ok (assign (some "abc", latest) wanted)
unfolding get_resolver can_resolve run_resolver is_set
resolve_dependency-first_example =
    resolve_dependency-first context wanted ("tag" ∷ []) ("unmanaged" ∷ []) "latest_release" "abc"
      latest (release_resolver "github" false) refl refl (tag-Fails, tt) refl refl refl refl

resolve_dependency-exhausted_example :
    resolve_dependency context ("tag" ∷ []) wanted ≡ err dependency_resolution_error
resolve_dependency-exhausted_example =
    resolve_dependency-exhausted context wanted ("tag" ∷ []) refl refl (tag-Fails, tt)

abbrev other_pin : Pin
other_pin = record { url = "https://other"; tag = "rel/2.0" }

abbrev pin : Pin
pin = record { url = "https://repo"; tag = "rel/1.0" }

abbrev pinned : Result DepError Dynamic
pinned = resolve context ("unmanaged" ∷ []) ((other_pin ∷ []) ++ pin ∷ []) wanted

pinned-ok : pinned ≡ ok (dynamic_of pinned)
unfolding resolve
pinned-ok = refl

resolve-pinned_example :
    (conflicts pin wanted.tag ≡ false)
    × ((dynamic_of pinned).tag ≡ some "rel/1.0")
    × (resolve_tag context (record wanted { tag = some "rel/1.0" })
        ≡ ok ((dynamic_of pinned).ref, (dynamic_of pinned).package_dependency))
unfolding can_pin
resolve-pinned_example =
    resolve-pinned context ("unmanaged" ∷ []) (other_pin ∷ []) [] pin wanted (dynamic_of pinned)
      (refl, tt) refl pinned-ok

abbrev parts : Result DepError (List Dependency)
parts = flatten_whole any_order context (dynamic_of resolved) false ("unpackaged/pre/skipped" ∷ [])

parts-ok : parts ≡ ok (list_of parts)
unfolding flatten_whole resolve_dependency
parts-ok = refl

flatten_whole-shape_example :
    (r : Repo) × (c : RemoteConfig) × (upstream : List Dependency) × (pre : List Dependency)
    × (main : Dependency) × (post : List Dependency) × (context.get_repo (dynamic_of resolved).url
        ≡ ok r)
    × (r.get_remote_project_config (text_or_empty (dynamic_of resolved).ref) ≡ ok c)
    × (all_parsed c.dependencies ≡ ok upstream)
    × (list_of parts ≡ upstream ++ (pre ++ (main ∷ post)))
    × IsAround any_order
        (dynamic_of resolved)
        r
        c.dependency_flow_pre
        "unpackaged/pre"
        ("unpackaged/pre/skipped" ∷ [])
        false
        c.namespace
        none
        pre
    × IsMain (dynamic_of resolved) (is_set c.namespace && not false) main
    × IsAround any_order
        (dynamic_of resolved)
        r
        c.dependency_flow_post
        "unpackaged/post"
        ("unpackaged/pre/skipped" ∷ [])
        (is_set c.namespace && not false)
        c.namespace
        c.namespace
        post
flatten_whole-shape_example =
    flatten_whole-shape any_order context (dynamic_of resolved) false
      ("unpackaged/pre/skipped" ∷ []) (list_of parts) parts-ok

-- The equality of dependencies, on those that are zip files.
abbrev same_zip : Dependency → Dependency → Bool
same_zip (static (unmanaged_zip a none)) (static (unmanaged_zip b none)) = a == b
same_zip _ _ = false

abbrev extra : Static
extra = unmanaged_zip "https://extra" none

same_zip-only : (e : Dependency) → same_zip (static extra) e ≡ true → static extra ≡ e
same_zip-only (static (unmanaged_zip b none)) h =
    ap (λ u. static (unmanaged_zip u none)) ((eq_iff "https://extra" b).0 h)
same_zip-only _ h = ground arith

abbrev answered : Result DepError (List Dependency)
answered =
    get_static_dependencies any_order same_zip context "production" [] (λ d. true)
      (dynamic wanted ∷ static extra ∷ [])

answered-ok : answered ≡ ok (list_of answered)
unfolding get_static_dependencies
answered-ok = refl

get_static_dependencies-IsAnswer_example :
    (strategies : List String) × (get_resolver_stack context "production" ≡ ok strategies)
    × All
        (IsAnswer any_order same_zip context strategies []
          (λ d. true)
          (dynamic wanted ∷ static extra ∷ []))
        (list_of answered)
get_static_dependencies-IsAnswer_example =
    get_static_dependencies-IsAnswer any_order same_zip context "production" [] (λ d. true)
      (dynamic wanted ∷ static extra ∷ []) (list_of answered) answered-ok

get_static_dependencies-keeps_example : Among (static extra) (list_of answered)
get_static_dependencies-keeps_example =
    get_static_dependencies-keeps any_order same_zip context "production" [] (λ d. true) extra
      (dynamic wanted ∷ static extra ∷ []) (list_of answered) same_zip-only refl (inr (inl refl))
      answered-ok
