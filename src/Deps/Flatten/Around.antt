-- ===== src/Deps/Flatten/Around.antt =====
-- The metadata that is deployed before and after a package.
use cumulus_ci.Prelude.{
  String, ◌≡◌, refl, sym, ap, keep, ◌==◌, if◌then◌else◌, subst, ◌∙◌, Option, none, some, List, [],
  ◌∷◌, Bool, true, false, inl, inr, Result, ok, >>=-eq-ok, ok-injective, arith, All, Bool-cases,
  not, ◌&&◌, contains, ◌<>◌,
}
use mathlib.Core.List.{Perm}
use cumulus_ci.Flow.Sort.{StepOrder, sorted, IsSorted, sorted-perm, sorted-IsSorted}
use cumulus_ci.Deps.Model.{
  DepError, unmanaged_vcs, vcs_flow, Dynamic, Dependency, static, dynamic, is_set, Repo,
}
use cumulus_ci.Deps.Resolvers.{text_or_empty}
use cumulus_ci.Deps.Flatten.{
  namespace_if, flatten_dependency_flow, unpackaged, directory_contents, flatten_unpackaged, around,
}

-- The namespace is injected into managed metadata, and stripped from unmanaged metadata.
abbrev pub HasNamespace : Option String → Bool → Option String → Option String → Type 0
HasNamespace namespace managed inject strip =
    (inject ≡ (if is_set namespace && managed then namespace else none))
    × (strip ≡ (if is_set namespace && not managed then namespace else none))

-- A folder of the repository of `d` at its ref. It is deployed managed or unmanaged as told, and if
-- `d` has a package it is tied to it.
abbrev pub IsFolderOf : Dynamic → Bool → Option String → Dependency → Type 0
IsFolderOf d managed namespace (static (unmanaged_vcs u)) =
    (u.url ≡ d.url)
    × (u.ref ≡ text_or_empty d.ref)
    × (u.unmanaged ≡ some (not managed))
    × HasNamespace namespace managed u.namespace_inject u.namespace_strip
    × (u.package_dependency ≡ d.package_dependency)
IsFolderOf d managed namespace (static _) = ⊥
IsFolderOf d managed namespace (dynamic e) = ⊥

-- The flow of this name in the repository of `d`, with the same.
abbrev pub IsFlowOf : Dynamic → String → Bool → Option String → Dependency → Type 0
IsFlowOf d name managed namespace (static (vcs_flow f)) =
    (f.url ≡ d.url)
    × (f.vcs ≡ d.vcs)
    × (f.commit ≡ text_or_empty d.ref)
    × (f.flow_name ≡ name)
    × (f.unmanaged ≡ some (not managed))
    × HasNamespace namespace managed f.namespace_inject f.namespace_strip
    × (f.package_dependency ≡ d.package_dependency)
IsFlowOf d name managed namespace (static _) = ⊥
IsFlowOf d name managed namespace (dynamic e) = ⊥

-- The folders that are deployed.
abbrev pub subfolders_of : List Dependency → List String
subfolders_of [] = []
subfolders_of (static (unmanaged_vcs u) ∷ ds) = text_or_empty u.subfolder ∷ subfolders_of ds
subfolders_of (_ ∷ ds) = subfolders_of ds

abbrev pub paths_in : String → List String → List String
paths_in folder [] = []
paths_in folder (name ∷ names) = (folder <> ("/" <> name)) ∷ paths_in folder names

-- What is in the folder and not to be skipped, in the order of the names.
abbrev pub AreFolders :
    StepOrder
    → Dynamic
    → Repo
    → String
    → List String
    → Bool
    → Option String
    → List Dependency
    → Type 0
AreFolders order d repo folder skip managed namespace out =
    (names : List String) × (listed : List String) × (directory_contents repo folder d ≡ ok names)
    × Perm listed names
    × IsSorted order (λ name. name) listed
    × (subfolders_of out ≡ keep (λ path. not (contains skip path)) (paths_in folder listed))
    × All (IsFolderOf d managed namespace) out

-- The one flow with this name.
abbrev pub IsOneFlow : Dynamic → String → Bool → Option String → List Dependency → Type 0
IsOneFlow d name managed namespace out =
    (dependency : Dependency) × (out ≡ dependency ∷ [])
    × IsFlowOf d name managed namespace dependency

-- The metadata before or after the package: the flow, where the configuration names one, and
-- otherwise the folders.
abbrev pub IsAround :
    StepOrder
    → Dynamic
    → Repo
    → Option String
    → String
    → List String
    → Bool
    → Option String
    → Option String
    → List Dependency
    → Type 0
IsAround order d repo none folder skip managed flow_namespace namespace out =
    AreFolders order d repo folder skip managed namespace out
IsAround order d repo (some flow) folder skip managed flow_namespace namespace out =
    if flow == ""
    then AreFolders order d repo folder skip managed namespace out
    else IsOneFlow d flow managed flow_namespace out

unpackaged-IsFolderOf :
    (d : Dynamic) (folder : String) (skip : List String) (managed : Bool)
    (namespace : Option String) (names : List String)
    → All (IsFolderOf d managed namespace) (unpackaged d folder skip managed namespace names)
unfolding unpackaged text_or_empty namespace_if
unpackaged-IsFolderOf d folder skip managed namespace [] = tt
unpackaged-IsFolderOf d folder skip managed namespace (n ∷ names) =
    elim (Bool-cases (contains skip (folder <> ("/" <> n)))) [
      | inl skipped ↦ rw skipped (unpackaged-IsFolderOf d folder skip managed namespace names)
      | inr used ↦ rw used (
        (refl, refl, refl, (refl, refl), refl),
        unpackaged-IsFolderOf d folder skip managed namespace names,
      )
    ]

subfolders_of-unpackaged :
    (d : Dynamic) (folder : String) (skip : List String) (managed : Bool)
    (namespace : Option String) (names : List String)
    → subfolders_of (unpackaged d folder skip managed namespace names)
      ≡ keep (λ path. not (contains skip path)) (paths_in folder names)
unfolding unpackaged text_or_empty
subfolders_of-unpackaged d folder skip managed namespace [] = refl
subfolders_of-unpackaged d folder skip managed namespace (n ∷ names) =
    elim (Bool-cases (contains skip (folder <> ("/" <> n)))) [
      | inl skipped ↦ rw skipped (subfolders_of-unpackaged d folder skip managed namespace names)
      | inr used ↦ rw used (
          ap (λ l. (folder <> ("/" <> n)) ∷ l)
            (subfolders_of-unpackaged d folder skip managed namespace names))
    ]

flatten_dependency_flow-IsOneFlow :
    (d : Dynamic) (flow : String) (managed : Bool) (namespace : Option String)
    → (flow == "") ≡ false
    → IsOneFlow d flow managed namespace (flatten_dependency_flow d (some flow) managed namespace)
unfolding flatten_dependency_flow is_set text_or_empty namespace_if
flatten_dependency_flow-IsOneFlow d flow managed namespace named =
    let made : Dependency = static (
      vcs_flow (record {
        url = d.url;
        vcs = d.vcs;
        commit = text_or_empty d.ref;
        flow_name = flow;
        unmanaged = some (not managed);
        namespace_inject = namespace_if namespace managed;
        namespace_strip = namespace_if namespace (not managed);
        package_dependency = d.package_dependency;
      })) in
    (made, rw named refl, (refl, refl, refl, refl, refl, (refl, refl), refl))

is_set-some : (flow : String) (b : Bool) → (flow == "") ≡ b → is_set (some flow) ≡ not b
unfolding is_set
is_set-some flow b h = ap not h

is_set-none : is_set none ≡ false
unfolding is_set
is_set-none = refl

module _ (order : StepOrder) (d : Dynamic) (repo : Repo) (folder : String) (skip : List String)
    (managed : Bool) (flow_namespace namespace : Option String) where
  flatten_unpackaged-AreFolders :
      (out : List Dependency)
      → flatten_unpackaged order d repo folder skip managed namespace ≡ ok out
      → AreFolders order d repo folder skip managed namespace out
  unfolding flatten_unpackaged
  flatten_unpackaged-AreFolders out h =
      let (names, got, made) = >>=-eq-ok (directory_contents repo folder d) _ h in
      let listed : List String = sorted order (λ name. name) names in
      let whole : unpackaged d folder skip managed namespace listed ≡ out =
        ok-injective {E = DepError} made in
      (
        names,
        listed,
        got,
        sorted-perm order (λ name. name) names,
        sorted-IsSorted order (λ name. name) names,
        ap subfolders_of (sym whole)
            ∙ subfolders_of-unpackaged d folder skip managed namespace listed,
        subst (All (IsFolderOf d managed namespace)) whole
            (unpackaged-IsFolderOf d folder skip managed namespace listed),
      )

  around_unset :
      (flow : Option String) (out : List Dependency)
      → is_set flow ≡ false
      → around order d repo flow folder skip managed flow_namespace namespace ≡ ok out
      → flatten_unpackaged order d repo folder skip managed namespace ≡ ok out
  unfolding around
  around_unset flow out unset h = ground arith

  pub around-IsAround :
      (flow : Option String) (out : List Dependency)
      → around order d repo flow folder skip managed flow_namespace namespace ≡ ok out
      → IsAround order d repo flow folder skip managed flow_namespace namespace out
  unfolding around
  around-IsAround none out h =
      flatten_unpackaged-AreFolders out (around_unset none out is_set-none h)
  around-IsAround (some flow) out h = elim (Bool-cases (flow == "")) [
    | inl empty ↦ rw empty (
        flatten_unpackaged-AreFolders out
          (around_unset (some flow) out (is_set-some flow true empty) h))
    | inr named ↦
        let set : is_set (some flow) ≡ true = is_set-some flow false named in
        let made : Path (Result DepError (List Dependency))
            (ok (flatten_dependency_flow d (some flow) managed flow_namespace)) (ok out) =
          ground arith in
        rw named (
          subst (IsOneFlow d flow managed flow_namespace) (ok-injective {E = DepError} made)
            (flatten_dependency_flow-IsOneFlow d flow managed flow_namespace named))
  ]
