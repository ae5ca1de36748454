-- ===== src/Deps/Model.antt =====
-- The data of cumulusci/core/dependencies/base.py, dependencies.py and of
-- the remote repositories they refer to.
-- A repository is a record of the answers it gives: the API behind AbstractRepo is not modelled.
-- A dependency that `parse_dependency` cannot read is `none`; pydantic decides which those are.
use cumulus_ci.Prelude.{String, Option, none, some, List, Bool, true, false, not, ◌==◌, Result}
pub use cumulus_ci.Versions.Number.{PackageType, first_gen, second_gen}

pub data DepError : Type 0 where
  dependency_resolution_error : DepError
  dependency_missing_version : DepError
  vcs_not_found : DepError
  validation_error : DepError
  key_error : DepError
  value_error : DepError
  stack_not_found : DepError
  too_many_iterations : DepError
  other_error : String → DepError

-- The `source_info` of a package.
pub record SourceInfo : Type 0 where
  pub url : String
  pub commit : String
  pub vcs : String

-- PackageNamespaceVersionDependency and PackageVersionIdDependency
pub record NamespaceVersion : Type 0 where
  pub namespace : String
  pub version : String
  pub package_name : Option String
  pub version_id : Option String
  pub password_env_name : Option String

pub record VersionId : Type 0 where
  pub version_id : String
  pub package_name : Option String
  pub version_number : Option String
  pub password_env_name : Option String
  pub source_info : Option SourceInfo

pub data Package : Type 0 where
  by_namespace : NamespaceVersion → Package
  by_id : VersionId → Package

-- UnmanagedVcsDependency and UnmanagedVcsDependencyFlow, as `flatten` makes them
pub record UnmanagedVcs : Type 0 where
  pub url : String
  pub ref : String
  pub subfolder : Option String
  pub unmanaged : Option Bool
  pub namespace_inject : Option String
  pub namespace_strip : Option String
  pub package_dependency : Option Package

pub record VcsFlow : Type 0 where
  pub url : String
  pub vcs : String
  pub commit : String
  pub flow_name : String
  pub unmanaged : Option Bool
  pub namespace_inject : Option String
  pub namespace_strip : Option String
  pub package_dependency : Option Package

pub data Static : Type 0 where
  package_version : Package → Static
  unmanaged_vcs : UnmanagedVcs → Static
  vcs_flow : VcsFlow → Static
  unmanaged_zip : String → Option String → Static

-- A VcsDynamicDependency, with its `unmanaged` and `skip`, or a VcsDynamicSubfolderDependency.
pub data Kind : Type 0 where
  whole : Bool → List String → Kind
  subfolder : String → Kind

pub record Dynamic : Type 0 where
  pub kind : Kind
  pub url : String
  pub vcs : String
  pub tag : Option String
  pub ref : Option String
  pub package_dependency : Option Package
  pub password_env_name : Option String
  pub namespace_inject : Option String
  pub namespace_strip : Option String
  pub is_vcs_source : Bool

pub data Dependency : Type 0 where
  static : Static → Dependency
  dynamic : Dynamic → Dependency

-- The truth of a text or of None: the empty text is false.
unfoldable pub is_set : Option String → Bool
is_set none = false
is_set (some s) = not (s == "")

unfoldable pub is_unmanaged : Kind → Bool
is_unmanaged (whole unmanaged skip) = unmanaged
is_unmanaged (subfolder path) = true

unfoldable pub is_resolved : Dependency → Bool
unfolding is_set
is_resolved (static s) = true
is_resolved (dynamic d) = is_set d.ref

unfoldable pub is_flattened : Dependency → Bool
is_flattened (static s) = true
is_flattened (dynamic d) = false

unfoldable pub set_password : Option String → Package → Package
set_password name (by_namespace p) = by_namespace (record p { password_env_name = name })
set_password name (by_id p) = by_id (record p { password_env_name = name })

-- What a VCS answers. `get_package_details_from_tag` reads the tag's message by regular
-- expressions, and `version_id` and `package_type` are what it finds there; a message with a package
-- type that is none of the two is not modelled.
pub record Release : Type 0 where
  pub tag_name : String
  pub name : String

pub record Tag : Type 0 where
  pub sha : String
  pub version_id : Option String
  pub package_type : Option PackageType

pub record Branch : Type 0 where
  pub name : String
  pub sha : String

-- The parts of a remote cumulusci.yml that are read. `parse_dependency` is applied to its
-- dependencies already.
pub record RemoteConfig : Type 0 where
  pub namespace : Option String
  pub name_managed : Option String
  pub name : Option String
  pub dependencies : List (Option Dependency)
  pub dependency_flow_pre : Option String
  pub dependency_flow_post : Option String

pub record Repo : Type 0 where
  pub clone_url : String
  pub default_branch : String
  pub release_from_tag : String → Result DepError Release
  pub get_tag_by_name : String → Result DepError Tag
  pub find_latest_release : Bool → Result DepError (Option Release)
  pub branch : String → Result DepError Branch
  pub directory_contents : String → String → Result DepError (Option (List String))
  pub get_remote_project_config : String → Result DepError RemoteConfig
  -- the version id and the commit with a status of the given context, from the branch's head
  pub locate_commit_status_package_id :
      Branch → String → Result DepError (Option String × Option String)
