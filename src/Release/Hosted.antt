-- ===== src/Release/Hosted.antt =====
-- `get_release_id` and AbstractVcsReleaseBranchResolver of
-- cumulusci/core/dependencies/resolvers.py: the branches of a repository that match the release
-- of the project's own branch. A repository is its answers: `branch` is none where VcsNotFoundError is
-- raised, and `remote_format` is none where reading the configuration at a branch raises.
use cumulus_ci.Prelude.{
  ℕ, zero, suc, ◌+◌, ◌-◌, Option, none, some, List, [], ◌∷◌, ◌++◌, Bool, true, false, Result, ok,
  err, ◌>>=◌, length, take,
}
use cumulus_ci.Prelude.Text.{Text}
use cumulus_ci.Release.Pattern.{ReleaseError}
use cumulus_ci.Release.Identifier.{ReleaseBranchFormat}
use cumulus_ci.Release.Branch.{
  is_release_branch_or_child, get_release_identifier, get_parent_branch_candidates,
  construct_release_branch_name, drop_last,
}
use cumulus_ci.Release.Previous.{get_previous_identifier}
pub mod Parents
pub mod Offsets

pub data BranchesError : Type 0 where
  dependency_resolution_error : BranchesError
  release_error : ReleaseError → BranchesError
  vcs_error : BranchesError

-- What `get_release_branch_prefix_and_format_config` returns.
abbrev pub Naming : Type 0
Naming = Text × Option ReleaseBranchFormat

pub record Remote (B : Type 0) : Type 1 where
  pub branch : Text → Result BranchesError (Option B)
  pub remote_format : Text → Option Naming
  pub default_branch : Text

pub record Local : Type 0 where
  pub repo_branch : Option Text
  pub naming : Naming

-- An error of the names, among those of the branches.
abbrev pub lift : {A : Type 0} → Result ReleaseError A → Result BranchesError A
lift (err e) = err (release_error e)
lift (ok a) = ok a

-- `if not release_id`
abbrev pub or_fail : Option Text → Result BranchesError Text
or_fail none = err dependency_resolution_error
or_fail (some []) = err dependency_resolution_error
or_fail (some (c ∷ s)) = ok (c ∷ s)

unfoldable pub get_release_id : Local → Result BranchesError Text
unfolding get_release_identifier
get_release_id context = or_fail context.repo_branch >>= λ branch.
    lift (get_release_identifier branch context.naming.0 context.naming.1) >>= λ identifier.
    or_fail identifier

-- The loop over the branches whose configuration is tried.
unfoldable pub first_format : (Text → Option Naming) → List Text → Option Naming
first_format remote_format [] = none
first_format remote_format (c ∷ cs) =
    let rest = first_format remote_format cs in
    elim (remote_format c) [ none ↦ rest | some naming ↦ some naming ]

abbrev pub or_default : Option Naming → Option Naming → Option Naming
or_default (some naming) default = some naming
or_default none default = default

unfoldable pub remote_naming : {B : Type 0} → Remote B → List Text → Option Naming
unfolding first_format
remote_naming repo candidates =
    or_default (first_format repo.remote_format candidates) (repo.remote_format repo.default_branch)

-- `if format_config is None`: the local names are used.
abbrev pub naming_or_local : Naming → Naming → Naming
naming_or_local local (prefix, none) = local
naming_or_local local (prefix, some format) = (prefix, some format)

-- candidate[k:]
abbrev pub from : ℕ → Text → Text
from zero s = s
from (suc k) [] = []
from (suc k) (c ∷ s) = from k s

abbrev pub remote_candidate : Text → Text → Text
remote_candidate prefix candidate = prefix ++ from (length prefix) candidate

abbrev pub remote_candidates : Text → List Text → List Text
remote_candidates prefix [] = []
remote_candidates prefix (c ∷ cs) = remote_candidate prefix c ∷ remote_candidates prefix cs

-- The branches with these names that are there; one that is not is only logged.
abbrev pub add_found : {B : Type 0} → Option B → List B → List B
add_found none bs = bs
add_found (some b) bs = b ∷ bs

unfoldable pub find_branches : {B : Type 0} → Remote B → List Text → Result BranchesError (List B)
find_branches repo [] = ok []
find_branches repo (name ∷ names) = do
  found ← repo.branch name
  rest ← find_branches repo names
  ok (add_found found rest)

-- The loop over the offsets, from the first one on.
unfoldable pub previous_branches :
    {B : Type 0} → Remote B → Naming → Text → ℕ → ℕ → Result BranchesError (List B)
unfolding get_previous_identifier construct_release_branch_name
previous_branches repo naming release_id i zero = ok []
previous_branches repo naming release_id i (suc count) = do
  identifier ← lift (get_previous_identifier release_id i naming.1)
  found ← repo.branch (construct_release_branch_name naming.0 identifier naming.1)
  rest ← previous_branches repo naming release_id (suc i) count
  ok (add_found found rest)

unfoldable pub branches_of :
    {B : Type 0} → Remote B → Naming → List Text → Text → ℕ → ℕ → Result BranchesError (List B)
unfolding find_branches previous_branches drop_last
branches_of repo naming candidates release_id start count = do
  parents ← find_branches repo (remote_candidates naming.0 (drop_last 1 candidates))
  releases ← previous_branches repo naming release_id start count
  ok (parents ++ releases)

-- No branches where no configuration could be read.
unfoldable pub branches_if :
    {B : Type 0}
    → Remote B
    → Naming
    → List Text
    → Text
    → ℕ
    → ℕ
    → Option Naming
    → Result BranchesError (List B)
unfolding branches_of
branches_if repo local candidates release_id start count none = ok []
branches_if repo local candidates release_id start count (some naming) =
    branches_of repo (naming_or_local local naming) candidates release_id start count

-- `get_branches`, for the offsets from `start` on and as many as `count` says.
unfoldable pub get_branches :
    {B : Type 0} → Local → Remote B → ℕ → ℕ → Result BranchesError (List B)
unfolding get_release_id get_parent_branch_candidates remote_naming branches_if
get_branches context repo start count = do
  release_id ← get_release_id context
  branch ← or_fail context.repo_branch
  candidates ← lift (get_parent_branch_candidates branch context.naming.0 context.naming.1)
  branches_if repo context.naming candidates release_id start count (remote_naming repo candidates)
