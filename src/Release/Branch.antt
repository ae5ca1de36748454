-- ===== src/Release/Branch.antt =====
-- The names of release branches, of cumulusci/utils/git.py.
use cumulus_ci.Prelude.{
  ℕ, zero, suc, Option, none, some, List, [], ◌∷◌, ◌++◌, Bool, true, false, Result, ok, err, ◌>>=◌,
  if◌then◌else◌, ◌-◌, length, take,
}
use cumulus_ci.Prelude.Text.{Text, strip, codes}
use cumulus_ci.Prelude.Text.Split.{split, join}
use cumulus_ci.Release.Pattern.{ReleaseError}
use cumulus_ci.Release.Identifier.{ReleaseBranchFormat, is_valid_release_identifier}
use cumulus_ci.Release.Identifier
pub mod Parents
pub mod Construct

abbrev pub only_one : List Text → Bool
only_one [] = true
only_one (p ∷ ps) = false

unfoldable pub is_release_branch :
    Text → Text → Option ReleaseBranchFormat → Result ReleaseError Bool
unfolding strip split is_valid_release_identifier
is_release_branch branch_name prefix format = elim (strip prefix branch_name) [
  | none ↦ ok false
  | some suffix ↦
      if only_one (split suffix).1
      then is_valid_release_identifier (split suffix).0 format
      else ok false
]

unfoldable pub is_release_branch_or_child :
    Text → Text → Option ReleaseBranchFormat → Result ReleaseError Bool
unfolding strip split is_valid_release_identifier
is_release_branch_or_child branch_name prefix format = elim (strip prefix branch_name) [
  | none ↦ ok false
  | some suffix ↦ is_valid_release_identifier (split suffix).0 format
]

unfoldable pub get_feature_branch_name : Text → Text → Option Text
unfolding strip
get_feature_branch_name branch_name prefix = strip prefix branch_name

abbrev pub first_part : Option Text → Option Text
first_part none = none
first_part (some name) = some (split name).0

unfoldable pub get_release_identifier :
    Text → Text → Option ReleaseBranchFormat → Result ReleaseError (Option Text)
unfolding is_release_branch_or_child get_feature_branch_name Identifier.get_release_identifier split
get_release_identifier branch_name prefix (some format) =
    Identifier.get_release_identifier branch_name prefix (some format)
get_release_identifier branch_name prefix none =
    is_release_branch_or_child branch_name prefix none >>= λ valid.
    ok (if valid then first_part (get_feature_branch_name branch_name prefix) else none)

unfoldable pub construct_release_branch_name : Text → Text → Option ReleaseBranchFormat → Text
construct_release_branch_name prefix identifier (some format) =
    prefix ++ (format.prefix ++ identifier)
construct_release_branch_name prefix identifier none = prefix ++ identifier

-- `parts[:-k]`, for the parts after the first
unfoldable pub drop_last : {A : Type 0} → ℕ → List A → List A
drop_last k parts = take (length parts - k) parts

-- `for k in range(...)`, from `k` on and as many times as `count` says
unfoldable pub intermediate : Text → Text → List Text → ℕ → ℕ → List Text
unfolding drop_last join
intermediate prefix part parts k zero = []
intermediate prefix part parts k (suc count) =
    (prefix ++ join part (drop_last k parts)) ∷ intermediate prefix part parts (suc k) count

-- The root of the branches: none only where the name holds no identifier.
unfoldable pub root_branch : Text → Option ReleaseBranchFormat → Option Text → List Text
unfolding construct_release_branch_name
root_branch prefix format none = construct_release_branch_name prefix (codes "None") format ∷ []
root_branch prefix format (some identifier) =
    construct_release_branch_name prefix identifier format ∷ []

unfoldable pub candidates :
    Text → Text → Option ReleaseBranchFormat → Text × List Text → Result ReleaseError (List Text)
unfolding intermediate root_branch get_release_identifier
candidates branch_name prefix format (part, []) = ok []
candidates branch_name prefix format (part, next ∷ parts) =
    get_release_identifier branch_name prefix format >>= λ identifier. ok (
      intermediate prefix part (next ∷ parts) 1 (length parts)
      ++ root_branch prefix format identifier)

unfoldable pub get_parent_branch_candidates :
    Text → Text → Option ReleaseBranchFormat → Result ReleaseError (List Text)
unfolding is_release_branch_or_child candidates split strip
get_parent_branch_candidates branch_name prefix format =
    is_release_branch_or_child branch_name prefix format >>= λ valid.
    if valid
    then (elim (strip prefix branch_name) [
      | none ↦ ok []
      | some suffix ↦ candidates branch_name prefix format (split suffix)
    ])
    else ok []
