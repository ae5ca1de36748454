-- ===== src/Release/Hosted/Parents.antt =====
-- The branches that the resolver of the current release tries.
use cumulus_ci.Prelude.{
  ℕ, zero, suc, ◌-◌, ◌≡◌, refl, sym, ap, ◌∙◌, Option, none, some, List, [], ◌∷◌, ◌++◌, true, Result,
  ok, err, ◌>>=◌, arith, length, take, length-append, ok-injective,
}
use cumulus_ci.Prelude.Text.{Text, strip}
use cumulus_ci.Prelude.Text.Split.{split, join}
use cumulus_ci.Release.Identifier.{ReleaseBranchFormat}
use cumulus_ci.Release.Branch.{
  is_release_branch_or_child, get_release_identifier, get_parent_branch_candidates,
  construct_release_branch_name, drop_last, intermediate, root_branch, candidates,
}
use cumulus_ci.Release.Branch.Parents.{map, shorter, get_parent_branch_candidates-shorter}
use cumulus_ci.Release.Previous.{get_previous_identifier}
use cumulus_ci.Release.Hosted.{
  BranchesError, Naming, Remote, get_release_id, first_format, remote_naming, naming_or_local, from,
  remote_candidates, add_found, find_branches, previous_branches, branches_of, branches_if,
  get_branches,
}

from-append : (p s : Text) → from (length p) (p ++ s) ≡ s
from-append [] s = refl
from-append (c ∷ p) s = from-append p s

-- The names in the loop begin with the prefix, which is taken off and put back.
remote_candidates-intermediate :
    (prefix part : Text) (parts : List Text) (k count : ℕ)
    → remote_candidates prefix (intermediate prefix part parts k count)
      ≡ intermediate prefix part parts k count
unfolding intermediate
remote_candidates-intermediate prefix part parts k zero = refl
remote_candidates-intermediate prefix part parts k (suc count) =
    let name : Text = join part (drop_last k parts) in
    ap
      (λ s. (prefix ++ s) ∷ remote_candidates prefix (intermediate prefix part parts (suc k) count))
      (from-append prefix name)
    ∙ ap (λ l. (prefix ++ name) ∷ l)
        (remote_candidates-intermediate prefix part parts (suc k) count)

module _ {A : Type 0} where
  take-append : (xs ys : List A) → take (length xs) (xs ++ ys) ≡ xs
  take-append [] ys = refl
  take-append (x ∷ xs) ys = ap (λ l. x ∷ l) (take-append xs ys)

  drop_last-append : (xs : List A) (x : A) → drop_last 1 (xs ++ (x ∷ [])) ≡ xs
  unfolding drop_last
  drop_last-append xs x =
      let size : length (xs ++ (x ∷ [])) - 1 ≡ length xs =
        omega (arith, length-append xs (x ∷ [])) in
      ap (λ k. take k (xs ++ (x ∷ []))) size ∙ take-append xs (x ∷ [])

module _ {B : Type 0} where
  -- One branch before the others and one behind them.
  between :
      (f : Result BranchesError (Option B)) (r : Result BranchesError (List B))
      (l : Result BranchesError (Option B))
      → (f >>= λ found.
          (r >>= λ ps. l >>= λ x. ok (ps ++ add_found x [])) >>= λ rest. ok (add_found found rest))
        ≡ ((f >>= λ found. r >>= λ rest. ok (add_found found rest)) >>= λ ps.
            l >>= λ x. ok (ps ++ add_found x []))
  between (err e) r l = refl
  between (ok found) (err e) l = refl
  between (ok found) (ok ps) (err e) = refl
  between (ok none) (ok ps) (ok x) = refl
  between (ok (some b)) (ok ps) (ok x) = refl

  behind :
      (r : Result BranchesError (List B)) (l : Result BranchesError (Option B))
      → (r >>= λ ps. (l >>= λ x. ok (add_found x [])) >>= λ rs. ok (ps ++ rs))
        ≡ (r >>= λ ps. l >>= λ x. ok (ps ++ add_found x []))
  behind (err e) l = refl
  behind (ok ps) (err e) = refl
  behind (ok ps) (ok x) = refl

module _ {B : Type 0} (repo : Remote B) where
  find_branches-last :
      (names : List Text) (name : Text)
      → find_branches repo (names ++ (name ∷ [])) ≡ (
          find_branches repo names >>= λ parents.
          repo.branch name >>= λ found. ok (parents ++ add_found found []))
  unfolding find_branches
  find_branches-last [] name = refl
  find_branches-last (first ∷ names) name =
      ap (λ l. repo.branch first >>= λ found. l >>= λ rest. ok (add_found found rest))
        (find_branches-last names name)
      ∙ between (repo.branch first) (find_branches repo names) (repo.branch name)

  -- Without an offset, the branches are those of the parents and of the release.
  branches_of-all :
      (prefix part release_id : Text) (format : Option ReleaseBranchFormat) (parts : List Text)
      (count : ℕ)
      → branches_of repo
          (prefix, format)
          (intermediate prefix part parts 1 count ++ root_branch prefix format (some release_id))
          release_id
          0
          1
        ≡ find_branches repo
            (intermediate prefix part parts 1 count ++ root_branch prefix format (some release_id))
  unfolding branches_of root_branch previous_branches get_previous_identifier
  branches_of-all prefix part release_id format parts count =
      let names : List Text = intermediate prefix part parts 1 count in
      let root : Text = construct_release_branch_name prefix release_id format in
      let same : remote_candidates prefix (drop_last 1 (names ++ (root ∷ []))) ≡ names =
        ap (remote_candidates prefix) (drop_last-append names root)
        ∙ remote_candidates-intermediate prefix part parts 1 count in
      ap
        (λ l. find_branches repo l >>= λ parents.
          (repo.branch root >>= λ found. ok (add_found found [])) >>= λ releases.
          ok (parents ++ releases))
        same
      ∙ (behind (find_branches repo names) (repo.branch root) ∙ sym (find_branches-last names root))

  pub remote_naming-some :
      (naming : Naming) (names : List Text)
      → ((name : Text) → repo.remote_format name ≡ some naming)
      → remote_naming repo names ≡ some naming
  unfolding remote_naming first_format
  remote_naming-some naming [] all = all repo.default_branch
  remote_naming-some naming (name ∷ names) all = rw (all name, remote_naming, first_format) refl

  -- The steps before the loops.
  pub get_branches-steps :
      (c : ℕ) (name release_id : Text) (local naming : Naming) (names : List Text) (start count : ℕ)
      → get_release_id (record { repo_branch = some (c ∷ name); naming = local }) ≡ ok release_id
      → get_parent_branch_candidates (c ∷ name) local.0 local.1 ≡ ok names
      → remote_naming repo names ≡ some naming
      → get_branches (record { repo_branch = some (c ∷ name); naming = local }) repo start count
        ≡ branches_of repo (naming_or_local local naming) names release_id start count
  unfolding get_branches branches_if
  get_branches-steps c name release_id local naming names start count got parents there =
      rw (got, parents, get_branches)
        (ap (branches_if repo local names release_id start count) there)

pub get_release_id-some :
    (c d : ℕ) (name id : Text) (naming : Naming)
    → get_release_identifier (c ∷ name) naming.0 naming.1 ≡ ok (some (d ∷ id))
    → get_release_id (record { repo_branch = some (c ∷ name); naming = naming }) ≡ ok (d ∷ id)
unfolding get_release_id
get_release_id-some c d name id naming read = rw (read, get_release_id) refl

-- The parents of a child branch, as the code makes them.
get_parent_branch_candidates-parts :
    (name prefix suffix part next release_id : Text) (parts : List Text)
    (format : Option ReleaseBranchFormat)
    → strip prefix name ≡ some suffix
    → split suffix ≡ (part, next ∷ parts)
    → is_release_branch_or_child name prefix format ≡ ok true
    → get_release_identifier name prefix format ≡ ok (some release_id)
    → get_parent_branch_candidates name prefix format
      ≡ ok (
          intermediate prefix part (next ∷ parts) 1 (length parts)
          ++ root_branch prefix format (some release_id))
unfolding get_parent_branch_candidates candidates
get_parent_branch_candidates-parts name prefix suffix part next release_id parts format found cut
      valid read =
    rw (valid, found, get_parent_branch_candidates)
      (ap (candidates name prefix format) cut ∙ rw (read, candidates) refl)

naming_or_local-same :
    (prefix : Text) (format : Option ReleaseBranchFormat)
    → naming_or_local (prefix, format) (prefix, format) ≡ (prefix, format)
naming_or_local-same prefix none = refl
naming_or_local-same prefix (some f) = refl

-- For a child branch, and a repository whose branches name their releases as the project does, the
-- branches that the resolver of the current release looks for are the parents of the child, from
-- the nearest on, down to the branch of the release; it returns those that are there.
pub get_branches-current :
    {B : Type 0} (repo : Remote B) (c d : ℕ) (name prefix suffix part next id : Text)
    (parts : List Text) (format : Option ReleaseBranchFormat)
    → strip prefix (c ∷ name) ≡ some suffix
    → split suffix ≡ (part, next ∷ parts)
    → is_release_branch_or_child (c ∷ name) prefix format ≡ ok true
    → get_release_identifier (c ∷ name) prefix format ≡ ok (some (d ∷ id))
    → ((b : Text) → repo.remote_format b ≡ some (prefix, format))
    → get_branches (record { repo_branch = some (c ∷ name); naming = (prefix, format) }) repo 0 1
      ≡ find_branches repo (map (λ ps. prefix ++ join part ps) (shorter (next ∷ parts)))
get_branches-current repo c d name prefix suffix part next id parts format found cut valid read
      all =
    let names : List Text =
      intermediate prefix part (next ∷ parts) 1 (length parts)
      ++ root_branch prefix format (some (d ∷ id)) in
    let made =
      get_parent_branch_candidates-parts (c ∷ name) prefix suffix part next (d ∷ id) parts format
        found cut valid read in
    let listed : names ≡ map (λ ps. prefix ++ join part ps) (shorter (next ∷ parts)) =
      ok-injective (
        sym made
        ∙ (get_parent_branch_candidates-shorter (c ∷ name) prefix suffix format found valid
            ∙ ap (λ (p : Text × List Text). ok (map (λ ps. prefix ++ join p.0 ps) (shorter p.1)))
                cut)) in
    get_branches-steps repo c name (d ∷ id) (prefix, format) (prefix, format) names 0 1
      (get_release_id-some c d name id (prefix, format) read) made
      (remote_naming-some repo (prefix, format) names all)
    ∙ (ap (λ n. branches_of repo n names (d ∷ id) 0 1) (naming_or_local-same prefix format)
        ∙ (branches_of-all repo prefix part (d ∷ id) format (next ∷ parts) (length parts)
            ∙ ap (find_branches repo) listed))
