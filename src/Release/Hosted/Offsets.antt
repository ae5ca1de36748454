-- ===== src/Release/Hosted/Offsets.antt =====
-- The resolvers of previous releases, where identifiers are numbers after a prefix.
use cumulus_ci.Prelude.{ℕ, suc, ◌≡◌, refl, ◌∙◌, Option, some, List, [], ◌∷◌, false, ok, err}
use cumulus_ci.Prelude.Text.{Text, is_digit}
use cumulus_ci.Release.Pattern.{value_error}
use cumulus_ci.Release.Branch.{get_release_identifier, get_parent_branch_candidates, drop_last}
use cumulus_ci.Release.Previous.Sequence.{numbered, get_previous_identifier-lost_prefix}
use cumulus_ci.Release.Hosted.{
  BranchesError, release_error, Naming, Remote, remote_candidates, add_found, find_branches,
  previous_branches, branches_of, get_branches,
}
use cumulus_ci.Release.Hosted.Parents.{get_branches-steps, get_release_id-some, remote_naming-some}

module _ {B : Type 0} (repo : Remote B)
    (answers : (b : Text) → (r : Option B) × (repo.branch b ≡ ok r)) where
  find_branches-ok : (names : List Text) → (bs : List B) × (find_branches repo names ≡ ok bs)
  unfolding find_branches
  find_branches-ok [] = ([], refl)
  find_branches-ok (name ∷ names) =
      let (r, e) = answers name in
      let (bs, d) = find_branches-ok names in (add_found r bs, rw (e, d) refl)

  branches_of-err :
      (naming : Naming) (names : List Text) (release_id : Text) (start count : ℕ)
      (raised : BranchesError)
      → previous_branches repo naming release_id start count ≡ err raised
      → branches_of repo naming names release_id start count ≡ err raised
  unfolding branches_of
  branches_of-err naming names release_id start count raised h =
      let (bs, e) = find_branches-ok (remote_candidates naming.0 (drop_last 1 names)) in
      rw (e, h, branches_of) refl

  -- Where the project and the repository number their releases after a prefix that does not begin
  -- with a digit, and the project's branch is of such a release, the resolvers of previous releases
  -- raise a ValueError, whichever branches the repository has: the identifier that is read from the
  -- branch is without the prefix that the previous one is computed with.
  pub get_branches-lost_prefix :
      (c d k start count sprints : ℕ) (name id branch_prefix prefix : Text) (pattern : Option Text)
      (names : List Text)
      → let naming : Naming = (branch_prefix, some (numbered (k ∷ prefix) pattern sprints)) in
        is_digit k ≡ false
        → get_release_identifier
            (c ∷ name)
            branch_prefix
            (some (numbered (k ∷ prefix) pattern sprints))
          ≡ ok (some (d ∷ id))
        → get_parent_branch_candidates
            (c ∷ name)
            branch_prefix
            (some (numbered (k ∷ prefix) pattern sprints))
          ≡ ok names
        → ((b : Text) → repo.remote_format b ≡ some naming)
        → get_branches
            (record { repo_branch = some (c ∷ name); naming = naming })
            repo
            (suc start)
            (suc count)
          ≡ err (release_error value_error)
  unfolding previous_branches
  get_branches-lost_prefix c d k start count sprints name id branch_prefix prefix pattern names sign
        read made all =
      let naming : Naming = (branch_prefix, some (numbered (k ∷ prefix) pattern sprints)) in
      let refused =
        get_previous_identifier-lost_prefix (c ∷ name) branch_prefix (d ∷ id) k prefix pattern
          sprints start sign read in
      let raised : previous_branches repo naming (d ∷ id) (suc start) (suc count)
          ≡ err (release_error value_error) =
        rw (refused, previous_branches) refl in
      get_branches-steps repo c name (d ∷ id) naming naming names (suc start) (suc count)
        (get_release_id-some c d name id naming read) made
        (remote_naming-some repo naming names all)
      ∙ branches_of-err naming names (d ∷ id) (suc start) (suc count) (release_error value_error)
          raised
