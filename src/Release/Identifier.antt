-- ===== src/Release/Identifier.antt =====
-- ReleaseBranchFormat, `is_valid_release_identifier` and `get_release_identifier` of
-- cumulusci/utils/release_branch.py. An error is what a pattern with a repeated token raises.
use cumulus_ci.Prelude.{
  ℕ, Option, none, some, [], ◌∷◌, Bool, true, false, ◌&&◌, leb, if◌then◌else◌, Result, ok, ◌>>=◌,
}
use cumulus_ci.Prelude.Text.{Text, strip, isdigit}
use cumulus_ci.Prelude.Text.Decimal.{int}
use cumulus_ci.Prelude.Text.Split.{split}
use cumulus_ci.Release.Pattern.{
  ReleaseError, Token, mm, dd, q, same_token, Groups, pattern_to_regex, match_pieces,
}

-- `type` of the format; any other text, or none, is `unknown`.
pub data FormatType : Type 0 where
  sequential : FormatType
  date : FormatType
  unknown : FormatType

pub record ReleaseBranchFormat : Type 0 where
  pub type : FormatType
  pub prefix : Text
  pub pattern : Option Text
  pub max_sprints_per_quarter : ℕ

-- `if token in groups: valid_date = valid_date and low <= int(groups[token]) <= high`
unfoldable pub in_range : Token → ℕ → ℕ → Groups → Bool
in_range t low high [] = true
in_range t low high ((s, g) ∷ gs) =
    let rest = in_range t low high gs in
    if same_token s t then leb low (int g) && leb (int g) high else rest

unfoldable pub is_valid_date : Groups → Bool
unfolding in_range
is_valid_date gs = in_range mm 1 12 gs && (in_range dd 1 31 gs && in_range q 1 4 gs)

unfoldable pub validate_date_identifier : Text → ReleaseBranchFormat → Result ReleaseError Bool
unfolding pattern_to_regex match_pieces is_valid_date
validate_date_identifier identifier format = elim format.pattern [
  | none ↦ ok false
  | some [] ↦ ok false
  | some (c ∷ pattern) ↦ pattern_to_regex (c ∷ pattern) >>= λ ps.
      ok (elim (match_pieces ps identifier) [ none ↦ false | some gs ↦ is_valid_date gs ])
]

unfoldable pub is_valid_suffix : Text → ReleaseBranchFormat → FormatType → Result ReleaseError Bool
unfolding validate_date_identifier isdigit
is_valid_suffix suffix format sequential = ok (isdigit suffix)
is_valid_suffix suffix format date = validate_date_identifier suffix format
is_valid_suffix suffix format unknown = ok false

unfoldable pub is_valid_release_identifier :
    Text → Option ReleaseBranchFormat → Result ReleaseError Bool
unfolding is_valid_suffix isdigit strip
is_valid_release_identifier identifier none = ok (isdigit identifier)
is_valid_release_identifier identifier (some format) = elim (strip format.prefix identifier) [
  | none ↦ ok false
  | some suffix ↦ is_valid_suffix suffix format format.type
]

-- `identifier[len(prefix):]`, of an identifier that was found valid
abbrev pub without : Text → Text → Text
without prefix identifier = elim (strip prefix identifier) [ none ↦ identifier | some s ↦ s ]

-- The first part of the name after the branch prefix.
unfoldable pub identifier_part : Text → Text → Option Text
unfolding strip split
identifier_part branch_name prefix = elim (strip prefix branch_name) [
  | none ↦ none
  | some suffix ↦ some (split suffix).0
]

unfoldable pub get_release_identifier :
    Text → Text → Option ReleaseBranchFormat → Result ReleaseError (Option Text)
unfolding identifier_part is_valid_release_identifier isdigit strip
get_release_identifier branch_name prefix format = elim (identifier_part branch_name prefix) [
  | none ↦ ok none
  | some identifier ↦ elim format [
    | none ↦ ok (if isdigit identifier then some identifier else none)
    | some f ↦ is_valid_release_identifier identifier (some f) >>= λ valid.
        ok (if valid then some (without f.prefix identifier) else none)
  ]
]
