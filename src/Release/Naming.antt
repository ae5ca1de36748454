-- ===== src/Release/Naming.antt =====
-- How a project names its releases: `parse_format_config` of cumulusci/utils/release_branch.py and
-- `get_release_branch_prefix_and_format_config` of cumulusci/core/config/project_config.py. The values of
-- the configuration are a record; the number of sprints is there, as its model fills it in where
-- it is used.
use cumulus_ci.Prelude.{ℕ, Option, none, some, [], ◌∷◌, Bool, true, false, if◌then◌else◌}
use cumulus_ci.Prelude.Text.{Text, codes, text_eq, strip}
use cumulus_ci.Release.Identifier.{FormatType, sequential, date, unknown, ReleaseBranchFormat}

pub record GitConfig : Type 0 where
  pub format_type : Option Text
  pub format_prefix : Option Text
  pub format_pattern : Option Text
  pub format_max_sprints : ℕ
  pub prefix_feature : Option Text
  pub prefix_release : Option Text

-- `match format_config.type`
unfoldable pub format_type_of : Text → FormatType
unfolding text_eq
format_type_of t =
    if text_eq t (codes "sequential")
    then sequential
    else if text_eq t (codes "date")
    then date
    else unknown

-- `text or default`
unfoldable pub text_or : Text → Option Text → Text
text_or default none = default
text_or default (some []) = default
text_or default (some (c ∷ s)) = c ∷ s

unfoldable pub parse_format_config : GitConfig → Option ReleaseBranchFormat
unfolding format_type_of text_or
parse_format_config config = elim config.format_type [
  | none ↦ none
  | some t ↦ some (record {
    type = format_type_of t;
    prefix = text_or [] config.format_prefix;
    pattern = config.format_pattern;
    max_sprints_per_quarter = config.format_max_sprints;
  })
]

-- `self.repo_branch and self.repo_branch.startswith(prefix)`
unfoldable pub is_under : Text → Option Text → Bool
unfolding strip
is_under prefix none = false
is_under prefix (some []) = false
is_under prefix (some (c ∷ s)) = elim (strip prefix (c ∷ s)) [ none ↦ false | some rest ↦ true ]

unfoldable pub get_release_branch_prefix_and_format_config :
    GitConfig → Option Text → Text × Option ReleaseBranchFormat
unfolding parse_format_config text_or is_under
get_release_branch_prefix_and_format_config config repo_branch =
    let release : Text = text_or (codes "release/") config.prefix_release in
    if is_under release repo_branch
    then (release, none)
    else (text_or (codes "feature/") config.prefix_feature, parse_format_config config)
