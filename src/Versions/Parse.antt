-- ===== src/Versions/Parse.antt =====
-- `parse` and `parse_tag` of cumulusci/core/versions.py.
use cumulus_ci.Prelude.{
  ℕ, Option, none, some, Bool, true, false, not, ◌||◌, if◌then◌else◌, Result, ok, err,
}
use cumulus_ci.Prelude.Text.{Text, strip}
use cumulus_ci.Prelude.Text.Decimal.{value, int}
use cumulus_ci.Versions.Number.{
  PackageType, first_gen, second_gen, number, PackageVersionNumber, VersionError, value_error,
}
use cumulus_ci.Versions.Match.{Match, version_match}

abbrev pub matched : Option Text → Bool
matched none = false
matched (some s) = true

-- a or b, of groups: a group that matched is not empty
abbrev pub or_group : Option Text → Option Text → Option Text
or_group (some s) other = some s
or_group none other = other

-- int(group or 0)
unfoldable pub int_or_zero : Option Text → ℕ
unfolding value
int_or_zero none = 0
int_or_zero (some s) = int s

-- if is_released is None: ...
abbrev pub chosen : Option Bool → Bool → Bool
chosen none guessed = guessed
chosen (some released) guessed = released

unfoldable pub parsed : Match → Option Bool → Option PackageType → PackageVersionNumber
unfolding int_or_zero value
parsed found is_released package_type =
    let first_gen_beta : Bool = matched found.beta || matched found.beta_tag in
    let guessed : PackageType =
      if first_gen_beta || not (matched found.build) then first_gen else second_gen in
    record {
      major_version = int found.major;
      minor_version = int found.minor;
      patch_version = int_or_zero found.patch;
      build_number =
          number (int_or_zero (or_group found.build (or_group found.beta found.beta_tag)));
      is_released = chosen is_released (not first_gen_beta);
      package_type = elim package_type [ none ↦ guessed | some t ↦ t ];
    }

unfoldable pub parse :
    Text → Option Bool → Option PackageType → Result VersionError PackageVersionNumber
unfolding version_match parsed
parse s is_released package_type = elim (version_match s) [
  | none ↦ err value_error
  | some found ↦ ok (parsed found is_released package_type)
]

-- s.startswith(p)
abbrev pub starts_with : Text → Text → Bool
starts_with p s = elim (strip p s) [ none ↦ false | some r ↦ true ]

-- The version in a tag: what follows the first of the prefixes that is there.
abbrev pub version_text : Text → Text → Text → Text
version_text s prefix_beta prefix_prod = elim (strip prefix_beta s) [
  | some r ↦ r
  | none ↦ elim (strip prefix_prod s) [ some r ↦ r | none ↦ s ]
]

unfoldable pub parse_tag :
    Text → Text → Text → Option PackageType → Result VersionError PackageVersionNumber
unfolding parse strip
parse_tag s prefix_beta prefix_prod package_type =
    parse (version_text s prefix_beta prefix_prod) (some (starts_with prefix_prod s)) package_type
