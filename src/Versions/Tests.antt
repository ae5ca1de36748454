-- ===== src/Versions/Tests.antt =====
-- Concrete versions, for the theorems on them.
use cumulus_ci.Prelude.{◌≡◌, refl, none, true, false, ok, err}
use cumulus_ci.Prelude.Text.{codes, lacks, strip}
use cumulus_ci.Prelude.Text.Decimal.{value}
use cumulus_ci.Versions.Number.{
  first_gen, number, PackageVersionNumber, value_error, format, format_tag,
}
use cumulus_ci.Versions.Parse.{starts_with, parse, parse_tag}
use cumulus_ci.Versions.Spelled.{version}
use cumulus_ci.Versions.RoundTrip.{parse-format}
use cumulus_ci.Versions.Replaced.{IsQuiet}
use cumulus_ci.Versions.Tags.{parse_tag-format_tag}

abbrev beta : PackageVersionNumber
beta = record {
  major_version = 1;
  minor_version = 20;
  patch_version = 3;
  build_number = number 4;
  is_released = false;
  package_type = first_gen;
}

format_test : format beta ≡ codes "1.20.3 (Beta 4)"
unfolding format
format_test = refl

format_tag_test : format_tag beta (codes "beta/") ≡ codes "beta/1.20.3-Beta_4"
unfolding format_tag
format_tag_test = refl

parse_test : parse (codes "1.20.3 (Beta 4)") none none ≡ ok beta
unfolding parse value
parse_test = refl

parse_tag_test :
    parse_tag (codes "beta/1.20.3-Beta_4") (codes "beta/") (codes "rel/") none ≡ ok beta
unfolding parse_tag value
parse_tag_test = refl

-- The dot after the major version matches any character.
no_dot_test :
    parse (codes "123") none none
    ≡ ok (record {
      major_version = 1;
      minor_version = 3;
      patch_version = 0;
      build_number = number 0;
      is_released = true;
      package_type = first_gen;
    })
unfolding parse value
no_dot_test = refl

word_test : parse (codes "1.2.3.NEXT") none none ≡ err value_error
unfolding parse value
word_test = refl

parse-format_example :
    parse (format (version first_gen 1 20 3 4 true)) none none
    ≡ ok (version first_gen 1 20 3 4 false)
parse-format_example = parse-format first_gen 1 20 3 4 true

beta-IsQuiet : IsQuiet (codes "beta/")
unfolding lacks
beta-IsQuiet = (refl, refl)

rel-IsQuiet : IsQuiet (codes "rel/")
unfolding lacks
rel-IsQuiet = (refl, refl)

beta_tag_test :
    starts_with (codes "rel/") (format_tag (version first_gen 1 20 3 4 true) (codes "beta/"))
    ≡ false
unfolding strip format_tag
beta_tag_test = refl

rel_tag_test :
    starts_with (codes "beta/") (format_tag (version first_gen 1 20 3 4 true) (codes "rel/"))
    ≡ false
unfolding strip format_tag
rel_tag_test = refl

parse_tag-format_tag_example :
    (parse_tag
        (format_tag (version first_gen 1 20 3 4 true) (codes "beta/"))
        (codes "beta/")
        (codes "rel/")
        none
      ≡ ok (version first_gen 1 20 3 4 false))
    × (parse_tag
          (format_tag (version first_gen 1 20 3 4 true) (codes "rel/"))
          (codes "beta/")
          (codes "rel/")
          none
        ≡ ok (version first_gen 1 20 3 4 true))
parse_tag-format_tag_example =
    parse_tag-format_tag first_gen 1 20 3 4 true (codes "beta/") (codes "rel/") beta-IsQuiet
      rel-IsQuiet beta_tag_test rel_tag_test
