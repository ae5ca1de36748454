-- ===== src/Versions/Tags.antt =====
-- The tag of a version is read back.
use cumulus_ci.Prelude.{
  ℕ, ◌≡◌, refl, sym, ap, ◌∙◌, Option, none, some, [], ◌∷◌, ◌++◌, Bool, true, false, Option-cases,
  inl, inr, ok,
}
use cumulus_ci.Prelude.Text.{Text, strip, strip-append, lacks}
use cumulus_ci.Prelude.Text.Decimal.{str}
use cumulus_ci.Versions.Number.{PackageType, first_gen, second_gen, number, beta_part, format}
use cumulus_ci.Versions.Match.Leads.{dot_number}
use cumulus_ci.Versions.Parse.{parse}
use cumulus_ci.Versions.Spelled.{version, unless_zero, spelled, parse-first_gen, parse-second_gen}
use cumulus_ci.Versions.RoundTrip.{first_gen-text, second_gen-text}
use cumulus_ci.Versions.Number.{format_tag}
use cumulus_ci.Versions.Parse.{starts_with, version_text, parse_tag}
use cumulus_ci.Versions.Replaced.{
  IsQuiet, replaced, str-IsQuiet, dot-IsQuiet, unless_zero-IsQuiet, replaced-append, replaced-quiet,
  tag_part, beta_part-replaced, tag_part-IsEnding,
}

spelled-replaced :
    (x y : ℕ) (patch build : Option Text) (end : Text)
    → IsQuiet (dot_number patch)
    → IsQuiet (dot_number build)
    → replaced (spelled x y patch build end) ≡ spelled x y patch build (replaced end)
spelled-replaced x y patch build end p q =
    let after : Text = dot_number build ++ end in
    let inner : replaced (dot_number patch ++ after)
        ≡ dot_number patch ++ (dot_number build ++ replaced end) =
      replaced-append (dot_number patch) after p
      ∙ ap (λ t. dot_number patch ++ t) (replaced-append (dot_number build) end q) in
    let minor : IsQuiet (46 ∷ str y) = dot-IsQuiet (str y) (str-IsQuiet y) in
    replaced-append (str x) (46 ∷ (str y ++ (dot_number patch ++ after))) (str-IsQuiet x)
    ∙ (ap (λ t. str x ++ t) (replaced-append (46 ∷ str y) (dot_number patch ++ after) minor)
        ∙ ap (λ t. str x ++ (46 ∷ (str y ++ t))) inner)

-- The version in a tag.
abbrev pub tagged : PackageType → ℕ → ℕ → ℕ → ℕ → Text
tagged first_gen x y z b = spelled x y (unless_zero z) none (tag_part b)
tagged second_gen x y z b = spelled x y (some (str z)) (some (str b)) []

format-replaced :
    (type : PackageType) (x y z b : ℕ) (released : Bool)
    → replaced (format (version type x y z b released)) ≡ tagged type x y z b
unfolding lacks replaced
format-replaced first_gen x y z b released =
    ap replaced (first_gen-text x y z b released)
    ∙ (spelled-replaced x y (unless_zero z) none (beta_part (number b)) (unless_zero-IsQuiet z)
          nothing
        ∙ ap (spelled x y (unless_zero z) none) (beta_part-replaced b))
  where
    nothing : IsQuiet []
    nothing = (refl, refl)
format-replaced second_gen x y z b released =
    ap replaced (second_gen-text x y z b released)
    ∙ (spelled-replaced x y (some (str z)) (some (str b)) [] (dot-IsQuiet (str z) (str-IsQuiet z))
          (dot-IsQuiet (str b) (str-IsQuiet b))
        ∙ ap (spelled x y (some (str z)) (some (str b))) empty)
  where
    empty : replaced [] ≡ []
    empty = replaced-quiet [] (refl, refl)

format_tag-tagged :
    (type : PackageType) (x y z b : ℕ) (released : Bool) (prefix : Text)
    → IsQuiet prefix
    → format_tag (version type x y z b released) prefix ≡ prefix ++ tagged type x y z b
unfolding format_tag replaced
format_tag-tagged type x y z b released prefix quiet =
    replaced-append prefix (format (version type x y z b released)) quiet
    ∙ ap (λ t. prefix ++ t) (format-replaced type x y z b released)

parse-tagged :
    (type : PackageType) (x y z b : ℕ) (released : Bool)
    → parse (tagged type x y z b) (some released) none ≡ ok (version type x y z b released)
parse-tagged first_gen x y z b released =
    parse-first_gen x y z b (tag_part b) (some released) (tag_part-IsEnding b)
parse-tagged second_gen x y z b released = parse-second_gen x y z b (some released)

parse_tag-beta :
    (version_part prefix_beta prefix_prod : Text)
    → parse_tag (prefix_beta ++ version_part) prefix_beta prefix_prod none
      ≡ parse version_part (some (starts_with prefix_prod (prefix_beta ++ version_part))) none
unfolding parse_tag
parse_tag-beta version_part prefix_beta prefix_prod =
    let read : version_text (prefix_beta ++ version_part) prefix_beta prefix_prod ≡ version_part =
      rw (strip-append prefix_beta version_part, version_text) refl in
    ap (λ t. parse t (some (starts_with prefix_prod (prefix_beta ++ version_part))) none) read

parse_tag-prod :
    (version_part prefix_beta prefix_prod : Text)
    → starts_with prefix_beta (prefix_prod ++ version_part) ≡ false
    → parse_tag (prefix_prod ++ version_part) prefix_beta prefix_prod none
      ≡ parse version_part (some true) none
unfolding parse_tag
parse_tag-prod version_part prefix_beta prefix_prod other =
    let whole : Text = prefix_prod ++ version_part in
    let here : starts_with prefix_prod whole ≡ true =
      rw (strip-append prefix_prod version_part, starts_with) refl in
    elim (Option-cases (strip prefix_beta whole)) [
      | inr (t, found) ↦
          let begun : starts_with prefix_beta whole ≡ true = rw (found, starts_with) refl in
          let clash : Path Bool true false = sym begun ∙ other in cc
      | inl missing ↦
          let read : version_text whole prefix_beta prefix_prod ≡ version_part =
            rw (missing, strip-append prefix_prod version_part, version_text) refl in
          ap (λ t. parse t (some (starts_with prefix_prod whole)) none) read
          ∙ ap (λ r. parse version_part (some r) none) here
    ]

-- The tag of a version is parsed to that version: with the prefix of beta tags to a version that is
-- not released, with that of production tags to one that is. It holds of both generations, where the
-- version has numbers only, the prefixes hold no blank and no closing bracket, and neither tag begins
-- with the prefix of the other.
pub parse_tag-format_tag :
    (type : PackageType) (x y z b : ℕ) (released : Bool) (prefix_beta prefix_prod : Text)
    → IsQuiet prefix_beta
    → IsQuiet prefix_prod
    → starts_with prefix_prod (format_tag (version type x y z b released) prefix_beta) ≡ false
    → starts_with prefix_beta (format_tag (version type x y z b released) prefix_prod) ≡ false
    → (parse_tag
          (format_tag (version type x y z b released) prefix_beta)
          prefix_beta
          prefix_prod
          none
        ≡ ok (version type x y z b false))
      × (parse_tag
            (format_tag (version type x y z b released) prefix_prod)
            prefix_beta
            prefix_prod
            none
          ≡ ok (version type x y z b true))
parse_tag-format_tag type x y z b released prefix_beta prefix_prod quiet_beta quiet_prod apart_beta
      apart_prod =
    let v : Text = tagged type x y z b in
    let beta_tag = format_tag-tagged type x y z b released prefix_beta quiet_beta in
    let prod_tag = format_tag-tagged type x y z b released prefix_prod quiet_prod in
    (
      ap (λ t. parse_tag t prefix_beta prefix_prod none) beta_tag
          ∙ (parse_tag-beta v prefix_beta prefix_prod
              ∙ (ap (λ r. parse v (some r) none)
                    (ap (starts_with prefix_prod) (sym beta_tag) ∙ apart_beta)
                  ∙ parse-tagged type x y z b false)),
      ap (λ t. parse_tag t prefix_beta prefix_prod none) prod_tag
          ∙ (parse_tag-prod v prefix_beta prefix_prod
                (ap (starts_with prefix_beta) (sym prod_tag) ∙ apart_prod)
              ∙ parse-tagged type x y z b true),
    )
