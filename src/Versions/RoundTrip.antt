-- ===== src/Versions/RoundTrip.antt =====
-- A version that is printed is read back.
use cumulus_ci.Prelude.{
  ℕ, ◌≡◌, refl, sym, ap, ◌∙◌, none, some, [], ◌∷◌, ◌++◌, Bool, false, nat_eq, Bool-cases, inl, inr,
  ok, append_assoc, append-nil, subst,
}
use cumulus_ci.Prelude.Text.{codes}
use cumulus_ci.Prelude.Text.Decimal.{str, int-str, isdigit-str}
use cumulus_ci.Versions.Number.{
  PackageType, first_gen, second_gen, number, main_part, patch_part, beta_part, print_build,
  format_1gp, format_2gp, format,
}
use cumulus_ci.Versions.Match.Leads.{stops, endings-beta}
use cumulus_ci.Versions.Parse.{int_or_zero, parse}
use cumulus_ci.Versions.Spelled.{
  version, is_final, unless_zero, patch_part-dot_number, spelled, IsEnding, parse-first_gen,
  nothing-IsEnding, parse-second_gen,
}

beta_part-IsEnding : (b : ℕ) → IsEnding (beta_part (number b)) b
unfolding beta_part print_build stops int_or_zero
beta_part-IsEnding b = elim (Bool-cases (nat_eq b 0)) [
  | inl is_zero ↦
      let empty : beta_part (number b) ≡ [] = rw is_zero refl in
      subst (λ t. IsEnding t b) (sym empty) (nothing-IsEnding b is_zero)
  | inr other ↦
      let full : beta_part (number b) ≡ codes " (Beta " ++ (str b ++ codes ")") = rw other refl in
      subst (λ t. IsEnding t b) (sym full) (written b other)
]
  where
    written : (b : ℕ) → nat_eq b 0 ≡ false → IsEnding (codes " (Beta " ++ (str b ++ codes ")")) b
    written b other = (
      refl,
      refl,
      (some (str b), none),
      endings-beta (str b) (isdigit-str b),
      (int-str b, rw other refl),
    )

pub first_gen-text :
    (x y z b : ℕ) (released : Bool)
    → format (version first_gen x y z b released)
      ≡ spelled x y (unless_zero z) none (beta_part (number b))
unfolding format format_1gp main_part
first_gen-text x y z b released =
    append_assoc (str x) (46 ∷ str y) (patch_part z ++ beta_part (number b))
    ∙ ap (λ t. str x ++ (46 ∷ (str y ++ (t ++ beta_part (number b))))) (patch_part-dot_number z)

pub second_gen-text :
    (x y z b : ℕ) (released : Bool)
    → format (version second_gen x y z b released) ≡ spelled x y (some (str z)) (some (str b)) []
unfolding format format_2gp main_part print_build
second_gen-text x y z b released =
    append_assoc (str x) (46 ∷ str y) (46 ∷ (str z ++ (46 ∷ str b)))
    ∙ ap (λ t. str x ++ (46 ∷ (str y ++ (46 ∷ (str z ++ (46 ∷ t)))))) (sym (append-nil (str b)))

-- What is printed is parsed to the same version: with numbers only, a second generation version, and
-- a first generation one, are read with the same numbers and the same generation. What is read is
-- released unless it is a beta version.
pub parse-format :
    (type : PackageType) (x y z b : ℕ) (released : Bool)
    → parse (format (version type x y z b released)) none none
      ≡ ok (version type x y z b (is_final type b))
unfolding beta_part print_build stops
parse-format second_gen x y z b released =
    ap (λ s. parse s none none) (second_gen-text x y z b released) ∙ parse-second_gen x y z b none
parse-format first_gen x y z b released =
    ap (λ s. parse s none none) (first_gen-text x y z b released)
    ∙ parse-first_gen x y z b (beta_part (number b)) none (beta_part-IsEnding b)
