-- ===== src/Versions/Replaced.antt =====
-- What the replacements of a tag change, and what they leave as it is.
use cumulus_ci.Prelude.{
  ℕ, ◌≡◌, refl, sym, ap, ◌∙◌, none, some, [], ◌∷◌, ◌++◌, true, false, nat_eq, if◌then◌else◌,
  Bool-cases, inl, inr, arith, append-nil, append-nil, subst,
}
use cumulus_ci.Prelude.Text.{Text, codes, lacks, lacks-append, lacks-all_digits}
use cumulus_ci.Prelude.Text.Decimal.{str, int-str, isdigit-str, all_digits-str}
use cumulus_ci.Versions.Number.{number, beta_part, print_build}
use cumulus_ci.Versions.Match.Leads.{stops, dot_number, endings-tag}
use cumulus_ci.Versions.Parse.{int_or_zero}
use cumulus_ci.Versions.Spelled.{unless_zero, IsEnding, nothing-IsEnding}
use cumulus_ci.Versions.Number.{replace_pair, replace}

replace-lacks :
    (a : ℕ) (w s t : Text) → lacks a s ≡ true → replace a w (s ++ t) ≡ s ++ replace a w t
unfolding replace lacks
replace-lacks a w [] t h = refl
replace-lacks a w (x ∷ s) t h =
    let other : nat_eq x a ≡ false = ground arith in
    rw other (ap (λ l. x ∷ l) (replace-lacks a w s t (ground arith)))

replace_pair-lacks :
    (a b : ℕ) (w s t : Text)
    → lacks a s ≡ true
    → replace_pair a b w (s ++ t) ≡ s ++ replace_pair a b w t
unfolding replace_pair lacks
replace_pair-lacks a b w [] t h = refl
replace_pair-lacks a b w (x ∷ []) [] h = refl
replace_pair-lacks a b w (x ∷ []) (y ∷ t) h =
    let other : nat_eq x a ≡ false = ground arith in rw other refl
replace_pair-lacks a b w (x ∷ y ∷ s) t h =
    let other : nat_eq x a ≡ false = ground arith in
    rw other (ap (λ l. x ∷ l) (replace_pair-lacks a b w (y ∷ s) t (ground arith)))

-- Nothing is replaced where the second character is missing.
replace_pair-second : (a b : ℕ) (w s : Text) → lacks b s ≡ true → replace_pair a b w s ≡ s
unfolding replace_pair lacks
replace_pair-second a b w [] h = refl
replace_pair-second a b w (x ∷ []) h = refl
replace_pair-second a b w (x ∷ y ∷ s) h =
    let other : nat_eq y b ≡ false = ground arith in
    let rest : replace_pair a b w (y ∷ s) ≡ y ∷ s =
      replace_pair-second a b w (y ∷ s) (ground arith) in
    ground arith

-- The three replacements of a tag.
unfoldable pub replaced : Text → Text
unfolding replace replace_pair
replaced s = replace 32 (codes "_") (replace 41 [] (replace_pair 32 40 (codes "-") s))

-- Blanks and closing brackets stand in no prefix and no number.
abbrev pub IsQuiet : Text → Type 0
IsQuiet s = (lacks 32 s ≡ true) × (lacks 41 s ≡ true)

pub append-IsQuiet : (s t : Text) → IsQuiet s → IsQuiet t → IsQuiet (s ++ t)
append-IsQuiet s t (a, b) (c, d) =
    (lacks-append 32 s t ∙ rw (a, c) refl, lacks-append 41 s t ∙ rw (b, d) refl)

pub str-IsQuiet : (k : ℕ) → IsQuiet (str k)
str-IsQuiet k = (
  lacks-all_digits 32 (str k) refl (all_digits-str k),
  lacks-all_digits 41 (str k) refl (all_digits-str k),
)

pub dot-IsQuiet : (s : Text) → IsQuiet s → IsQuiet (46 ∷ s)
unfolding lacks
dot-IsQuiet s quiet = quiet

pub unless_zero-IsQuiet : (k : ℕ) → IsQuiet (dot_number (unless_zero k))
unfolding lacks
unless_zero-IsQuiet k = elim (Bool-cases (nat_eq k 0)) [
  | inl is_zero ↦ rw is_zero (refl, refl)
  | inr other ↦ rw other (str-IsQuiet k)
]

pub replaced-append : (s t : Text) → IsQuiet s → replaced (s ++ t) ≡ s ++ replaced t
unfolding replaced
replaced-append s t (blank, bracket) =
    let dash : Text = codes "-" in
    ap (λ l. replace 32 (codes "_") (replace 41 [] l)) (replace_pair-lacks 32 40 dash s t blank)
    ∙ (ap (replace 32 (codes "_")) (replace-lacks 41 [] s (replace_pair 32 40 dash t) bracket)
        ∙ replace-lacks 32 (codes "_") s (replace 41 [] (replace_pair 32 40 dash t)) blank)

pub replaced-quiet : (s : Text) → IsQuiet s → replaced s ≡ s
unfolding replaced
replaced-quiet s quiet =
    subst (λ t. replaced t ≡ t) (append-nil s)
      (replaced-append s [] quiet ∙ ap (λ t. s ++ t) replaced-nil)
  where
    replaced-nil : replaced [] ≡ []
    replaced-nil = refl

-- The beta number in a tag.
abbrev pub tag_part : ℕ → Text
tag_part b = if nat_eq b 0 then [] else codes "-Beta_" ++ str b

str-replaced :
    (b : ℕ) → replaced (codes " (Beta " ++ (str b ++ codes ")")) ≡ codes "-Beta_" ++ str b
unfolding replaced replace replace_pair lacks
str-replaced b =
    let digits = all_digits-str b in
    let inner : replace_pair 32 40 (codes "-") (codes "Beta " ++ (str b ++ codes ")"))
        ≡ codes "Beta " ++ (str b ++ codes ")") =
      replace_pair-second 32 40 (codes "-") (codes "Beta " ++ (str b ++ codes ")"))
        (lacks-append 40 (str b) (codes ")") ∙ rw (lacks-all_digits 40 (str b) refl digits) refl) in
    ap (λ l. replace 32 (codes "_") (replace 41 [] (45 ∷ l))) inner
    ∙ (ap (λ l. codes "-Beta_" ++ replace 32 (codes "_") l)
          (replace-lacks 41 [] (str b) (codes ")") (lacks-all_digits 41 (str b) refl digits))
        ∙ (ap (λ l. codes "-Beta_" ++ l)
            (replace-lacks 32 (codes "_") (str b) [] (lacks-all_digits 32 (str b) refl digits)
              ∙ append-nil (str b))))

pub beta_part-replaced : (b : ℕ) → replaced (beta_part (number b)) ≡ tag_part b
unfolding beta_part print_build replaced
beta_part-replaced b = elim (Bool-cases (nat_eq b 0)) [
  | inl is_zero ↦ rw is_zero refl
  | inr other ↦ rw other (str-replaced b)
]

pub tag_part-IsEnding : (b : ℕ) → IsEnding (tag_part b) b
unfolding stops int_or_zero
tag_part-IsEnding b = elim (Bool-cases (nat_eq b 0)) [
  | inl is_zero ↦
      let empty : tag_part b ≡ [] = rw is_zero refl in
      subst (λ t. IsEnding t b) (sym empty) (nothing-IsEnding b is_zero)
  | inr other ↦
      let full : tag_part b ≡ codes "-Beta_" ++ str b = rw other refl in
      subst (λ t. IsEnding t b) (sym full) (written b other)
]
  where
    written : (b : ℕ) → nat_eq b 0 ≡ false → IsEnding (codes "-Beta_" ++ str b) b
    written b other = (
      refl,
      refl,
      (none, some (str b)),
      endings-tag (str b) (isdigit-str b),
      (int-str b, rw other refl),
    )
