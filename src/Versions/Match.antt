-- ===== src/Versions/Match.antt =====
-- VERSION_RE of cumulusci/core/versions.py: what `VERSION_RE.match` finds. A part of the expression is a
-- function that lists the ways to match it at the front of a text, in the order in which Python tries
-- them, with what is left; the match is the first way for the whole. The dot after the major version
-- is not escaped, and stands for any character but a line feed. `\d` is read as the ASCII digits.
use cumulus_ci.Prelude.{
  ℕ, Option, none, some, List, [], ◌∷◌, ◌++◌, Bool, true, false, not, ◌&&◌, ◌||◌, nat_eq,
  if◌then◌else◌,
}
use cumulus_ci.Prelude.Text.{Text, codes, strip, is_digit, at_end}
pub mod Leads

pub record Match : Type 0 where
  pub major : Text
  pub minor : Text
  pub patch : Option Text
  pub build : Option Text
  pub beta : Option Text
  pub beta_tag : Option Text

module _ {A B : Type 0} where
  abbrev pub each : List A → (A → List B) → List B
  each [] f = []
  each (x ∷ xs) f = f x ++ each xs f

module _ {A : Type 0} where
  abbrev pub first_match : List A → Option A
  first_match [] = none
  first_match (x ∷ xs) = some x

abbrev pub longer : ℕ → List (Text × Text) → List (Text × Text)
longer c [] = []
longer c ((g, r) ∷ ways) = (c ∷ g, r) ∷ longer c ways

-- \d+
unfoldable pub digit_splits : Text → List (Text × Text)
digit_splits [] = []
digit_splits (c ∷ s) =
    let rest = digit_splits s in if is_digit c then longer c rest ++ ((c ∷ [], s) ∷ []) else []

-- .
abbrev pub any_char : Text → List Text
any_char [] = []
any_char (c ∷ s) = if nat_eq c 10 then [] else s ∷ []

abbrev pub present : List (Text × Text) → List (Option Text × Text)
present [] = []
present ((g, r) ∷ ways) = (some g, r) ∷ present ways

abbrev pub dot_ways : Text → List (Text × Text)
dot_ways [] = []
dot_ways (c ∷ s) = if nat_eq c 46 then digit_splits s else []

-- (\.\d+)?
unfoldable pub optional_number : Text → List (Option Text × Text)
unfolding digit_splits
optional_number s = present (dot_ways s) ++ ((none, s) ∷ [])

-- The literal text, if it is there.
abbrev pub expect : Text → Text → List Text
expect p s = elim (strip p s) [ none ↦ [] | some r ↦ r ∷ [] ]

abbrev pub beta_letter : Text → List Text
beta_letter [] = []
beta_letter (c ∷ s) = if nat_eq c 98 || nat_eq c 66 then s ∷ [] else []

-- \([bB]eta \d+\), after a blank
unfoldable pub beta_ways : Text → List (Text × Text)
unfolding strip digit_splits
beta_ways s = each (expect (codes " (") s) λ a. each (beta_letter a) λ b.
    each (expect (codes "eta ") b)
      λ c. each (digit_splits c) λ d. each (expect (codes ")") d.1) λ r. (d.0, r) ∷ []

-- -Beta_\d+
unfoldable pub tag_ways : Text → List (Text × Text)
unfolding strip digit_splits
tag_ways s = each (expect (codes "-Beta_") s) digit_splits

-- What is optional, and then the end.
abbrev pub ended : List (Text × Text) → Text → List (Option Text)
ended ways s =
    each (present ways ++ ((none, s) ∷ [])) λ way. if at_end way.1 then way.0 ∷ [] else []

-- The beta number and the beta number of a tag: two alternatives.
unfoldable pub endings : Text → List (Option Text × Option Text)
unfolding beta_ways tag_ways at_end
endings s =
    each (ended (beta_ways s) s) (λ b. (b, none) ∷ [])
    ++ each (ended (tag_ways s) s) (λ b. (none, b) ∷ [])

unfoldable pub matches : Text → List Match
unfolding digit_splits optional_number endings
matches s = each (digit_splits s) λ major. each (any_char major.1) λ after.
    each (digit_splits after) λ minor. each (optional_number minor.1) λ patch.
      each (optional_number patch.1) λ build. each (endings build.1) λ beta.
        (record {
          major = major.0;
          minor = minor.0;
          patch = patch.0;
          build = build.0;
          beta = beta.0;
          beta_tag = beta.1;
        })
        ∷ []

-- VERSION_RE.match(s)
unfoldable pub version_match : Text → Option Match
unfolding matches
version_match s = first_match (matches s)
