-- ===== src/Versions/Match/Leads.antt =====
-- What the first way of a match is.
use cumulus_ci.Prelude.{
  ◌≡◌, refl, ap, ◌∙◌, Option, none, some, List, [], ◌∷◌, ◌++◌, Bool, true, false, not, ◌&&◌, nat_eq,
  if◌then◌else◌, arith, append-nil, subst,
}
use cumulus_ci.Prelude.Text.{Text, codes, strip, is_digit, all_digits, isdigit, at_end}
use cumulus_ci.Versions.Match.{
  each, first_match, longer, digit_splits, present, optional_number, expect, beta_ways, tag_ways,
  ended, endings, matches, version_match,
}

module _ {A : Type 0} where
  abbrev pub Leads : List A → A → Type 0
  Leads ways way = (others : List A) × (ways ≡ way ∷ others)

  append-Leads : (ways others : List A) (way : A) → Leads ways way → Leads (ways ++ others) way
  append-Leads ways others way (after, e) = (after ++ others, ap (λ l. l ++ others) e)

  pub first_match-Leads : (ways : List A) (way : A) → Leads ways way → first_match ways ≡ some way
  first_match-Leads ways way (others, e) = ap first_match e

module _ {A B : Type 0} where
  each-Leads :
      (f : A → List B) (ways : List A) (way : A) (made : B)
      → Leads ways way
      → Leads (f way) made
      → Leads (each ways f) made
  each-Leads f ways way made (others, e) (after, d) =
      (after ++ each others f, ap (λ l. each l f) e ∙ ap (λ l. l ++ each others f) d)

-- A digit does not follow, and neither does a dot.
unfoldable pub stops : Text → Bool
stops [] = true
stops (c ∷ s) = not (is_digit c)

abbrev pub no_dot : Text → Bool
no_dot [] = true
no_dot (c ∷ s) = not (nat_eq c 46)

no_more_digits : (r : Text) → stops r ≡ true → digit_splits r ≡ []
unfolding stops digit_splits
no_more_digits [] h = refl
no_more_digits (c ∷ r) h = ground arith

-- The longest way takes all the digits.
digit_splits-Leads :
    (g r : Text) → isdigit g ≡ true → stops r ≡ true → Leads (digit_splits (g ++ r)) (g, r)
unfolding isdigit all_digits digit_splits
digit_splits-Leads [] r digits end = cc
digit_splits-Leads (c ∷ []) r digits end =
    let digit : is_digit c ≡ true = ground arith in ([], rw (digit, no_more_digits r end) refl)
digit_splits-Leads (c ∷ d ∷ g) r digits end =
    let digit : is_digit c ≡ true = ground arith in
    let (others, e) = digit_splits-Leads (d ∷ g) r (ground arith) end in
    (
      longer c others ++ ((c ∷ [], d ∷ (g ++ r)) ∷ []),
      rw digit (ap (λ l. longer c l ++ ((c ∷ [], d ∷ (g ++ r)) ∷ [])) e),
    )

abbrev pub dot_number : Option Text → Text
dot_number none = []
dot_number (some g) = 46 ∷ g

-- What can follow a number that is there or not.
abbrev pub follows : Option Text → Text → Bool
follows none r = no_dot r
follows (some g) r = isdigit g && stops r

optional_number-Leads :
    (o : Option Text) (r : Text)
    → follows o r ≡ true
    → Leads (optional_number (dot_number o ++ r)) (o, r)
unfolding optional_number
optional_number-Leads none [] h = ([], refl)
optional_number-Leads none (c ∷ r) h =
    let other : nat_eq c 46 ≡ false = ground arith in ([], rw other refl)
optional_number-Leads (some g) r h =
    let (others, e) = digit_splits-Leads g r (ground arith) (ground arith) in
    (
      present others ++ ((none, 46 ∷ (g ++ r)) ∷ []),
      ap (λ l. present l ++ ((none, 46 ∷ (g ++ r)) ∷ [])) e,
    )

ended-Leads :
    (ways : List (Text × Text)) (s g : Text) → Leads ways (g, []) → Leads (ended ways s) (some g)
unfolding at_end
ended-Leads ways s g (others, e) = (
  each (present others ++ ((none, s) ∷ [])) (λ way. if at_end way.1 then way.0 ∷ [] else []),
  ap (λ l. ended l s) e,
)

-- The number of the beta version, and then the bracket.
abbrev closed : Text × Text → List (Text × Text)
closed way = each (expect (codes ")") way.1) λ r. (way.0, r) ∷ []

beta_ways-Leads :
    (g : Text) → isdigit g ≡ true → Leads (beta_ways (codes " (Beta " ++ (g ++ codes ")"))) (g, [])
unfolding beta_ways strip stops
beta_ways-Leads g digits =
    let ways : List (Text × Text) = digit_splits (g ++ codes ")") in
    let first : Leads (each ways closed) (g, []) =
      each-Leads closed ways (g, codes ")") (g, []) (digit_splits-Leads g (codes ")") digits refl)
        ([], refl) in
    append-Leads ((each ways closed ++ []) ++ []) [] (g, [])
      (append-Leads (each ways closed ++ []) [] (g, [])
        (append-Leads (each ways closed) [] (g, []) first))

pub endings-beta :
    (g : Text)
    → isdigit g ≡ true
    → Leads (endings (codes " (Beta " ++ (g ++ codes ")"))) (some g, none)
unfolding endings
endings-beta g digits =
    let s : Text = codes " (Beta " ++ (g ++ codes ")") in
    append-Leads (each (ended (beta_ways s) s) λ b. (b, none) ∷ [])
      (each (ended (tag_ways s) s) λ b. (none, b) ∷ []) (some g, none)
      (each-Leads (λ b. (b, none) ∷ []) (ended (beta_ways s) s) (some g) (some g, none)
        (ended-Leads (beta_ways s) s g (beta_ways-Leads g digits)) ([], refl))

pub endings-tag :
    (g : Text) → isdigit g ≡ true → Leads (endings (codes "-Beta_" ++ g)) (none, some g)
unfolding endings tag_ways beta_ways strip at_end stops
endings-tag g digits =
    let s : Text = codes "-Beta_" ++ g in
    let whole : Leads (digit_splits g) (g, []) =
      subst (λ t. Leads (digit_splits t) (g, [])) (append-nil g)
        (digit_splits-Leads g [] digits refl) in
    each-Leads (λ b. (none, b) ∷ []) (ended (tag_ways s) s) (some g) (none, some g)
      (ended-Leads (tag_ways s) s g (append-Leads (digit_splits g) [] (g, []) whole)) ([], refl)

pub endings-none : Leads (endings []) (none, none)
unfolding endings beta_ways tag_ways strip at_end
endings-none = ((none, none) ∷ [], refl)

-- A text of numbers with dots between them, and an ending, is matched as it stands.
pub version_match-numbers :
    (major minor : Text) (patch build : Option Text) (end : Text) (beta : Option Text × Option Text)
    → isdigit major ≡ true
    → isdigit minor ≡ true
    → stops (dot_number patch ++ (dot_number build ++ end)) ≡ true
    → follows patch (dot_number build ++ end) ≡ true
    → follows build end ≡ true
    → Leads (endings end) beta
    → version_match (major ++ (46 ∷ (minor ++ (dot_number patch ++ (dot_number build ++ end)))))
      ≡ some (record {
        major = major;
        minor = minor;
        patch = patch;
        build = build;
        beta = beta.0;
        beta_tag = beta.1;
      })
unfolding version_match matches stops
version_match-numbers major minor patch build end beta d e h f g ends =
    let rest : Text = dot_number patch ++ (dot_number build ++ end) in
    first_match-Leads (matches (major ++ (46 ∷ (minor ++ rest)))) _ (
      each-Leads _ (digit_splits (major ++ (46 ∷ (minor ++ rest)))) (major, 46 ∷ (minor ++ rest)) _
        (digit_splits-Leads major (46 ∷ (minor ++ rest)) d refl)
        (append-Leads _ [] _ (
          each-Leads _ (digit_splits (minor ++ rest)) (minor, rest) _
            (digit_splits-Leads minor rest e h)
            (each-Leads _ (optional_number rest) (patch, dot_number build ++ end) _
              (optional_number-Leads patch (dot_number build ++ end) f)
              (each-Leads _ (optional_number (dot_number build ++ end)) (build, end) _
                (optional_number-Leads build end g)
                (each-Leads _ (endings end) beta _ ends ([], refl)))))))
