-- ===== src/Release/Previous/Sequence.antt =====
-- The identifiers that are numbers, with a prefix or without a format.
use cumulus_ci.Prelude.{
  ℕ, zero, suc, ◌+◌, ◌-◌, ◌≤◌, ◌≡◌, refl, sym, ap, ◌∙◌, Option, none, some, [], ◌∷◌, ◌++◌, Bool,
  true, false, nat_eq, Bool-cases, Option-cases, inl, inr, ok, err, ◌>>=◌, arith,
}
use cumulus_ci.Prelude.Text.{Text, strip, strip-append, is_digit, isdigit}
use cumulus_ci.Prelude.Text.Decimal.{str, int-str, isdigit-str}
use cumulus_ci.Release.Pattern.{value_error}
use cumulus_ci.Release.Identifier.{
  ReleaseBranchFormat, sequential, without, identifier_part, is_valid_release_identifier,
  is_valid_suffix,
}
use cumulus_ci.Release.Identifier
use cumulus_ci.Release.Branch
use cumulus_ci.Release.Previous.{
  str_minus, previous_number, previous_sequential, previous_of_type, get_previous_identifier,
}

-- A format whose identifiers are numbers after a prefix.
abbrev pub numbered : Text → Option Text → ℕ → ReleaseBranchFormat
numbered prefix pattern sprints = record {
  type = sequential;
  prefix = prefix;
  pattern = pattern;
  max_sprints_per_quarter = sprints;
}

str_minus-le : (k count : ℕ) → count ≤ k → str_minus k count ≡ str (k - count)
unfolding str_minus
str_minus-le k count h = ground arith

previous_number-str :
    (k count : ℕ) → count ≤ k → previous_number (str k) count ≡ ok (str (k - count))
unfolding previous_number
previous_number-str k count h = rw (isdigit-str k, int-str k) (ap ok (str_minus-le k count h))

previous_sequential-str :
    (prefix : Text) (k count : ℕ)
    → count ≤ k
    → previous_sequential prefix (prefix ++ str k) count ≡ ok (prefix ++ str (k - count))
unfolding previous_sequential
previous_sequential-str prefix k count h =
    rw (strip-append prefix (str k), previous_sequential)
      (ap (λ r. r >>= λ number. ok (prefix ++ number)) (previous_number-str k count h))

-- Of a number after the prefix, the previous identifier by a count is the number less the count,
-- as long as that is not negative.
pub get_previous_identifier-numbered :
    (prefix : Text) (pattern : Option Text) (sprints k count : ℕ)
    → count ≤ k
    → get_previous_identifier (prefix ++ str k) count (some (numbered prefix pattern sprints))
      ≡ ok (prefix ++ str (k - count))
unfolding get_previous_identifier previous_of_type
get_previous_identifier-numbered prefix pattern sprints k zero h =
    let same : k ≡ k - 0 = omega arith in ap (λ m. ok (prefix ++ str m)) same
get_previous_identifier-numbered prefix pattern sprints k (suc count) h =
    previous_sequential-str prefix k (suc count) h

-- In a format that numbers its identifiers, going back by one count and then by another is going
-- back by their sum, which ends at the number less both, where that is not negative.
pub get_previous_identifier-twice :
    (prefix : Text) (pattern : Option Text) (sprints k first second : ℕ)
    → first + second ≤ k
    → let f : Option ReleaseBranchFormat = some (numbered prefix pattern sprints) in
      ((get_previous_identifier (prefix ++ str k) first f >>= λ identifier.
      get_previous_identifier identifier second f)
        ≡ get_previous_identifier (prefix ++ str k) (first + second) f)
      × (get_previous_identifier (prefix ++ str k) (first + second) f
          ≡ ok (prefix ++ str (k - (first + second))))
get_previous_identifier-twice prefix pattern sprints k first second h =
    let f : Option ReleaseBranchFormat = some (numbered prefix pattern sprints) in
    let whole = get_previous_identifier-numbered prefix pattern sprints k (first + second) h in
    let less : k - first - second ≡ k - (first + second) = omega arith in
    (
      ap (λ r. r >>= λ identifier. get_previous_identifier identifier second f)
            (get_previous_identifier-numbered prefix pattern sprints k first (omega arith))
          ∙ (get_previous_identifier-numbered prefix pattern sprints (k - first) second
                (omega arith)
              ∙ (ap (λ m. ok (prefix ++ str m)) less ∙ sym whole)),
      whole,
    )

-- A text of digits does not begin with a character that is none.
strip-isdigit :
    (c : ℕ) (prefix identifier : Text)
    → is_digit c ≡ false
    → isdigit identifier ≡ true
    → strip (c ∷ prefix) identifier ≡ none
unfolding strip isdigit
strip-isdigit c prefix [] sign digits = refl
strip-isdigit c prefix (d ∷ identifier) sign digits = elim (Bool-cases (nat_eq c d)) [
  | inr other ↦ ground arith
  | inl same ↦
      let e : c ≡ d = ground arith in
      let first : is_digit d ≡ true = ground arith in
      let clash : Path Bool false true = sym sign ∙ (ap is_digit e ∙ first) in cc
]

-- What is read from the name of a branch is digits, and stands after the prefix of the format.
get_release_identifier-isdigit :
    (branch_name branch_prefix identifier prefix : Text) (pattern : Option Text) (sprints : ℕ)
    → Branch.get_release_identifier branch_name branch_prefix
        (some (numbered prefix pattern sprints))
      ≡ ok (some identifier)
    → isdigit identifier ≡ true
unfolding Branch.get_release_identifier Identifier.get_release_identifier
    is_valid_release_identifier is_valid_suffix
get_release_identifier-isdigit branch_name branch_prefix identifier prefix pattern sprints h =
    elim (Option-cases (identifier_part branch_name branch_prefix)) [
      | inl missing ↦ ground arith
      | inr (part, found) ↦ elim (Option-cases (strip prefix part)) [
        | inl other ↦ ground arith
        | inr (suffix, stripped) ↦ elim (Bool-cases (isdigit suffix)) [
          | inl digits ↦ ground arith
          | inr letters ↦ ground arith
        ]
      ]
    ]

-- Where the identifiers are numbers after a prefix that does not begin with a digit, the
-- identifier that is read from the name of a branch, which is without that prefix, has no previous
-- one for any count but zero: it is refused.
pub get_previous_identifier-lost_prefix :
    (branch_name branch_prefix identifier : Text) (c : ℕ) (prefix : Text) (pattern : Option Text)
    (sprints count : ℕ)
    → is_digit c ≡ false
    → Branch.get_release_identifier branch_name branch_prefix
        (some (numbered (c ∷ prefix) pattern sprints))
      ≡ ok (some identifier)
    → get_previous_identifier identifier (suc count) (some (numbered (c ∷ prefix) pattern sprints))
      ≡ err value_error
unfolding get_previous_identifier previous_of_type previous_sequential
get_previous_identifier-lost_prefix branch_name branch_prefix identifier c prefix pattern sprints
      count sign read =
    let digits =
      get_release_identifier-isdigit branch_name branch_prefix identifier (c ∷ prefix) pattern
        sprints read in
    rw (strip-isdigit c prefix identifier sign digits, previous_sequential) refl
