-- ===== src/Versions/Spelled.antt =====
-- The versions that are spelled in full, and what is parsed from them.
use cumulus_ci.Prelude.{
  ℕ, ◌≡◌, refl, sym, ap, ◌∙◌, Option, none, some, [], ◌∷◌, ◌++◌, Bool, true, not, ◌||◌, nat_eq,
  if◌then◌else◌, Bool-cases, inl, inr, ok, arith,
}
use cumulus_ci.Prelude.Text.{Text}
use cumulus_ci.Prelude.Text.Decimal.{str, int-str, isdigit-str}
use cumulus_ci.Versions.Number.{
  PackageType, first_gen, second_gen, number, PackageVersionNumber, patch_part,
}
use cumulus_ci.Versions.Match.{Match, endings, version_match}
use cumulus_ci.Versions.Match.Leads.{
  Leads, stops, follows, dot_number, endings-none, version_match-numbers,
}
use cumulus_ci.Versions.Parse.{chosen, matched, or_group, int_or_zero, parsed, parse}

-- The version of a package with numbers only, released or not.
abbrev pub version : PackageType → ℕ → ℕ → ℕ → ℕ → Bool → PackageVersionNumber
version type x y z b released = record {
  major_version = x;
  minor_version = y;
  patch_version = z;
  build_number = number b;
  is_released = released;
  package_type = type;
}

-- Only a first generation package can be a beta version.
abbrev pub is_final : PackageType → ℕ → Bool
is_final first_gen b = nat_eq b 0
is_final second_gen b = true

-- A number that is left out where it is zero.
abbrev pub unless_zero : ℕ → Option Text
unless_zero k = if nat_eq k 0 then none else some (str k)

unless_zero-int : (k : ℕ) → int_or_zero (unless_zero k) ≡ k
unfolding int_or_zero
unless_zero-int k = elim (Bool-cases (nat_eq k 0)) [
  | inl is_zero ↦ let e : k ≡ 0 = ground arith in rw is_zero (sym e)
  | inr other ↦ rw other (int-str k)
]

pub patch_part-dot_number : (k : ℕ) → patch_part k ≡ dot_number (unless_zero k)
unfolding patch_part
patch_part-dot_number k = ground arith

follows-str : (k : ℕ) (r : Text) → stops r ≡ true → follows (some (str k)) r ≡ true
follows-str k r end = rw (isdigit-str k, end) refl

-- The whole text of a version, as the expression sees it.
abbrev pub spelled : ℕ → ℕ → Option Text → Option Text → Text → Text
spelled x y patch build end =
    str x ++ (46 ∷ (str y ++ (dot_number patch ++ (dot_number build ++ end))))

pub version_match-first_gen :
    (x y z : ℕ) (end : Text) (beta : Option Text × Option Text)
    → follows none end ≡ true
    → stops end ≡ true
    → Leads (endings end) beta
    → version_match (spelled x y (unless_zero z) none end)
      ≡ some (record {
        major = str x;
        minor = str y;
        patch = unless_zero z;
        build = none;
        beta = beta.0;
        beta_tag = beta.1;
      })
unfolding stops
version_match-first_gen x y z end beta dot digit ends = elim (Bool-cases (nat_eq z 0)) [
  | inl is_zero ↦ rw is_zero (
      version_match-numbers (str x) (str y) none none end beta (isdigit-str x) (isdigit-str y) digit
        dot dot ends)
  | inr other ↦ rw other (
      version_match-numbers (str x) (str y) (some (str z)) none end beta (isdigit-str x)
        (isdigit-str y) refl (follows-str z end digit) dot ends)
]

version_match-second_gen :
    (x y z b : ℕ)
    → version_match (spelled x y (some (str z)) (some (str b)) [])
      ≡ some (record {
        major = str x;
        minor = str y;
        patch = some (str z);
        build = some (str b);
        beta = none;
        beta_tag = none;
      })
unfolding stops
version_match-second_gen x y z b =
    version_match-numbers (str x) (str y) (some (str z)) (some (str b)) [] (none, none)
      (isdigit-str x) (isdigit-str y) refl (follows-str z (46 ∷ (str b ++ [])) refl)
      (follows-str b [] refl) endings-none

pub parse-match :
    (s : Text) (found : Match) (released : Option Bool) (type : Option PackageType)
    → version_match s ≡ some found
    → parse s released type ≡ ok (parsed found released type)
unfolding parse
parse-match s found released type e = rw (e, parse) refl

-- How a beta number is found, or not.
abbrev pub IsBeta : Option Text × Option Text → ℕ → Type 0
IsBeta beta b =
    (int_or_zero (or_group beta.0 beta.1) ≡ b)
    × ((matched beta.0 || matched beta.1) ≡ not (nat_eq b 0))

parsed-first_gen :
    (x y z b : ℕ) (beta : Option Text × Option Text) (released : Option Bool)
    → IsBeta beta b
    → parsed
        (record {
          major = str x;
          minor = str y;
          patch = unless_zero z;
          build = none;
          beta = beta.0;
          beta_tag = beta.1;
        })
        released
        none
      ≡ version first_gen x y z b (chosen released (nat_eq b 0))
unfolding parsed
parsed-first_gen x y z b beta released (counted, flagged) = elim (Bool-cases (nat_eq b 0)) [
  | inl is_zero ↦ rw (int-str x, int-str y, unless_zero-int z, counted, flagged, is_zero) refl
  | inr other ↦ rw (int-str x, int-str y, unless_zero-int z, counted, flagged, other) refl
]

-- A text that writes a beta number at the end of a version, or nothing for zero.
abbrev pub IsEnding : Text → ℕ → Type 0
IsEnding end b =
    (follows none end ≡ true)
    × (stops end ≡ true)
    × (beta : Option Text × Option Text) × Leads (endings end) beta
    × IsBeta beta b

pub parse-first_gen :
    (x y z b : ℕ) (end : Text) (released : Option Bool)
    → IsEnding end b
    → parse (spelled x y (unless_zero z) none end) released none
      ≡ ok (version first_gen x y z b (chosen released (nat_eq b 0)))
parse-first_gen x y z b end released (dot, digit, beta, ends, found) =
    parse-match (spelled x y (unless_zero z) none end)
      (record {
        major = str x;
        minor = str y;
        patch = unless_zero z;
        build = none;
        beta = beta.0;
        beta_tag = beta.1;
      })
      released none (version_match-first_gen x y z end beta dot digit ends)
    ∙ ap ok (parsed-first_gen x y z b beta released found)

pub nothing-IsEnding : (b : ℕ) → nat_eq b 0 ≡ true → IsEnding [] b
unfolding stops int_or_zero
nothing-IsEnding b is_zero =
    let e : 0 ≡ b = ground arith in (refl, refl, (none, none), endings-none, (e, rw is_zero refl))

pub parse-second_gen :
    (x y z b : ℕ) (released : Option Bool)
    → parse (spelled x y (some (str z)) (some (str b)) []) released none
      ≡ ok (version second_gen x y z b (chosen released true))
unfolding parsed int_or_zero
parse-second_gen x y z b released =
    parse-match (spelled x y (some (str z)) (some (str b)) [])
      (record {
        major = str x;
        minor = str y;
        patch = some (str z);
        build = some (str b);
        beta = none;
        beta_tag = none;
      })
      released none (version_match-second_gen x y z b)
    ∙ ap ok (rw (int-str x, int-str y, int-str z, int-str b) refl)
