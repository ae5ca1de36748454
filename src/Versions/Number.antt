-- ===== src/Versions/Number.antt =====
-- PackageVersionNumber of cumulusci/core/versions.py: its formats and `increment`.
use cumulus_ci.Prelude.{
  ℕ, suc, [], ◌∷◌, ◌++◌, Bool, true, false, ◌&&◌, nat_eq, if◌then◌else◌, Result, ok, err,
}
use cumulus_ci.Prelude.Text.{Text, codes}
use cumulus_ci.Prelude.Text.Decimal.{str}

pub data VersionTypeEnum : Type 0 where
  major : VersionTypeEnum
  minor : VersionTypeEnum
  patch : VersionTypeEnum
  build : VersionTypeEnum

pub data PackageType : Type 0 where
  first_gen : PackageType
  second_gen : PackageType

-- Union[int, str]: a text that `int` reads is a number.
pub data BuildNumber : Type 0 where
  number : ℕ → BuildNumber
  word : Text → BuildNumber

pub record PackageVersionNumber : Type 0 where
  pub major_version : ℕ
  pub minor_version : ℕ
  pub patch_version : ℕ
  pub build_number : BuildNumber
  pub is_released : Bool
  pub package_type : PackageType

pub data VersionError : Type 0 where
  value_error : VersionError

unfoldable pub print_build : BuildNumber → Text
unfolding str
print_build (number k) = str k
print_build (word w) = w

abbrev pub is_falsy : BuildNumber → Bool
is_falsy (number k) = nat_eq k 0
is_falsy (word []) = true
is_falsy (word (c ∷ w)) = false

-- f"{MajorVersion}.{MinorVersion}", and f".{PatchVersion}"
unfoldable pub main_part : PackageVersionNumber → Text
unfolding str
main_part v = str v.major_version ++ (46 ∷ str v.minor_version)

unfoldable pub patch_part : ℕ → Text
unfolding str
patch_part k = if nat_eq k 0 then [] else 46 ∷ str k

unfoldable pub beta_part : BuildNumber → Text
unfolding print_build
beta_part b = if is_falsy b then [] else codes " (Beta " ++ (print_build b ++ codes ")")

unfoldable pub format_2gp : PackageVersionNumber → Text
unfolding main_part str print_build
format_2gp v = main_part v ++ (46 ∷ (str v.patch_version ++ (46 ∷ print_build v.build_number)))

unfoldable pub format_1gp : PackageVersionNumber → Text
unfolding main_part patch_part beta_part
format_1gp v = main_part v ++ (patch_part v.patch_version ++ beta_part v.build_number)

abbrev pub formatted : PackageType → PackageVersionNumber → Text
formatted first_gen v = format_1gp v
formatted second_gen v = format_2gp v

unfoldable pub format : PackageVersionNumber → Text
unfolding format_1gp format_2gp
format v = formatted v.package_type v

-- s.replace(ab, w), of two characters
unfoldable pub replace_pair : ℕ → ℕ → Text → Text → Text
replace_pair a b w [] = []
replace_pair a b w (x ∷ []) = x ∷ []
replace_pair a b w (x ∷ y ∷ s) =
    let after = replace_pair a b w s in
    let here = replace_pair a b w (y ∷ s) in
    if nat_eq x a && nat_eq y b then w ++ after else x ∷ here

-- s.replace(a, w), of one character
unfoldable pub replace : ℕ → Text → Text → Text
replace a w [] = []
replace a w (x ∷ s) = let rest = replace a w s in if nat_eq x a then w ++ rest else x ∷ rest

unfoldable pub format_tag : PackageVersionNumber → Text → Text
unfolding format replace_pair replace
format_tag v prefix =
    replace 32 (codes "_") (replace 41 [] (replace_pair 32 40 (codes "-") (prefix ++ format v)))

abbrev pub next_version : VersionTypeEnum → ℕ × (ℕ × ℕ) → ℕ × (ℕ × ℕ)
next_version major (x, (y, z)) = (suc x, (0, 0))
next_version minor (x, (y, z)) = (x, (suc y, 0))
next_version patch (x, (y, z)) = (x, (y, suc z))
next_version build (x, (y, z)) = (x, (y, z))

abbrev pub numbers : PackageVersionNumber → ℕ × (ℕ × ℕ)
numbers v = (v.major_version, (v.minor_version, v.patch_version))

unfoldable pub increment :
    PackageVersionNumber → VersionTypeEnum → Result VersionError PackageVersionNumber
increment v part = elim v.package_type [
  | first_gen ↦ err value_error
  | second_gen ↦
      let next : ℕ × (ℕ × ℕ) = next_version part (numbers v) in
      ok (record {
        major_version = next.0;
        minor_version = next.1.0;
        patch_version = next.1.1;
        build_number = word (codes "NEXT");
        is_released = false;
        package_type = second_gen;
      })
]
