-- ===== src/Config/Options/Managed.antt =====
-- `process_bool_arg` and `determine_managed_mode` of cumulusci/core/utils.py.
use Prim.Native.Char.{code}
use text.Mathlib.Text.{find?}
use cumulus_ci.Prelude.{
  ℕ, ◌+◌, String, ◌≡◌, List, [], ◌∷◌, Bool, true, false, not, ◌&&◌, ◌||◌, Option, none, some, arith,
  leb, nat_eq, any, contains, Result, ok, err, ◌==◌, if◌then◌else◌, ◌>>=◌,
}

-- An option value: a number (or Boolean), a text or none; `neither` is any other object.
pub data Arg : Type 0 where
  number : ℕ → Arg
  word : String → Arg
  missing : Arg
  neither : Arg

-- TypeError("Cannot interpret as boolean")
pub data BoolError : Type 0 where
  not_a_bool : BoolError

to_lower : ℕ → ℕ
to_lower c = if leb b'A' c && leb c b'Z' then c + 32 else c

-- `s.lower() == t`, for a text `t` of lower-case ASCII letters or digits.
unfoldable pub lower_is : String → String → Bool
unfolding to_lower
lower_is String.[] String.[] = true
lower_is (String.◌∷◌ c s) (String.◌∷◌ d t) = nat_eq (to_lower (code c)) (code d) && lower_is s t
lower_is _ _ = false

unfoldable pub process_bool_arg : Arg → Result BoolError Bool
unfolding lower_is
process_bool_arg (number n) = ok (not (nat_eq n 0))
process_bool_arg missing = ok false
process_bool_arg (word s) =
    if any (lower_is s) ("yes" ∷ "y" ∷ "true" ∷ "on" ∷ "1" ∷ [])
    then ok true
    else if any (lower_is s) ("no" ∷ "n" ∷ "false" ∷ "off" ∷ "0" ∷ [])
    then ok false
    else err not_a_bool
process_bool_arg neither = err not_a_bool

-- The options that the function reads; `none` for a key that is not there. Names are texts, and
-- the empty text counts as no name.
pub record ManagedContext : Type 0 where
  pub managed : Option Arg
  pub unmanaged : Option Arg
  pub package_name : String
  pub project_namespace : String
  pub option_namespace : String
  pub installed_packages : List String
  pub org_namespace : Option String

-- `project namespace or options.get("namespace")`
unfoldable pub namespace_of : ManagedContext → String
namespace_of c = if c.project_namespace == "" then c.option_namespace else c.project_namespace

-- `package_name in key`, for some installed package
unfoldable pub names_package : String → List String → Bool
names_package name packages =
    any (λ key. elim (find? key name) [ none ↦ false | some _ ↦ true ]) packages

-- The part of the function that no explicit flag decides.
unfoldable pub inferred_mode : ManagedContext → Bool
unfolding namespace_of names_package contains
inferred_mode c =
    let namespace = namespace_of c in
    let in_packaging_org : Bool = elim c.org_namespace [ none ↦ false | some n ↦ namespace == n ] in
    if not (c.package_name == "") && names_package c.package_name c.installed_packages
    then true
    else if not (namespace == "") && in_packaging_org
    then false
    else not (namespace == "") && contains c.installed_packages namespace

unfoldable pub determine_managed_mode : ManagedContext → Result BoolError Bool
unfolding inferred_mode process_bool_arg
determine_managed_mode c = elim c.managed [
  | some flag ↦ process_bool_arg flag
  | none ↦ elim c.unmanaged [
    | some flag ↦ (do b ← process_bool_arg flag; ok (not b))
    | none ↦ ok (inferred_mode c)
  ]
]

-- With neither flag set, the mode is managed exactly where an installed package's name contains
-- the package's name, or the namespace is that of an installed package and not that of the org.
pub determine_managed_mode_iff :
    (c : ManagedContext)
    → c.managed ≡ none
    → c.unmanaged ≡ none
    → determine_managed_mode c
      ≡ ok (
          not (c.package_name == "") && names_package c.package_name c.installed_packages
          || not (namespace_of c == "")
            && contains c.installed_packages (namespace_of c)
            && not (elim c.org_namespace [ none ↦ false | some n ↦ namespace_of c == n ]))
unfolding determine_managed_mode
determine_managed_mode_iff c no_managed no_unmanaged = ground arith
