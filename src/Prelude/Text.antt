-- ===== src/Prelude/Text.antt =====
-- Texts as lists of code points, where the program walks their characters: Python's `str` with
-- `startswith`, slices, `isdigit`, `int`, `str`, `split` and `join`. Digits are the ASCII ones.
use Prim.Native.Nat.{ℕ, zero, suc, ◌+◌, ◌-◌, ◌*◌, ◌/◌, ◌%◌, ◌≤◌, ◌<◌}
use Prim.Native.Char.{code}
use Prim.Native.String.{String}
use mathlib.Core.Path.{◌≡◌, refl, sym, ap, ◌∙◌}
use mathlib.Core.Logic.{◌⊎◌, inl, inr}
use mathlib.Core.Bool.{Bool, true, false, not, ◌&&◌, ◌||◌}
use mathlib.Core.Option.{Option, none, some}
use mathlib.Core.List.{List, [], ◌∷◌, ◌++◌, append-nil, append_assoc}
use native.Mathlib.Omega.{arith}
use cumulus_ci.Prelude.Tests.{ltb, leb, nat_eq, if◌then◌else◌, Bool-cases}
pub mod Decimal
pub mod Split

abbrev pub Text : Type 0
Text = List ℕ

abbrev pub codes : String → Text
codes String.[] = []
codes (String.◌∷◌ c s) = code c ∷ codes s

unfoldable pub text_eq : Text → Text → Bool
text_eq [] [] = true
text_eq (a ∷ s) (b ∷ t) = nat_eq a b && text_eq s t
text_eq _ _ = false

-- `s[len(p):]` where `s.startswith(p)`
unfoldable pub strip : Text → Text → Option Text
strip [] s = some s
strip (a ∷ p) [] = none
strip (a ∷ p) (b ∷ s) = let rest = strip p s in if nat_eq a b then rest else none

abbrev pub is_digit : ℕ → Bool
is_digit c = leb 48 c && leb c 57

unfoldable pub all_digits : Text → Bool
all_digits [] = true
all_digits (c ∷ s) = is_digit c && all_digits s

-- s.isdigit()
unfoldable pub isdigit : Text → Bool
unfolding all_digits
isdigit [] = false
isdigit (c ∷ s) = all_digits (c ∷ s)

pub text_eq-true : (s t : Text) → text_eq s t ≡ true → s ≡ t
unfolding text_eq
text_eq-true [] [] h = refl
text_eq-true [] (b ∷ t) h = cc
text_eq-true (a ∷ s) [] h = cc
text_eq-true (a ∷ s) (b ∷ t) h =
    let same : a ≡ b = ground arith in let rest : s ≡ t = text_eq-true s t (ground arith) in cc

pub strip-append : (p s : Text) → strip p (p ++ s) ≡ some s
unfolding strip
strip-append [] s = refl
strip-append (a ∷ p) s = ground (arith, strip-append p s)

pub strip-some : (p s t : Text) → strip p s ≡ some t → s ≡ p ++ t
unfolding strip
strip-some [] s t h = cc
strip-some (a ∷ p) [] t h = cc
strip-some (a ∷ p) (b ∷ s) t h =
    let same : a ≡ b = ground arith in let rest : s ≡ p ++ t = strip-some p s t (ground arith) in cc

pub all_digits-append : (s t : Text) → all_digits (s ++ t) ≡ (all_digits s && all_digits t)
unfolding all_digits
all_digits-append [] t = refl
all_digits-append (c ∷ s) t = ground (arith, all_digits-append s t)

-- `$` of Python's re, which also matches before a final line feed.
unfoldable pub at_end : Text → Bool
at_end [] = true
at_end (c ∷ []) = nat_eq c 10
at_end (c ∷ d ∷ s) = false

-- `c not in s`, for a character
unfoldable pub lacks : ℕ → Text → Bool
lacks a [] = true
lacks a (c ∷ s) = not (nat_eq c a) && lacks a s

pub lacks-append : (a : ℕ) (s t : Text) → lacks a (s ++ t) ≡ (lacks a s && lacks a t)
unfolding lacks
lacks-append a [] t = refl
lacks-append a (c ∷ s) t = ground (arith, lacks-append a s t)

pub lacks-all_digits :
    (a : ℕ) (s : Text) → is_digit a ≡ false → all_digits s ≡ true → lacks a s ≡ true
unfolding lacks all_digits
lacks-all_digits a [] sign digits = refl
lacks-all_digits a (c ∷ s) sign digits =
    let rest = lacks-all_digits a s sign (ground arith) in
    let digit : is_digit c ≡ true = ground arith in
    elim (Bool-cases (nat_eq c a)) [
      | inr other ↦ rw (other, rest) refl
      | inl same ↦
          let e : c ≡ a = ground arith in
          let clash : Path Bool true false = sym digit ∙ (ap is_digit e ∙ sign) in cc
    ]
