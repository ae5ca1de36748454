-- ===== src/Prelude/Text/Decimal.antt =====
-- `int` of digits and `str` of a number.
use Prim.Native.Nat.{ℕ, zero, suc, ◌+◌, ◌-◌, ◌*◌, ◌/◌, ◌%◌, ◌≤◌, ◌<◌}
use mathlib.Core.Path.{◌≡◌, refl, sym, ap, ◌∙◌}
use mathlib.Core.Logic.{inl, inr}
use mathlib.Core.Bool.{true}
use mathlib.Core.List.{[], ◌∷◌}
use native.Mathlib.Omega.{arith}
use cumulus_ci.Prelude.Tests.{ltb, if◌then◌else◌, Bool-cases}
use cumulus_ci.Prelude.Text.{Text, all_digits, isdigit}

-- What digits spell behind a number that was read before.
unfoldable pub value : ℕ → Text → ℕ
value n [] = n
value n (c ∷ s) = value (n * 10 + (c - 48)) s

-- int(s), for a text of digits
abbrev pub int : Text → ℕ
int s = value 0 s

-- The digits of a number before the digits of `out`; the fuel bounds their number.
unfoldable pub digits : ℕ → ℕ → Text → Text
digits zero n out = out
digits (suc fuel) n out =
    let rest = digits fuel (n / 10) ((48 + n % 10) ∷ out) in
    if ltb n 10 then (48 + n) ∷ out else rest

-- str(n)
unfoldable pub str : ℕ → Text
unfolding digits
str n = digits (suc n) n []

value-digits : (fuel n : ℕ) (out : Text) → n < fuel → value 0 (digits fuel n out) ≡ value n out
unfolding value digits
value-digits zero n out h = ground arith
value-digits (suc fuel) n out h = elim (Bool-cases (ltb n 10)) [
  | inl small ↦ rw small (ap (λ k. value k out) (omega arith))
  | inr large ↦
      let big : 10 ≤ n = ground arith in
      rw large (
        value-digits fuel (n / 10) ((48 + n % 10) ∷ out) (omega arith)
        ∙ ap (λ k. value k out) (omega arith))
]

-- What is printed is read back.
pub int-str : (n : ℕ) → int (str n) ≡ n
unfolding str value
int-str n = value-digits (suc n) n [] (omega arith)

all_digits-digits :
    (fuel n : ℕ) (out : Text) → all_digits out ≡ true → all_digits (digits fuel n out) ≡ true
unfolding digits all_digits
all_digits-digits zero n out h = h
all_digits-digits (suc fuel) n out h = elim (Bool-cases (ltb n 10)) [
  | inl small ↦ rw small (ground (arith, h))
  | inr large ↦
      let digit : all_digits ((48 + n % 10) ∷ out) ≡ true =
        (let below : n % 10 < 10 = omega arith in ground arith) in
      rw large (all_digits-digits fuel (n / 10) ((48 + n % 10) ∷ out) digit)
]

pub all_digits-str : (n : ℕ) → all_digits (str n) ≡ true
unfolding str all_digits
all_digits-str n = all_digits-digits (suc n) n [] refl

-- The print begins with a digit.
digits-cons :
    (fuel n : ℕ) (c : ℕ) (out : Text) → (d : ℕ) × (s : Text) × (digits fuel n (c ∷ out) ≡ d ∷ s)
unfolding digits
digits-cons zero n c out = (c, out, refl)
digits-cons (suc fuel) n c out = elim (Bool-cases (ltb n 10)) [
  | inl small ↦ (48 + n, c ∷ out, rw small refl)
  | inr large ↦
      let (d, s, e) = digits-cons fuel (n / 10) (48 + n % 10) (c ∷ out) in (d, s, rw large e)
]

pub str-cons : (n : ℕ) → (d : ℕ) × (s : Text) × (str n ≡ d ∷ s)
unfolding str digits
str-cons n = elim (Bool-cases (ltb n 10)) [
  | inl small ↦ (48 + n, [], rw small refl)
  | inr large ↦ let (d, s, e) = digits-cons n (n / 10) (48 + n % 10) [] in (d, s, rw large e)
]

pub isdigit-str : (n : ℕ) → isdigit (str n) ≡ true
unfolding isdigit
isdigit-str n =
    let (d, s, e) = str-cons n in
    let all : all_digits (d ∷ s) ≡ true = ap all_digits (sym e) ∙ all_digits-str n in rw e all
