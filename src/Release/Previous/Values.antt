-- ===== src/Release/Previous/Values.antt =====
-- Reading and writing the values of the groups of a date, and printing them.
use cumulus_ci.Prelude.{
  ℕ, zero, suc, ◌-◌, ◌≡◌, refl, ap, ◌∙◌, some, List, [], ◌∷◌, ◌++◌, true, false, nat_eq, Bool-cases,
  inl, inr, All, arith, length,
}
use cumulus_ci.Prelude.Text.{Text}
use cumulus_ci.Prelude.Text.Decimal.{value, int, str, int-str}
use cumulus_ci.Release.Pattern.{Token, yyyy, yy, mm, dd, q, n, index, same_token}
use cumulus_ci.Release.Previous.{
  GroupValues, value_in, set_value, int_groups, zeros, pad, print_value, print_values,
}

-- No token comes back.
abbrev pub Fresh : Token → List Token → Type 0
Fresh t ts = All (λ s. same_token s t ≡ false) ts

abbrev pub Separate : List Token → Type 0
Separate [] = Unit
Separate (t ∷ ts) = Fresh t ts × Separate ts

pub same_token_refl : (t : Token) → same_token t t ≡ true
same_token_refl t = ground arith

pub same_token_sym : (s t : Token) → same_token s t ≡ false → same_token t s ≡ false
same_token_sym s t h = ground arith

same_token_trans : (r s t : Token) → same_token r s ≡ true → same_token r t ≡ same_token s t
same_token_trans r s t h =
    let e : index r ≡ index s = ground arith in ap (λ k. nat_eq k (index t)) e

pub value_in-set_value_other :
    (s t : Token) (w : ℕ) (vs : GroupValues)
    → same_token s t ≡ false
    → value_in s (set_value t w vs) ≡ value_in s vs
unfolding value_in set_value
value_in-set_value_other s t w [] h = refl
value_in-set_value_other s t w ((r, v) ∷ vs) h = elim (Bool-cases (same_token r t)) [
  | inr other ↦
      rw (other, value_in, set_value) (ground (arith, value_in-set_value_other s t w vs h))
  | inl here ↦
      let ne : same_token r s ≡ false = same_token_trans r t s here ∙ same_token_sym s t h in
      ground arith
]

pub value_in-set_value :
    (t : Token) (v w : ℕ) (vs : GroupValues)
    → value_in t vs ≡ some v
    → value_in t (set_value t w vs) ≡ some w
unfolding value_in set_value
value_in-set_value t v w [] h = cc
value_in-set_value t v w ((r, u) ∷ vs) h = elim (Bool-cases (same_token r t)) [
  | inl here ↦ ground arith
  | inr other ↦
      let rest : value_in t (set_value t w vs) ≡ some w =
        value_in-set_value t v w vs (ground arith) in
      ground arith
]

zeros-int : (k : ℕ) (s : Text) → int (zeros k ++ s) ≡ int s
unfolding value
zeros-int zero s = refl
zeros-int (suc k) s = zeros-int k s

pad-int : (w v : ℕ) → int (pad w v) ≡ v
unfolding pad value
pad-int w v = zeros-int (w - length (str v)) (str v) ∙ int-str v

print_value-int : (t : Token) (v : ℕ) → int (print_value t v) ≡ v
unfolding print_value
print_value-int yyyy v = pad-int 4 v
print_value-int yy v = pad-int 2 v
print_value-int mm v = pad-int 2 v
print_value-int dd v = pad-int 2 v
print_value-int q v = int-str v
print_value-int n v = int-str v

pub print_values-int_groups : (vs : GroupValues) → int_groups (print_values vs) ≡ vs
print_values-int_groups [] = refl
print_values-int_groups ((t, v) ∷ vs) =
    ap (λ w. (t, w) ∷ int_groups (print_values vs)) (print_value-int t v)
    ∙ ap (λ l. (t, v) ∷ l) (print_values-int_groups vs)
