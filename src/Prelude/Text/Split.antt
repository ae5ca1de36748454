-- ===== src/Prelude/Text/Split.antt =====
-- `s.split("__")` and `"__".join(parts)`.
use Prim.Native.Nat.{ℕ}
use mathlib.Core.Path.{◌≡◌, refl, ap, ◌∙◌}
use mathlib.Core.Logic.{inl, inr}
use mathlib.Core.Bool.{◌&&◌}
use mathlib.Core.List.{List, [], ◌∷◌, ◌++◌}
use native.Mathlib.Omega.{arith}
use cumulus_ci.Prelude.Tests.{nat_eq, if◌then◌else◌, Bool-cases}
use cumulus_ci.Prelude.Text.{Text}

abbrev pub mark : Text
mark = 95 ∷ 95 ∷ []

-- A character before the first part.
abbrev pub onto : ℕ → Text × List Text → Text × List Text
onto c (part, parts) = (c ∷ part, parts)

-- The first part and the others: there is always a first one.
unfoldable pub split : Text → Text × List Text
split [] = ([], [])
split (a ∷ []) = (a ∷ [], [])
split (a ∷ b ∷ s) =
    let cut = split s in
    let here = split (b ∷ s) in
    if nat_eq a 95 && nat_eq b 95 then ([], cut.0 ∷ cut.1) else onto a here

unfoldable pub join : Text → List Text → Text
join part [] = part
join part (next ∷ parts) = part ++ (mark ++ join next parts)

join-onto :
    (c : ℕ) (cut : Text × List Text) → join (onto c cut).0 (onto c cut).1 ≡ c ∷ join cut.0 cut.1
unfolding join
join-onto c (part, []) = refl
join-onto c (part, next ∷ parts) = refl

-- What is split is joined again.
pub join-split : (s : Text) → join (split s).0 (split s).1 ≡ s
unfolding split join
join-split [] = refl
join-split (a ∷ []) = refl
join-split (a ∷ b ∷ s) = elim (Bool-cases (nat_eq a 95 && nat_eq b 95)) [
  | inl cut ↦
      let a_is : a ≡ 95 = ground arith in
      let b_is : b ≡ 95 = ground arith in
      rw cut (rw (a_is, b_is) (ap (λ t. 95 ∷ 95 ∷ t) (join-split s)))
  | inr other ↦ rw other (join-onto a (split (b ∷ s)) ∙ ap (λ t. a ∷ t) (join-split (b ∷ s)))
]
