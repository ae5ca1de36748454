-- ===== src/Queues/Listing.antt =====
-- The names in a folder, in the order in which `iterdir` gives them: any order.
use mathlib.Core.Logic.{∥∥₁_elim}
use mathlib.Core.List.{Perm, Permᴰ}
use native.Mathlib.Nat.{ℕ_set}
use cumulus_ci.Prelude.{ℕ, ◌+◌, ◌≡◌, refl, ap, ◌∙◌, List, ◌∷◌, String, arith, length}

pub record Listing : Type 0 where
  pub order : List String → List String
  pub whole : (names : List String) → Perm (order names) names

-- A number that a list's elements add up to is the same in any order.
module _ {A : Type 0} (total : List A → ℕ) (weight : A → ℕ)
    (adds : (x : A) (xs : List A) → total (x ∷ xs) ≡ weight x + total xs) where
  total-Permᴰ : {xs ys : List A} → Permᴰ xs ys → total xs ≡ total ys
  total-Permᴰ Permᴰ.nil = refl
  total-Permᴰ (Permᴰ.cons {a} {b} {l₁} {l₂} e d) =
      omega (arith, adds a l₁, adds b l₂, ap weight e, total-Permᴰ d)
  total-Permᴰ (Permᴰ.swap {a} {b} {a'} {b'} {l} e f) =
      omega (arith, adds a (b ∷ l), adds b l, adds a' (b' ∷ l), adds b' l, ap weight e, ap weight f)
  total-Permᴰ (Permᴰ.trans d e) = total-Permᴰ d ∙ total-Permᴰ e

  pub total-Perm : (xs ys : List A) → Perm xs ys → total xs ≡ total ys
  total-Perm xs ys p = ∥∥₁_elim p (ℕ_set (total xs) (total ys)) total-Permᴰ

pub length-Perm : (xs ys : List String) → Perm xs ys → length xs ≡ length ys
length-Perm = total-Perm length (λ x. 1) (λ x xs. omega arith)
