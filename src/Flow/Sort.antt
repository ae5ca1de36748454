-- ===== src/Flow/Sort.antt =====
-- `sorted(steps, key=attrgetter("step_num"))`: Python's stable sort, by the order of step numbers.
-- A step number is a LooseVersion, which the repository takes from Python's own library. The
-- order is a parameter: a Boolean test on the texts of two numbers.
use mathlib.Core.List.{Perm}
use mathlib.Core.List.Perm
use cumulus_ci.Prelude.{
  String, ◌≡◌, refl, List, [], ◌∷◌, Bool, true, false, All, arith, if◌then◌else◌, Bool-cases, inl,
  inr, keep, not, ◌&&◌, ◌∙◌, ap,
}

-- What the order of step numbers has to satisfy: `lt` is irreflexive in the weak sense that not
-- both of two numbers are less, and "not less" is transitive.
pub record StepOrder : Type 0 where
  pub lt : String → String → Bool
  pub not_both : (a b : String) → lt a b ≡ true → lt b a ≡ false
  pub not_less : (a b c : String) → lt b a ≡ false → lt c b ≡ false → lt c a ≡ false

module _ {ℓ} {A : Type ℓ} (order : StepOrder) (key : A → String) where
  abbrev less : A → A → Bool
  less x y = order.lt (key x) (key y)

  -- A new element goes before the first that is not less.
  unfoldable pub insert_sorted : A → List A → List A
  insert_sorted x [] = x ∷ []
  insert_sorted x (y ∷ ys) =
      let rest = insert_sorted x ys in if less y x then y ∷ rest else x ∷ y ∷ ys

  unfoldable pub sorted : List A → List A
  unfolding insert_sorted
  sorted [] = []
  sorted (x ∷ xs) = insert_sorted x (sorted xs)

  -- No element is less than one before it.
  abbrev pub IsSorted : List A → Type ℓ
  IsSorted [] = Unit
  IsSorted (x ∷ xs) = All (λ y. less y x ≡ false) xs × IsSorted xs

  insert_sorted-perm : (x : A) (ys : List A) → Perm (insert_sorted x ys) (x ∷ ys)
  unfolding insert_sorted
  insert_sorted-perm x [] = Perm.refl (x ∷ [])
  insert_sorted-perm x (y ∷ ys) = elim (Bool-cases (less y x)) [
    | inl before ↦ rw before (Perm.trans (Perm.cons y (insert_sorted-perm x ys)) (Perm.swap x y ys))
    | inr after ↦ rw after (Perm.refl (x ∷ y ∷ ys))
  ]

  pub sorted-perm : (xs : List A) → Perm (sorted xs) xs
  unfolding sorted
  sorted-perm [] = Perm.refl []
  sorted-perm (x ∷ xs) =
      Perm.trans (insert_sorted-perm x (sorted xs)) (Perm.cons x (sorted-perm xs))

  insert_sorted-All :
      (P : A → Type 0) (x : A) (ys : List A) → P x → All P ys → All P (insert_sorted x ys)
  unfolding insert_sorted
  insert_sorted-All P x [] hx h = (hx, tt)
  insert_sorted-All P x (y ∷ ys) hx (hy, h) = elim (Bool-cases (less y x)) [
    | inl before ↦ rw before (hy, insert_sorted-All P x ys hx h)
    | inr after ↦ rw after (hx, (hy, h))
  ]

  pub sorted-All : (P : A → Type 0) (xs : List A) → All P xs → All P (sorted xs)
  unfolding sorted
  sorted-All P [] h = tt
  sorted-All P (x ∷ xs) (hx, h) = insert_sorted-All P x (sorted xs) hx (sorted-All P xs h)

  All-not_less :
      (x y : A) (ys : List A)
      → less y x ≡ false
      → All (λ z. less z y ≡ false) ys
      → All (λ z. less z x ≡ false) ys
  All-not_less x y [] h hs = tt
  All-not_less x y (z ∷ zs) h (hz, hs) =
      (order.not_less (key x) (key y) (key z) h hz, All-not_less x y zs h hs)

  insert_sorted-IsSorted : (x : A) (ys : List A) → IsSorted ys → IsSorted (insert_sorted x ys)
  unfolding insert_sorted
  insert_sorted-IsSorted x [] h = (tt, tt)
  insert_sorted-IsSorted x (y ∷ ys) (hy, h) = elim (Bool-cases (less y x)) [
    | inl before ↦ rw before (
      insert_sorted-All _ x ys (order.not_both (key y) (key x) before) hy,
      insert_sorted-IsSorted x ys h,
    )
    | inr after ↦ rw after ((after, All-not_less x y ys after hy), (hy, h))
  ]

  pub sorted-IsSorted : (xs : List A) → IsSorted (sorted xs)
  unfolding sorted
  sorted-IsSorted [] = tt
  sorted-IsSorted (x ∷ xs) = insert_sorted-IsSorted x (sorted xs) (sorted-IsSorted xs)

  -- The elements whose number is neither less nor greater than `k`.
  abbrev pub same_number : String → A → Bool
  same_number k x = not (order.lt (key x) k) && not (order.lt k (key x))

  less-not_same :
      (k : String) (x y : A) → same_number k x ≡ true → less y x ≡ true → same_number k y ≡ false
  less-not_same k x y same before = ground (arith, order.not_less (key x) k (key y))

  keep-insert_sorted :
      (k : String) (x : A) (ys : List A)
      → keep (same_number k) (insert_sorted x ys) ≡ keep (same_number k) (x ∷ ys)
  unfolding insert_sorted
  keep-insert_sorted k x [] = refl
  keep-insert_sorted k x (y ∷ ys) = ground (arith, keep-insert_sorted k x ys, less-not_same k x y)

  -- Elements of one number keep their order.
  pub keep-sorted :
      (k : String) (xs : List A) → keep (same_number k) (sorted xs) ≡ keep (same_number k) xs
  unfolding sorted
  keep-sorted k [] = refl
  keep-sorted k (x ∷ xs) =
      keep-insert_sorted k x (sorted xs)
      ∙ ap (λ (l : List A). let rest = l in if same_number k x then x ∷ rest else rest)
          (keep-sorted k xs)
