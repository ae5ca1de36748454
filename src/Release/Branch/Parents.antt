-- ===== src/Release/Branch/Parents.antt =====
-- Which branches are the parents of a branch.
use cumulus_ci.Prelude.{
  ℕ, zero, suc, ◌+◌, ◌-◌, ◌≤◌, ◌≡◌, refl, sym, ap, ◌∙◌, Option, none, some, Option-cases, List, [],
  ◌∷◌, ◌++◌, true, inl, inr, ok, ok-injective, arith, length, take,
}
use cumulus_ci.Prelude.Text.{Text, strip, strip-some, isdigit}
use cumulus_ci.Prelude.Text.Split.{split, join}
use cumulus_ci.Release.Identifier.{
  ReleaseBranchFormat, is_valid_release_identifier, is_valid_suffix, identifier_part, without,
}
use cumulus_ci.Release.Identifier
use cumulus_ci.Release.Branch.{
  is_release_branch_or_child, get_release_identifier, get_feature_branch_name,
  construct_release_branch_name, drop_last, intermediate, root_branch, candidates,
  get_parent_branch_candidates,
}

module _ {A B : Type 0} where
  abbrev pub map : (A → B) → List A → List B
  map f [] = []
  map f (x ∷ xs) = f x ∷ map f xs

  map-append : (f : A → B) (xs ys : List A) → map f (xs ++ ys) ≡ map f xs ++ map f ys
  map-append f [] ys = refl
  map-append f (x ∷ xs) ys = ap (λ l. f x ∷ l) (map-append f xs ys)

module _ {A : Type 0} where
  -- The proper prefixes of a list, the longest first.
  abbrev pub shorter : List A → List (List A)
  shorter [] = []
  shorter (x ∷ xs) = map (λ ys. x ∷ ys) (shorter xs) ++ ([] ∷ [])

  -- The prefixes that the loop takes.
  abbrev cuts : List A → ℕ → ℕ → List (List A)
  cuts xs k zero = []
  cuts xs k (suc count) = drop_last k xs ∷ cuts xs (suc k) count

  drop_last-cons :
      (k : ℕ) (x : A) (xs : List A) → k ≤ length xs → drop_last k (x ∷ xs) ≡ x ∷ drop_last k xs
  unfolding drop_last
  drop_last-cons k x xs h =
      let left : suc (length xs) - k ≡ suc (length xs - k) = omega arith in
      ap (λ m. take m (x ∷ xs)) left

  cuts-cons :
      (x : A) (xs : List A) (k count : ℕ)
      → k + count ≤ suc (length xs)
      → cuts (x ∷ xs) k count ≡ map (λ ys. x ∷ ys) (cuts xs k count)
  cuts-cons x xs k zero h = refl
  cuts-cons x xs k (suc count) h =
      ap (λ l. l ∷ cuts (x ∷ xs) (suc k) count) (drop_last-cons k x xs (omega arith))
      ∙ ap (λ l. (x ∷ drop_last k xs) ∷ l) (cuts-cons x xs (suc k) count (omega arith))

  cuts_last :
      (xs : List A) (k count : ℕ)
      → cuts xs k (suc count) ≡ cuts xs k count ++ (drop_last (k + count) xs ∷ [])
  cuts_last xs k zero = ap (λ m. drop_last m xs ∷ []) (omega arith)
  cuts_last xs k (suc count) =
      ap (λ l. drop_last k xs ∷ l)
        (cuts_last xs (suc k) count
          ∙ ap (λ m. cuts xs (suc k) count ++ (drop_last m xs ∷ [])) (omega arith))

  drop_last-all : (k : ℕ) (xs : List A) → length xs ≤ k → drop_last k xs ≡ []
  unfolding drop_last
  drop_last-all k xs h = ap (λ m. take m xs) (the_zero (length xs) k h)
    where
      the_zero : (m k : ℕ) → m ≤ k → m - k ≡ 0
      the_zero m k h = omega arith

  cuts-shorter : (xs : List A) → cuts xs 1 (length xs) ≡ shorter xs
  cuts-shorter [] = refl
  cuts-shorter (x ∷ xs) =
      cuts_last (x ∷ xs) 1 (length xs)
      ∙ (ap (λ l. l ++ (drop_last (1 + length xs) (x ∷ xs) ∷ []))
            (cuts-cons x xs 1 (length xs) (omega arith)
              ∙ ap (λ l. map (λ ys. x ∷ ys) l) (cuts-shorter xs))
          ∙ ap (λ l. map (λ ys. x ∷ ys) (shorter xs) ++ (l ∷ []))
              (drop_last-all (1 + length xs) (x ∷ xs) (omega arith)))

module _ (prefix part : Text) where
  abbrev named : List Text → Text
  named parts = prefix ++ join part parts

  intermediate-cuts :
      (parts : List Text) (k count : ℕ)
      → intermediate prefix part parts k count ≡ map named (cuts parts k count)
  unfolding intermediate
  intermediate-cuts parts k zero = refl
  intermediate-cuts parts k (suc count) =
      ap (λ l. named (drop_last k parts) ∷ l) (intermediate-cuts parts (suc k) count)

  -- The loop and the root make the list of the names with fewer parts.
  all_parents :
      (p : Text) (parts : List Text)
      → intermediate prefix part (p ∷ parts) 1 (length parts) ++ (prefix ++ part) ∷ []
        ≡ map named (shorter (p ∷ parts))
  unfolding join
  all_parents p parts =
      ap (λ l. l ++ (prefix ++ part) ∷ [])
        (intermediate-cuts (p ∷ parts) 1 (length parts)
          ∙ ap (map named) (
              cuts-cons p parts 1 (length parts) (omega arith)
              ∙ ap (map (λ ys. p ∷ ys)) (cuts-shorter parts)))
      ∙ sym (map-append named (map (λ ys. p ∷ ys) (shorter parts)) ([] ∷ []))

-- What is valid begins with the prefix of the format.
without-prefix :
    (f : ReleaseBranchFormat) (identifier : Text)
    → is_valid_release_identifier identifier (some f) ≡ ok true
    → f.prefix ++ without f.prefix identifier ≡ identifier
unfolding is_valid_release_identifier
without-prefix f identifier h = elim (Option-cases (strip f.prefix identifier)) [
  | inl missing ↦ ground arith
  | inr (s, found) ↦
      let rest : without f.prefix identifier ≡ s = ground arith in
      ap (λ t. f.prefix ++ t) rest ∙ sym (strip-some f.prefix identifier s found)
]

-- A branch is as valid as the first part of its name.
pub valid_branch :
    (branch_name prefix suffix : Text) (format : Option ReleaseBranchFormat)
    → strip prefix branch_name ≡ some suffix
    → is_release_branch_or_child branch_name prefix format
      ≡ is_valid_release_identifier (split suffix).0 format
unfolding is_release_branch_or_child
valid_branch branch_name prefix suffix format found = rw (found, is_release_branch_or_child) refl

pub identifier_part-some :
    (branch_name prefix suffix : Text)
    → strip prefix branch_name ≡ some suffix
    → identifier_part branch_name prefix ≡ some (split suffix).0
unfolding identifier_part
identifier_part-some branch_name prefix suffix found = rw (found, identifier_part) refl

pub format_identifier :
    (branch_name prefix part : Text) (f : ReleaseBranchFormat)
    → identifier_part branch_name prefix ≡ some part
    → is_valid_release_identifier part (some f) ≡ ok true
    → Identifier.get_release_identifier branch_name prefix (some f)
      ≡ ok (some (without f.prefix part))
unfolding Identifier.get_release_identifier
format_identifier branch_name prefix part f found valid =
    rw (found, valid, Identifier.get_release_identifier) refl

pub no_format :
    (branch_name prefix suffix : Text)
    → strip prefix branch_name ≡ some suffix
    → isdigit (split suffix).0 ≡ true
    → get_release_identifier branch_name prefix none ≡ ok (some (split suffix).0)
unfolding get_release_identifier is_release_branch_or_child is_valid_release_identifier
    get_feature_branch_name
no_format branch_name prefix suffix found digits =
    rw (found, get_release_identifier, is_release_branch_or_child, get_feature_branch_name)
      (rw (digits, is_valid_release_identifier) refl)

-- The identifier of a valid branch, put after the prefixes again, is its first part.
root-part :
    (branch_name prefix suffix : Text) (format : Option ReleaseBranchFormat)
    → strip prefix branch_name ≡ some suffix
    → is_valid_release_identifier (split suffix).0 format ≡ ok true
    → (identifier : Option Text) × (get_release_identifier branch_name prefix format
        ≡ ok identifier)
      × (root_branch prefix format identifier ≡ (prefix ++ (split suffix).0) ∷ [])
unfolding get_release_identifier root_branch construct_release_branch_name get_feature_branch_name
    is_valid_release_identifier
root-part branch_name prefix suffix none found valid =
    let digits : isdigit (split suffix).0 ≡ true = ok-injective valid in
    (some (split suffix).0, no_format branch_name prefix suffix found digits, refl)
root-part branch_name prefix suffix (some f) found valid = (
  some (without f.prefix (split suffix).0),
  format_identifier branch_name prefix (split suffix).0 f
      (identifier_part-some branch_name prefix suffix found) valid,
  ap (λ t. (prefix ++ t) ∷ []) (without-prefix f (split suffix).0 valid),
)

candidates-shorter :
    (branch_name prefix : Text) (format : Option ReleaseBranchFormat) (cut : Text × List Text)
    → ((identifier : Option Text) × (get_release_identifier branch_name prefix format
          ≡ ok identifier)
        × (root_branch prefix format identifier ≡ (prefix ++ cut.0) ∷ []))
    → candidates branch_name prefix format cut
      ≡ ok (map (λ parts. prefix ++ join cut.0 parts) (shorter cut.1))
unfolding candidates
candidates-shorter branch_name prefix format (part, []) root = refl
candidates-shorter branch_name prefix format (part, next ∷ parts) (identifier, got, root) = rw got (
    ap ok (
      ap (λ l. intermediate prefix part (next ∷ parts) 1 (length parts) ++ l) root
      ∙ all_parents prefix part next parts))

-- The parents of a valid branch are, from the nearest on, the names with fewer parts: those of the
-- proper prefixes of the parts after the first, down to the first part alone. The prefix of a
-- format, which the identifier is without, is put back.
pub get_parent_branch_candidates-shorter :
    (branch_name prefix suffix : Text) (format : Option ReleaseBranchFormat)
    → strip prefix branch_name ≡ some suffix
    → is_release_branch_or_child branch_name prefix format ≡ ok true
    → get_parent_branch_candidates branch_name prefix format
      ≡ ok (map (λ parts. prefix ++ join (split suffix).0 parts) (shorter (split suffix).1))
unfolding get_parent_branch_candidates
get_parent_branch_candidates-shorter branch_name prefix suffix format found valid =
    let first : is_valid_release_identifier (split suffix).0 format ≡ ok true =
      sym (valid_branch branch_name prefix suffix format found) ∙ valid in
    rw (valid, found)
      (candidates-shorter branch_name prefix format (split suffix)
        (root-part branch_name prefix suffix format found first))
