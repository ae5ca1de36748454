-- ===== src/Tables/Sort/Names.antt =====
-- The names that a round of the sort leaves, and the lookups above a priority.
use cumulus_ci.Prelude.{
  String, ℕ, ◌≤◌, ◌<◌, ◌≡◌, refl, ap, ◌∙◌, some, List, [], ◌∷◌, ◌++◌, true, false, not, ◌==◌,
  contains, contains-append, keep, length, length-keep-le, any, inl, inr, ◌⊎◌, arith, Bool-cases,
  Option-cases, ltb, eq_iff,
}
use cumulus_ci.Tables.Sort.{Lookup, lowest_above, unsorted}

pub contains-unsorted :
    (s names : List String) (t : String)
    → contains names t ≡ true
    → (contains s t ≡ true) ⊎ (contains (unsorted s names) t ≡ true)
unfolding contains unsorted
contains-unsorted s [] t h = ground arith
contains-unsorted s (u ∷ names) t h = elim (Bool-cases (contains s t)) [
  | inl known ↦ inl known
  | inr unknown ↦ elim (Bool-cases (u == t)) [
    | inl same ↦
        let u_is_t : u ≡ t = (eq_iff u t).0 same in
        let fresh : contains s u ≡ false = ap (contains s) u_is_t ∙ unknown in
        inr (rw (fresh, same) refl)
    | inr different ↦ elim (contains-unsorted s names t (ground arith)) [
      | inl known ↦ inl known
      | inr kept ↦ inr (elim (Bool-cases (contains s u)) [
        | inl gone ↦ rw gone kept
        | inr stays ↦ rw (stays, different) kept
      ])
    ]
  ]
]

pub shrinks :
    (s names : List String)
    → any (contains s) names ≡ true
    → length (unsorted s names) < length names
unfolding unsorted
shrinks s [] h = ground arith
shrinks s (u ∷ names) h = elim (Bool-cases (contains s u)) [
  | inl gone ↦ rw gone (omega (arith, length-keep-le (λ u. not (contains s u)) names))
  | inr stays ↦ let less = shrinks s names (ground arith) in rw stays (omega arith)
]

pub unsorted-all :
    (s names : List String) → any (contains s) names ≡ false → unsorted s names ≡ names
unfolding unsorted
unsorted-all s [] h = refl
unsorted-all s (u ∷ names) h =
    let stays : contains s u ≡ false = ground arith in
    rw stays (ap (λ l. u ∷ l) (unsorted-all s names (ground arith)))

pub any-of_contains :
    (s names : List String) (t : String)
    → contains names t ≡ true
    → contains s t ≡ true
    → any (contains s) names ≡ true
unfolding contains
any-of_contains s [] t h known = ground arith
any-of_contains s (u ∷ names) t h known = elim (Bool-cases (u == t)) [
  | inl same ↦
      let found : contains s u ≡ true = ap (contains s) ((eq_iff u t).0 same) ∙ known in
      rw found refl
  | inr different ↦ let rest = any-of_contains s names t (ground arith) known in ground arith
]

pub any-append :
    (s more names : List String)
    → any (contains s) names ≡ true
    → any (contains (s ++ more)) names ≡ true
any-append s more [] h = h
any-append s more (u ∷ names) h = ground (arith, contains-append s more u, any-append s more names)

-- The number of lookups with a higher priority.
abbrev pub above : ℕ → List Lookup → ℕ
above p ls = length (keep (λ l. ltb p l.priority) ls)

above_mono : (p q : ℕ) (ls : List Lookup) → p ≤ q → above q ls ≤ above p ls
above_mono p q [] h = omega arith
above_mono p q (l ∷ ls) h = ground (arith, above_mono p q ls h)

pub lowest_above-less :
    (p q : ℕ) (ls : List Lookup) → lowest_above p ls ≡ some q → (p < q) × (above q ls < above p ls)
unfolding lowest_above
lowest_above-less p q [] h = cc
lowest_above-less p q (l ∷ ls) h = elim (Option-cases (lowest_above p ls)) [
  | inl nothing ↦ ground (arith, above_mono p q ls)
  | inr (r, found) ↦
      let (later, fewer) = lowest_above-less p r ls found in ground (arith, above_mono p q ls)
]
