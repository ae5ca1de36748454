-- ===== src/Release/Previous/InRange.antt =====
-- The groups of a date stay within their bounds.
use cumulus_ci.Prelude.{
  ℕ, ◌-◌, ◌≤◌, ◌≡◌, refl, sym, ap, ◌∙◌, subst, Option, none, some, List, [], ◌∷◌, Bool, true, false,
  leb, nat_eq, ◌&&◌, &&_left, &&_right, if◌then◌else◌, Bool-cases, Option-cases, inl, inr, arith,
}
use cumulus_ci.Release.Pattern.{Token, yyyy, yy, mm, dd, q, n, index, same_token, Groups}
use cumulus_ci.Release.Identifier.{in_range, is_valid_date}
use cumulus_ci.Release.Previous.{
  GroupValues, value_in, set_value, borrow, bounds, group_order_reverse, int_groups, print_values,
  previous_groups,
}
use cumulus_ci.Release.Previous.Values.{
  same_token_sym, value_in-set_value_other, value_in-set_value, print_values-int_groups,
}

abbrev token : ℕ → Token
token k =
    if nat_eq k 0
    then yyyy
    else if nat_eq k 1
    then yy
    else if nat_eq k 2
    then mm
    else if nat_eq k 3
    then dd
    else if nat_eq k 4
    then q
    else n

token-index : (t : Token) → token (index t) ≡ t
token-index yyyy = refl
token-index yy = refl
token-index mm = refl
token-index dd = refl
token-index q = refl
token-index n = refl

same_token-eq : (s t : Token) → same_token s t ≡ true → s ≡ t
same_token-eq s t h =
    let e : index s ≡ index t = ground arith in sym (token-index s) ∙ (ap token e ∙ token-index t)

abbrev inside : ℕ × ℕ → Option ℕ → Bool
inside limit none = true
inside limit (some v) = leb limit.0 v && leb v limit.1

-- `in_range` looks at the value of the token.
in_range-inside :
    (t : Token) (low high : ℕ) (gs : Groups)
    → in_range t low high gs ≡ inside (low, high) (value_in t (int_groups gs))
unfolding in_range value_in
in_range-inside t low high [] = refl
in_range-inside t low high ((s, g) ∷ gs) = elim (Bool-cases (same_token s t)) [
  | inl here ↦ rw (here, value_in, in_range) refl
  | inr other ↦ rw (other, value_in, in_range) (in_range-inside t low high gs)
]

module _ (limits : Token → ℕ × ℕ) (t : Token) (ordered : (limits t).0 ≤ (limits t).1) where
  set_value-inside :
      (s : Token) (v w : ℕ) (vs : GroupValues)
      → value_in s vs ≡ some v
      → (s ≡ t → inside (limits t) (some w) ≡ true)
      → inside (limits t) (value_in t vs) ≡ true
      → inside (limits t) (value_in t (set_value s w vs)) ≡ true
  set_value-inside s v w vs found fits h = elim (Bool-cases (same_token s t)) [
    | inl same ↦
        let e : s ≡ t = same_token-eq s t same in
        ap (inside (limits t)) (
          subst (λ r. value_in r (set_value s w vs) ≡ some w) e (value_in-set_value s v w vs found))
        ∙ fits e
    | inr other ↦
        ap (inside (limits t)) (value_in-set_value_other t s w vs (same_token_sym s t other)) ∙ h
  ]

  top_inside : (s : Token) → s ≡ t → inside (limits t) (some (limits s).1) ≡ true
  top_inside s e = subst (λ r. inside (limits t) (some (limits r).1) ≡ true) (sym e) (ground arith)

  less_inside :
      (s : Token) (v : ℕ) (vs : GroupValues)
      → value_in s vs ≡ some v
      → leb v (limits s).0 ≡ false
      → inside (limits t) (value_in t vs) ≡ true
      → s ≡ t
      → inside (limits t) (some (v - 1)) ≡ true
  less_inside s v vs found above h e =
      let here : value_in t vs ≡ some v = subst (λ r. value_in r vs ≡ some v) e found in
      let over : leb v (limits t).0 ≡ false = subst (λ r. leb v (limits r).0 ≡ false) e above in
      let within : inside (limits t) (some v) ≡ true = ap (inside (limits t)) (sym here) ∙ h in
      ground arith

  pub borrow-inside :
      (ts : List Token) (vs : GroupValues)
      → inside (limits t) (value_in t vs) ≡ true
      → inside (limits t) (value_in t (borrow limits ts vs)) ≡ true
  unfolding borrow
  borrow-inside [] vs h = h
  borrow-inside (s ∷ ts) vs h = elim (Option-cases (value_in s vs)) [
    | inl missing ↦ rw (missing, borrow) (borrow-inside ts vs h)
    | inr (v, found) ↦
        let wrapped =
          borrow-inside ts (set_value s (limits s).1 vs)
            (set_value-inside s v (limits s).1 vs found (top_inside s) h) in
        elim (Bool-cases (leb v (limits s).0)) [
          | inl lowest ↦ rw (found, borrow) (rw lowest wrapped)
          | inr above ↦
              rw (found, borrow)
                (rw above
                  (set_value-inside s v (v - 1) vs found (less_inside s v vs found above h) h))
        ]
  ]

-- The same for the groups as texts.
previous_groups-in_range :
    (t : Token) (sprints low high : ℕ) (gs : Groups)
    → bounds sprints t ≡ (low, high)
    → low ≤ high
    → in_range t low high gs ≡ true
    → in_range t low high (previous_groups gs sprints) ≡ true
unfolding previous_groups
previous_groups-in_range t sprints low high gs limit ordered h =
    let after : GroupValues = borrow (bounds sprints) group_order_reverse (int_groups gs) in
    let before : inside (bounds sprints t) (value_in t (int_groups gs)) ≡ true =
      ap (λ l. inside l (value_in t (int_groups gs))) limit
      ∙ (sym (in_range-inside t low high gs) ∙ h) in
    let kept : inside (bounds sprints t) (value_in t after) ≡ true =
      borrow-inside (bounds sprints) t (subst (λ l. l.0 ≤ l.1) (sym limit) ordered)
        group_order_reverse (int_groups gs) before in
    in_range-inside t low high (print_values after)
    ∙ (ap (λ vs. inside (low, high) (value_in t vs)) (print_values-int_groups after)
        ∙ (ap (λ l. inside l (value_in t after)) (sym limit) ∙ kept))

-- The groups that come before those of a valid date are again those of a valid date: the month,
-- the day and the quarter, where the pattern has them, are within their bounds.
pub previous_groups-is_valid_date :
    (gs : Groups) (sprints : ℕ)
    → is_valid_date gs ≡ true
    → is_valid_date (previous_groups gs sprints) ≡ true
unfolding is_valid_date bounds
previous_groups-is_valid_date gs sprints valid =
    let month : in_range mm 1 12 gs ≡ true =
      &&_left (in_range mm 1 12 gs) (in_range dd 1 31 gs && in_range q 1 4 gs) valid in
    let others : (in_range dd 1 31 gs && in_range q 1 4 gs) ≡ true =
      &&_right (in_range mm 1 12 gs) (in_range dd 1 31 gs && in_range q 1 4 gs) valid in
    let day : in_range dd 1 31 gs ≡ true =
      &&_left (in_range dd 1 31 gs) (in_range q 1 4 gs) others in
    let quarter : in_range q 1 4 gs ≡ true =
      &&_right (in_range dd 1 31 gs) (in_range q 1 4 gs) others in
    rw
      (
        previous_groups-in_range mm sprints 1 12 gs refl (omega arith) month,
        previous_groups-in_range dd sprints 1 31 gs refl (omega arith) day,
        previous_groups-in_range q sprints 1 4 gs refl (omega arith) quarter,
      )
      refl
