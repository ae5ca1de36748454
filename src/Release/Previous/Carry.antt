-- ===== src/Release/Previous/Carry.antt =====
-- The groups of a date as the digits of one number, and what the carry does to it.
use cumulus_ci.Prelude.{
  ℕ, zero, suc, ◌+◌, ◌-◌, ◌*◌, ◌<◌, ◌≡◌, refl, sym, ap, ◌∙◌, Option, none, some, List, [], ◌∷◌,
  true, false, leb, Bool-cases, Option-cases, inl, inr, arith, subst,
}
use native.Mathlib.Nat.{mul-zero, mul-suc}
use cumulus_ci.Release.Pattern.{Token, same_token, Groups}
use cumulus_ci.Release.Previous.{
  GroupValues, value_in, set_value, borrow, bounds, group_order_reverse, int_groups,
  previous_groups,
}
use cumulus_ci.Release.Previous.Values.{
  Fresh, Separate, same_token_sym, value_in-set_value_other, value_in-set_value,
  print_values-int_groups,
}

-- The arithmetic of a digit that is carried into.
carries : (base rest digit : ℕ) → 0 < digit + base * rest → digit ≡ 0 → 0 < rest
carries base zero digit positive low = ground (arith, mul-zero base)
carries base (suc rest) digit positive low = omega arith

wraps :
    (top down up digit : ℕ)
    → suc down ≡ up
    → digit ≡ 0
    → suc (top + suc top * down) ≡ digit + suc top * up
wraps top down up digit step low = rw (sym step, low) (omega (arith, mul-suc (suc top) down))

module _ (limits : Token → ℕ × ℕ) where
  abbrev size : Token → ℕ
  size t = suc ((limits t).1 - (limits t).0)

  -- One digit on top of the number of the coarser groups; a group that is missing is no digit.
  abbrev digit_on : Token → Option ℕ → ℕ → ℕ
  digit_on t none rest = rest
  digit_on t (some v) rest = (v - (limits t).0) + size t * rest

  -- The number that the groups spell, each with its own base, the finest group first.
  unfoldable pub number : List Token → GroupValues → ℕ
  unfolding value_in
  number [] vs = 0
  number (t ∷ ts) vs = digit_on t (value_in t vs) (number ts vs)

  number-set_value :
      (ts : List Token) (t : Token) (w : ℕ) (vs : GroupValues)
      → Fresh t ts
      → number ts (set_value t w vs) ≡ number ts vs
  unfolding number
  number-set_value [] t w vs fresh = refl
  number-set_value (s ∷ ts) t w vs (ne, fresh) =
      ap (λ o. digit_on s o (number ts (set_value t w vs))) (value_in-set_value_other s t w vs ne)
      ∙ ap (λ k. digit_on s (value_in s vs) k) (number-set_value ts t w vs fresh)

  pub value_in-borrow :
      (ts : List Token) (t : Token) (vs : GroupValues)
      → Fresh t ts
      → value_in t (borrow limits ts vs) ≡ value_in t vs
  unfolding borrow
  value_in-borrow [] t vs fresh = refl
  value_in-borrow (s ∷ ts) t vs (ne, fresh) =
      let other : same_token t s ≡ false = same_token_sym s t ne in
      elim (Option-cases (value_in s vs)) [
        | inl missing ↦ rw (missing, borrow) (value_in-borrow ts t vs fresh)
        | inr (v, found) ↦
            let kept : value_in t (set_value s (v - 1) vs) ≡ value_in t vs =
              value_in-set_value_other t s (v - 1) vs other in
            let wrapped : value_in t (borrow limits ts (set_value s (limits s).1 vs))
                ≡ value_in t vs =
              value_in-borrow ts t (set_value s (limits s).1 vs) fresh
              ∙ value_in-set_value_other t s (limits s).1 vs other in
            rw (found, borrow) (ground arith)
      ]

  module _ (t : Token) (ts : List Token) (vs : GroupValues) where
    borrow_missing : value_in t vs ≡ none → borrow limits (t ∷ ts) vs ≡ borrow limits ts vs
    unfolding borrow
    borrow_missing missing = rw (missing, borrow) refl

    borrow_wraps :
        (v : ℕ)
        → value_in t vs ≡ some v
        → leb v (limits t).0 ≡ true
        → borrow limits (t ∷ ts) vs ≡ borrow limits ts (set_value t (limits t).1 vs)
    unfolding borrow
    borrow_wraps v found lowest = rw (found, borrow) (ground arith)

    borrow_stops :
        (v : ℕ)
        → value_in t vs ≡ some v
        → leb v (limits t).0 ≡ false
        → borrow limits (t ∷ ts) vs ≡ set_value t (v - 1) vs
    unfolding borrow
    borrow_stops v found above = rw (found, borrow) (ground arith)

  number-some :
      (t : Token) (ts : List Token) (vs : GroupValues) (v : ℕ)
      → value_in t vs ≡ some v
      → number (t ∷ ts) vs ≡ (v - (limits t).0) + size t * number ts vs
  unfolding number
  number-some t ts vs v found = ap (λ o. digit_on t o (number ts vs)) found

  -- With a carry from below, the number goes down by one.
  pub number-borrow :
      (ts : List Token) (vs : GroupValues)
      → Separate ts
      → 0 < number ts vs
      → suc (number ts (borrow limits ts vs)) ≡ number ts vs
  unfolding number borrow
  number-borrow [] vs separate positive = ground arith
  number-borrow (t ∷ ts) vs (fresh, separate) positive = elim (Option-cases (value_in t vs)) [
    | inl missing ↦
        let still : value_in t (borrow limits ts vs) ≡ none =
          value_in-borrow ts t vs fresh ∙ missing in
        let down : suc (number ts (borrow limits ts vs)) ≡ number ts vs =
          number-borrow ts vs separate (ground arith) in
        rw (borrow_missing t ts vs missing) (ground arith)
    | inr (v, found) ↦ elim (Bool-cases (leb v (limits t).0)) [
      | inl lowest ↦
          let reset : GroupValues = set_value t (limits t).1 vs in
          let same : number ts reset ≡ number ts vs = number-set_value ts t (limits t).1 vs fresh in
          let now : value_in t (borrow limits ts reset) ≡ some (limits t).1 =
            value_in-borrow ts t reset fresh ∙ value_in-set_value t v (limits t).1 vs found in
          let carried : 0 < number ts vs =
            carries (size t) (number ts vs) (v - (limits t).0)
              (subst (λ k. 0 < k) (number-some t ts vs v found) positive) (ground arith) in
          let down : suc (number ts (borrow limits ts reset)) ≡ number ts reset =
            number-borrow ts reset separate (subst (λ k. 0 < k) (sym same) carried) in
          ap (λ l. suc (number (t ∷ ts) l)) (borrow_wraps t ts vs v found lowest)
          ∙ (ap suc (number-some t ts (borrow limits ts reset) (limits t).1 now)
              ∙ (wraps ((limits t).1 - (limits t).0) (number ts (borrow limits ts reset))
                    (number ts vs) (v - (limits t).0) (down ∙ same) (ground arith)
                  ∙ sym (number-some t ts vs v found)))
      | inr above ↦
          let now : value_in t (set_value t (v - 1) vs) ≡ some (v - 1) =
            value_in-set_value t v (v - 1) vs found in
          let same : number ts (set_value t (v - 1) vs) ≡ number ts vs =
            number-set_value ts t (v - 1) vs fresh in
          let least : suc (v - 1 - (limits t).0) ≡ v - (limits t).0 = ground arith in
          ap (λ l. suc (number (t ∷ ts) l)) (borrow_stops t ts vs v found above)
          ∙ (ap suc (number-some t ts (set_value t (v - 1) vs) (v - 1) now)
              ∙ (omega (arith, least)
                  ∙ (ap (λ k. (v - (limits t).0) + size t * k) same
                      ∙ sym (number-some t ts vs v found))))
    ]
  ]

-- The number that the groups of an identifier spell, in the bases of the bounds.
unfoldable pub groups_number : ℕ → Groups → ℕ
unfolding number bounds
groups_number sprints gs = number (bounds sprints) group_order_reverse (int_groups gs)

group_order_reverse-Separate : Separate group_order_reverse
group_order_reverse-Separate = (
  (refl, (refl, (refl, (refl, (refl, tt))))),
  (
    (refl, (refl, (refl, (refl, tt)))),
    ((refl, (refl, (refl, tt))), ((refl, (refl, tt)), ((refl, tt), (tt, tt)))),
  ),
)

-- The decrement with carry is a subtraction: read as one number, whose digits are the groups from
-- the coarsest to the finest and whose bases are the sizes of their bounds, the groups that are
-- printed are the groups that were given less one, unless all of them are at their lower bound.
pub previous_groups-number :
    (sprints : ℕ) (gs : Groups)
    → 0 < groups_number sprints gs
    → suc (groups_number sprints (previous_groups gs sprints)) ≡ groups_number sprints gs
unfolding groups_number previous_groups
previous_groups-number sprints gs positive =
    ap (λ vs. suc (number (bounds sprints) group_order_reverse vs))
      (print_values-int_groups (borrow (bounds sprints) group_order_reverse (int_groups gs)))
    ∙ number-borrow (bounds sprints) group_order_reverse (int_groups gs)
        group_order_reverse-Separate positive
