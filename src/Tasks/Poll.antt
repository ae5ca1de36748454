-- ===== src/Tasks/Poll.antt =====
-- `_poll`, `_reset_poll` and `_poll_update_interval` of cumulusci/core/tasks.py. Whether a poll completes is a
-- function of its number; the fuel bounds how many polls are made.
use cumulus_ci.Prelude.{
  ℕ, zero, suc, ◌+◌, ◌/◌, ◌<◌, ◌≤◌, ◌≡◌, refl, sym, ap, ◌∙◌, Option, none, some, List, [], ◌∷◌,
  Bool, true, false, ltb, Bool-cases, inl, inr, if◌then◌else◌, arith,
}

pub record Polling : Type 0 where
  pub poll_count : ℕ
  pub poll_interval_level : ℕ
  pub poll_interval_s : ℕ

unfoldable pub reset_poll : Polling
reset_poll = record { poll_count = 0; poll_interval_level = 0; poll_interval_s = 1 }

-- Each third poll makes the pauses one second longer.
unfoldable pub poll_update_interval : Polling → Polling
poll_update_interval p =
    if ltb p.poll_interval_level (p.poll_count / 3)
    then record p {
      poll_interval_level = p.poll_interval_level + 1;
      poll_interval_s = p.poll_interval_s + 1;
    }
    else p

abbrev pub polled : Polling → Polling
polled p = record p { poll_count = p.poll_count + 1 }

-- The pauses until a poll completes.
unfoldable pub poll : (ℕ → Bool) → ℕ → Polling → Option (List ℕ)
unfolding poll_update_interval
poll is_complete zero p = none
poll is_complete (suc fuel) p =
    let rest = poll is_complete fuel (poll_update_interval (polled p)) in
    if is_complete (p.poll_count + 1)
    then some []
    else elim rest [ none ↦ none | some pauses ↦ some (p.poll_interval_s ∷ pauses) ]

-- The pauses behind so many polls: one second more after each third.
abbrev pub waits : ℕ → ℕ → List ℕ
waits made zero = []
waits made (suc k) = (made / 3 + 1) ∷ waits (made + 1) k

abbrev after_polls : ℕ → Polling
after_polls made = record {
  poll_count = made;
  poll_interval_level = made / 3;
  poll_interval_s = made / 3 + 1;
}

poll_update_interval-after_polls :
    (made : ℕ) → poll_update_interval (polled (after_polls made)) ≡ after_polls (made + 1)
unfolding poll_update_interval
poll_update_interval-after_polls made = elim (Bool-cases (ltb (made / 3) ((made + 1) / 3))) [
  | inl third ↦
      let level : made / 3 + 1 ≡ (made + 1) / 3 = ground arith in
      rw third (
        ap (λ l. record { poll_count = made + 1; poll_interval_level = l; poll_interval_s = l + 1 })
          level)
  | inr other ↦
      let level : made / 3 ≡ (made + 1) / 3 = ground arith in
      rw other (
        ap (λ l. record { poll_count = made + 1; poll_interval_level = l; poll_interval_s = l + 1 })
          level)
]

-- A poll that completes at some number, and none before it, pauses before each of the others: for one
-- second, and for one more after each third.
pub poll-waits :
    (is_complete : ℕ → Bool) (k fuel made : ℕ)
    → k ≤ fuel
    → is_complete (made + suc k) ≡ true
    → ((i : ℕ) → i < k → is_complete (made + suc i) ≡ false)
    → poll is_complete (suc fuel) (after_polls made) ≡ some (waits made k)
unfolding poll
poll-waits is_complete zero fuel made enough complete before = rw complete refl
poll-waits is_complete (suc k) zero made enough complete before = too_few enough
  where
    too_few : suc k ≤ 0 → poll is_complete 1 (after_polls made) ≡ some (waits made (suc k))
    too_few enough = ground arith
poll-waits is_complete (suc k) (suc fuel) made enough complete before =
    let shift : made + suc (suc k) ≡ (made + 1) + suc k = omega arith in
    let next : is_complete (made + 1) ≡ false = before 0 (omega arith) in
    let rest : poll is_complete (suc fuel) (after_polls (made + 1)) ≡ some (waits (made + 1) k) =
      poll-waits is_complete k fuel (made + 1) (omega (arith, enough))
        (ap is_complete (sym shift) ∙ complete) λ i less. later i less in
    rw next (
      ap (λ o. elim o [ none ↦ none | some pauses ↦ some ((made / 3 + 1) ∷ pauses) ])
        (ap (poll is_complete (suc fuel)) (poll_update_interval-after_polls made) ∙ rest))
  where
    later : (i : ℕ) → i < k → is_complete ((made + 1) + suc i) ≡ false
    later i less =
        let shift : made + suc (suc i) ≡ (made + 1) + suc i = omega arith in
        ap is_complete (sym shift) ∙ before (suc i) (omega (arith, less))
