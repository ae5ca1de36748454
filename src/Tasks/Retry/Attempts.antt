-- ===== src/Tasks/Retry/Attempts.antt =====
-- Which attempt a retried task ends with.
use cumulus_ci.Prelude.{
  ℕ, zero, suc, ◌+◌, ◌≤◌, ◌<◌, ◌≡◌, refl, sym, ap, ◌∙◌, List, [], ◌∷◌, ◌++◌, Bool, true, false,
  nat_eq, Bool-cases, inl, inr, if◌then◌else◌, ◌⊎◌, Result, ok, err, arith, subst,
}
use cumulus_ci.Tasks.Retry.{
  RetryOptions, Retried, slept, next_interval, slept_before, ended, unless_valid, after_attempt,
  retry_from, retry,
}

-- So many pauses, each longer than the one before by the same amount; no pauses of no length.
abbrev pub pauses : ℕ → ℕ → ℕ → List ℕ
pauses zero interval add = []
pauses (suc k) interval add =
    if nat_eq interval 0 then [] else interval ∷ pauses k (interval + add) add

module _ {E A : Type 0} (attempts : ℕ → Result E A) (is_retry_valid : E → Bool) where
  -- An attempt that is followed by another one.
  abbrev pub IsRetried : ℕ → Type 0
  IsRetried i = (e : E) × (attempts i ≡ err e) × (is_retry_valid e ≡ true)

  -- One that ends the loop although retries are left.
  abbrev pub IsFinal : ℕ → Type 0
  IsFinal i =
      ((a : A) × (attempts i ≡ ok a))
      ⊎ ((e : E) × (attempts i ≡ err e) × (is_retry_valid e ≡ false))

  -- From one attempt on, the loop ends after so many more.
  abbrev EndsAfter : ℕ → ℕ → ℕ → ℕ → Retried E A → ℕ → Type 0
  EndsAfter attempt retries interval add r k =
      (k ≤ retries)
      × (r.outcome ≡ attempts (attempt + k))
      × (r.last ≡ attempt + k)
      × (r.sleeps ≡ pauses k interval add)
      × ((i : ℕ) → i < k → IsRetried (attempt + i))
      × (k < retries → IsFinal (attempt + k))

  pauses-zero : (k add : ℕ) → pauses k 0 add ≡ []
  pauses-zero zero add = refl
  pauses-zero (suc k) add = refl

  pauses-next :
      (k interval add : ℕ)
      → slept interval ++ pauses k (next_interval interval add) add ≡ pauses (suc k) interval add
  pauses-next k interval add = elim (Bool-cases (nat_eq interval 0)) [
    | inl never ↦
        let e : interval ≡ 0 = ground arith in
        rw never (ap (λ l. pauses k l add) e ∙ pauses-zero k add)
    | inr some_time ↦ rw some_time refl
  ]

  ends_now :
      (attempt retries interval add : ℕ)
      → (zero < retries → IsFinal attempt)
      → EndsAfter attempt retries interval add (ended (attempts attempt) attempt) 0
  ends_now attempt retries interval add final =
      let here : attempt ≡ attempt + 0 = omega arith in
      (
        omega arith,
        ap attempts here,
        here,
        refl,
        (λ i few. no_less i few),
        λ more. subst IsFinal here (final more),
      )
    where
      no_less : (i : ℕ) → i < 0 → IsRetried (attempt + i)
      no_less i few = ground arith

  ends_later :
      (attempt retries interval add : ℕ) (r : Retried E A) (k : ℕ)
      → IsRetried attempt
      → EndsAfter (suc attempt) retries (next_interval interval add) add r k
      → EndsAfter attempt (suc retries) interval add (slept_before (slept interval) r) (suc k)
  ends_later attempt retries interval add r k retried (few, out, last, paused, before, final) =
      let shift : suc attempt + k ≡ attempt + suc k = omega arith in
      (
        omega (arith, few),
        out ∙ ap attempts shift,
        last ∙ shift,
        ap (λ l. slept interval ++ l) paused ∙ pauses-next k interval add,
        (λ i less. earlier i less),
        λ more. subst IsFinal shift (final (omega (arith, more))),
      )
    where
      earlier : (i : ℕ) → i < suc k → IsRetried (attempt + i)
      earlier zero less =
          let here : attempt ≡ attempt + 0 = omega arith in subst IsRetried here retried
      earlier (suc i) less =
          let shift : suc attempt + i ≡ attempt + suc i = omega arith in
          subst IsRetried shift (before i (omega (arith, less)))

  -- The first of the attempts, and what is known of the others.
  ends_first :
      (attempt retries interval add : ℕ) (again : Retried E A)
      → ((k : ℕ) × EndsAfter (suc attempt) retries (next_interval interval add) add again k)
      → (outcome : Result E A) → attempts attempt ≡ outcome
      → (k : ℕ) × EndsAfter attempt
          (suc retries)
          interval
          add
          (after_attempt is_retry_valid attempt (slept_before (slept interval) again) outcome)
          k
  ends_first attempt retries interval add again later (ok a) e = (
    0,
    subst (λ o. EndsAfter attempt (suc retries) interval add (ended o attempt) 0) e
        (ends_now attempt (suc retries) interval add λ more. inl (a, e)),
  )
  ends_first attempt retries interval add again later (err x) e =
      elim (Bool-cases (is_retry_valid x)) [
        | inl valid ↦
            let (k, rest) = later in
            (
              suc k,
              subst
                  (λ b.
                    EndsAfter attempt (suc retries) interval add
                      (unless_valid b (slept_before (slept interval) again) (ended (err x) attempt))
                      (suc k))
                  (sym valid) (ends_later attempt retries interval add again k (x, e, valid) rest),
            )
        | inr refused ↦ (
          0,
          subst
              (λ b.
                EndsAfter attempt (suc retries) interval add
                  (unless_valid b (slept_before (slept interval) again) (ended (err x) attempt)) 0)
              (sym refused)
              (subst (λ o. EndsAfter attempt (suc retries) interval add (ended o attempt) 0) e
                (ends_now attempt (suc retries) interval add λ more. inr (x, e, refused))),
        )
      ]

  retry_from-ends :
      (attempt retries interval add : ℕ)
      → (k : ℕ) × EndsAfter attempt retries interval add
          (retry_from attempts is_retry_valid attempt retries interval add)
          k
  unfolding retry_from
  retry_from-ends attempt zero interval add =
      (0, ends_now attempt 0 interval add λ more. absurd_of more)
    where
      absurd_of : 0 < 0 → IsFinal attempt
      absurd_of more = ground arith
  retry_from-ends attempt (suc retries) interval add =
      ends_first attempt retries interval add
        (retry_from attempts is_retry_valid (suc attempt) retries (next_interval interval add) add)
        (retry_from-ends (suc attempt) retries (next_interval interval add) add) (attempts attempt)
        refl

-- A task is retried until an attempt succeeds, raises an error that is no reason to retry, or is the last
-- that the retries allow: the loop ends with that attempt and what it returns or raises, each attempt
-- before it raised an error that is a reason to retry, and the pauses before the retries begin with
-- the interval and grow by the same amount, none being made for an interval of zero.
pub retry-ends :
    {E A : Type 0} (attempts : ℕ → Result E A) (is_retry_valid : E → Bool) (options : RetryOptions)
    → (k : ℕ) × (k ≤ options.retries)
      × ((retry attempts is_retry_valid options).outcome ≡ attempts k)
      × ((retry attempts is_retry_valid options).last ≡ k)
      × ((retry attempts is_retry_valid options).sleeps
          ≡ pauses k options.retry_interval options.retry_interval_add)
      × ((i : ℕ) → i < k → IsRetried attempts is_retry_valid i)
      × (k < options.retries → IsFinal attempts is_retry_valid k)
unfolding retry
retry-ends attempts is_retry_valid options =
    let (k, (few, out, last, paused, before, final)) =
      retry_from-ends attempts is_retry_valid 0 options.retries options.retry_interval
        options.retry_interval_add in
    let shift : 0 + k ≡ k = omega arith in
    (
      k,
      few,
      out ∙ ap attempts shift,
      last ∙ shift,
      paused,
      (λ i less.
          let start : 0 + i ≡ i = omega arith in
          subst (IsRetried attempts is_retry_valid) start (before i less)),
      λ more. subst (IsFinal attempts is_retry_valid) shift (final more),
    )
