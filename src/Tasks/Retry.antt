-- ===== src/Tasks/Retry.antt =====
-- `_retry` of cumulusci/core/tasks.py. The attempts are given by what each of them, by its number, returns
-- or raises. A number of retries that is not negative is the measure of the loop.
use cumulus_ci.Prelude.{
  ℕ, zero, suc, ◌+◌, ◌-◌, List, [], ◌∷◌, ◌++◌, Bool, true, false, nat_eq, if◌then◌else◌, Result, ok,
  err,
}
pub mod Attempts

pub record RetryOptions : Type 0 where
  pub retries : ℕ
  pub retry_interval : ℕ
  pub retry_interval_add : ℕ

-- What the loop ends with, the number of its last attempt, and how long it slept before each other one.
pub record Retried (E A : Type 0) : Type 0 where
  pub outcome : Result E A
  pub last : ℕ
  pub sleeps : List ℕ

-- `if self.options["retry_interval"]: time.sleep(...)`
abbrev pub slept : ℕ → List ℕ
slept interval = if nat_eq interval 0 then [] else interval ∷ []

abbrev pub next_interval : ℕ → ℕ → ℕ
next_interval interval add = if nat_eq interval 0 then interval else interval + add

abbrev pub slept_before : {E A : Type 0} → List ℕ → Retried E A → Retried E A
slept_before seconds r = record r { sleeps = seconds ++ r.sleeps }

abbrev pub ended : {E A : Type 0} → Result E A → ℕ → Retried E A
ended outcome attempt = record { outcome = outcome; last = attempt; sleeps = [] }

-- After a failure with retries left: it is raised, or the loop goes on.
abbrev pub unless_valid : {E A : Type 0} → Bool → Retried E A → Retried E A → Retried E A
unless_valid true again raised = again
unless_valid false again raised = raised

abbrev pub after_attempt : {E A : Type 0} → (E → Bool) → ℕ → Retried E A → Result E A → Retried E A
after_attempt is_retry_valid attempt again (ok a) = ended (ok a) attempt
after_attempt is_retry_valid attempt again (err e) =
    unless_valid (is_retry_valid e) again (ended (err e) attempt)

unfoldable pub retry_from :
    {E A : Type 0} → (ℕ → Result E A) → (E → Bool) → ℕ → ℕ → ℕ → ℕ → Retried E A
retry_from attempts is_retry_valid attempt zero interval add = ended (attempts attempt) attempt
retry_from attempts is_retry_valid attempt (suc retries) interval add =
    let again =
      slept_before (slept interval) (
        retry_from attempts is_retry_valid (suc attempt) retries (next_interval interval add)
          add) in
    after_attempt is_retry_valid attempt again (attempts attempt)

-- `_retry`
unfoldable pub retry : {E A : Type 0} → (ℕ → Result E A) → (E → Bool) → RetryOptions → Retried E A
unfolding retry_from
retry attempts is_retry_valid options =
    retry_from attempts is_retry_valid 0 options.retries options.retry_interval
      options.retry_interval_add
