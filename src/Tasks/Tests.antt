-- ===== src/Tasks/Tests.antt =====
-- Concrete attempts, polls and objects, for the theorems on tasks.
use cumulus_ci.Prelude.{
  ℕ, ◌≤◌, ◌<◌, ◌≡◌, refl, none, some, [], ◌∷◌, Bool, true, nat_eq, if◌then◌else◌, Result, ok, err,
}
use cumulus_ci.Prelude.Text.{codes, text_eq}
use cumulus_ci.Tasks.Retry.{RetryOptions, retry}
use cumulus_ci.Tasks.Retry.Attempts.{pauses, IsRetried, IsFinal, retry-ends}
use cumulus_ci.Tasks.Poll.{reset_poll, poll}
use cumulus_ci.Tasks.Objects.{validate_and_inject_namespace_prefixes}

-- The third attempt succeeds.
abbrev attempts : ℕ → Result ℕ Bool
attempts i = if nat_eq i 2 then ok true else err i

abbrev options : RetryOptions
options = record { retries = 5; retry_interval = 10; retry_interval_add = 5 }

abbrev always : ℕ → Bool
always e = true

retry_test :
    retry attempts always options ≡ record { outcome = ok true; last = 2; sleeps = 10 ∷ 15 ∷ [] }
unfolding retry
retry_test = refl

retry-ends_example :
    (k : ℕ) × (k ≤ 5)
    × ((retry attempts always options).outcome ≡ attempts k)
    × ((retry attempts always options).last ≡ k)
    × ((retry attempts always options).sleeps ≡ pauses k 10 5)
    × ((i : ℕ) → i < k → IsRetried attempts always i)
    × (k < 5 → IsFinal attempts always k)
retry-ends_example = retry-ends attempts always options

poll_test : poll (λ i. nat_eq i 5) 10 reset_poll ≡ some (1 ∷ 1 ∷ 1 ∷ 2 ∷ [])
unfolding poll reset_poll
poll_test = refl

inject_test :
    validate_and_inject_namespace_prefixes true
      (some (codes "ns"))
      (λ s. if text_eq s (codes "ns__Obj__c") then some true else none)
      (codes "Obj__c" ∷ [])
    ≡ ok (codes "ns__Obj__c" ∷ [])
unfolding validate_and_inject_namespace_prefixes text_eq
inject_test = refl
