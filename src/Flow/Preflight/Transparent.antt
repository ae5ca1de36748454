-- ===== src/Flow/Preflight/Transparent.antt =====
-- The cache changes no result.
use cumulus_ci.Prelude.{
  String, ◌≡◌, Option, some, List, [], ◌∷◌, ◌++◌, Bool, true, Result, ok, err, ◌>>=◌,
}
use cumulus_ci.Config.Value.{Value, Fields}
use cumulus_ci.Flow.Spec.{Check, Project}
use cumulus_ci.Flow.Preflight.{
  PreflightError, Call, Expression, value, raises, expression_error, call_of, TaskCache, same_call,
  find, prepare, report, CheckResult,
}

module _ (p : Project) (answer : Call → Value) where
  -- The same run without a cache: every call runs its task.
  unfoldable pub direct : Expression → Result PreflightError Bool
  unfolding prepare
  direct (value b) = ok b
  direct (raises e) = err (expression_error e)
  direct (call_of c k) = prepare p c.task_name >>= λ u. direct (k (answer c))

  unfoldable pub direct_checks :
      (String → Expression)
      → List (Option String × Check)
      → Result PreflightError (List CheckResult)
  unfolding direct
  direct_checks compile [] = ok []
  direct_checks compile ((step, check) ∷ checks) = direct (compile check.when) >>= λ b.
      direct_checks compile checks >>= λ rest. ok (report step check b ++ rest)

module _ (p : Project) (same_options : Fields → Fields → Bool)
    (return_values : List Call → Call → Value) (answer : Call → Value)
    (steady : (before : List Call) (c : Call) → return_values before c ≡ answer c)
    (respects : (a b : Call) → same_call same_options a b ≡ true → answer a ≡ answer b) where
  -- Every entry of the cache is what its task returns, and its task can be run.
  abbrev IsValid : TaskCache → Type 0
  IsValid cache =
      (c : Call) (v : Value)
      → find same_options c cache.results ≡ some v
      → (v ≡ answer c) × (prepare p c.task_name ≡ ok tt)

  abbrev Agrees :
      {A : Type 0} → Result PreflightError A × TaskCache → Result PreflightError A → Type 0
  Agrees r x = (r.0 ≡ x) × IsValid r.1
