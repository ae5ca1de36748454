-- ===== src/Flow/Preflight.antt =====
-- PreflightFlowCoordinator, TaskCache and CachedTaskRunner of cumulusci/core/flowrunner.py.
-- A check's condition is a jinja2 expression. Compiled, it is a tree: it ends in a value or an
-- error, or it calls a task and goes on with what the task returned. `compile` is jinja2's.
-- `return_values` is what the tasks return: it may depend on the runs before. All steps are of
-- one project, so there is one cache.
use cumulus_ci.Prelude.{
  String, Option, none, some, List, [], ◌∷◌, ◌++◌, Bool, true, false, ◌&&◌, ◌==◌, Result, ok, err,
  if◌then◌else◌,
}
use cumulus_ci.Prelude.Dict
use cumulus_ci.Config.Value.{Value, Fields}
use cumulus_ci.Flow.Spec.{Check, Project, StepSpec}
pub mod Once
pub mod Transparent

pub data PreflightError : Type 0 where
  key_error : String → PreflightError
  import_error : String → PreflightError
  expression_error : String → PreflightError

-- A task and the sorted items of the options it is called with: the key of the cache.
pub record Call : Type 0 where
  pub task_name : String
  pub options : Fields

pub data Expression : Type 0 where
  value : Bool → Expression
  raises : String → Expression
  call_of : Call → (Value → Expression) → Expression

-- `results` of the cache, and the calls that were run, the last first
pub record TaskCache : Type 0 where
  pub results : List (Call × Value)
  pub ran : List Call

pub record CheckResult : Type 0 where
  pub step : Option String
  pub status : String
  pub message : Option String

abbrev pub report : Option String → Check → Bool → List CheckResult
report step check true = record { step = step; status = check.action; message = check.message } ∷ []
report step check false = []

-- A step that may raise, and the state it leaves either way.
abbrev pub chain :
    {A B S : Type 0}
    → Result PreflightError A × S
    → (A → S → Result PreflightError B × S)
    → Result PreflightError B × S
chain (ok a, s) f = f a s
chain (err e, s) f = (err e, s)

abbrev pub empty_cache : TaskCache
empty_cache = record { results = []; ran = [] }

-- `tasks[task_name]` and the import of its class
unfoldable pub prepare : Project → String → Result {0, 0} PreflightError Unit
unfolding Dict.lookup
prepare p name = elim (Dict.lookup name p.tasks) [
  | none ↦ err (key_error name)
  | some t ↦ elim t.task_class [ none ↦ err (import_error name) | some c ↦ ok tt ]
]

module _ (same_options : Fields → Fields → Bool) where
  unfoldable pub same_call : Call → Call → Bool
  same_call a b = a.task_name == b.task_name && same_options a.options b.options

  unfoldable pub find : Call → List (Call × Value) → Option Value
  unfolding same_call
  find c [] = none
  find c ((k, v) ∷ results) = if same_call c k then some v else find c results

module _ (p : Project) (same_options : Fields → Fields → Bool)
    (return_values : List Call → Call → Value) where
  unfoldable pub run_uncached :
      TaskCache → Call → Result {0, 0} PreflightError Unit → Result PreflightError Value × TaskCache
  run_uncached cache c (err e) = (err e, cache)
  run_uncached cache c (ok u) = (
    ok (return_values cache.ran c),
    record { results = (c, return_values cache.ran c) ∷ cache.results; ran = c ∷ cache.ran },
  )

  unfoldable pub run_unless_found :
      TaskCache → Call → Option Value → Result PreflightError Value × TaskCache
  unfolding run_uncached prepare
  run_unless_found cache c (some v) = (ok v, cache)
  run_unless_found cache c none = run_uncached cache c (prepare p c.task_name)

  -- CachedTaskRunner.__call__
  unfoldable pub call_task : TaskCache → Call → Result PreflightError Value × TaskCache
  unfolding run_unless_found find
  call_task cache c = run_unless_found cache c (find same_options c cache.results)

  unfoldable pub evaluate : Expression → TaskCache → Result PreflightError Bool × TaskCache
  unfolding call_task
  evaluate (value b) cache = (ok b, cache)
  evaluate (raises e) cache = (err (expression_error e), cache)
  evaluate (call_of c k) cache = chain (call_task cache c) λ v now. evaluate (k v) now

  module _ (compile : String → Expression) where
    unfoldable pub evaluate_check :
        Option String → Check → TaskCache → Result PreflightError (List CheckResult) × TaskCache
    unfolding evaluate
    evaluate_check step check cache =
        chain (evaluate (compile check.when) cache) λ b now. (ok (report step check b), now)

    -- The checks one after the other: an error ends the run.
    unfoldable pub evaluate_checks :
        List (Option String × Check)
        → TaskCache
        → Result PreflightError (List CheckResult) × TaskCache
    unfolding evaluate_check
    evaluate_checks [] cache = (ok [], cache)
    evaluate_checks ((step, check) ∷ checks) cache =
        chain (evaluate_check step check cache)
          λ here now. chain (evaluate_checks checks now) λ rest last. (ok (here ++ rest), last)

abbrev pub labelled : Option String → List Check → List (Option String × Check)
labelled step [] = []
labelled step (c ∷ checks) = (step, c) ∷ labelled step checks

unfoldable pub step_checks : List StepSpec → List (Option String × Check)
step_checks [] = []
step_checks (s ∷ steps) = labelled (some s.step_num) s.task_config.checks ++ step_checks steps

-- PreflightFlowCoordinator.run: the flow's checks, then those of its steps
unfoldable pub preflight :
    Project
    → (Fields → Fields → Bool)
    → (List Call → Call → Value)
    → (String → Expression)
    → List Check
    → List StepSpec
    → Result PreflightError (List CheckResult) × TaskCache
unfolding evaluate_checks step_checks
preflight p same_options return_values compile checks steps =
    evaluate_checks p same_options return_values compile (labelled none checks ++ step_checks steps)
      empty_cache
