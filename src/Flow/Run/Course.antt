-- ===== src/Flow/Run/Course.antt =====
-- What a run of a plan can be, step by step, apart from how it is computed.
use cumulus_ci.Prelude.{
  String, ◌≡◌, List, [], ◌∷◌, ◌++◌, some, true, false, not, ◌&&◌, Result, ok, err,
}
use cumulus_ci.Flow.Spec.{FlowError, task_exception, StepSpec}
use cumulus_ci.Flow.Steps.{is_some}
use cumulus_ci.Flow.Run.{
  StepResult, World, Event, pre_task, post_task, run_task, evaluate_flow_step,
  is_task_in_skipped_flow, skipped_flows,
}

-- The results that the callbacks were given.
abbrev pub results_of : List Event → List StepResult
results_of [] = []
results_of (post_task s r ∷ events) = r ∷ results_of events
results_of (_ ∷ events) = results_of events

module _ (world : World) (skipped : List String) where
  -- The step is a task that neither the plan nor a flow around it skips.
  abbrev pub IsOpen : StepSpec → Type 0
  IsOpen s =
      (s.is_flow ≡ false) × (is_task_in_skipped_flow s.path skipped ≡ false) × (s.skip ≡ false)

  pub data PassedOver (results : List StepResult) (s : StepSpec) : Type 0 where
    a_flow : s.is_flow ≡ true → PassedOver results s
    in_skipped_flow : is_task_in_skipped_flow s.path skipped ≡ true → PassedOver results s
    is_skipped : s.skip ≡ true → PassedOver results s
    condition_fails :
        IsOpen s → evaluate_flow_step world results s ≡ ok false → PassedOver results s

  -- The task is started.
  abbrev pub Starts : List StepResult → StepSpec → Type 0
  Starts results s = IsOpen s × (evaluate_flow_step world results s ≡ ok true)

  -- After these results, the steps that are left have this outcome and these callbacks.
  pub data Runs
      : List StepResult → List StepSpec → Result FlowError (Unit {0}) → List Event → Type 0 where
    ended : (results : List StepResult) → Runs results [] (ok tt) []
    passed :
        (results : List StepResult) (s : StepSpec) (steps : List StepSpec)
        (o : Result FlowError (Unit {0})) (events : List Event)
        → PassedOver results s
        → Runs results steps o events
        → Runs results (s ∷ steps) o events
    condition_raised :
        (results : List StepResult) (s : StepSpec) (steps : List StepSpec) (e : FlowError)
        → IsOpen s
        → evaluate_flow_step world results s ≡ err e
        → Runs results (s ∷ steps) (err e) []
    refused_at :
        (results : List StepResult) (s : StepSpec) (steps : List StepSpec) (e : FlowError)
        → Starts results s
        → run_task world results s ≡ err e
        → Runs results (s ∷ steps) (err e) (pre_task s ∷ [])
    failed_at :
        (results : List StepResult) (s : StepSpec) (steps : List StepSpec) (r : StepResult)
        (x : String)
        → Starts results s
        → run_task world results s ≡ ok r
        → r.exception ≡ some x
        → s.allow_failure ≡ false
        → Runs results (s ∷ steps) (err (task_exception x)) (pre_task s ∷ post_task s r ∷ [])
    came_through :
        (results : List StepResult) (s : StepSpec) (steps : List StepSpec) (r : StepResult)
        (o : Result FlowError (Unit {0})) (events : List Event)
        → Starts results s
        → run_task world results s ≡ ok r
        → (is_some r.exception && not s.allow_failure) ≡ false
        → Runs (results ++ r ∷ []) steps o events
        → Runs results (s ∷ steps) o (pre_task s ∷ post_task s r ∷ events)

-- How a run ends: a condition of a flow raises before anything else, or the steps run one by one
-- with the flows skipped whose condition does not hold.
pub data Ends (world : World) (steps : List StepSpec)
    : Result FlowError (Unit {0}) → List Event → Type 0 where
  flow_condition_raised :
      (e : FlowError) → skipped_flows world steps ≡ err e → Ends world steps (err e) []
  ran_steps :
      (skipped : List String) (o : Result FlowError (Unit {0})) (events : List Event)
      → skipped_flows world steps ≡ ok skipped
      → Runs world skipped [] steps o events
      → Ends world steps o events
