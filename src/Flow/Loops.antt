-- ===== src/Flow/Loops.antt =====
-- `_check_infinite_flows` of FlowCoordinator: no flow may be entered inside itself.
pub mod Bound
pub mod Agree
use cumulus_ci.Prelude.{
  ℕ, zero, suc, String, List, [], ◌∷◌, Option, none, some, Bool, true, false, contains, Result, ok,
  err, ◌>>=◌, ◌==◌, if◌then◌else◌,
}
use cumulus_ci.Prelude.Dict.{Dict}
use cumulus_ci.Flow.Spec.{
  FlowError, flow_infinite_loop_error, out_of_fuel, StepConfig, FlowConfig, Project, get_flow,
  steps_of,
}

-- `for step in flow_config.steps.values()`, with the check of one entered flow as an argument.
-- The stack is pushed before that check and popped after it.
unfoldable pub check_each :
    (List String → String → Result FlowError (Unit {0}))
    → List String
    → Dict StepConfig
    → Result FlowError (Unit {0})
check_each check stack [] = ok tt
check_each check stack ((number, c) ∷ steps) = elim c.flow [
  | none ↦ check_each check stack steps
  | some name ↦
      let rest = check_each check stack steps in
      if name == "None" then rest else (check stack name >>= λ _. rest)
]

module _ (p : Project) where
  -- One flow that a step names: it is not on the stack, and nor are those inside it.
  unfoldable pub check_flow : ℕ → List String → String → Result FlowError (Unit {0})
  unfolding get_flow steps_of check_each contains
  check_flow zero stack name = err out_of_fuel
  check_flow (suc fuel) stack name = do
    flow ← get_flow p name
    (if contains stack name
        then err (flow_infinite_loop_error name)
        else (do steps ← steps_of flow; check_each (check_flow fuel) (name ∷ stack) steps))

  unfoldable pub check_infinite_flows : ℕ → FlowConfig → Result FlowError (Unit {0})
  unfolding check_flow
  check_infinite_flows fuel flow = do steps ← steps_of flow; check_each (check_flow fuel) [] steps
