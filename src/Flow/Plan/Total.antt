-- ===== src/Flow/Plan/Total.antt =====
-- Building a plan always comes to an end.
use cumulus_ci.Prelude.{
  String, ◌≡◌, List, [], ok, Avoids, Avoids-bind, arith, Option-cases, inl, inr,
}
use cumulus_ci.Prelude.Dict.{Dict}
use cumulus_ci.Config.Value.{Fields}
use cumulus_ci.Flow.Spec.{out_of_fuel, FlowConfig, Project, steps_of}
use cumulus_ci.Flow.Sort.{StepOrder}
use cumulus_ci.Flow.Loops.{check_infinite_flows}
use cumulus_ci.Flow.Loops.Bound.{steps_of-Avoids, check_infinite_flows-Avoids}
use cumulus_ci.Flow.Loops.Agree.{check_each-passes, visit_each-Avoids, visit_step-Avoids}
use cumulus_ci.Flow.Steps.{Shared, top_level}
use cumulus_ci.Flow.Plan.{check_old_yaml_format, depth, visit_flow, init_steps}

check_old_yaml_format-Avoids : (flow : FlowConfig) → Avoids out_of_fuel (check_old_yaml_format flow)
unfolding check_old_yaml_format
check_old_yaml_format-Avoids flow e = elim (Option-cases flow.steps) [
  | inl absent ↦ ground arith
  | inr (steps, at) ↦ ground arith
]

module _ (p : Project) (skip : List String) (runtime : Dict Fields) where
  visit_flow-Avoids :
      (flow : FlowConfig) (shared : Shared)
      → check_infinite_flows p (depth p) flow ≡ ok tt
      → Avoids out_of_fuel (visit_flow p skip runtime flow shared)
  unfolding visit_flow check_infinite_flows
  visit_flow-Avoids flow shared passed =
      Avoids-bind _ (steps_of flow) _ (steps_of-Avoids flow) λ steps found.
        visit_each-Avoids p (depth p) [] _
          (λ number c now passes.
            visit_step-Avoids p skip runtime (depth p) [] top_level number _ c now passes)
          steps shared (check_each-passes p (depth p) [] steps (ground arith))

  -- Building the plan of a flow never runs out of fuel, whatever the project's flows and the
  -- options are: it ends with a plan or with an exception of the program.
  pub init_steps-Avoids :
      (order : StepOrder) (flow : FlowConfig) (shared : Shared)
      → Avoids out_of_fuel (init_steps p skip runtime order flow shared)
  unfolding init_steps
  init_steps-Avoids order flow shared =
      Avoids-bind _ (check_old_yaml_format flow) _ (check_old_yaml_format-Avoids flow) λ _ _.
        Avoids-bind _ (check_infinite_flows p (depth p) flow) _
          (check_infinite_flows-Avoids p (depth p) flow (omega arith))
          λ u passed.
            Avoids-bind _ (visit_flow p skip runtime flow shared) _
              (visit_flow-Avoids flow shared passed) λ r _ e. cc
