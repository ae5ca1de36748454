-- ===== src/Flow/Plan.antt =====
-- `_init_steps` of FlowCoordinator, and what every step of a plan satisfies.
pub mod Order
pub mod Total
pub mod Shape
pub mod Visits
use mathlib.Core.List.{Perm}
use cumulus_ci.Prelude.{
  ℕ, suc, ◌+◌, String, ◌≡◌, List, [], ◌∷◌, Option, none, some, Bool, length, Result, ok, err, ◌>>=◌,
  >>=-eq-ok, arith, keep, if◌then◌else◌,
}
use cumulus_ci.Prelude.Dict.{Dict}
use cumulus_ci.Config.Value.{Fields}
use cumulus_ci.Flow.Spec.{
  FlowError, flow_config_error, StepConfig, FlowConfig, Project, steps_of, StepSpec,
}
use cumulus_ci.Flow.Sort.{
  StepOrder, sorted, IsSorted, sorted-perm, sorted-IsSorted, keep-sorted, same_number,
}
use cumulus_ci.Flow.Loops.{check_infinite_flows}
use cumulus_ci.Flow.Steps.{Site, Shared, top_level, visit_each, visit_step}

unfoldable pub check_old_yaml_format : FlowConfig → Result FlowError (Unit {0})
check_old_yaml_format flow = elim flow.steps [ none ↦ err flow_config_error | some _ ↦ ok tt ]

-- One more than the number of flows: deep enough for the search, and so for the visits.
abbrev pub depth : Project → ℕ
depth p = suc (length p.flows)

module _ (p : Project) (skip : List String) (runtime : Dict Fields) where
  -- The visits of all the steps of the flow, in the order of the configuration.
  unfoldable pub visit_flow : FlowConfig → Shared → Result FlowError (List StepSpec × Shared)
  unfolding steps_of visit_each visit_step
  visit_flow flow shared = do
    steps ← steps_of flow
    visit_each
        (λ number.
          visit_step p skip runtime (depth p) top_level number
            (record { flow = flow.name; number = number }))
        steps shared

  unfoldable pub init_steps :
      StepOrder → FlowConfig → Shared → Result FlowError (List StepSpec × Shared)
  unfolding check_old_yaml_format check_infinite_flows visit_flow sorted
  init_steps order flow shared = do
    _ ← check_old_yaml_format flow
    _ ← check_infinite_flows p (depth p) flow
    (specs, shared') ← visit_flow flow shared
    ok (sorted order (λ s. s.step_num) specs, shared')
