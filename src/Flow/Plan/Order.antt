-- ===== src/Flow/Plan/Order.antt =====
-- The order of a plan.
use mathlib.Core.List.{Perm}
use cumulus_ci.Prelude.{String, ◌≡◌, List, ok, >>=-eq-ok, keep, arith}
use cumulus_ci.Prelude.Dict.{Dict}
use cumulus_ci.Config.Value.{Fields}
use cumulus_ci.Flow.Spec.{FlowConfig, Project, StepSpec}
use cumulus_ci.Flow.Sort.{
  StepOrder, sorted, IsSorted, sorted-perm, sorted-IsSorted, keep-sorted, same_number,
}
use cumulus_ci.Flow.Loops.{check_infinite_flows}
use cumulus_ci.Flow.Steps.{Shared}
use cumulus_ci.Flow.Plan.{check_old_yaml_format, depth, visit_flow, init_steps}

abbrev pub number : StepSpec → String
number s = s.step_num

module _ (p : Project) (skip : List String) (runtime : Dict Fields) (order : StepOrder) where
  -- A plan comes from the visits by sorting alone.
  pub init_steps-sorted :
      (flow : FlowConfig) (shared shared' : Shared) (plan : List StepSpec)
      → init_steps p skip runtime order flow shared ≡ ok (plan, shared')
      → (specs : List StepSpec) × (visit_flow p skip runtime flow shared ≡ ok (specs, shared'))
        × (plan ≡ sorted order number specs)
  unfolding init_steps
  init_steps-sorted flow shared shared' plan h =
      let (u, _, h') = >>=-eq-ok (check_old_yaml_format flow) _ h in
      let (v, _, h'') = >>=-eq-ok (check_infinite_flows p (depth p) flow) _ h' in
      let (r, visited, last) = >>=-eq-ok (visit_flow p skip runtime flow shared) _ h'' in
      (r.0, ground arith, ground arith)

  -- The steps of a plan are those that the visits of the flow's steps give, each as often, in the
  -- order of their numbers: no step has a number less than one before it, and steps of one number
  -- stand in the order in which they were visited.
  pub init_steps-IsSorted :
      (flow : FlowConfig) (shared shared' : Shared) (plan : List StepSpec)
      → init_steps p skip runtime order flow shared ≡ ok (plan, shared')
      → (specs : List StepSpec) × (visit_flow p skip runtime flow shared ≡ ok (specs, shared'))
        × Perm plan specs
        × IsSorted order number plan
        × ((k : String)
            → keep (same_number order number k) plan ≡ keep (same_number order number k) specs)
  init_steps-IsSorted flow shared shared' plan h =
      let (specs, visited, e) = init_steps-sorted flow shared shared' plan h in
      (
        specs,
        visited,
        rw e (sorted-perm order number specs),
        rw e (sorted-IsSorted order number specs),
        λ k. rw e (keep-sorted order number k specs),
      )
