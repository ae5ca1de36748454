-- ===== src/Flow/Plan/Visits.antt =====
-- Every step that `_visit_step` gives can be run, and its path shows the flows around it.
use cumulus_ci.Prelude.{
  ℕ, zero, suc, String, ◌≡◌, List, [], ◌∷◌, Option, none, some, arith, All, All-append, ok, err,
  >>=-eq-ok, Bool-cases, Option-cases, inl, inr,
}
use cumulus_ci.Prelude.Dict.{Dict}
use cumulus_ci.Config.Value.{Fields}
use cumulus_ci.Flow.Spec.{
  out_of_fuel, StepConfig, FlowConfig, Project, get_task, get_flow, steps_of, StepSpec, dotted,
}
use cumulus_ci.Flow.Sort.{StepOrder, sorted-All}
use cumulus_ci.Flow.Steps.{
  Site, Shared, Around, top_level, Visit, options_at, sub_options, is_task_and_flow, is_skipped,
  task_options, task_ui_options, visit_task, visit_each, enter_flow, visit_typed, visit_body,
  visit_step,
}
use cumulus_ci.Flow.Plan.{depth, visit_flow, init_steps}
use cumulus_ci.Flow.Plan.Order.{init_steps-sorted}
use cumulus_ci.Flow.Plan.Shape.{
  IsRunnable, IsShaped, Shapes, Shapes-bind, Shapes-ok, visit_each-Shapes, IsShaped-dotted,
  skipped_spec-IsShaped, flow_spec-IsShaped, dotted-IsUnder,
}

visit_task-IsShaped :
    (p : Project) (runtime : Dict Fields) (name : String) (options : Option Fields) (c : StepConfig)
    (around : Around) (number : String) (spec : StepSpec)
    → visit_task p runtime name options c around number ≡ ok spec
    → IsShaped around.from_flow spec
unfolding visit_task
visit_task-IsShaped p runtime name options c around number spec h =
    let (t, _, h₁) = >>=-eq-ok (get_task p name) _ h in
    let (merged, _, h₂) = >>=-eq-ok (task_options runtime name t options around) _ h₁ in
    let (merged_ui, _, h₃) = >>=-eq-ok (task_ui_options name t c around) _ h₂ in
    let path : spec.path ≡ dotted around.from_flow name = ground arith in
    (ground arith, rw path (dotted-IsUnder around.from_flow name))

module _ (p : Project) (skip : List String) (runtime : Dict Fields) where
  enter_flow-Shapes :
      (visit : Around → String → Site → StepConfig → Visit) (around : Around) (number : String)
      (site : Site) (c : StepConfig) (options : Option Fields) (name : String) (shared : Shared)
      → ((inner : Around) (n : String) (s : Site) (k : StepConfig) (now : Shared)
          → Shapes inner.from_flow (visit inner n s k now))
      → Shapes around.from_flow
          (enter_flow p skip runtime visit around number site c options name shared)
  unfolding enter_flow
  enter_flow-Shapes visit around number site c options name shared h =
      let from = around.from_flow in
      Shapes-bind from (sub_options name around.options) _ λ parent _.
        Shapes-bind from (get_flow p name) _ λ flow _. Shapes-bind from (steps_of flow) _ λ steps _.
          Shapes-bind from (visit_each _ steps _) _ λ r visited.
            All-append (IsShaped from) _ r.0 (flow_spec-IsShaped c from name number) (
              IsShaped-dotted from name r.0 (
                Shapes-ok (some (dotted from name)) _
                  (visit_each-Shapes (some (dotted from name)) _ (λ n k now. h _ _ _ k now) steps _)
                  visited))

  visit_body-Shapes :
      (visit : Around → String → Site → StepConfig → Visit) (around : Around) (number : String)
      (site : Site) (c : StepConfig) (shared : Shared)
      → ((inner : Around) (n : String) (s : Site) (k : StepConfig) (now : Shared)
          → Shapes inner.from_flow (visit inner n s k now))
      → Shapes around.from_flow (visit_body p skip runtime visit around number site c shared)
  unfolding visit_body visit_typed
  visit_body-Shapes visit around number site c shared h =
      let options = options_at shared site c.options in
      elim (Bool-cases (is_task_and_flow c)) [
        | inl both ↦ rw both tt
        | inr fine ↦ rw fine (elim (Bool-cases (is_skipped skip c)) [
          | inl skipped ↦ rw skipped (skipped_spec-IsShaped options c around number, tt)
          | inr kept ↦ rw kept (elim (Option-cases c.task) [
            | inr (task, at) ↦
                rw (at, visit_typed)
                  (Shapes-bind around.from_flow (visit_task p runtime task options c around number)
                    _
                    λ spec e.
                      (visit_task-IsShaped p runtime task options c around number spec e, tt))
            | inl no_task ↦ elim (Option-cases c.flow) [
              | inl no_flow ↦ rw (no_task, no_flow) tt
              | inr (name, at) ↦
                  rw (no_task, at)
                    (enter_flow-Shapes visit around number site c options name shared h)
            ]
          ])
        ])
      ]

  visit_step-Shapes :
      (fuel : ℕ) (around : Around) (number : String) (site : Site) (c : StepConfig)
      (shared : Shared)
      → Shapes around.from_flow (visit_step p skip runtime fuel around number site c shared)
  unfolding visit_step
  visit_step-Shapes zero around number site c shared =
      visit_body-Shapes (λ _ _ _ _ _. err out_of_fuel) around number site c shared (λ _ _ _ _ _. tt)
  visit_step-Shapes (suc fuel) around number site c shared =
      visit_body-Shapes (visit_step p skip runtime fuel) around number site c shared
        (visit_step-Shapes fuel)

  Shaped-IsRunnable :
      (from : Option String) (specs : List StepSpec)
      → All (IsShaped from) specs
      → All IsRunnable specs
  Shaped-IsRunnable from [] h = tt
  Shaped-IsRunnable from (s ∷ specs) ((run, _), h) = (run, Shaped-IsRunnable from specs h)

  -- Every step of a plan that is neither skipped nor the condition of a flow has an
  -- implementation, so that running it does not fail for want of one.
  pub init_steps-IsRunnable :
      (order : StepOrder) (flow : FlowConfig) (shared shared' : Shared) (plan : List StepSpec)
      → init_steps p skip runtime order flow shared ≡ ok (plan, shared')
      → All IsRunnable plan
  unfolding visit_flow
  init_steps-IsRunnable order flow shared shared' plan h =
      let (specs, visited, e) = init_steps-sorted p skip runtime order flow shared shared' plan h in
      let (steps, _, each) = >>=-eq-ok (steps_of flow) _ visited in
      let shaped : All (IsShaped none) specs =
        Shapes-ok none _
          (visit_each-Shapes none _
            (λ n k now.
              visit_step-Shapes (depth p) top_level n (record { flow = flow.name; number = n }) k
                now)
            steps shared)
          each in
      rw e (
        sorted-All order (λ (s : StepSpec). s.step_num) IsRunnable specs
          (Shaped-IsRunnable none specs shaped))
