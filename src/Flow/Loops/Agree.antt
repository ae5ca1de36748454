-- ===== src/Flow/Loops/Agree.antt =====
-- What the search for infinite flows is for: after it has passed, the steps can be unfolded.
use cumulus_ci.Prelude.{
  ℕ, zero, suc, String, ◌≡◌, List, [], ◌∷◌, Option, none, some, false, arith, contains, All, ok,
  err, >>=-eq-ok, Avoids, Avoids-bind, ◌==◌, Bool-cases, Option-cases, inl, inr,
}
use cumulus_ci.Prelude.Dict.{Dict}
use cumulus_ci.Config.Value.{Fields, get}
use cumulus_ci.Flow.Spec.{
  out_of_fuel, StepConfig, FlowConfig, Project, get_task, get_flow, steps_of,
}
use cumulus_ci.Flow.Steps.{
  Site, Shared, Around, Visit, options_at, sub_options, is_skipped, task_options, task_ui_options,
  visit_task, visit_each, enter_flow, visit_typed, visit_body, visit_step,
}
use cumulus_ci.Flow.Loops.Bound.{steps_of-Avoids, get_flow-Avoids}
use cumulus_ci.Flow.Loops.{check_each, check_flow}

-- The flow that the step names, if any, has passed the search.
abbrev pub FlowPasses : Project → ℕ → List String → Option String → Type 0
FlowPasses p fuel stack none = Unit
FlowPasses p fuel stack (some name) =
    (name == "None") ≡ false → check_flow p fuel stack name ≡ ok tt

pub check_each-passes :
    (p : Project) (fuel : ℕ) (stack : List String) (steps : Dict StepConfig)
    → check_each (check_flow p fuel) stack steps ≡ ok tt
    → All (λ s. FlowPasses p fuel stack s.1.flow) steps
unfolding check_each
check_each-passes p fuel stack [] h = tt
check_each-passes p fuel stack ((number, c) ∷ steps) h = elim (Option-cases c.flow) [
  | inl same ↦ rw same (tt, check_each-passes p fuel stack steps (ground arith))
  | inr (name, at) ↦ elim (Bool-cases (name == "None")) [
    | inl skip ↦ rw at ((λ e. cc), check_each-passes p fuel stack steps (ground arith))
    | inr real ↦
        let (u, first, rest) =
          >>=-eq-ok (check_flow p fuel stack name) (λ _. check_each (check_flow p fuel) stack steps)
            (ground arith) in
        rw at ((λ _. first), check_each-passes p fuel stack steps rest)
  ]
]

sub_options-Avoids : (name : String) (d : Fields) → Avoids out_of_fuel (sub_options name d)
unfolding sub_options
sub_options-Avoids name d e = elim (Option-cases (get name d)) [
  | inl none_there ↦ ground arith
  | inr (v, at) ↦ ground arith
]

visit_task-Avoids :
    (p : Project) (runtime : Dict Fields) (name : String) (options : Option Fields) (c : StepConfig)
    (around : Around) (number : String)
    → Avoids out_of_fuel (visit_task p runtime name options c around number)
unfolding visit_task task_options task_ui_options get_task
visit_task-Avoids p runtime name options c around number e =
    ground
      (arith, sub_options-Avoids name around.options, sub_options-Avoids name around.ui_options)

-- The visits of a flow's steps, where each visit of a step that passes does not run out.
pub visit_each-Avoids :
    (p : Project) (fuel : ℕ) (stack : List String) (visit : String → StepConfig → Visit)
    → ((number : String) (c : StepConfig) (shared : Shared)
        → FlowPasses p fuel stack c.flow
        → Avoids out_of_fuel (visit number c shared))
    → (steps : Dict StepConfig) (shared : Shared)
    → All (λ s. FlowPasses p fuel stack s.1.flow) steps
    → Avoids out_of_fuel (visit_each visit steps shared)
unfolding visit_each
visit_each-Avoids p fuel stack visit h [] shared passes = λ e. cc
visit_each-Avoids p fuel stack visit h ((number, c) ∷ steps) shared (first, rest) =
    Avoids-bind _ (visit number c shared) _ (h number c shared first) λ r _.
      Avoids-bind _ (visit_each visit steps r.1) _
        (visit_each-Avoids p fuel stack visit h steps r.1 rest) λ s _ e. cc

check_flow-passes :
    (p : Project) (fuel : ℕ) (stack : List String) (name : String) (flow : FlowConfig)
    (steps : Dict StepConfig)
    → check_flow p (suc fuel) stack name ≡ ok tt
    → get_flow p name ≡ ok flow
    → steps_of flow ≡ ok steps
    → All (λ s. FlowPasses p fuel (name ∷ stack) s.1.flow) steps
unfolding check_flow
check_flow-passes p fuel stack name flow steps h found with_steps =
    elim (Bool-cases (contains stack name)) [
      | inl inside ↦ ground arith
      | inr fresh ↦ check_each-passes p fuel (name ∷ stack) steps (ground arith)
    ]

never_at_zero :
    (p : Project) (stack : List String) (name : String) → check_flow p zero stack name ≡ ok tt → ⊥
unfolding check_flow
never_at_zero p stack name h = cc

module _ (p : Project) (skip : List String) (runtime : Dict Fields) where
  visit_body-Avoids :
      (visit : Around → String → Site → StepConfig → Visit) (around : Around) (number : String)
      (site : Site) (c : StepConfig) (shared : Shared)
      → ((name : String)
          → c.flow ≡ some name
          → (name == "None") ≡ false
          → (options : Option Fields)
          → Avoids out_of_fuel
              (enter_flow p skip runtime visit around number site c options name shared))
      → Avoids out_of_fuel (visit_body p skip runtime visit around number site c shared)
  unfolding visit_body visit_typed is_skipped
  visit_body-Avoids visit around number site c shared h e = elim (Option-cases c.task) [
    | inr (task, at) ↦
        ground (
          arith,
          visit_task-Avoids p runtime task (options_at shared site c.options) c around number,
        )
    | inl no_task ↦ elim (Option-cases c.flow) [
      | inl no_flow ↦ ground arith
      | inr (name, at) ↦ elim (Bool-cases (name == "None")) [
        | inl skipped ↦ ground arith
        | inr real ↦ ground (arith, h name at real (options_at shared site c.options))
      ]
    ]
  ]

  enter_flow-Avoids :
      (fuel : ℕ) (stack : List String) (visit : Around → String → Site → StepConfig → Visit)
      (around : Around) (number : String) (site : Site) (c : StepConfig) (options : Option Fields)
      (name : String) (shared : Shared)
      → ((inner : Around) (n : String) (s : Site) (k : StepConfig) (now : Shared)
          → FlowPasses p fuel (name ∷ stack) k.flow
          → Avoids out_of_fuel (visit inner n s k now))
      → check_flow p (suc fuel) stack name ≡ ok tt
      → Avoids out_of_fuel
          (enter_flow p skip runtime visit around number site c options name shared)
  unfolding enter_flow
  enter_flow-Avoids fuel stack visit around number site c options name shared h passes =
      Avoids-bind _ (sub_options name around.options) _ (sub_options-Avoids name around.options)
        λ parent _. Avoids-bind _ (get_flow p name) _ (get_flow-Avoids p name) λ flow found.
          Avoids-bind _ (steps_of flow) _ (steps_of-Avoids flow) λ steps with_steps.
            Avoids-bind _ (visit_each _ steps _) _
              (visit_each-Avoids p fuel (name ∷ stack) _ (λ n k now. h _ _ _ k now) steps _
                (check_flow-passes p fuel stack name flow steps passes found with_steps))
              λ r _ e. cc

  -- After the search for infinite flows has passed the flow that a step names, the step is
  -- unfolded with the same fuel, whatever its options and those around it are.
  pub visit_step-Avoids :
      (fuel : ℕ) (stack : List String) (around : Around) (number : String) (site : Site)
      (c : StepConfig) (shared : Shared)
      → FlowPasses p fuel stack c.flow
      → Avoids out_of_fuel (visit_step p skip runtime fuel around number site c shared)
  unfolding visit_step
  visit_step-Avoids zero stack around number site c shared passes =
      visit_body-Avoids (λ _ _ _ _ _. err out_of_fuel) around number site c shared
        λ name at real. absurd (never_at_zero p stack name ((rw at at passes) real))
  visit_step-Avoids (suc fuel) stack around number site c shared passes =
      visit_body-Avoids (visit_step p skip runtime fuel) around number site c shared
        λ name at real options.
          enter_flow-Avoids fuel stack (visit_step p skip runtime fuel) around number site c options
            name shared (λ inner n s k now. visit_step-Avoids fuel (name ∷ stack) inner n s k now)
            ((rw at at passes) real)
