-- ===== src/Flow/Tests.antt =====
-- Concrete projects and runs, for the theorems on flows.
use cumulus_ci.Prelude.{
  String, ◌≡◌, refl, Option, none, some, List, [], ◌∷◌, ◌++◌, Bool, true, false, not, ◌&&◌, ◌==◌,
  Result, ok, err, All, keep, Avoids, arith, length,
}
use mathlib.Core.List.{Perm}
use cumulus_ci.Prelude.Dict
use cumulus_ci.Config.Value.{Fields, text, null, dict, end, field, get, has}
use cumulus_ci.Flow.Spec.{
  FlowError, out_of_fuel, flow_infinite_loop_error, Check, StepConfig, TaskConfig, FlowConfig,
  Project, StepSpec,
}
use cumulus_ci.Flow.Sort.{StepOrder, IsSorted, same_number}
use cumulus_ci.Flow.Steps.{
  Shared, Around, top_level, Site, task_options, sub_options, or_empty, visit_step,
}
use cumulus_ci.Flow.Plan.{init_steps, visit_flow}
use cumulus_ci.Flow.Plan.Total.{init_steps-Avoids}
use cumulus_ci.Flow.Plan.Order.{init_steps-IsSorted, number}
use cumulus_ci.Flow.Plan.Shape.{IsRunnable}
use cumulus_ci.Flow.Plan.Visits.{init_steps-IsRunnable}
use cumulus_ci.Flow.Loops.{check_infinite_flows, check_flow}
use cumulus_ci.Flow.Loops.Bound.{check_infinite_flows-Avoids}
use cumulus_ci.Flow.Loops.Agree.{visit_step-Avoids}
use cumulus_ci.Flow.Steps.Options.{get-task_options, first_with}
use cumulus_ci.Flow.Run.{World, ran, run, Event, pre_flow, post_flow, evaluate_flow_step}
use cumulus_ci.Flow.Run.Course.{Ends, results_of}
use cumulus_ci.Flow.Run.Events.{run_events}
use cumulus_ci.Flow.Run.Skipping.{skipped_flow_runs_nothing, IsClear}
use cumulus_ci.Flow.Preflight.{Call, Expression, call_of, value, preflight}
use cumulus_ci.Flow.Preflight.Once.{Distinct, preflight-once}

abbrev task_step : String → Fields → StepConfig
task_step name options = record {
  task = some name;
  flow = none;
  options = some options;
  ui_options = none;
  checks = none;
  ignore_failure = none;
  when = none;
}

abbrev flow_step : String → Option String → StepConfig
flow_step name condition = record {
  task = none;
  flow = some name;
  options = some end;
  ui_options = none;
  checks = none;
  ignore_failure = none;
  when = condition;
}

abbrev deploy : TaskConfig
deploy = record {
  has_class_path = true;
  options = some (field "path" (text "src") end);
  ui_options = none;
  checks = none;
  task_class = some "Deploy";
}

abbrev flow_of : String → Dict.Dict StepConfig → FlowConfig
flow_of name steps = record { name = name; steps = some steps; has_tasks = false; checks = [] }

abbrev inner_flow : FlowConfig
inner_flow = flow_of "config" (("1", task_step "deploy" end) ∷ [])

abbrev outer_flow : FlowConfig
outer_flow = flow_of "dev_org" (
    ("2", flow_step "config" (some "org_config.scratch"))
    ∷ ("1", task_step "deploy" (field "path" (text "pre") end))
    ∷ [])

abbrev sample : Project
sample = record {
  tasks = ("deploy", deploy) ∷ [];
  flows = ("config", inner_flow) ∷ ("dev_org", outer_flow) ∷ [];
}

-- The step "1" before all others.
abbrev before : String → String → Bool
before a b = a == "1" && not (b == "1")

before-not_both : (a b : String) → before a b ≡ true → before b a ≡ false
before-not_both a b h = ground arith

before-not_less : (a b c : String) → before b a ≡ false → before c b ≡ false → before c a ≡ false
before-not_less a b c h g = ground arith

abbrev first_step_first : StepOrder
first_step_first = record { lt = before; not_both = before-not_both; not_less = before-not_less }

init_steps-Avoids_example :
    Avoids out_of_fuel (init_steps sample [] [] first_step_first outer_flow [])
init_steps-Avoids_example = init_steps-Avoids sample [] [] first_step_first outer_flow []

abbrev plan_of : Result FlowError (List StepSpec × Shared) → List StepSpec
plan_of (ok (plan, shared)) = plan
plan_of (err e) = []

abbrev shared_of : Result FlowError (List StepSpec × Shared) → Shared
shared_of (ok (plan, shared)) = shared
shared_of (err e) = []

abbrev planned : Result FlowError (List StepSpec × Shared)
planned = init_steps sample [] [] first_step_first outer_flow []

-- The plan: the condition, the step "1" and the step inside the flow, "1" first.
planned-length : length (plan_of planned) ≡ 3
unfolding init_steps
planned-length = refl

planned_ok : planned ≡ ok (plan_of planned, shared_of planned)
unfolding init_steps
planned_ok = refl

init_steps-IsSorted_example :
    (specs : List StepSpec) × (visit_flow sample [] [] outer_flow []
      ≡ ok (specs, shared_of planned))
    × Perm (plan_of planned) specs
    × IsSorted first_step_first number (plan_of planned)
    × ((k : String)
        → keep (same_number first_step_first number k) (plan_of planned)
          ≡ keep (same_number first_step_first number k) specs)
init_steps-IsSorted_example =
    init_steps-IsSorted sample [] [] first_step_first outer_flow [] (shared_of planned)
      (plan_of planned) planned_ok

init_steps-IsRunnable_example : All IsRunnable (plan_of planned)
init_steps-IsRunnable_example =
    init_steps-IsRunnable sample [] [] first_step_first outer_flow [] (shared_of planned)
      (plan_of planned) planned_ok

-- Two flows that name each other: the search stops with an error.
abbrev looping : Project
looping = record {
  tasks = [];
  flows =
      ("a", flow_of "a" (("1", flow_step "b" none) ∷ []))
      ∷ ("b", flow_of "b" (("1", flow_step "a" none) ∷ []))
      ∷ [];
}

looping-found :
    check_infinite_flows looping 3 (flow_of "top" (("1", flow_step "a" none) ∷ []))
    ≡ err (flow_infinite_loop_error "a")
unfolding check_infinite_flows
looping-found = refl

check_infinite_flows-Avoids_example :
    Avoids out_of_fuel
      (check_infinite_flows looping 3 (flow_of "top" (("1", flow_step "a" none) ∷ [])))
check_infinite_flows-Avoids_example =
    check_infinite_flows-Avoids looping 3 (flow_of "top" (("1", flow_step "a" none) ∷ []))
      (omega arith)

config-passes : (("config" == "None") ≡ false) → check_flow sample 3 [] "config" ≡ ok tt
unfolding check_flow
config-passes h = refl

abbrev second_site : Site
second_site = record { flow = "dev_org"; number = "2" }

visit_step-Avoids_example : Avoids out_of_fuel (
    visit_step sample [] [] 3 top_level "2" second_site
      (flow_step "config" (some "org_config.scratch"))
      [])
visit_step-Avoids_example =
    visit_step-Avoids sample [] [] 3 [] top_level "2" second_site
      (flow_step "config" (some "org_config.scratch")) [] config-passes

-- The run's options, over the flow step's, over the step's, over the task's.
abbrev given_by_run : Dict.Dict Fields
given_by_run = ("deploy", field "check_only" (text "yes") end) ∷ []

abbrev around_deploy : Around
around_deploy = record {
  options = field "deploy" (dict (field "path" (text "post") end)) end;
  ui_options = end;
  from_flow = some "config";
}

abbrev merged_of : Result FlowError Fields → Fields
merged_of (ok m) = m
merged_of (err e) = end

abbrev deploy_options : Result FlowError Fields
deploy_options =
    task_options given_by_run "deploy" deploy (some (field "path" (text "pre") end)) around_deploy

deploy_options-ok : deploy_options ≡ ok (merged_of deploy_options)
unfolding task_options
deploy_options-ok = refl

around_deploy-options :
    sub_options "deploy" around_deploy.options ≡ ok (field "path" (text "post") end)
unfolding sub_options
around_deploy-options = refl

get-task_options_example :
    get "path" (merged_of deploy_options)
    ≡ first_with "path"
        (or_empty (Dict.lookup "deploy" given_by_run))
        (field "path" (text "post") end)
        (or_empty (some (field "path" (text "pre") end)))
        (or_empty deploy.options)
unfolding Dict.lookup has
get-task_options_example =
    get-task_options given_by_run "deploy" "path" deploy (some (field "path" (text "pre") end))
      around_deploy (field "path" (text "post") end) (merged_of deploy_options) (refl, tt)
      (refl, tt) (refl, tt) around_deploy-options deploy_options-ok

-- A world in which no condition holds, and each task ends without an exception.
abbrev quiet : World
quiet = record {
  evaluate = λ results condition. ok false;
  execute = λ results s options. ran null end none;
}

run_events_example :
    (tasks : List Event) × ((run quiet (plan_of planned)).events
      ≡ pre_flow ∷ (tasks ++ post_flow ∷ []))
    × Ends quiet (plan_of planned) (run quiet (plan_of planned)).outcome tasks
    × ((run quiet (plan_of planned)).results ≡ results_of tasks)
run_events_example = run_events quiet (plan_of planned)

abbrev conditional : StepSpec
conditional = record {
  is_flow = true;
  step_num = "2";
  task_name = "config";
  task_config = record { options = end; ui_options = end; checks = [] };
  task_class = none;
  allow_failure = false;
  path = "config";
  skip = false;
  when = some "org_config.scratch";
}

abbrev inside : StepSpec
inside = record {
  is_flow = false;
  step_num = "2/1";
  task_name = "deploy";
  task_config = record { options = end; ui_options = end; checks = [] };
  task_class = some "Deploy";
  allow_failure = false;
  path = "config.deploy";
  skip = false;
  when = none;
}

conditional-fails : evaluate_flow_step quiet [] conditional ≡ ok false
unfolding evaluate_flow_step
conditional-fails = refl

skipped_flow_runs_nothing_example :
    All (IsClear "config") (run quiet ([] ++ conditional ∷ inside ∷ [])).events
skipped_flow_runs_nothing_example =
    skipped_flow_runs_nothing quiet [] (inside ∷ []) conditional refl conditional-fails

-- Two checks that call the same task.
abbrev any_options : Fields → Fields → Bool
any_options a b = true

abbrev installed : Call
installed = record { task_name = "deploy"; options = end }

abbrev ask : String → Expression
ask condition = call_of installed λ v. value (condition == "yes")

abbrev checks : List Check
checks =
    record { when = "yes"; action = "error"; message = some "stop" }
    ∷ record { when = "no"; action = "warn"; message = none }
    ∷ []

checks-run_once : length (preflight sample any_options (λ ran c. null) ask checks []).1.ran ≡ 1
unfolding preflight
checks-run_once = refl

preflight-once_example :
    Distinct any_options (preflight sample any_options (λ ran c. null) ask checks []).1.ran
preflight-once_example = preflight-once sample any_options (λ ran c. null) ask checks []
