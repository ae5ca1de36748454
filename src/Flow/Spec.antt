-- ===== src/Flow/Spec.antt =====
-- The data of cumulusci/core/flowrunner.py, and the tasks and flows of one project as
-- `get_task` and `get_flow` of its configuration return them.
-- Names with a colon, which point into another project, are not modelled.
use cumulus_ci.Prelude.{
  String, Option, none, some, List, Bool, Result, ok, err, ◌==◌, if◌then◌else◌, ◌<>◌,
}
use cumulus_ci.Prelude.Dict
use cumulus_ci.Prelude.Dict.{Dict}
use cumulus_ci.Config.Value.{Fields}

-- FlowConfigError, FlowInfiniteLoopError, the errors of `get_task` and `get_flow`, a failed
-- `assert`, a TypeError of Python's own, a NameError, an error of `rsplit`, an error of jinja2 in a
-- condition, and an exception of a task. `out_of_fuel` is no exception of the program: the theorems show where it cannot occur.
pub data FlowError : Type 0 where
  flow_config_error : FlowError
  flow_infinite_loop_error : String → FlowError
  task_not_found : String → FlowError
  flow_not_found : String → FlowError
  cumulus_ci_exception : String → FlowError
  assertion_failed : FlowError
  type_error : FlowError
  name_error : String → FlowError
  value_error : FlowError
  condition_error : String → FlowError
  task_exception : String → FlowError
  out_of_fuel : FlowError

-- A preflight check.
pub record Check : Type 0 where
  pub when : String
  pub action : String
  pub message : Option String

-- A step as the flow's YAML has it; `none` for a key that is not there.
pub record StepConfig : Type 0 where
  pub task : Option String
  pub flow : Option String
  pub options : Option Fields
  pub ui_options : Option Fields
  pub checks : Option (List Check)
  pub ignore_failure : Option Bool
  pub when : Option String

-- A task as the project's configuration has it. `task_class` is what `get_class` imports, `none`
-- where the import fails. `has_class_path` is false too where the task has no configuration at all.
pub record TaskConfig : Type 0 where
  pub has_class_path : Bool
  pub options : Option Fields
  pub ui_options : Option Fields
  pub checks : Option (List Check)
  pub task_class : Option String

-- A flow: `steps` is `none` where the YAML has no steps, `has_tasks` where it has the old "tasks".
pub record FlowConfig : Type 0 where
  pub name : String
  pub steps : Option (Dict StepConfig)
  pub has_tasks : Bool
  pub checks : List Check

pub record Project : Type 0 where
  pub tasks : Dict TaskConfig
  pub flows : Dict FlowConfig

unfoldable pub get_task : Project → String → Result FlowError TaskConfig
unfolding Dict.lookup
get_task p name = elim (Dict.lookup name p.tasks) [
  | none ↦ err (task_not_found name)
  | some t ↦ if t.has_class_path then ok t else err (cumulus_ci_exception name)
]

unfoldable pub get_flow : Project → String → Result FlowError FlowConfig
unfolding Dict.lookup
get_flow p name = elim (Dict.lookup name p.flows) [
  | none ↦ err (flow_not_found name)
  | some f ↦ ok (record f { name = name })
]

-- `flow_config.steps`, where the code iterates over it
unfoldable pub steps_of : FlowConfig → Result FlowError (Dict StepConfig)
steps_of f = elim f.steps [ none ↦ err type_error | some steps ↦ ok steps ]

-- The merged configuration of a step's task.
pub record StepTask : Type 0 where
  pub options : Fields
  pub ui_options : Fields
  pub checks : List Check

-- One step of the plan. `is_flow` tells a FlowStepSpec, which only carries a condition.
pub record StepSpec : Type 0 where
  pub is_flow : Bool
  pub step_num : String
  pub task_name : String
  pub task_config : StepTask
  pub task_class : Option String
  pub allow_failure : Bool
  pub path : String
  pub skip : Bool
  pub when : Option String

-- `".".join([from_flow, name])` if there is a flow around the step
unfoldable pub dotted : Option String → String → String
dotted none name = name
dotted (some flow) name = if flow == "" then name else flow <> ("." <> name)
