-- ===== src/Flow/Steps.antt =====
-- `_visit_step` and `_init_steps` of FlowCoordinator: a flow is unfolded into task steps.
-- `_visit_step` updates a flow step's options in the configuration itself, and the next visit of
-- that step reads them: `Shared` holds the options that were so written, by the step's site.

pub mod Options
use cumulus_ci.Prelude.{
  ℕ, zero, suc, String, List, [], ◌∷◌, ◌++◌, Option, none, some, Bool, true, false, not, ◌&&◌, ◌||◌,
  contains, Result, ok, err, ◌>>=◌, ◌==◌, if◌then◌else◌, ◌<>◌,
}
use cumulus_ci.Prelude.Dict
use cumulus_ci.Prelude.Dict.{Dict}
use cumulus_ci.Config.Value.{Value, Fields, dict, end, get, update}
use cumulus_ci.Flow.Spec.{
  FlowError, flow_config_error, assertion_failed, type_error, out_of_fuel, Check, StepConfig,
  TaskConfig, FlowConfig, Project, get_task, get_flow, steps_of, StepTask, StepSpec, dotted,
}

-- Where a step stands in the configuration: the flow's name and the step's number in it.
pub record Site : Type 0 where
  pub flow : String
  pub number : String

abbrev pub Shared : Type 0
Shared = List (Site × Fields)

unfoldable pub same_site : Site → Site → Bool
same_site a b = a.flow == b.flow && a.number == b.number

-- The options that stand at the site now.
unfoldable pub options_at : Shared → Site → Option Fields → Option Fields
unfolding same_site
options_at [] site options = options
options_at ((s, written) ∷ shared) site options =
    if same_site s site then some written else options_at shared site options

-- What a step gets from the flow step around it.
pub record Around : Type 0 where
  pub options : Fields
  pub ui_options : Fields
  pub from_flow : Option String

abbrev pub top_level : Around
top_level = record { options = end; ui_options = end; from_flow = none }

abbrev pub or_empty : Option Fields → Fields
or_empty none = end
or_empty (some d) = d

abbrev pub or_none {ℓ} : {A : Type ℓ} → Option (List A) → List A
or_none none = []
or_none (some l) = l

abbrev pub is_true : Option Bool → Bool
is_true none = false
is_true (some b) = b

abbrev pub is_text : Option String → String → Bool
is_text none s = false
is_text (some t) s = t == s

abbrev pub is_some {ℓ} : {A : Type ℓ} → Option A → Bool
is_some none = false
is_some (some a) = true

-- `d.get(name, {})`, as the argument of `update`
unfoldable pub sub_options : String → Fields → Result FlowError Fields
unfolding get
sub_options name d = elim (get name d) [
  | none ↦ ok end
  | some v ↦ elim v [ dict e ↦ ok e | _ ↦ err type_error ]
]

-- `step_config.keys() == {"task", "flow"}`
unfoldable pub is_task_and_flow : StepConfig → Bool
is_task_and_flow c =
    is_some c.task
    && is_some c.flow
    && not (
        is_some c.options
        || is_some c.ui_options
        || is_some c.checks
        || is_some c.ignore_failure
        || is_some c.when)

unfoldable pub is_skipped : List String → StepConfig → Bool
is_skipped skip c =
    is_text c.flow "None"
    || is_text c.task "None"
    || (elim c.task [ none ↦ false | some name ↦ contains skip name ])

unfoldable pub skipped_spec : Option Fields → StepConfig → Around → String → StepSpec
unfolding dotted
skipped_spec options c around number =
    let name : String = elim c.task [
      | some task ↦ task
      | none ↦ elim c.flow [ some flow ↦ flow | none ↦ "" ]
    ] in
    record {
      is_flow = false;
      step_num = number;
      task_name = name;
      task_config = record { options = or_empty options; ui_options = end; checks = [] };
      task_class = none;
      allow_failure = false;
      path = dotted around.from_flow name;
      skip = true;
      when = none;
    }

-- The options of a task step, from the lowest priority to the highest: the task's own, the
-- step's, those of the flow step around it, and the run's.
unfoldable pub task_options :
    Dict Fields → String → TaskConfig → Option Fields → Around → Result FlowError Fields
unfolding sub_options update Dict.lookup
task_options runtime name t options around = do
  parent ← sub_options name around.options
  let merged = update (or_empty t.options) (update (or_empty options) parent)
  ok (elim (Dict.lookup name runtime) [ none ↦ merged | some given ↦ update merged given ])

unfoldable pub task_ui_options : String → TaskConfig → StepConfig → Around → Result FlowError Fields
unfolding sub_options update
task_ui_options name t c around = do
  parent ← sub_options name around.ui_options
  ok (update (or_empty t.ui_options) (update (or_empty c.ui_options) parent))

-- The branch of a task step.
unfoldable pub visit_task :
    Project
    → Dict Fields
    → String
    → Option Fields
    → StepConfig
    → Around
    → String
    → Result FlowError StepSpec
unfolding task_options task_ui_options get_task dotted
visit_task p runtime name options c around number = do
  t ← get_task p name
  merged ← task_options runtime name t options around
  merged_ui ← task_ui_options name t c around
  (elim t.task_class [
    | none ↦ err flow_config_error
    | some class ↦ ok (record {
      is_flow = false;
      step_num = number;
      task_name = name;
      task_config = record {
        options = merged;
        ui_options = merged_ui;
        checks = or_none t.checks ++ or_none c.checks;
      };
      task_class = some class;
      allow_failure = is_true c.ignore_failure;
      path = dotted around.from_flow name;
      skip = false;
      when = c.when;
    })
  ])

-- The FlowStepSpec of a conditional flow step.
unfoldable pub flow_spec : StepConfig → String → String → List StepSpec
flow_spec c path number = elim c.when [
  | none ↦ []
  | some condition ↦
      if condition == ""
      then []
      else record {
        is_flow = true;
        step_num = number;
        task_name = path;
        task_config = record { options = end; ui_options = end; checks = [] };
        task_class = none;
        allow_failure = is_true c.ignore_failure;
        path = path;
        skip = false;
        when = some condition;
      }
        ∷ []
]

-- The dictionary is written in place only where the step has one.
unfoldable pub write_options : Site → Option Fields → Fields → Shared → Shared
write_options site none options shared = shared
write_options site (some _) options shared = (site, options) ∷ shared

abbrev pub Visit : Type 0
Visit = Shared → Result FlowError (List StepSpec × Shared)

-- The visits of the steps of one flow, one after the other.
unfoldable pub visit_each : (String → StepConfig → Visit) → Dict StepConfig → Visit
visit_each visit [] shared = ok ([], shared)
visit_each visit ((number, c) ∷ steps) shared = do
  (specs, shared') ← visit number c shared
  (more, shared'') ← visit_each visit steps shared'
  ok (specs ++ more, shared'')

module _ (p : Project) (skip : List String) (runtime : Dict Fields) where
  -- The branch of a flow step; `visit` is the recursive call.
  unfoldable pub enter_flow :
      (Around → String → Site → StepConfig → Visit)
      → Around
      → String
      → Site
      → StepConfig
      → Option Fields
      → String
      → Visit
  unfolding sub_options update get_flow steps_of dotted write_options visit_each flow_spec
  enter_flow visit around number site c options name shared = do
    parent ← sub_options name around.options
    let merged = update (or_empty options) parent
    let path = dotted around.from_flow name
    flow ← get_flow p name
    steps ← steps_of flow
    let inner : Around = record {
      options = merged;
      ui_options = or_empty c.ui_options;
      from_flow = some path;
    }
    (specs, shared') ←
        visit_each
          (λ sub_number.
            visit inner (number <> ("/" <> sub_number))
              (record { flow = name; number = sub_number }))
          steps (write_options site options merged shared)
    ok (flow_spec c path number ++ specs, shared')

  -- The branch of a step that is not skipped, by its type.
  unfoldable pub visit_typed :
      (Around → String → Site → StepConfig → Visit)
      → Around
      → String
      → Site
      → StepConfig
      → Option Fields
      → Option String
      → Option String
      → Visit
  unfolding visit_task enter_flow
  visit_typed visit around number site c options (some name) flow shared = do
    spec ← visit_task p runtime name options c around number
    ok (spec ∷ [], shared)
  visit_typed visit around number site c options none (some name) shared =
      enter_flow visit around number site c options name shared
  visit_typed visit around number site c options none none shared = ok ([], shared)

  unfoldable pub visit_body :
      (Around → String → Site → StepConfig → Visit) → Around → String → Site → StepConfig → Visit
  unfolding options_at is_task_and_flow is_skipped skipped_spec visit_typed
  visit_body visit around number site c shared =
      let options = options_at shared site c.options in
      if is_task_and_flow c
      then err assertion_failed
      else if is_skipped skip c
      then ok (skipped_spec options c around number ∷ [], shared)
      else visit_typed visit around number site c options c.task c.flow shared

  -- The fuel is the number of flows that may be entered one in another.
  unfoldable pub visit_step : ℕ → Around → String → Site → StepConfig → Visit
  unfolding visit_body
  visit_step zero = visit_body (λ _ _ _ _ _. err out_of_fuel)
  visit_step (suc fuel) = visit_body (visit_step fuel)
