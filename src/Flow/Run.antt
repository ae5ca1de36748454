-- ===== src/Flow/Run.antt =====
-- Running a plan: `TaskRunner.run_step`, `FlowCoordinator._run_step` and `FlowCoordinator.run`,
-- with the return values that options may name. Tasks and conditions belong to the world: they
-- are functions of what has run so far. A condition may raise, when jinja2 compiles its expression
-- or evaluates it. The callbacks do not raise and do not change the steps, and messages to the log
-- are not modelled.
pub mod Text
pub mod Course
pub mod Events
pub mod Skipping
use package.text.Mathlib.Text.{starts_with}
use cumulus_ci.Prelude.{
  String, List, [], ◌∷◌, ◌++◌, Option, none, some, Bool, true, false, not, ◌&&◌, ◌||◌, any, Result,
  ok, err, ◌>>=◌, ◌==◌, if◌then◌else◌, ◌<>◌,
}
use cumulus_ci.Config.Value.{
  Value, Fields, null, bool, num, text, list, dict, other, end, field, get,
}
use cumulus_ci.Flow.Spec.{
  FlowError, assertion_failed, name_error, value_error, condition_error, task_exception, StepSpec,
}
use cumulus_ci.Flow.Run.Text.{strip_prefix, last_dot, ends_with}

pub record StepResult : Type 0 where
  pub step_num : String
  pub task_name : String
  pub path : String
  pub result : Value
  pub return_values : Fields
  pub exception : Option String

-- What becomes of a task: its constructor raises, or it is called, and may raise then.
pub data Execution : Type 0 where
  refused : String → Execution
  ran : Value → Fields → Option String → Execution

-- Whether what a condition evaluates to is true, or the message of the exception.
pub record World : Type 0 where
  pub evaluate : List StepResult → String → Result String Bool
  pub execute : List StepResult → StepSpec → Fields → Execution

-- The callbacks, in the order in which they are called.
pub data Event : Type 0 where
  pre_flow : Event
  post_flow : Event
  pre_task : StepSpec → Event
  post_task : StepSpec → StepResult → Event

unfoldable pub find_result_by_path : List StepResult → String → Result FlowError StepResult
unfolding ends_with
find_result_by_path [] path = err (name_error path)
find_result_by_path (r ∷ results) path =
    if ends_with r.path path then ok r else find_result_by_path results path

-- One option value: `^^path.name` stands for a value that an earlier task returned.
unfoldable pub resolve_value : List StepResult → Value → Result FlowError Value
unfolding strip_prefix last_dot find_result_by_path get
resolve_value results (text s) = elim (strip_prefix "^^" s) [
  | none ↦ ok (text s)
  | some rest ↦ elim (last_dot rest) [
    | none ↦ err value_error
    | some (path, name) ↦ (do
      r ← find_result_by_path results path
      ok (elim (get name r.return_values) [ none ↦ null | some v ↦ v ]))
  ]
]
resolve_value results v = ok v

unfoldable pub resolve_return_value_options : List StepResult → Fields → Result FlowError Fields
unfolding resolve_value
resolve_return_value_options results end = ok end
resolve_return_value_options results (field k v options) = do
  v' ← resolve_value results v
  options' ← resolve_return_value_options results options
  ok (field k v' options')

-- TaskRunner.run_step
unfoldable pub run_task : World → List StepResult → StepSpec → Result FlowError StepResult
unfolding resolve_return_value_options
run_task world results s = do
  options ← resolve_return_value_options results s.task_config.options
  (elim s.task_class [
    | none ↦ err assertion_failed
    | some class ↦ elim (world.execute results s options) [
      | refused e ↦ err (task_exception e)
      | ran value values exception ↦ ok (record {
        step_num = s.step_num;
        task_name = s.task_name;
        path = s.path;
        result = value;
        return_values = values;
        exception = exception;
      })
    ]
  ])

abbrev pub or_condition_error : Result String Bool → Result FlowError Bool
or_condition_error (err e) = err (condition_error e)
or_condition_error (ok holds) = ok holds

unfoldable pub evaluate_flow_step : World → List StepResult → StepSpec → Result FlowError Bool
evaluate_flow_step world results s = elim s.when [
  | none ↦ ok true
  | some condition ↦
      if condition == "" then ok true else or_condition_error (world.evaluate results condition)
]

-- How a step or a run ends, with the results and the callbacks that it adds.
pub record Progress : Type 0 where
  pub outcome : Result FlowError (Unit {0})
  pub results : List StepResult
  pub events : List Event

abbrev pub nothing : Progress
nothing = record { outcome = ok tt; results = []; events = [] }

abbrev pub broken_off : FlowError → Progress
broken_off e = record { outcome = err e; results = []; events = [] }

-- The result of a task that came to an end is kept, also when it failed.
unfoldable pub finish_step : StepSpec → Result FlowError StepResult → Progress
finish_step s (err e) = record { outcome = err e; results = []; events = pre_task s ∷ [] }
finish_step s (ok r) = record {
  outcome = elim r.exception [
    | none ↦ ok tt
    | some e ↦ if s.allow_failure then ok tt else err (task_exception e)
  ];
  results = r ∷ [];
  events = pre_task s ∷ post_task s r ∷ [];
}

abbrev pub run_if : World → List StepResult → StepSpec → Result FlowError Bool → Progress
run_if world results s (err e) = broken_off e
run_if world results s (ok false) = nothing
run_if world results s (ok true) = finish_step s (run_task world results s)

-- FlowCoordinator._run_step
unfoldable pub run_step : World → List StepResult → StepSpec → Progress
unfolding evaluate_flow_step run_task finish_step
run_step world results s =
    if s.skip then nothing else run_if world results s (evaluate_flow_step world results s)

abbrev pub skipped_unless : Bool → String → List String → List String
skipped_unless true path skipped = skipped
skipped_unless false path skipped = path ∷ skipped

-- The paths of the flows whose condition fails before anything runs.
unfoldable pub skipped_flows : World → List StepSpec → Result FlowError (List String)
unfolding evaluate_flow_step
skipped_flows world [] = ok []
skipped_flows world (s ∷ steps) =
    let rest = skipped_flows world steps in
    if s.is_flow
    then (do
      holds ← evaluate_flow_step world [] s
      skipped ← rest
      ok (skipped_unless holds s.path skipped))
    else rest

unfoldable pub is_task_in_skipped_flow : String → List String → Bool
is_task_in_skipped_flow path skipped = any (λ flow. starts_with path (flow <> ".")) skipped

-- One round of the main loop.
unfoldable pub visit_planned : World → List String → List StepResult → StepSpec → Progress
unfolding run_step is_task_in_skipped_flow
visit_planned world skipped results s =
    if s.is_flow || is_task_in_skipped_flow s.path skipped
    then nothing
    else run_step world results s

-- What the rest of the loop adds; an exception ends the loop.
unfoldable pub and_then : Progress → Progress → Progress
and_then first rest = elim first.outcome [
  | err e ↦ first
  | ok _ ↦ record {
    outcome = rest.outcome;
    results = first.results ++ rest.results;
    events = first.events ++ rest.events;
  }
]

unfoldable pub run_steps : World → List String → List StepResult → List StepSpec → Progress
unfolding visit_planned and_then
run_steps world skipped results [] = nothing
run_steps world skipped results (s ∷ steps) =
    let first = visit_planned world skipped results s in
    and_then first (run_steps world skipped (results ++ first.results) steps)

-- The body of the `try`: the conditions of the flows, then the main loop.
abbrev pub run_unless_raised : World → List StepSpec → Result FlowError (List String) → Progress
run_unless_raised world steps (err e) = broken_off e
run_unless_raised world steps (ok skipped) = run_steps world skipped [] steps

-- FlowCoordinator.run: `post_flow` is called whether the body ends well or raises.
unfoldable pub run : World → List StepSpec → Progress
unfolding skipped_flows run_steps
run world steps =
    let body = run_unless_raised world steps (skipped_flows world steps) in
    record {
      outcome = body.outcome;
      results = body.results;
      events = pre_flow ∷ (body.events ++ post_flow ∷ []);
    }
