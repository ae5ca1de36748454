-- ===== src/Config/Steps.antt =====
-- Flow steps that one configuration overrides in another: `remove_overridden_flow_steps_in_config`
-- and its helpers in cumulusci/core/utils.py.
-- Steps and flows are dictionaries: where the Python code would look into a value that is none,
-- the model stops with `type_error`.
pub mod Types
use cumulus_ci.Prelude.{
  String, Bool, true, false, not, ◌&&◌, ◌||◌, Option, none, some, Result, ok, err, ◌>>=◌, ◌==◌,
  if◌then◌else◌,
}
use cumulus_ci.Config.Value.{Value, Fields, text, dict, end, field, get, has, put, remove}
use cumulus_ci.Config.Merge.{ConfigError, both_types_none, key_error, type_error}

-- The value is the text "None".
unfoldable pub is_none_text : Option Value → Bool
is_none_text (some (text s)) = s == "None"
is_none_text _ = false

unfoldable pub cleanup_old_flow_step_replace_syntax : Fields → Result ConfigError Fields
unfolding has get remove is_none_text
cleanup_old_flow_step_replace_syntax step =
    if has "task" step && has "flow" step
    then (if is_none_text (get "flow" step) && is_none_text (get "task" step)
        then err both_types_none
        else if is_none_text (get "flow" step)
        then ok (remove "flow" step)
        else ok (remove "task" step))
    else ok step

unfoldable pub steps_are_same_type : Fields → Fields → Bool
unfolding has
steps_are_same_type one two = if has "task" one then has "task" two else not (has "task" two)

-- The overriding step inherits the type, if it has none of its own.
inherit_type : Option Value → Option Value → Fields → Fields
unfolding put
inherit_type (some task) _ step = put "task" task step
inherit_type none (some flow) step = put "flow" flow step
inherit_type none none step = step

unfoldable pub link_missing_task_or_flow : Fields → Fields → Fields
unfolding inherit_type has get
link_missing_task_or_flow to_override overriding =
    if not (has "flow" overriding) && not (has "task" overriding)
    then inherit_type (get "task" to_override) (get "flow" to_override) overriding
    else overriding

-- The overridden step is emptied unless the types agree.
unfoldable pub override_step : Fields → Fields → Fields × Fields
unfolding link_missing_task_or_flow steps_are_same_type
override_step to_override overriding = (
  (if steps_are_same_type overriding to_override then to_override else end),
  link_missing_task_or_flow to_override overriding,
)

-- v[k] of Python, for a dictionary v
unfoldable pub item : String → Fields → Result ConfigError Value
unfolding get
item k d = elim (get k d) [ none ↦ err (key_error k) | some v ↦ ok v ]

unfoldable pub as_dict : Value → Result ConfigError Fields
as_dict (dict d) = ok d
as_dict _ = err type_error

-- The steps of a flow that the overridden configuration has; `none` if it has no such flow.
unfoldable pub steps_of : Fields → String → Result ConfigError (Option Fields)
unfolding has item as_dict
steps_of flows flow =
    if has flow flows
    then (do
      entry ← item flow flows
      config ← as_dict entry
      steps ← item "steps" config
      d ← as_dict steps
      ok (some d))
    else ok none

unfoldable pub config_has_flow_and_step_num : Fields → String → String → Result ConfigError Bool
unfolding steps_of
config_has_flow_and_step_num flows flow step_num = do
  steps ← steps_of flows flow
  ok (elim steps [ none ↦ false | some d ↦ has step_num d ])

-- flows[flow]["steps"][step_num] = step
unfoldable pub write_step : Fields → String → String → Fields → Result ConfigError Fields
unfolding item as_dict put
write_step flows flow step_num step = do
  entry ← item flow flows
  config ← as_dict entry
  steps ← item "steps" config
  d ← as_dict steps
  ok (put flow (dict (put "steps" (dict (put step_num (dict step) d)) config)) flows)

-- The body of the inner loop, for one overriding step: the flows of the overridden configuration
-- and the overriding step, as they are afterwards.
unfoldable pub remove_overridden_step :
    Fields → String → String → Fields → Result ConfigError (Fields × Fields)
unfolding cleanup_old_flow_step_replace_syntax config_has_flow_and_step_num override_step write_step
remove_overridden_step flows flow step_num step = do
  cleaned ← cleanup_old_flow_step_replace_syntax step
  present ← config_has_flow_and_step_num flows flow step_num
  (if present
      then (do
        steps ← steps_of flows flow
        entry ← item step_num (elim steps [ none ↦ end | some d ↦ d ])
        old ← as_dict entry
        let (emptied, linked) = override_step old cleaned
        flows' ←
            (if steps_are_same_type cleaned old
              then ok flows
              else write_step flows flow step_num emptied)
        ok (flows', linked))
      else ok (flows, cleaned))

-- `for (step_num, overriding_step_config) in flow_config.get("steps", {}).items()`
unfoldable pub remove_overridden_steps :
    Fields → String → Fields → Result ConfigError (Fields × Fields)
unfolding remove_overridden_step
remove_overridden_steps flows flow end = ok (flows, end)
remove_overridden_steps flows flow (field step_num (dict step) rest) = do
  (flows', step') ← remove_overridden_step flows flow step_num step
  (flows'', rest') ← remove_overridden_steps flows' flow rest
  ok (flows'', field step_num (dict step') rest')
remove_overridden_steps flows flow (field step_num _ rest) = err type_error

-- One flow of the overriding configuration. A flow with no "steps" is left as it is.
unfoldable pub remove_overridden_flow :
    Fields → String → Fields → Result ConfigError (Fields × Fields)
unfolding get as_dict put remove_overridden_steps
remove_overridden_flow flows flow config = elim (get "steps" config) [
  | none ↦ ok (flows, config)
  | some v ↦ do
    steps ← as_dict v
    (flows', steps') ← remove_overridden_steps flows flow steps
    ok (flows', put "steps" (dict steps') config)
]

-- `for flow, flow_config in overriding_config["flows"].items()`
unfoldable pub remove_overridden_flows : Fields → Fields → Result ConfigError (Fields × Fields)
unfolding remove_overridden_flow
remove_overridden_flows flows end = ok (flows, end)
remove_overridden_flows flows (field flow (dict config) rest) = do
  (flows', config') ← remove_overridden_flow flows flow config
  (flows'', rest') ← remove_overridden_flows flows' rest
  ok (flows'', field flow (dict config') rest')
remove_overridden_flows flows (field flow _ rest) = err type_error

-- The two configurations afterwards: the overridden one, then the overriding one.
unfoldable pub remove_overridden_flow_steps_in_config :
    Fields → Fields → Result ConfigError (Fields × Fields)
unfolding has item as_dict put remove_overridden_flows
remove_overridden_flow_steps_in_config to_override overriding =
    if not (has "flows" to_override) || not (has "flows" overriding)
    then ok (to_override, overriding)
    else (do
      lower ← item "flows" to_override
      lower_flows ← as_dict lower
      upper ← item "flows" overriding
      upper_flows ← as_dict upper
      (lower', upper') ← remove_overridden_flows lower_flows upper_flows
      ok (put "flows" (dict lower') to_override, put "flows" (dict upper') overriding))
