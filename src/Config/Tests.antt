-- ===== src/Config/Tests.antt =====
-- Concrete configurations, for the theorems on merging and cleaning them and on options.
use cumulus_ci.Prelude.{
  ◌≡◌, refl, none, some, [], ◌∷◌, ◌++◌, false, not, ◌&&◌, ◌||◌, ◌==◌, Result, ok, err, contains,
  if◌then◌else◌,
}
use cumulus_ci.Config.Value.{
  Value, Fields, null, num, text, list, dict, end, field, get, has, cons, nil,
}
use cumulus_ci.Config.Merge.{ConfigError, dictmerge, merge_fields}
use cumulus_ci.Config.Merge.Laws.{Slot, merge_fields-Slot}
use cumulus_ci.Config.Merge.Paths.{here, there, Shows, at_end, under, later_wins}
use cumulus_ci.Config.Steps.{cleanup_old_flow_step_replace_syntax, override_step}
use cumulus_ci.Config.Steps.Types.{HasOneType, merged_step-HasOneType, override_step_untyped}
use cumulus_ci.Config.Layers.{merge_layers}
use cumulus_ci.Config.Layers.Precedence.{last_layer_wins}
use cumulus_ci.Config.Options.Plugins.{
  deep_merge_plugins, fill_gaps, filled, get-fill_gaps, remote_wins,
}
use cumulus_ci.Config.Options.Managed.{
  ManagedContext, determine_managed_mode, determine_managed_mode_iff, names_package, namespace_of,
}

abbrev fields_of : Result ConfigError Fields → Fields
fields_of (ok m) = m
fields_of (err e) = end

abbrev value_of : Result ConfigError Value → Value
value_of (ok v) = v
value_of (err e) = null

abbrev lower : Fields
lower =
    field "project" (dict (field "name" (text "Base") end))
      (field "tags" (list (cons (num 1) nil)) end)

abbrev upper : Fields
upper =
    field "project" (dict (field "name" (text "Mine") end))
      (field "tags" (list (cons (num 2) nil)) end)

abbrev merged : Result ConfigError Fields
merged = merge_fields "local" lower upper

merged-ok : merged ≡ ok (fields_of merged)
unfolding merge_fields
merged-ok = refl

merge_fields-Slot_example :
    Slot "local" (get "tags" lower) (get "tags" upper) (get "tags" (fields_of merged))
unfolding has
merge_fields-Slot_example =
    merge_fields-Slot "local" lower upper (fields_of merged) (refl, (refl, tt)) merged-ok "tags"

abbrev merged_value : Result ConfigError Value
merged_value = dictmerge "local" (dict lower) (dict upper)

merged_value-ok : merged_value ≡ ok (value_of merged_value)
unfolding dictmerge
merged_value-ok = refl

later_wins_example : Shows (text "Mine") ("project" ∷ "name" ∷ []) (value_of merged_value)
unfolding get has
later_wins_example =
    later_wins "local" (dict lower) (value_of merged_value)
      (there "project" upper (dict (field "name" (text "Mine") end)) (refl, (refl, tt)) refl
        (there "name" (field "name" (text "Mine") end) (text "Mine") (refl, tt) refl (here tt)))
      tt merged_value-ok

abbrev universal : Fields
universal = field "version" (num 1) end

abbrev project : Fields
project = field "version" (num 2) end

abbrev other_keys : Fields
other_keys = field "name" (text "x") end

abbrev layered : Result ConfigError Fields
layered = merge_layers end (
    (("universal_config", universal) ∷ [])
    ++ ("project_config", project) ∷ ("local", other_keys) ∷ [])

layered-ok : layered ≡ ok (fields_of layered)
unfolding merge_layers
layered-ok = refl

last_layer_wins_example : get "version" (fields_of layered) ≡ some (num 2)
unfolding get has
last_layer_wins_example =
    last_layer_wins "version" "project_config" end project (fields_of layered) (num 2)
      (("universal_config", universal) ∷ []) (("local", other_keys) ∷ []) tt ((refl, tt), tt)
      (tt, tt) (refl, tt) refl tt ((refl, tt), tt) (refl, tt) layered-ok

-- A flow step that is overridden with a task.
abbrev flow_entry : Fields
flow_entry = field "flow" (text "config") (field "options" (dict end) end)

abbrev task_entry : Fields
task_entry = field "task" (text "deploy") end

abbrev cleaned : Result ConfigError Fields
cleaned = cleanup_old_flow_step_replace_syntax task_entry

cleaned-ok : cleaned ≡ ok (fields_of cleaned)
unfolding cleanup_old_flow_step_replace_syntax
cleaned-ok = refl

abbrev overridden : Fields × Fields
overridden = override_step flow_entry (fields_of cleaned)

abbrev step_merged : Result ConfigError Fields
step_merged = merge_fields "local" overridden.0 overridden.1

step_merged-ok : step_merged ≡ ok (fields_of step_merged)
unfolding merge_fields override_step cleanup_old_flow_step_replace_syntax
step_merged-ok = refl

merged_step-HasOneType_example : HasOneType (fields_of step_merged)
unfolding has
merged_step-HasOneType_example =
    merged_step-HasOneType "local" flow_entry task_entry (fields_of cleaned) (fields_of step_merged)
      (refl, tt) refl cleaned-ok step_merged-ok

-- An override that only sets a condition loses the task's own options.
abbrev optional_step : Fields
optional_step =
    field "task" (text "deploy") (field "options" (dict (field "path" (text "src") end)) end)

override_step_untyped_test :
    (override_step optional_step (field "when" (text "scratch") end)).0
    ≡ (if has "task" optional_step then end else optional_step)
unfolding has
override_step_untyped_test =
    override_step_untyped optional_step (field "when" (text "scratch") end) refl refl

get-fill_gaps_example :
    get "project" (fill_gaps lower upper) ≡ filled (get "project" lower) (get "project" upper)
unfolding has
get-fill_gaps_example = get-fill_gaps lower upper (refl, (refl, tt)) "project"

remote_wins_example :
    Shows (text "Base") ("project" ∷ "name" ∷ []) (deep_merge_plugins (dict lower) (dict upper))
unfolding get
remote_wins_example = remote_wins ("project" ∷ "name" ∷ []) (dict lower) (dict upper) tt (
    under "project" lower (dict (field "name" (text "Base") end)) refl
      (under "name" (field "name" (text "Base") end) (text "Base") refl at_end))

abbrev org : ManagedContext
org = record {
  managed = none;
  unmanaged = none;
  package_name = "Pkg";
  project_namespace = "ns";
  option_namespace = "";
  installed_packages = "ns" ∷ [];
  org_namespace = none;
}

determine_managed_mode_iff_test :
    determine_managed_mode org
    ≡ ok (
        not (org.package_name == "") && names_package org.package_name org.installed_packages
        || not (namespace_of org == "")
          && contains org.installed_packages (namespace_of org)
          && not (elim org.org_namespace [ none ↦ false | some n ↦ namespace_of org == n ]))
determine_managed_mode_iff_test = determine_managed_mode_iff org refl refl
