-- ===== src/Config/Layers.antt =====
-- The layers of configuration: `cleanup_flow_step_override_conflicts` and `merge_config` of
-- cumulusci/core/utils.py. Each layer is a dictionary.
pub mod Precedence
use cumulus_ci.Prelude.{
  String, List, [], ◌∷◌, Bool, ◌&&◌, Option, none, some, Result, ok, err, ◌>>=◌, if◌then◌else◌,
  ◌==◌,
}
use cumulus_ci.Prelude.Dict
use cumulus_ci.Prelude.Dict.{Dict}
use cumulus_ci.Config.Value.{Fields, end}
use cumulus_ci.Config.Merge.{ConfigError, merge_fields}
use cumulus_ci.Config.Steps.{remove_overridden_flow_steps_in_config}

abbrev pub precedence_order : List String
precedence_order =
    "additional_yaml" ∷ "project_local_config" ∷ "project_config" ∷ "global_config"
    ∷ "universal_config" ∷ "plugins_config" ∷ []

-- The test `c != {}` compares a name with a dictionary, and is always true.
unfoldable pub configs_present_and_not_empty : String → String → Dict Fields → Bool
unfolding Dict.has
configs_present_and_not_empty one two configs = Dict.has one configs && Dict.has two configs

-- One pair of layers: the lower one, then the one that overrides it.
unfoldable pub clean_pair : String → String → Dict Fields → Result ConfigError (Dict Fields)
unfolding configs_present_and_not_empty Dict.lookup Dict.insert
    remove_overridden_flow_steps_in_config
clean_pair lower upper configs =
    if configs_present_and_not_empty lower upper configs
    then (do
      (lower', upper') ←
          remove_overridden_flow_steps_in_config
            (elim (Dict.lookup lower configs) [ none ↦ end | some d ↦ d ])
            (elim (Dict.lookup upper configs) [ none ↦ end | some d ↦ d ])
      ok (Dict.insert upper upper' (Dict.insert lower lower' configs)))
    else ok configs

-- `for config_to_override in config_precedence_order`
unfoldable pub clean_lower : String → List String → Dict Fields → Result ConfigError (Dict Fields)
unfolding clean_pair
clean_lower upper [] configs = ok configs
clean_lower upper (lower ∷ rest) configs = do
  configs' ← clean_pair lower upper configs
  clean_lower upper rest configs'

-- The `while` loop: each layer in turn overrides those after it.
unfoldable pub clean_layers : List String → Dict Fields → Result ConfigError (Dict Fields)
unfolding clean_lower
clean_layers [] configs = ok configs
clean_layers (upper ∷ rest) configs = do
  configs' ← clean_lower upper rest configs
  clean_layers rest configs'

unfoldable pub cleanup_flow_step_override_conflicts : Dict Fields → Result ConfigError (Dict Fields)
unfolding clean_layers
cleanup_flow_step_override_conflicts configs = clean_layers precedence_order configs

-- `for name, config in cleaned_configs.items()`
unfoldable pub merge_layers : Fields → Dict Fields → Result ConfigError Fields
unfolding merge_fields
merge_layers merged [] = ok merged
merge_layers merged ((name, config) ∷ rest) = do
  merged' ← merge_fields name merged config
  merge_layers merged' rest

unfoldable pub merge_config : Dict Fields → Result ConfigError Fields
unfolding cleanup_flow_step_override_conflicts merge_layers
merge_config configs = do
  cleaned ← cleanup_flow_step_override_conflicts configs
  merge_layers end cleaned
