-- ===== src/Flow/Steps/Options.antt =====
-- Which options a task of a flow runs with.
use cumulus_ci.Prelude.{String, ◌≡◌, Option, arith, ok, if◌then◌else◌, Option-cases, inl, inr}
use cumulus_ci.Prelude.Dict
use cumulus_ci.Prelude.Dict.{Dict}
use cumulus_ci.Config.Value.{
  Value, Fields, get, has, update, IsKeyed, get-update, has-update, update-IsKeyed,
}
use cumulus_ci.Flow.Spec.{TaskConfig}
use cumulus_ci.Flow.Steps.{Around, or_empty, sub_options, task_options}

-- The first dictionary of the four that has the key.
abbrev pub first_with : String → Fields → Fields → Fields → Fields → Option Value
first_with k a b c d =
    if has k a then get k a else if has k b then get k b else if has k c then get k c else get k d

merged_options :
    (runtime : Dict Fields) (name : String) (t : TaskConfig) (options : Option Fields)
    (around : Around) (parent merged : Fields)
    → sub_options name around.options ≡ ok parent
    → task_options runtime name t options around ≡ ok merged
    → merged
      ≡ update
          (update (or_empty t.options) (update (or_empty options) parent))
          (or_empty (Dict.lookup name runtime))
unfolding task_options update
merged_options runtime name t options around parent merged found h =
    elim (Option-cases (Dict.lookup name runtime)) [
      | inl absent ↦ ground arith
      | inr (given, at) ↦ ground arith
    ]

-- An option of a task step has the value that the run gives it; if the run gives none, that of the
-- flow step around it; then that of the step; and then that of the task itself. Hypotheses: the
-- dictionaries of the run, the flow step and the step have each key once.
pub get-task_options :
    (runtime : Dict Fields) (name k : String) (t : TaskConfig) (options : Option Fields)
    (around : Around) (parent merged : Fields)
    → IsKeyed (or_empty (Dict.lookup name runtime))
    → IsKeyed parent
    → IsKeyed (or_empty options)
    → sub_options name around.options ≡ ok parent
    → task_options runtime name t options around ≡ ok merged
    → get k merged
      ≡ first_with k
          (or_empty (Dict.lookup name runtime))
          parent
          (or_empty options)
          (or_empty t.options)
get-task_options runtime name k t options around parent merged kg kp ko found h =
    let given = or_empty (Dict.lookup name runtime) in
    let step = update (or_empty options) parent in
    rw
      (
        merged_options runtime name t options around parent merged found h,
        get-update k (update (or_empty t.options) step) given kg,
        get-update k (or_empty t.options) step (update-IsKeyed (or_empty options) parent ko),
        get-update k (or_empty options) parent kp,
        has-update k (or_empty options) parent,
      )
      (ground arith)
