-- ===== src/Config/Steps/Types.antt =====
-- After the clean-up a merged flow step has one type: the purpose that the comment on
-- `cleanup_flow_step_override_conflicts` states.
use cumulus_ci.Prelude.{
  ◌⊎◌, if◌then◌else◌, String, ◌≡◌, true, false, ◌&&◌, ◌||◌, none, some, arith, ok, >>=-eq-ok,
  Bool-cases, inl, inr, Option-cases, sym, ◌∙◌,
}
use cumulus_ci.Config.Value.{
  Value, Fields, end, field, get, has, put, IsKeyed, has-put, has-remove_self, get-eq-none,
  get_of_has,
}
use cumulus_ci.Config.Merge.{dictmerge, merge_fields}
use cumulus_ci.Config.Merge.Laws.{merge_fields_new, merge_fields_both}
use cumulus_ci.Config.Steps.{cleanup_old_flow_step_replace_syntax, override_step}

-- The keys of a merged dictionary are those of the two.
pub has-merge_fields :
    (name : String) (d e m : Fields) (k : String)
    → merge_fields name d e ≡ ok m
    → has k m ≡ (has k d || has k e)
unfolding merge_fields has
has-merge_fields name d end m k h = ground arith
has-merge_fields name d (field i w e) m k h = elim (Option-cases (get i d)) [
  | inl absent ↦ ground (
    arith,
    has-merge_fields name (put i w d) e m k (sym (merge_fields_new name i w d e absent) ∙ h),
    has-put i k w d,
  )
  | inr (v, present) ↦
      let (x, merged, rest) =
        >>=-eq-ok (dictmerge name v w) (λ y. merge_fields name (put i y d) e)
          (sym (merge_fields_both name i v w d e present) ∙ h) in
      ground (arith, has-merge_fields name (put i x d) e m k rest, has-put i k x d)
]

abbrev pub HasOneType : Fields → Type 0
HasOneType step = (has "task" step && has "flow" step) ≡ false

-- Removing the old replacement syntax leaves at most one type.
pub cleanup-HasOneType :
    (step cleaned : Fields)
    → IsKeyed step
    → cleanup_old_flow_step_replace_syntax step ≡ ok cleaned
    → HasOneType cleaned
unfolding cleanup_old_flow_step_replace_syntax
cleanup-HasOneType step cleaned keyed h =
    ground (arith, has-remove_self "task" step keyed, has-remove_self "flow" step keyed)

-- The presence of a key, as the two forms of its entry.
entry-cases :
    (k : String) (d : Fields)
    → (has k d ≡ false) × (get k d ≡ none) ⊎ (has k d ≡ true) × ((v : Value) × (get k d ≡ some v))
entry-cases k d = elim (Bool-cases (has k d)) [
  | inl there ↦ inr (there, get_of_has k d there)
  | inr absent ↦ inl (absent, get-eq-none k d absent)
]

-- No key of the two steps that `override_step` leaves is a type that the other has not.
abbrev pub HaveOneType : Fields → Fields → Type 0
HaveOneType one two =
    ((has "task" one || has "task" two) && (has "flow" one || has "flow" two)) ≡ false

override_step-HaveOneType :
    (to_override overriding : Fields)
    → HasOneType to_override
    → HasOneType overriding
    → HaveOneType (override_step to_override overriding).0 (override_step to_override overriding).1
unfolding override_step
override_step-HaveOneType t o h k = elim (entry-cases "task" t) [
  | inl (no_task, no_entry) ↦ elim (entry-cases "flow" t) [
    | inl (no_flow, none_too) ↦ ground arith
    | inr (flow, (v, entry)) ↦ ground (arith, has-put "flow" "task" v o, has-put "flow" "flow" v o)
  ]
  | inr (task, (v, entry)) ↦ ground (arith, has-put "task" "task" v o, has-put "task" "flow" v o)
]

-- Whatever types a step has in the overridden and in the overriding configuration, the step that
-- is merged from them after the clean-up does not have both a task and a flow. Hypotheses: the
-- overridden step does not have both, and neither the clean-up nor the merge raises.
pub merged_step-HasOneType :
    (name : String) (to_override overriding cleaned merged : Fields)
    → IsKeyed overriding
    → HasOneType to_override
    → cleanup_old_flow_step_replace_syntax overriding ≡ ok cleaned
    → merge_fields name (override_step to_override cleaned).0 (override_step to_override cleaned).1
      ≡ ok merged
    → HasOneType merged
merged_step-HasOneType name t o cleaned m keyed one clean merged =
    let (lower, upper) = override_step t cleaned in
    let types : HaveOneType lower upper =
      override_step-HaveOneType t cleaned one (cleanup-HasOneType o cleaned keyed clean) in
    rw
      (
        has-merge_fields name lower upper m "task" merged,
        has-merge_fields name lower upper m "flow" merged,
      )
      types

-- An overriding step with no type of its own empties the step that it overrides where that is a
-- task, and leaves it as it is where that is a flow.
pub override_step_untyped :
    (to_override overriding : Fields)
    → has "task" overriding ≡ false
    → has "flow" overriding ≡ false
    → (override_step to_override overriding).0
      ≡ (if has "task" to_override then end else to_override)
unfolding override_step
override_step_untyped t o h k = ground arith
