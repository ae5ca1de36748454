-- ===== src/Tasks/Objects.antt =====
-- `fixup_sobject_name` and `_validate_and_inject_namespace_prefixes` of BaseSalesforceTask in
-- cumulusci/core/tasks.py. The objects of the org are a function: none for a name that it does not have,
-- and otherwise whether the operation is allowed on it.
use cumulus_ci.Prelude.{
  Option, none, some, List, [], ◌∷◌, ◌++◌, Bool, true, false, not, ◌&&◌, nat_eq, if◌then◌else◌,
  Result, ok, err, length,
}
use cumulus_ci.Prelude.Text.{Text}
use cumulus_ci.Prelude.Text.Split.{split, mark}

pub data TaskError : Type 0 where
  task_options_error : List Text → TaskError

abbrev pub Describe : Type 0
Describe = Text → Option Bool

abbrev pub in_org : Describe → Text → Bool
in_org describe name = elim (describe name) [ none ↦ false | some allowed ↦ true ]

abbrev pub is_accessible : Describe → Text → Bool
is_accessible describe name = elim (describe name) [ none ↦ false | some allowed ↦ allowed ]

-- element.count("__") == 1
unfoldable pub is_injectable : Text → Bool
unfolding split
is_injectable element = nat_eq (length (split element).1) 1

unfoldable pub fixup_sobject_name : (Text → Text) → Describe → Text → Text
unfolding is_injectable
fixup_sobject_name inject describe sobject =
    if not (is_injectable sobject)
    then sobject
    else if not (in_org describe sobject) && in_org describe (inject sobject)
    then inject sobject
    else sobject

abbrev pub fixup_all : (Text → Text) → Describe → List Text → List Text
fixup_all inject describe [] = []
fixup_all inject describe (s ∷ ss) =
    fixup_sobject_name inject describe s ∷ fixup_all inject describe ss

unfoldable pub non_accessible : Describe → List Text → List Text
non_accessible describe [] = []
non_accessible describe (s ∷ ss) =
    let rest = non_accessible describe ss in if is_accessible describe s then rest else s ∷ rest

-- The names with the namespace, where there is one and it is wanted.
abbrev pub with_namespace : Bool → Option Text → Describe → List Text → List Text
with_namespace true (some (c ∷ ns)) describe ss =
    fixup_all (λ s. (c ∷ ns) ++ (mark ++ s)) describe ss
with_namespace true (some []) describe ss = ss
with_namespace true none describe ss = ss
with_namespace false namespace describe ss = ss

abbrev pub or_raise : List Text → List Text → Result TaskError (List Text)
or_raise [] ss = ok ss
or_raise (s ∷ missing) ss = err (task_options_error (s ∷ missing))

unfoldable pub validate_and_inject_namespace_prefixes :
    Bool → Option Text → Describe → List Text → Result TaskError (List Text)
unfolding fixup_sobject_name non_accessible
validate_and_inject_namespace_prefixes should_inject namespace describe sobjects =
    let ss : List Text = with_namespace should_inject namespace describe sobjects in
    or_raise (non_accessible describe ss) ss
