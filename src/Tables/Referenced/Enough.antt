-- ===== src/Tables/Referenced/Enough.antt =====
-- The fuel of the loop over the tables is enough.
use cumulus_ci.Prelude.{
  String, ℕ, zero, suc, ◌+◌, ◌≤◌, ◌≡◌, refl, sym, ap, subst, Option, none, some, inl, inr, List, [],
  ◌∷◌, Bool, true, false, Bool-cases, ◌==◌, if◌then◌else◌, Result, ok, err, Avoids, Avoids-bind,
  length, arith, ◌++◌,
}
use cumulus_ci.Prelude.Dict
use cumulus_ci.Prelude.Dict.{Dict}
use cumulus_ci.Tables.Referenced.{
  Field, SObject, SObjDependency, ExtractError, key_error, out_of_fuel, find_field, collect_fields,
  dependency_of, fields_in, Schema, is_empty, collect_dependencies, Extended, with_table,
  required_fields, target_object, add_table, add_if, add_targets, add_dependencies,
  found_dependencies, extend_loop, set_dependencies, declared_dependencies, last_first,
  extend_declarations,
}
use cumulus_ci.Tables.Referenced.Closed.{turn, extend_loop-turn}
use cumulus_ci.Tables.Referenced.Budget.{
  unseen-le, length-last_first, budget, add_dependencies-budget,
}

module _ (not_extractable : List String) (schema : Schema) where
  ok-Avoids : {A : Type 0} (a : A) → Avoids {E = ExtractError} out_of_fuel (ok a)
  ok-Avoids a h = ground arith

  key_error-Avoids : {A : Type 0} → Avoids {A = A} out_of_fuel (err key_error)
  key_error-Avoids h = ground arith

  find_field-Avoids :
      (name : String) (fields : List Field) → Avoids out_of_fuel (find_field name fields)
  unfolding find_field
  find_field-Avoids name [] = key_error-Avoids
  find_field-Avoids name (f ∷ fs) = elim (Bool-cases (f.name == name)) [
    | inl here ↦ rw here (ok-Avoids f)
    | inr other ↦ rw other (find_field-Avoids name fs)
  ]

  collect_fields-Avoids :
      (fields : List Field) (only : Bool) (names : List String)
      → Avoids out_of_fuel (collect_fields not_extractable fields only names)
  unfolding collect_fields
  collect_fields-Avoids fields only [] = ok-Avoids []
  collect_fields-Avoids fields only (name ∷ names) =
      Avoids-bind out_of_fuel (find_field name fields) _ (find_field-Avoids name fields) λ f got.
        Avoids-bind out_of_fuel (collect_fields not_extractable fields only names) _
          (collect_fields-Avoids fields only names)
          λ ds more. ok-Avoids (dependency_of not_extractable only f ++ ds)

  fields_in-Avoids : (object : Option SObject) → Avoids out_of_fuel (fields_in object)
  fields_in-Avoids none = key_error-Avoids
  fields_in-Avoids (some sobj) = ok-Avoids sobj.fields

  collect_dependencies-Avoids :
      (source : String) (names : List String) (only : Bool)
      → Avoids out_of_fuel (collect_dependencies not_extractable schema source names only)
  unfolding collect_dependencies
  collect_dependencies-Avoids source [] only = ok-Avoids []
  collect_dependencies-Avoids source (name ∷ names) only =
      Avoids-bind out_of_fuel (fields_in (Dict.lookup source schema)) _
        (fields_in-Avoids (Dict.lookup source schema))
        λ fields got. collect_fields-Avoids fields only (name ∷ names)

  add_if-Avoids :
      (target : String) (b : Bool) (object : Option SObject) (e : Extended)
      → Avoids out_of_fuel (add_if not_extractable schema target b object e)
  unfolding add_table
  add_if-Avoids target true object e = ok-Avoids e
  add_if-Avoids target false none e = ok-Avoids e
  add_if-Avoids target false (some sobj) e =
      Avoids-bind out_of_fuel
        (collect_dependencies not_extractable schema target (required_fields sobj.fields) true) _
        (collect_dependencies-Avoids target (required_fields sobj.fields) true)
        λ ds got. ok-Avoids (with_table target sobj ds e)

  add_targets-Avoids :
      (targets : List String) (e : Extended)
      → Avoids out_of_fuel (add_targets not_extractable schema targets e)
  unfolding add_targets
  add_targets-Avoids [] e = ok-Avoids e
  add_targets-Avoids (target ∷ targets) e =
      Avoids-bind out_of_fuel
        (add_if not_extractable schema target (Dict.has target e.decls)
          (target_object not_extractable schema target) e)
        _
        (add_if-Avoids target (Dict.has target e.decls)
          (target_object not_extractable schema target) e)
        λ mid got. add_targets-Avoids targets mid

  add_dependencies-Avoids :
      (ds : List SObjDependency) (e : Extended)
      → Avoids out_of_fuel (add_dependencies not_extractable schema ds e)
  unfolding add_dependencies
  add_dependencies-Avoids [] e = ok-Avoids e
  add_dependencies-Avoids (d ∷ ds) e =
      Avoids-bind out_of_fuel (add_targets not_extractable schema d.table_names_to e) _
        (add_targets-Avoids d.table_names_to e) λ mid got. add_dependencies-Avoids ds mid

  -- One turn uses up a part of the budget not_extractable schema.
  turn-Avoids :
      (fuel : ℕ) (stack : List String) (next : Extended → Result ExtractError Extended)
      (e : Extended)
      → e.to_process ≡ stack
      → budget not_extractable schema e ≤ suc fuel
      → ((m : Extended) → budget not_extractable schema m ≤ fuel → Avoids out_of_fuel (next m))
      → Avoids out_of_fuel (turn not_extractable schema stack next e)
  unfolding turn
  turn-Avoids fuel [] next e empty enough later = ok-Avoids e
  turn-Avoids fuel (t ∷ ts) next e stack enough later =
      let ds : List SObjDependency = found_dependencies (Dict.lookup t e.dependencies) in
      let popped : Extended = record e { to_process = ts } in
      let one_less : suc (length ts) ≡ length e.to_process = sym (ap length stack) in
      Avoids-bind out_of_fuel (add_dependencies not_extractable schema ds popped) next
        (add_dependencies-Avoids ds popped)
        λ mid got. later mid (
          omega (
            arith,
            add_dependencies-budget not_extractable schema ds popped mid got,
            one_less,
            enough,
          ))

  pub extend_loop-Avoids :
      (fuel : ℕ) (e : Extended)
      → budget not_extractable schema e ≤ fuel
      → Avoids out_of_fuel (extend_loop not_extractable fuel schema e)
  unfolding extend_loop
  extend_loop-Avoids zero e enough = by_stack e.to_process (omega (arith, enough))
    where
      by_stack :
          (stack : List String)
          → length stack ≤ 0
          → Avoids out_of_fuel (if is_empty stack then ok e else err out_of_fuel)
      by_stack [] few = ok-Avoids e
      by_stack (t ∷ ts) few = λ h. ground (arith, few)
  extend_loop-Avoids (suc fuel) e enough =
      subst (Avoids out_of_fuel) (sym (extend_loop-turn not_extractable schema fuel e)) (
        turn-Avoids fuel e.to_process (extend_loop not_extractable fuel schema) e refl enough
          λ m less. extend_loop-Avoids fuel m less)

  declared_dependencies-Avoids :
      (decls : Dict (List String)) (dependencies : Dict (List SObjDependency))
      → Avoids out_of_fuel (declared_dependencies not_extractable schema decls dependencies)
  unfolding declared_dependencies
  declared_dependencies-Avoids [] dependencies = ok-Avoids dependencies
  declared_dependencies-Avoids ((source, fields) ∷ decls) dependencies =
      Avoids-bind out_of_fuel (collect_dependencies not_extractable schema source fields false) _
        (collect_dependencies-Avoids source fields false)
        λ ds got. declared_dependencies-Avoids decls (set_dependencies source ds dependencies)

  -- The search for the tables that are referred to comes to its end: the fuel, the number of the
  -- declarations and of the tables in the schema, is enough whatever they refer to.
  pub extend_declarations-Avoids :
      (decls : Dict (List String))
      → Avoids out_of_fuel (extend_declarations not_extractable schema decls)
  unfolding extend_declarations
  extend_declarations-Avoids decls =
      Avoids-bind out_of_fuel (declared_dependencies not_extractable schema decls []) _
        (declared_dependencies-Avoids decls [])
        λ dependencies got.
          let start : Extended = record {
            decls = decls;
            dependencies = dependencies;
            to_process = last_first decls [];
          } in
          Avoids-bind out_of_fuel
            (extend_loop not_extractable (length decls + length schema) schema start) _
            (extend_loop-Avoids (length decls + length schema) start
              (omega (arith, length-last_first decls [], unseen-le schema decls)))
            λ extended done. ok-Avoids extended.decls
