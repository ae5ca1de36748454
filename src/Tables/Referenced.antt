-- ===== src/Tables/Referenced.antt =====
-- The tables that an extract has to have as well, for the lookups of its tables:
-- cumulusci/tasks/bulkdata/extract_dataset_utils/calculate_dependencies.py. A declaration is its list
-- of fields, and no table is declared twice; where clauses are carried along and not modelled. The name
-- of the table in a dependency is the key it stands under. `not_extractable` is NOT_EXTRACTABLE.
-- The loop has fuel: each table of the schema is added at most once.
use cumulus_ci.Prelude.{
  String, ℕ, zero, suc, ◌+◌, Option, none, some, List, [], ◌∷◌, ◌++◌, Bool, true, false, not, ◌&&◌,
  ◌||◌, ◌==◌, if◌then◌else◌, contains, keep, length, Result, ok, err, ◌>>=◌,
}
use cumulus_ci.Prelude.Dict
use cumulus_ci.Prelude.Dict.{Dict}
pub mod Grows
pub mod Budget
pub mod Closed
pub mod Complete
pub mod Enough

pub record Field : Type 0 where
  pub name : String
  pub createable : Bool
  pub reference_to : List String
  pub required_on_create : Bool

pub record SObject : Type 0 where
  pub extractable : Bool
  pub fields : List Field

pub record SObjDependency : Type 0 where
  pub table_names_to : List String
  pub field_name : String
  pub priority : Bool

pub data ExtractError : Type 0 where
  key_error : ExtractError
  out_of_fuel : ExtractError

abbrev pub Schema : Type 0
Schema = Dict SObject

unfoldable pub find_field : String → List Field → Result ExtractError Field
find_field name [] = err key_error
find_field name (f ∷ fs) = let rest = find_field name fs in if f.name == name then ok f else rest

-- references.remove("RecordType"), of the first that is there
unfoldable pub without_record_type : List String → List String
without_record_type [] = []
without_record_type (r ∷ rs) =
    let rest = without_record_type rs in if r == "RecordType" then rs else r ∷ rest

abbrev pub is_empty : List String → Bool
is_empty [] = true
is_empty (r ∷ rs) = false

-- schema[source_sfobject]
abbrev pub fields_in : Option SObject → Result ExtractError (List Field)
fields_in none = err key_error
fields_in (some sobj) = ok sobj.fields

-- dependencies.update(...), of a dictionary with the one key if it has dependencies
abbrev pub set_dependencies :
    String → List SObjDependency → Dict (List SObjDependency) → Dict (List SObjDependency)
set_dependencies source [] dependencies = dependencies
set_dependencies source (d ∷ ds) dependencies = Dict.insert source (d ∷ ds) dependencies

pub record Extended : Type 0 where
  pub decls : Dict (List String)
  pub dependencies : Dict (List SObjDependency)
  pub to_process : List String

abbrev pub required_fields : List Field → List String
required_fields [] = []
required_fields (f ∷ fs) =
    let rest = required_fields fs in if f.required_on_create then f.name ∷ rest else rest

-- The table as the schema has it, where it can be extracted.
abbrev pub if_extractable : Option SObject → Option SObject
if_extractable none = none
if_extractable (some sobj) = if sobj.extractable then some sobj else none

abbrev pub found_dependencies : Option (List SObjDependency) → List SObjDependency
found_dependencies none = []
found_dependencies (some ds) = ds

abbrev pub last_first : Dict (List String) → List String → List String
last_first [] stack = stack
last_first ((table, fields) ∷ decls) stack = last_first decls (table ∷ stack)

abbrev pub with_table : String → SObject → List SObjDependency → Extended → Extended
with_table target sobj ds e = record {
  decls = Dict.insert target (required_fields sobj.fields) e.decls;
  dependencies = set_dependencies target ds e.dependencies;
  to_process = target ∷ e.to_process;
}

module _ (not_extractable : List String) where
  abbrev pub targets_of : Field → List String
  targets_of f = keep (λ t. not (contains not_extractable t)) (without_record_type f.reference_to)

  -- The body of the loop over the fields, for one field.
  unfoldable pub dependency_of : Bool → Field → List SObjDependency
  unfolding without_record_type
  dependency_of only_required_fields f =
      let found : SObjDependency = record {
        table_names_to = targets_of f;
        field_name = f.name;
        priority = f.required_on_create;
      } in
      if not f.createable || is_empty (without_record_type f.reference_to)
      then []
      else if f.required_on_create || not (only_required_fields || is_empty (targets_of f))
      then found ∷ []
      else []

  unfoldable pub collect_fields :
      List Field → Bool → List String → Result ExtractError (List SObjDependency)
  unfolding find_field dependency_of
  collect_fields fields only_required_fields [] = ok []
  collect_fields fields only_required_fields (name ∷ names) = do
    f ← find_field name fields
    rest ← collect_fields fields only_required_fields names
    ok (dependency_of only_required_fields f ++ rest)

  -- `_collect_dependencies_for_sobject`: where there are no fields, the schema is not looked at
  unfoldable pub collect_dependencies :
      Schema → String → List String → Bool → Result ExtractError (List SObjDependency)
  unfolding collect_fields Dict.lookup
  collect_dependencies schema source [] only_required_fields = ok []
  collect_dependencies schema source (name ∷ names) only_required_fields =
      fields_in (Dict.lookup source schema) >>= λ fields.
      collect_fields fields only_required_fields (name ∷ names)

  unfoldable pub declared_dependencies :
      Schema
      → Dict (List String)
      → Dict (List SObjDependency)
      → Result ExtractError (Dict (List SObjDependency))
  unfolding collect_dependencies Dict.insert
  declared_dependencies schema [] dependencies = ok dependencies
  declared_dependencies schema ((source, fields) ∷ decls) dependencies = do
    ds ← collect_dependencies schema source fields false
    declared_dependencies schema decls (set_dependencies source ds dependencies)

  unfoldable pub target_object : Schema → String → Option SObject
  unfolding Dict.lookup contains
  target_object schema target =
      if contains not_extractable target then none else if_extractable (Dict.lookup target schema)

  -- A table that is added, with what it requires in turn.
  unfoldable pub add_table : Schema → String → SObject → Extended → Result ExtractError Extended
  unfolding collect_dependencies Dict.insert
  add_table schema target sobj e =
      collect_dependencies schema target (required_fields sobj.fields) true >>= λ ds.
      ok (with_table target sobj ds e)

  abbrev pub add_if :
      Schema → String → Bool → Option SObject → Extended → Result ExtractError Extended
  add_if schema target true object e = ok e
  add_if schema target false none e = ok e
  add_if schema target false (some sobj) e = add_table schema target sobj e

  -- The loop over the tables that a dependency names.
  unfoldable pub add_targets : Schema → List String → Extended → Result ExtractError Extended
  unfolding add_table target_object Dict.has
  add_targets schema [] e = ok e
  add_targets schema (target ∷ targets) e =
      add_if schema target (Dict.has target e.decls) (target_object schema target) e >>= λ e'.
      add_targets schema targets e'

  unfoldable pub add_dependencies :
      Schema → List SObjDependency → Extended → Result ExtractError Extended
  unfolding add_targets
  add_dependencies schema [] e = ok e
  add_dependencies schema (d ∷ ds) e =
      add_targets schema d.table_names_to e >>= λ e'. add_dependencies schema ds e'

  -- `while to_process`: the end of Python's list is at the front here.
  unfoldable pub extend_loop : ℕ → Schema → Extended → Result ExtractError Extended
  unfolding add_dependencies Dict.lookup
  extend_loop zero schema e = if is_empty e.to_process then ok e else err out_of_fuel
  extend_loop (suc fuel) schema e = elim e.to_process [
    | [] ↦ ok e
    | t ∷ ts ↦
        add_dependencies schema (found_dependencies (Dict.lookup t e.dependencies))
          (record e { to_process = ts })
        >>= λ e'. extend_loop fuel schema e'
  ]

  -- Each turn takes a table from the list, and each table comes on it once.
  unfoldable pub extend_declarations :
      Schema → Dict (List String) → Result ExtractError (Dict (List String))
  unfolding declared_dependencies extend_loop
  extend_declarations schema decls = do
    dependencies ← declared_dependencies schema decls []
    extended ←
        extend_loop (length decls + length schema) schema
          (record { decls = decls; dependencies = dependencies; to_process = last_first decls [] })
    ok extended.decls
