-- ===== src/Tables/Sort.antt =====
-- `_sort_by_dependencies` of
-- cumulusci/tasks/bulkdata/generate_mapping_utils/dependency_map.py.
-- A table depends on others through its lookups, each with a priority. `least` gives the first of
-- the sorted names, from one name and the others: Python's order on texts, a parameter.
-- The loop has fuel, and so has the rise to higher priorities, `levels`.
use cumulus_ci.Prelude.{
  String, ℕ, zero, suc, ◌+◌, ◌*◌, Option, none, some, List, [], ◌∷◌, ◌++◌, Bool, true, false, not,
  ◌&&◌, ◌||◌, ◌==◌, if◌then◌else◌, contains, all, keep, length, ltb, nat_eq,
}
use cumulus_ci.Prelude.Dict
use cumulus_ci.Prelude.Dict.{Dict}
pub mod Names
pub mod Ends

pub record Lookup : Type 0 where
  pub table_names_to : List String
  pub priority : ℕ

abbrev pub lookups : Dict (List Lookup) → String → List Lookup
lookups dependencies table = elim (Dict.lookup table dependencies) [ none ↦ [] | some ls ↦ ls ]

-- _table_is_free
unfoldable pub table_is_free : Dict (List Lookup) → List String → ℕ → String → Bool
unfolding Dict.lookup contains
table_is_free dependencies sorted_tables priority table =
    all
      (λ l.
        all (λ t. contains sorted_tables t || t == table) l.table_names_to
        || ltb l.priority priority)
      (lookups dependencies table)

abbrev pub all_lookups : Dict (List Lookup) → List Lookup
all_lookups [] = []
all_lookups ((table, ls) ∷ dependencies) = ls ++ all_lookups dependencies

-- `min(relevant_dependencies, default=None)`
unfoldable pub lowest_above : ℕ → List Lookup → Option ℕ
lowest_above priority [] = none
lowest_above priority (l ∷ ls) =
    let rest = lowest_above priority ls in
    if ltb priority l.priority
    then (elim rest [
      | none ↦ some l.priority
      | some q ↦ some (if ltb q l.priority then q else l.priority)
    ])
    else rest

abbrev pub or_least : (String → List String → String) → List String → List String → List String
or_least least [] [] = []
or_least least [] (t ∷ names) = least t names ∷ []
or_least least (s ∷ higher) names = s ∷ higher

-- `sorted_tables.extend(leaf_tables)`
unfoldable pub freed : Dict (List Lookup) → ℕ → List String → List String → List String
unfolding table_is_free
freed dependencies priority sorted_tables names =
    sorted_tables ++ keep (table_is_free dependencies sorted_tables priority) names

-- `[table for table in table_names if table not in sorted_tables]`
unfoldable pub unsorted : List String → List String → List String
unfolding contains
unsorted sorted_tables names = keep (λ u. not (contains sorted_tables u)) names

-- What follows in a round of the loop: where nothing changed, the names that are left are sorted by
-- higher priorities, or the least is taken. `on` is the loop with its next state.
unfoldable pub advance :
    (String → List String → String)
    → (List String → Option (List String))
    → (List String → List String → Option (List String))
    → List String
    → List String
    → List String
    → Option (List String)
advance least higher on now names left =
    if nat_eq (length left) (length names)
    then (elim (higher left) [
      | none ↦ none
      | some more ↦ on (now ++ or_least least more left) left
    ])
    else on now left

-- _sort_dependencies_higher_priority, with the lowest of the higher priorities
unfoldable pub sort_higher :
    (ℕ → List String → Option (List String)) → Option ℕ → List String → Option (List String)
sort_higher sort none names = some []
sort_higher sort (some q) names = sort q names

module _ (least : String → List String → String) (dependencies : Dict (List Lookup)) where
  -- The `while` loop. `higher` is the sort by higher priorities, none where it runs out of fuel.
  unfoldable pub loop :
      (List String → Option (List String))
      → ℕ
      → ℕ
      → List String
      → List String
      → Option (List String)
  unfolding freed unsorted advance
  loop higher priority zero sorted_tables [] = some sorted_tables
  loop higher priority zero sorted_tables (t ∷ names) = none
  loop higher priority (suc fuel) sorted_tables [] = some sorted_tables
  loop higher priority (suc fuel) sorted_tables (t ∷ names) =
      let now = freed dependencies priority sorted_tables (t ∷ names) in
      advance least higher (loop higher priority fuel) now (t ∷ names) (unsorted now (t ∷ names))

  -- The names are sorted with ever higher priorities.
  unfoldable pub sort_levels : ℕ → ℕ → List String → Option (List String)
  unfolding loop lowest_above sort_higher
  sort_levels zero priority names = none
  sort_levels (suc levels) priority names =
      loop (sort_higher (sort_levels levels) (lowest_above priority (all_lookups dependencies)))
        priority (suc (2 * length names)) [] names

unfoldable pub sort_by_dependencies :
    (String → List String → String) → Dict (List Lookup) → List String → Option (List String)
unfolding sort_levels
sort_by_dependencies least dependencies names =
    sort_levels least dependencies (suc (length (all_lookups dependencies))) 0 names
