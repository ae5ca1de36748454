-- ===== src/Tables/Tests.antt =====
-- Tables that refer to one another.
use cumulus_ci.Prelude.{
  Avoids, String, ◌≡◌, refl, some, List, [], ◌∷◌, Bool, true, false, contains, ok, err, All,
}
use cumulus_ci.Prelude.Dict
use cumulus_ci.Prelude.Dict.{Dict}
use cumulus_ci.Tables.Sort.{Lookup, sort_by_dependencies}
use cumulus_ci.Tables.Referenced.{
  Field, SObjDependency, Schema, ExtractError, found_dependencies, declared_dependencies,
  extend_declarations,
}
use cumulus_ci.Tables.Referenced.Grows.{AllMet}
use cumulus_ci.Tables.Referenced.Enough.{extend_declarations-Avoids}
use cumulus_ci.Tables.Referenced.Complete.{extend_declarations_complete}

abbrev to_table : String → Lookup
to_table t = record { table_names_to = t ∷ []; priority = 0 }

abbrev required : String → Lookup
required t = record { table_names_to = t ∷ []; priority = 1 }

abbrev cyclic : Dict (List Lookup)
cyclic = ("Contact", required "Account" ∷ []) ∷ ("Account", to_table "Contact" ∷ []) ∷ []

abbrev first : String → List String → String
first t others = t

-- The tables that the sort by the higher priority placed are still among the names that are left, so
-- that the next round adds them a second time.
cyclic-sorted :
    sort_by_dependencies first cyclic ("Contact" ∷ "Account" ∷ "Case" ∷ [])
    ≡ some ("Case" ∷ "Account" ∷ "Contact" ∷ "Contact" ∷ "Account" ∷ [])
unfolding sort_by_dependencies
cyclic-sorted = refl

abbrev lookup_field : String → List String → Bool → Field
lookup_field name reference_to needed = record {
  name = name;
  createable = true;
  reference_to = reference_to;
  required_on_create = needed;
}

abbrev org : Schema
org =
    (
      "Contact",
      record {
        extractable = true;
        fields =
            lookup_field "AccountId" ("Account" ∷ []) true
            ∷ lookup_field "RecordTypeId" ("RecordType" ∷ []) false
            ∷ lookup_field "OwnerId" ("User" ∷ []) false
            ∷ [];
      },
    )
    ∷ (
      "Account",
      record {
        extractable = true;
        fields =
            lookup_field "Parent" ("Account" ∷ []) false
            ∷ lookup_field "Region__c" ("Region__c" ∷ []) true
            ∷ [];
      },
    )
    ∷ ("Region__c", record { extractable = true; fields = [] })
    ∷ ("User", record { extractable = true; fields = [] })
    ∷ []

abbrev asked : Dict (List String)
asked = ("Contact", "AccountId" ∷ "RecordTypeId" ∷ "OwnerId" ∷ []) ∷ []

abbrev extended : Dict (List String)
extended =
    ("Contact", "AccountId" ∷ "RecordTypeId" ∷ "OwnerId" ∷ [])
    ∷ ("Account", "Region__c" ∷ [])
    ∷ ("Region__c", [])
    ∷ []

abbrev asked_lookups : Dict (List SObjDependency)
asked_lookups =
    (
      "Contact",
      record { table_names_to = "Account" ∷ []; field_name = "AccountId"; priority = true } ∷ [],
    )
    ∷ []

-- What is required is followed, and what was asked for; a table that is not extractable is not.
extend_test : extend_declarations ("User" ∷ []) org asked ≡ ok extended
unfolding extend_declarations
extend_test = refl

asked_lookups_test : declared_dependencies ("User" ∷ []) org asked [] ≡ ok asked_lookups
unfolding declared_dependencies contains
asked_lookups_test = refl

contact_asked : Dict.has "Contact" asked ≡ true
unfolding Dict.has
contact_asked = refl

-- Two tables that require each other: the search still ends.
abbrev circular : Schema
circular =
    ("A", record { extractable = true; fields = lookup_field "B" ("B" ∷ []) true ∷ [] })
    ∷ ("B", record { extractable = true; fields = lookup_field "A" ("A" ∷ []) true ∷ [] })
    ∷ []

extend_declarations-Avoids_example :
    Avoids ExtractError.out_of_fuel (extend_declarations [] circular (("A", "B" ∷ []) ∷ []))
extend_declarations-Avoids_example = extend_declarations-Avoids [] circular (("A", "B" ∷ []) ∷ [])

extend_declarations_complete_example :
    (Dict.has "Contact" extended ≡ true)
    × All
        (AllMet ("User" ∷ []) org extended)
        (found_dependencies (Dict.lookup "Contact" asked_lookups))
extend_declarations_complete_example =
    extend_declarations_complete ("User" ∷ []) org asked extended asked_lookups "Contact"
      asked_lookups_test extend_test contact_asked

unknown_field_test :
    extend_declarations [] org (("Contact", "Nickname" ∷ []) ∷ []) ≡ err ExtractError.key_error
unfolding extend_declarations
unknown_field_test = refl
