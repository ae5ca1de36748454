-- ===== src/Tables/Sort/Ends.antt =====
-- The sort ends, and it leaves out no table.
use cumulus_ci.Prelude.{String, ◌≡◌, Option, some, List, [], true, contains, ◌⊎◌}
use cumulus_ci.Prelude.Dict.{Dict}

-- Every name is in the result.
abbrev pub Covers : List String → List String → Type 0
Covers out names = (t : String) → contains names t ≡ true → contains out t ≡ true

-- What the loop needs of the sort by higher priorities: it ends, with nothing or with every name.
abbrev EndsWell : (List String → Option (List String)) → Type 0
EndsWell higher =
    (names : List String)
    → (more : List String) × (higher names ≡ some more) × ((more ≡ []) ⊎ Covers more names)
