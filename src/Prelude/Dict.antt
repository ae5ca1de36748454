-- ===== src/Prelude/Dict.antt =====
-- Python's `dict` with text keys, as an association list in insertion order. Writing a key that is
-- there keeps its place, and a new key goes to the end.
use Prim.Native.String.{String}
use mathlib.Core.Path.{◌≡◌, refl}
use mathlib.Core.Bool.{Bool, true, false, ◌||◌}
use mathlib.Core.Option.{Option, none, some}
use mathlib.Core.List.{List, [], ◌∷◌}
use native.Mathlib.Omega.{arith}
use text.Mathlib.TextEquality.{eq_iff}
use cumulus_ci.Prelude.Tests.{◌==◌, if◌then◌else◌}

abbrev pub Dict {ℓ} : Type ℓ → Type ℓ
Dict V = List (String × V)

module _ {ℓ} {V : Type ℓ} where
  -- d.get(k)
  unfoldable pub lookup : String → Dict V → Option V
  lookup k [] = none
  lookup k ((j, v) ∷ d) = if j == k then some v else lookup k d

  -- k in d
  unfoldable pub has : String → Dict V → Bool
  has k [] = false
  has k ((j, v) ∷ d) = j == k || has k d

  -- d[k] = v
  unfoldable pub insert : String → V → Dict V → Dict V
  insert k v [] = (k, v) ∷ []
  insert k v ((j, w) ∷ d) = if j == k then (j, v) ∷ d else (j, w) ∷ insert k v d

  -- d.update(e)
  unfoldable pub update : Dict V → Dict V → Dict V
  update d [] = d
  update d ((k, v) ∷ e) = update (insert k v d) e

  pub lookup-insert :
      (k j : String) (v : V) (d : Dict V)
      → lookup j (insert k v d) ≡ (if k == j then some v else lookup j d)
  unfolding lookup insert
  lookup-insert k j v [] = refl
  lookup-insert k j v ((i, w) ∷ d) =
      ground (arith, eq_iff k j, eq_iff i k, eq_iff i j, lookup-insert k j v d)

  pub has-insert : (k j : String) (v : V) (d : Dict V) → has j (insert k v d) ≡ (k == j || has j d)
  unfolding has insert
  has-insert k j v [] = refl
  has-insert k j v ((i, w) ∷ d) =
      ground (arith, eq_iff k j, eq_iff i k, eq_iff i j, has-insert k j v d)

  pub lookup-eq-none : (k : String) (d : Dict V) → has k d ≡ false → lookup k d ≡ none
  unfolding lookup has
  lookup-eq-none k [] h = refl
  lookup-eq-none k ((j, v) ∷ d) h = ground (arith, lookup-eq-none k d)

  -- A key of the second dictionary shadows the first, where the second has each key once.
  abbrev pub IsKeyed : Dict V → Type 0
  IsKeyed [] = Unit
  IsKeyed ((k, v) ∷ d) = (has k d ≡ false) × IsKeyed d

  pub lookup-update :
      (j : String) (d e : Dict V)
      → IsKeyed e
      → lookup j (update d e) ≡ (if has j e then lookup j e else lookup j d)
  unfolding update has lookup
  lookup-update j d [] h = refl
  lookup-update j d ((k, v) ∷ e) (fresh, keyed) = ground (
    arith,
    lookup-update j (insert k v d) e keyed,
    lookup-insert k j v d,
    eq_iff k j,
    lookup-eq-none k e fresh,
  )

  pub has_of_lookup : (k : String) (d : Dict V) (v : V) → lookup k d ≡ some v → has k d ≡ true
  unfolding lookup has
  has_of_lookup k [] v h = cc
  has_of_lookup k ((j, w) ∷ d) v h = ground (arith, has_of_lookup k d v)
