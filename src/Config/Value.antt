-- ===== src/Config/Value.antt =====
-- Parsed YAML as a tree, and what Python's `dict` operations do on its dictionaries.
-- `other` stands for a value that `dictmerge` does not handle (a date, a tuple).
use cumulus_ci.Prelude.{
  ℕ, String, ◌≡◌, refl, Bool, true, false, ◌||◌, Option, none, some, arith, ◌==◌, if◌then◌else◌,
  eq_iff, Bool-cases, inl, inr,
}

mutual
  pub data Value : Type 0 where
    null : Value
    bool : Bool → Value
    num : ℕ → Value
    text : String → Value
    list : Items → Value
    dict : Fields → Value
    other : ℕ → Value

  pub data Items : Type 0 where
    nil : Items
    cons : Value → Items → Items

  pub data Fields : Type 0 where
    end : Fields
    field : String → Value → Fields → Fields

-- a + b of Python lists
unfoldable pub extend : Items → Items → Items
extend nil ys = ys
extend (cons x xs) ys = cons x (extend xs ys)

-- d.get(k)
unfoldable pub get : String → Fields → Option Value
get k end = none
get k (field j v d) = if j == k then some v else get k d

-- k in d
unfoldable pub has : String → Fields → Bool
has k end = false
has k (field j v d) = j == k || has k d

-- d[k] = v, in place if the key is there, at the end if not
unfoldable pub put : String → Value → Fields → Fields
put k v end = field k v end
put k v (field j w d) = if j == k then field j v d else field j w (put k v d)

-- del d[k]
unfoldable pub remove : String → Fields → Fields
remove k end = end
remove k (field j w d) = if j == k then d else field j w (remove k d)

-- Each key stands once, as in every Python dictionary.
abbrev pub IsKeyed : Fields → Type 0
IsKeyed end = Unit
IsKeyed (field k v d) = (has k d ≡ false) × IsKeyed d

pub get-put :
    (k j : String) (v : Value) (d : Fields)
    → get j (put k v d) ≡ (if k == j then some v else get j d)
unfolding get put
get-put k j v end = refl
get-put k j v (field i w d) = ground (arith, eq_iff k j, eq_iff i k, eq_iff i j, get-put k j v d)

pub has-put : (k j : String) (v : Value) (d : Fields) → has j (put k v d) ≡ (k == j || has j d)
unfolding has put
has-put k j v end = refl
has-put k j v (field i w d) = ground (arith, eq_iff k j, eq_iff i k, eq_iff i j, has-put k j v d)

pub get-eq-none : (k : String) (d : Fields) → has k d ≡ false → get k d ≡ none
unfolding get has
get-eq-none k end h = refl
get-eq-none k (field j v d) h = ground (arith, get-eq-none k d)

pub has_of_get : (k : String) (d : Fields) (v : Value) → get k d ≡ some v → has k d ≡ true
unfolding get has
has_of_get k end v h = cc
has_of_get k (field j w d) v h = ground (arith, has_of_get k d v)

pub has-remove_ne : (k j : String) (d : Fields) → (k == j) ≡ false → has j (remove k d) ≡ has j d
unfolding has remove
has-remove_ne k j end h = refl
has-remove_ne k j (field i w d) h =
    ground (arith, eq_iff k j, eq_iff i k, eq_iff i j, has-remove_ne k j d h)

pub has-remove_self : (k : String) (d : Fields) → IsKeyed d → has k (remove k d) ≡ false
unfolding has remove
has-remove_self k end h = refl
has-remove_self k (field i w d) (fresh, keyed) =
    ground (arith, eq_iff i k, has-remove_self k d keyed)

pub get_of_has : (k : String) (d : Fields) → has k d ≡ true → (v : Value) × (get k d ≡ some v)
unfolding get has
get_of_has k end h = cc
get_of_has k (field j w d) h = elim (Bool-cases (j == k)) [
  | inl same ↦ (w, ground arith)
  | inr differs ↦ rw differs (get_of_has k d (ground arith))
]

-- d.update(e)
unfoldable pub update : Fields → Fields → Fields
unfolding put
update d end = d
update d (field k v e) = update (put k v d) e

-- A key of the second dictionary shadows the first.
pub get-update :
    (j : String) (d e : Fields)
    → IsKeyed e
    → get j (update d e) ≡ (if has j e then get j e else get j d)
unfolding update has get
get-update j d end h = refl
get-update j d (field k v e) (fresh, keyed) =
    ground
      (arith, get-update j (put k v d) e keyed, get-put k j v d, eq_iff k j, get-eq-none k e fresh)

pub has-update : (j : String) (d e : Fields) → has j (update d e) ≡ (has j d || has j e)
unfolding update has
has-update j d end = ground arith
has-update j d (field k v e) = ground (arith, has-update j (put k v d) e, has-put k j v d)

put-IsKeyed : (k : String) (v : Value) (d : Fields) → IsKeyed d → IsKeyed (put k v d)
unfolding put has
put-IsKeyed k v end h = (refl, tt)
put-IsKeyed k v (field j w d) (fresh, keyed) = elim (Bool-cases (j == k)) [
  | inl same ↦ rw same (fresh, keyed)
  | inr differs ↦
      rw differs (ground (arith, has-put k j v d, eq_iff k j, eq_iff j k), put-IsKeyed k v d keyed)
]

pub update-IsKeyed : (d e : Fields) → IsKeyed d → IsKeyed (update d e)
unfolding update
update-IsKeyed d end h = h
update-IsKeyed d (field k v e) h = update-IsKeyed (put k v d) e (put-IsKeyed k v d h)
