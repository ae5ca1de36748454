-- ===== src/Config/Merge.antt =====
-- `dictmerge` of cumulusci/core/utils.py.
-- `merge` returns the value that the Python function leaves in `a`. The Python function writes
-- into `a`; its callers pass copies that nothing else holds, so a value in and a value out says
-- the same.
pub mod Laws
pub mod Paths
use cumulus_ci.Prelude.{String, Result, ok, err, ◌>>=◌, Option, none, some}
use cumulus_ci.Config.Value.{
  Value, Items, Fields, null, bool, num, text, list, dict, other, nil, cons, end, field, extend,
  get, put,
}

-- The exceptions of this part: ConfigMergeError with the config's name, CumulusCIException,
-- and the KeyError and TypeError (or AttributeError) of Python's own operations.
pub data ConfigError : Type 0 where
  config_merge_error : String → ConfigError
  both_types_none : ConfigError
  key_error : String → ConfigError
  type_error : ConfigError

-- The branches that do not descend: `b` is no dictionary.
unfoldable pub merge_flat : String → Value → Value → Result ConfigError Value
merge_flat name a null = ok a
merge_flat name null b = ok b
merge_flat name (bool _) b = ok b
merge_flat name (num _) b = ok b
merge_flat name (text _) b = ok b
merge_flat name (list xs) (list ys) = ok (list (extend xs ys))
merge_flat name (list xs) b = ok (list (extend xs (cons b nil)))
merge_flat name (dict d) b = err (config_merge_error name)
merge_flat name (other _) b = err (config_merge_error name)

unfoldable mutual
  unfolding merge_flat extend get put

  pub dictmerge : String → Value → Value → Result ConfigError Value
  dictmerge name a (dict e) = elim a [
    | dict d ↦ do merged ← merge_fields name d e; ok (dict merged)
    | list xs ↦ ok (list (extend xs (cons (dict e) nil)))
    | other _ ↦ err (config_merge_error name)
    | _ ↦ ok (dict e)
  ]
  dictmerge name a b = merge_flat name a b

  -- `for key in b`: a key of both is merged, a new one is copied.
  pub merge_fields : String → Fields → Fields → Result ConfigError Fields
  merge_fields name d end = ok d
  merge_fields name d (field k w e) = elim (get k d) [
    | none ↦ merge_fields name (put k w d) e
    | some v ↦ do merged ← dictmerge name v w; merge_fields name (put k merged d) e
  ]
