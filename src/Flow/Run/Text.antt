-- ===== src/Flow/Run/Text.antt =====
-- The operations on texts that `resolve_return_value_options` and `_find_result_by_path` use.
use Prim.Native.Char.{Char, code}
use cumulus_ci.Prelude.{String, Option, none, some, Bool, ◌||◌, nat_eq, ◌==◌, if◌then◌else◌}

-- `value[len(prefix):]` where `value.startswith(prefix)`
unfoldable pub strip_prefix : String → String → Option String
strip_prefix String.[] s = some s
strip_prefix (String.◌∷◌ c p) String.[] = none
strip_prefix (String.◌∷◌ c p) (String.◌∷◌ d s) =
    let rest = strip_prefix p s in if nat_eq (code c) (code d) then rest else none

abbrev add_first :
    Char → Option (String × String) → Option (String × String) → Option (String × String)
add_first c (some (before, after)) other = some (String.◌∷◌ c before, after)
add_first c none other = other

-- `s.rsplit(".", 1)`: the texts before and after the last dot, `none` where there is no dot.
unfoldable pub last_dot : String → Option (String × String)
last_dot String.[] = none
last_dot (String.◌∷◌ c s) =
    add_first c (last_dot s) (if nat_eq (code c) b'.' then some (String.[], s) else none)

-- `s` ends with `t`, for a text `t` that is not empty.
unfoldable pub has_suffix : String → String → Bool
has_suffix String.[] t = "" == t
has_suffix (String.◌∷◌ c s) t = String.◌∷◌ c s == t || has_suffix s t

-- `s[-len(t):] == t`. For an empty `t` the slice is the whole of `s`.
unfoldable pub ends_with : String → String → Bool
unfolding has_suffix
ends_with s t = if t == "" then s == "" else has_suffix s t
