-- ===== src/Config/Merge/Paths.antt =====
-- The later configuration wins: what it says at the end of a path is what the merge says there.
use cumulus_ci.Prelude.{
  String, ◌≡◌, Option, none, some, List, [], ◌∷◌, arith, ok, Option-cases, >>=-eq-ok, inl, inr,
  subst,
}
use cumulus_ci.Config.Value.{Value, Fields, null, bool, num, text, list, dict, other, get, IsKeyed}
use cumulus_ci.Config.Merge.{dictmerge, merge_fields}
use cumulus_ci.Config.Merge.Laws.{Slot, merge_fields-Slot}

abbrev pub IsScalar : Value → Type 0
IsScalar (bool _) = Unit
IsScalar (num _) = Unit
IsScalar (text _) = Unit
IsScalar _ = ⊥

-- Value `v` says the scalar `s` at the end of the path of keys `p`, through dictionaries each of
-- which has its keys once.
pub data Says (s : Value) : List String → Value → Type 0 where
  here : IsScalar s → Says s [] s
  there :
      {p : List String} (k : String) (d : Fields) (v : Value)
      → IsKeyed d
      → get k d ≡ some v
      → Says s p v
      → Says s (k ∷ p) (dict d)

-- On the way down the path `p` the value `a` has no list.
abbrev pub NoListOn : List String → Option Value → Type 0
NoListOn p none = Unit
NoListOn p (some (list _)) = ⊥
NoListOn [] (some _) = Unit
NoListOn (k ∷ p) (some (dict d)) = NoListOn p (get k d)
NoListOn (k ∷ p) (some _) = Unit

-- The same, when it may stand in a dictionary with keys that repeat.
pub data Shows (s : Value) : List String → Value → Type 0 where
  at_end : Shows s [] s
  under :
      {p : List String} (k : String) (d : Fields) (v : Value)
      → get k d ≡ some v
      → Shows s p v
      → Shows s (k ∷ p) (dict d)

Shows-of_Says : {s v : Value} {p : List String} → Says s p v → Shows s p v
Shows-of_Says (here _) = at_end
Shows-of_Says (there k d v keyed at said) = under k d v at (Shows-of_Says said)

pub scalar_wins :
    (name : String) (a s c : Value)
    → IsScalar s
    → NoListOn [] (some a)
    → dictmerge name a s ≡ ok c
    → c ≡ s
unfolding dictmerge
scalar_wins name a (bool b) c h n e = ground arith
scalar_wins name a (num b) c h n e = ground arith
scalar_wins name a (text b) c h n e = ground arith
scalar_wins name a null c h n e = absurd h
scalar_wins name a (list _) c h n e = absurd h
scalar_wins name a (dict _) c h n e = absurd h
scalar_wins name a (other _) c h n e = absurd h

-- The entry that the merge leaves under a key, in the result.
merged_entry :
    (name : String) (k : String) (v : Value) (da d m : Fields) {s : Value} {p : List String}
    → get k d ≡ some v
    → Shows s p v
    → ((va x : Value) → get k da ≡ some va → dictmerge name va v ≡ ok x → Shows s p x)
    → Slot name (get k da) (get k d) (get k m)
    → Shows s (k ∷ p) (dict m)
merged_entry name k v da d m at shown deeper slot = elim (Option-cases (get k da)) [
  | inl absent ↦ under k m v (rw (at, absent) at slot) shown
  | inr (va, present) ↦
      let (x, merged, entry) : Slot name (some va) (some v) (get k m) = rw (at, present) at slot in
      under k m x entry (deeper va x present merged)
]

-- One step down the path, for each form of the earlier value.
wins_under :
    (name : String) (k : String) (v : Value) (d : Fields) (a c : Value) {s : Value}
    {p : List String}
    → IsKeyed d
    → get k d ≡ some v
    → Shows s p v
    → NoListOn (k ∷ p) (some a)
    → ((va x : Value) → NoListOn p (some va) → dictmerge name va v ≡ ok x → Shows s p x)
    → dictmerge name a (dict d) ≡ ok c
    → Shows s (k ∷ p) c
unfolding dictmerge
wins_under name k v d (dict da) c {s} {p} keyed at shown n deeper e =
    let (m, merged, whole) = >>=-eq-ok (merge_fields name da d) (λ m. ok (dict m)) e in
    let result : c ≡ dict m = cc in
    let below : (va x : Value) → get k da ≡ some va → dictmerge name va v ≡ ok x → Shows s p x =
      λ va x entry. deeper va x (subst (NoListOn p) entry n) in
    rw result
      (merged_entry name k v da d m at shown below (merge_fields-Slot name da d m keyed merged k))
wins_under name k v d (list _) c keyed at shown n deeper e = absurd n
wins_under name k v d (other _) c keyed at shown n deeper e = cc
wins_under name k v d _ c keyed at shown n deeper e =
    let result : dict d ≡ c = cc in rw (← result) (under k d v at shown)

-- Where the later configuration says a scalar at the end of a path, and the earlier one has no
-- list on that path, a merge that succeeds shows that scalar at the end of that path.
pub later_wins :
    {s : Value} (name : String) (a c : Value) {b : Value} {p : List String}
    → Says s p b
    → NoListOn p (some a)
    → dictmerge name a b ≡ ok c
    → Shows s p c
later_wins {s} name a c (here h) n e = rw (scalar_wins name a s c h n e) at_end
later_wins name a c (there k d v keyed at said) n e =
    wins_under name k v d a c keyed at (Shows-of_Says said) n (λ va x. later_wins name va x said) e
