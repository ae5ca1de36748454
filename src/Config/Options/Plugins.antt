-- ===== src/Config/Options/Plugins.antt =====
-- `deep_merge_plugins` of cumulusci/core/utils.py: the project's plugin settings fill the gaps of
-- the remote ones.
use cumulus_ci.Prelude.{
  String, ◌≡◌, refl, sym, ap, ◌∙◌, List, [], ◌∷◌, Option, none, some, arith, eq_iff, false,
  text-cases, inl, inr, eq_refl, Option-cases,
}
use cumulus_ci.Config.Value.{
  Value, Fields, null, dict, end, field, get, has, put, get-put, IsKeyed, get-eq-none,
}
use cumulus_ci.Config.Merge.Paths.{Shows, at_end, under}

unfoldable mutual
  unfolding get put

  pub deep_merge_plugins : Value → Value → Value
  deep_merge_plugins remote (dict project) = elim remote [
    | dict d ↦ dict (fill_gaps d project)
    | kept ↦ kept
  ]
  deep_merge_plugins remote _ = remote

  -- `for key, value in project_plugins.items()`
  pub fill_gaps : Fields → Fields → Fields
  fill_gaps result end = result
  fill_gaps result (field k v rest) = elim (get k result) [
    | none ↦ fill_gaps (put k v result) rest
    | some r ↦ fill_gaps (put k (deep_merge_plugins r v) result) rest
  ]

fill_gaps_new :
    (k : String) (v : Value) (d rest : Fields)
    → get k d ≡ none
    → fill_gaps d (field k v rest) ≡ fill_gaps (put k v d) rest
unfolding fill_gaps
fill_gaps_new k v d rest h = ground arith

fill_gaps_both :
    (k : String) (v r : Value) (d rest : Fields)
    → get k d ≡ some r
    → fill_gaps d (field k v rest) ≡ fill_gaps (put k (deep_merge_plugins r v) d) rest
unfolding fill_gaps
fill_gaps_both k v r d rest h = ground arith

-- Two entries of one key: two dictionaries are merged, and otherwise the remote entry is kept.
abbrev pub merged : Value → Value → Value
merged (dict d) (dict e) = dict (fill_gaps d e)
merged r v = r

deep_merge_plugins-merged : (r v : Value) → deep_merge_plugins r v ≡ merged r v
unfolding deep_merge_plugins
deep_merge_plugins-merged (dict d) (dict e) = refl
deep_merge_plugins-merged r (dict e) = ground arith
deep_merge_plugins-merged r v = ground arith

-- The entry of a key in the result, from its entries in the remote and the project settings.
abbrev pub filled : Option Value → Option Value → Option Value
filled none p = p
filled (some r) none = some r
filled (some r) (some v) = some (merged r v)

filled_round :
    (k j : String) (v x : Value) (d rest : Fields) (o : Option Value)
    → has k rest ≡ false
    → filled (get k d) (some v) ≡ some x
    → o ≡ filled (get j (put k x d)) (get j rest)
    → o ≡ filled (get j d) (get j (field k v rest))
unfolding get
filled_round k j v x d rest o fresh merged h = elim (text-cases k j) [
  | inl same ↦
      let gone : get k rest ≡ none = get-eq-none k rest fresh in
      let h' : o ≡ filled (get k (put k x d)) (get k rest) = rw (← same) at h in
      let written : o ≡ some x = rw (get-put, eq_refl, gone) at h' in
      rw (← same, eq_refl) (written ∙ sym merged)
  | inr differs ↦ rw differs (rw (get-put, differs) at h)
]

-- Where the project's settings have each key once, as a dictionary has: at every key the result has
-- the remote entry where the project has none, and the project's entry where the remote has none.
-- Where both have one, it has the remote entry, unless both are dictionaries: then it has the
-- dictionary that the same loop makes of the two.
pub get-fill_gaps :
    (d project : Fields)
    → IsKeyed project
    → (j : String) → get j (fill_gaps d project) ≡ filled (get j d) (get j project)
unfolding fill_gaps get
get-fill_gaps d end keyed j = ground arith
get-fill_gaps d (field k v rest) (fresh, keyed) j = elim (Option-cases (get k d)) [
  | inl absent ↦ rw (fill_gaps_new k v d rest absent) (
      filled_round k j v v d rest _ fresh (rw absent refl) (get-fill_gaps (put k v d) rest keyed j))
  | inr (r, present) ↦ rw (fill_gaps_both k v r d rest present) (
      filled_round k j v (deep_merge_plugins r v) d rest _ fresh
        (rw present (ap some (sym (deep_merge_plugins-merged r v))))
        (get-fill_gaps (put k (deep_merge_plugins r v) d) rest keyed j))
]

abbrev IsLeaf : Value → Type 0
IsLeaf (dict _) = ⊥
IsLeaf _ = Unit

module _ (s : Value) (p : List String)
    (deeper : (r v : Value) → Shows s p r → Shows s p (deep_merge_plugins r v)) where
  fill_gaps_keeps :
      (j : String) (r : Value) (d project : Fields)
      → get j d ≡ some r
      → Shows s p r
      → (r' : Value) × (get j (fill_gaps d project) ≡ some r') × Shows s p r'
  unfolding fill_gaps
  fill_gaps_keeps j r d end at shown = (r, at, shown)
  fill_gaps_keeps j r d (field k v rest) at shown = elim (Option-cases (get k d)) [
    | inl absent ↦
        let at' : get j (put k v d) ≡ some r = ground (arith, get-put k j v d, eq_iff k j) in
        rw (fill_gaps_new k v d rest absent) (fill_gaps_keeps j r (put k v d) rest at' shown)
    | inr (q, present) ↦
        let x = deep_merge_plugins q v in
        rw (fill_gaps_both k v q d rest present) (elim (text-cases k j) [
          | inl same ↦
              let at' : get j (put k x d) ≡ some x = rw (same, get-put, eq_refl) in
              let remote : q ≡ r = ground (arith, eq_iff k j) in
              fill_gaps_keeps j x (put k x d) rest at' (deeper q v (rw remote shown))
          | inr differs ↦ fill_gaps_keeps j r (put k x d) rest (rw (get-put, differs) at) shown
        ])
  ]

leaf_kept : (s v : Value) → IsLeaf s → deep_merge_plugins s v ≡ s
unfolding deep_merge_plugins
leaf_kept (dict _) v h = absurd h
leaf_kept null (dict e) h = refl
leaf_kept s (dict e) h = ground arith
leaf_kept s v h = refl

-- The remote settings take precedence: what they show at the end of a path of keys, other than a
-- dictionary, the result shows at the end of that path, whatever the project's settings are.
pub remote_wins :
    {s : Value} (p : List String) (remote project : Value)
    → IsLeaf s
    → Shows s p remote
    → Shows s p (deep_merge_plugins remote project)
unfolding deep_merge_plugins
remote_wins {s} [] _ project leaf at_end = rw (leaf_kept s project leaf) at_end
remote_wins {s} (key ∷ p) _ (dict e) leaf (under k d v at shown) =
    let (r, entry, still) = fill_gaps_keeps s p (λ q w. remote_wins p q w leaf) k v d e at shown in
    under k (fill_gaps d e) r entry still
remote_wins (key ∷ p) _ _ leaf (under k d v at shown) = under k d v at shown
