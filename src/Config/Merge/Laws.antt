-- ===== src/Config/Merge/Laws.antt =====
-- What a merged dictionary holds, key by key.
use cumulus_ci.Prelude.{
  String, ◌≡◌, refl, sym, ◌∙◌, inl, inr, true, false, Option, none, some, arith, ◌==◌, eq_iff,
  text-cases, Option-cases, ok, ◌>>=◌, >>=-eq-ok, eq_refl,
}
use cumulus_ci.Config.Value.{
  Value, Fields, end, field, get, has, put, IsKeyed, get-put, get-eq-none,
}
use cumulus_ci.Config.Merge.{dictmerge, merge_fields}

-- The entry of a key in the merged dictionary, from its entries in the two.
abbrev pub Slot : String → Option Value → Option Value → Option Value → Type 0
Slot name v none r = r ≡ v
Slot name none (some w) r = r ≡ some w
Slot name (some v) (some w) r = (x : Value) × (dictmerge name v w ≡ ok x) × (r ≡ some x)

-- One round of the loop, at the key that it writes and at the others.
Slot-written :
    (name k j : String) (w x : Value) (d e m : Fields)
    → has k e ≡ false
    → (k == j) ≡ true
    → Slot name (get j (put k x d)) (get j e) (get j m)
    → get j m ≡ some x
Slot-written name k j w x d e m fresh same slot =
    let here : get j e ≡ none = get-eq-none j e (rw (← (eq_iff k j).0 same) fresh) in
    let kept : get j m ≡ get j (put k x d) = rw here at slot in rw (kept, get-put, same)

Slot-kept :
    (name k j : String) (w x : Value) (d e m : Fields)
    → (k == j) ≡ false
    → Slot name (get j (put k x d)) (get j e) (get j m)
    → Slot name (get j d) (get j e) (get j m)
Slot-kept name k j w x d e m other slot = rw (get-put, other) at slot

-- The two ways of a round.
pub merge_fields_new :
    (name k : String) (w : Value) (d e : Fields)
    → get k d ≡ none
    → merge_fields name d (field k w e) ≡ merge_fields name (put k w d) e
unfolding merge_fields
merge_fields_new name k w d e h = ground arith

pub merge_fields_both :
    (name k : String) (v w : Value) (d e : Fields)
    → get k d ≡ some v
    → merge_fields name d (field k w e)
      ≡ (dictmerge name v w >>= λ x. merge_fields name (put k x d) e)
unfolding merge_fields
merge_fields_both name k v w d e h = ground arith

merge-Slot_cases :
    (name k j : String) (w x : Value) (d e m : Fields)
    → has k e ≡ false
    → Slot name (get j (put k x d)) (get j e) (get j m)
    → Slot name (get k d) (some w) (some x)
    → Slot name (get j d) (get j (field k w e)) (get j m)
unfolding get
merge-Slot_cases name k j w x d e m fresh slot merged = elim (text-cases k j) [
  | inl same ↦
      let slot' : Slot name (get k (put k x d)) (get k e) (get k m) = rw (← same) at slot in
      let entry : get k m ≡ some x = Slot-written name k k w x d e m fresh (eq_refl k) slot' in
      rw (← same, eq_refl, entry) merged
  | inr other ↦ rw other (Slot-kept name k j w x d e m other slot)
]

-- Merging dictionary `e` into `d` gives, at every key: the entry of `d` where `e` has none, the
-- entry of `e` where `d` has none, and the merge of the two entries where both have one.
pub merge_fields-Slot :
    (name : String) (d e : Fields) (m : Fields)
    → IsKeyed e
    → merge_fields name d e ≡ ok m
    → (j : String) → Slot name (get j d) (get j e) (get j m)
unfolding merge_fields get
merge_fields-Slot name d end m keyed h j = ground arith
merge_fields-Slot name d (field k w e) m (fresh, keyed) h j = elim (Option-cases (get k d)) [
  | inl absent ↦
      merge-Slot_cases name k j w w d e m fresh
        (merge_fields-Slot name (put k w d) e m keyed
          (sym (merge_fields_new name k w d e absent) ∙ h) j)
        (rw absent refl)
  | inr (v, present) ↦
      let (x, merged, rest) =
        >>=-eq-ok (dictmerge name v w) (λ y. merge_fields name (put k y d) e)
          (sym (merge_fields_both name k v w d e present) ∙ h) in
      merge-Slot_cases name k j w x d e m fresh
        (merge_fields-Slot name (put k x d) e m keyed rest j) (rw present (x, merged, refl))
]
