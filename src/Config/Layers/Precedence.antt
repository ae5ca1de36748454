-- ===== src/Config/Layers/Precedence.antt =====
-- Which layer a merged entry comes from.
use cumulus_ci.Prelude.{
  String, ◌≡◌, [], ◌∷◌, Option, none, some, arith, ok, >>=-eq-ok, ◌++◌, sym, ap, subst, ◌∙◌,
}
use cumulus_ci.Prelude.Dict.{Dict}
use cumulus_ci.Config.Value.{Value, Fields, null, bool, num, text, list, dict, other, get, IsKeyed}
use cumulus_ci.Config.Merge.{dictmerge, merge_fields}
use cumulus_ci.Config.Merge.Paths.{IsScalar, NoListOn, scalar_wins}
use cumulus_ci.Config.Merge.Laws.{Slot, merge_fields-Slot}
use cumulus_ci.Config.Layers.{merge_layers}

-- No layer of the list has the key.
abbrev pub NoneHas : String → Dict Fields → Type 0
NoneHas k [] = Unit
NoneHas k ((name, config) ∷ rest) = (get k config ≡ none) × NoneHas k rest

abbrev pub AllKeyed : Dict Fields → Type 0
AllKeyed [] = Unit
AllKeyed ((name, config) ∷ rest) = IsKeyed config × AllKeyed rest

-- A key that no further layer has keeps its entry.
merge_layers_keeps :
    (k : String) (d m : Fields) (layers : Dict Fields)
    → AllKeyed layers
    → NoneHas k layers
    → merge_layers d layers ≡ ok m
    → get k m ≡ get k d
unfolding merge_layers
merge_layers_keeps k d m [] keyed absent h = ground arith
merge_layers_keeps k d m ((name, config) ∷ rest) (keyed, more) (absent, none_after) h =
    let (d', merged, on) = >>=-eq-ok (merge_fields name d config) (λ x. merge_layers x rest) h in
    let slot : Slot name (get k d) none (get k d') =
      rw absent at (merge_fields-Slot name d config d' keyed merged k) in
    merge_layers_keeps k d' m rest more none_after on ∙ slot

-- The entry is missing, none or a scalar.
abbrev pub IsFlat : Option Value → Type 0
IsFlat (some (list _)) = ⊥
IsFlat (some (dict _)) = ⊥
IsFlat (some (other _)) = ⊥
IsFlat _ = Unit

no_list : (v : Value) → IsFlat (some v) → NoListOn [] (some v)
no_list (list _) h = h
no_list _ h = tt

dictmerge-IsFlat :
    (name : String) (v w x : Value)
    → IsFlat (some v)
    → IsFlat (some w)
    → dictmerge name v w ≡ ok x
    → IsFlat (some x)
unfolding dictmerge
dictmerge-IsFlat name v null x hv hw h =
    let same : v ≡ x = cc in subst (λ y. IsFlat (some y)) same hv
dictmerge-IsFlat name v (bool b) x hv hw h =
    rw (scalar_wins name v (bool b) x tt (no_list v hv) h) tt
dictmerge-IsFlat name v (num n) x hv hw h = rw (scalar_wins name v (num n) x tt (no_list v hv) h) tt
dictmerge-IsFlat name v (text t) x hv hw h =
    rw (scalar_wins name v (text t) x tt (no_list v hv) h) tt
dictmerge-IsFlat name v (list _) x hv hw h = absurd hw
dictmerge-IsFlat name v (dict _) x hv hw h = absurd hw
dictmerge-IsFlat name v (other _) x hv hw h = absurd hw

Slot-IsFlat :
    (name : String) (o p r : Option Value) → IsFlat o → IsFlat p → Slot name o p r → IsFlat r
Slot-IsFlat name o none r ho hp s = subst IsFlat (sym s) ho
Slot-IsFlat name none (some w) r ho hp s = subst IsFlat (sym s) hp
Slot-IsFlat name (some v) (some w) r ho hp (x, merged, e) =
    subst IsFlat (sym e) (dictmerge-IsFlat name v w x ho hp merged)

-- The entry of `k` is flat in every layer.
abbrev pub AllFlat : String → Dict Fields → Type 0
AllFlat k [] = Unit
AllFlat k ((name, config) ∷ rest) = IsFlat (get k config) × AllFlat k rest

Slot-scalar :
    (name : String) (o : Option Value) (w : Value) (r : Option Value)
    → IsFlat o
    → IsScalar w
    → Slot name o (some w) r
    → r ≡ some w
Slot-scalar name none w r flat scalar s = s
Slot-scalar name (some v) w r flat scalar (x, merged, e) =
    e ∙ ap some (scalar_wins name v w x scalar (no_list v flat) merged)

-- After the layer that has a scalar last, the merged dictionary has that scalar.
merge_layers_last :
    (k name : String) (d config m : Fields) (w : Value) (after : Dict Fields)
    → IsKeyed config
    → AllKeyed after
    → IsFlat (get k d)
    → get k config ≡ some w
    → IsScalar w
    → NoneHas k after
    → merge_layers d ((name, config) ∷ after) ≡ ok m
    → get k m ≡ some w
unfolding merge_layers
merge_layers_last k name d config m w after keyed more flat here scalar none_after h =
    let (d', merged, on) = >>=-eq-ok (merge_fields name d config) (λ x. merge_layers x after) h in
    let slot : Slot name (get k d) (some w) (get k d') =
      rw here at (merge_fields-Slot name d config d' keyed merged k) in
    merge_layers_keeps k d' m after more none_after on
    ∙ Slot-scalar name (get k d) w (get k d') flat scalar slot

-- Of the layers in which a key has an entry, the last one says what the merge holds: if its entry
-- is a scalar, and the entries of the layers before it are missing, none or scalars, and the
-- merge succeeds, then the merged dictionary has that scalar under the key.
pub last_layer_wins :
    (k name : String) (d config m : Fields) (w : Value) (before after : Dict Fields)
    → IsFlat (get k d)
    → AllKeyed before
    → AllFlat k before
    → IsKeyed config
    → get k config ≡ some w
    → IsScalar w
    → AllKeyed after
    → NoneHas k after
    → merge_layers d (before ++ (name, config) ∷ after) ≡ ok m
    → get k m ≡ some w
unfolding merge_layers
last_layer_wins k name d config m w [] after flat kb fb keyed here scalar ka none_after h =
    merge_layers_last k name d config m w after keyed ka flat here scalar none_after h
last_layer_wins k name d config m w ((first, c) ∷ before) after flat (kc, kb) (fc, fb) keyed here
      scalar ka none_after h =
    let (d', merged, on) =
      >>=-eq-ok (merge_fields first d c) (λ x. merge_layers x (before ++ (name, config) ∷ after))
        h in
    let flat' : IsFlat (get k d') =
      Slot-IsFlat first (get k d) (get k c) (get k d') flat fc
        (merge_fields-Slot first d c d' kc merged k) in
    last_layer_wins k name d' config m w before after flat' kb fb keyed here scalar ka none_after on
