-- ===== src/Tables/Referenced/Budget.antt =====
-- Each turn of the loop over the tables uses up a part of a budget.
use cumulus_ci.Prelude.{
  String, ℕ, suc, ◌+◌, ◌≤◌, ◌≡◌, refl, ap, ◌∙◌, subst, Option, none, some, Option-cases, inl, inr,
  List, [], ◌∷◌, Bool, true, false, Bool-cases, ◌==◌, if◌then◌else◌, contains, eq_iff, ok,
  >>=-eq-ok, ok-injective, length, arith,
}
use cumulus_ci.Prelude.Dict
use cumulus_ci.Prelude.Dict.{Dict}
use cumulus_ci.Tables.Referenced.{
  SObject, SObjDependency, Schema, collect_dependencies, Extended, with_table, required_fields,
  target_object, add_table, add_if, add_targets, add_dependencies, last_first,
}

-- The tables of the schema that are not declared.
unfoldable pub unseen : Schema → Dict (List String) → ℕ
unfolding Dict.has
unseen [] decls = 0
unseen ((k, sobj) ∷ schema) decls =
    let rest = unseen schema decls in if Dict.has k decls then rest else suc rest

unseen-insert-le :
    (schema : Schema) (target : String) (fields : List String) (decls : Dict (List String))
    → unseen schema (Dict.insert target fields decls) ≤ unseen schema decls
unfolding unseen
unseen-insert-le [] target fields decls = omega arith
unseen-insert-le ((k, sobj) ∷ schema) target fields decls =
    ground
      (arith, Dict.has-insert target k fields decls, unseen-insert-le schema target fields decls)

unseen-insert-lt :
    (schema : Schema) (target : String) (fields : List String) (decls : Dict (List String))
    (sobj : SObject)
    → Dict.lookup target schema ≡ some sobj
    → Dict.has target decls ≡ false
    → suc (unseen schema (Dict.insert target fields decls)) ≤ unseen schema decls
unfolding unseen Dict.lookup
unseen-insert-lt [] target fields decls sobj found missing = cc
unseen-insert-lt ((k, o) ∷ schema) target fields decls sobj found missing =
    elim (Bool-cases (k == target)) [
      | inl here ↦
          let e : k ≡ target = (eq_iff k target).0 here in
          let gone : Dict.has k decls ≡ false = ap (λ x. Dict.has x decls) e ∙ missing in
          let now : Dict.has k (Dict.insert target fields decls) ≡ true =
            Dict.has-insert target k fields decls
            ∙ ground (arith, eq_iff target k, eq_iff k target) in
          let fewer = unseen-insert-le schema target fields decls in
          ground (arith, gone, now, fewer)
      | inr other ↦
          let later : Dict.lookup target schema ≡ some sobj = ground arith in
          let fewer = unseen-insert-lt schema target fields decls sobj later missing in
          ground (arith, Dict.has-insert target k fields decls, fewer)
    ]

pub unseen-le : (schema : Schema) (decls : Dict (List String)) → unseen schema decls ≤ length schema
unfolding unseen
unseen-le [] decls = omega arith
unseen-le ((k, sobj) ∷ schema) decls = ground (arith, unseen-le schema decls)

pub length-last_first :
    (decls : Dict (List String)) (stack : List String)
    → length (last_first decls stack) ≡ length decls + length stack
length-last_first [] stack = omega arith
length-last_first ((table, fields) ∷ decls) stack =
    omega (arith, length-last_first decls (table ∷ stack))

module _ (not_extractable : List String) (schema : Schema) where
  -- How many turns are left at most.
  abbrev pub budget : Extended → ℕ
  budget e = length e.to_process + unseen schema e.decls

  target_object-lookup :
      (target : String) (sobj : SObject)
      → target_object not_extractable schema target ≡ some sobj
      → Dict.lookup target schema ≡ some sobj
  unfolding target_object
  target_object-lookup target sobj h = elim (Bool-cases (contains not_extractable target)) [
    | inl banned ↦ ground arith
    | inr free ↦ elim (Option-cases (Dict.lookup target schema)) [
      | inl unknown ↦ ground arith
      | inr (o, found) ↦ elim (Bool-cases o.extractable) [
        | inl fit ↦ found ∙ ground arith
        | inr unfit ↦ ground arith
      ]
    ]
  ]

  add_if-budget :
      (target : String) (e e' : Extended) (b : Bool) (object : Option SObject)
      → Dict.has target e.decls ≡ b
      → target_object not_extractable schema target ≡ object
      → add_if not_extractable schema target b object e ≡ ok e'
      → budget e' ≤ budget e
  unfolding add_table
  add_if-budget target e e' true object there found h =
      subst (λ (x : Extended). budget x ≤ budget e) (ok-injective h) (omega arith)
  add_if-budget target e e' false none missing unfit h =
      subst (λ (x : Extended). budget x ≤ budget e) (ok-injective h) (omega arith)
  add_if-budget target e e' false (some sobj) missing fit h =
      let (ds, collected, done) =
        >>=-eq-ok
          (collect_dependencies not_extractable schema target (required_fields sobj.fields) true)
          (λ ds. ok (with_table target sobj ds e)) h in
      let fewer =
        unseen-insert-lt schema target (required_fields sobj.fields) e.decls sobj
          (target_object-lookup target sobj fit) missing in
      subst (λ (x : Extended). budget x ≤ budget e) (ok-injective done) (omega (arith, fewer))

  add_targets-budget :
      (targets : List String) (e e' : Extended)
      → add_targets not_extractable schema targets e ≡ ok e'
      → budget e' ≤ budget e
  unfolding add_targets
  add_targets-budget [] e e' h =
      subst (λ (x : Extended). budget x ≤ budget e) (ok-injective h) (omega arith)
  add_targets-budget (target ∷ targets) e e' h =
      let (mid, first, rest) =
        >>=-eq-ok
          (add_if not_extractable schema target (Dict.has target e.decls)
            (target_object not_extractable schema target) e)
          (λ x. add_targets not_extractable schema targets x) h in
      let here =
        add_if-budget target e mid (Dict.has target e.decls)
          (target_object not_extractable schema target) refl refl first in
      omega (arith, here, add_targets-budget targets mid e' rest)

  pub add_dependencies-budget :
      (ds : List SObjDependency) (e e' : Extended)
      → add_dependencies not_extractable schema ds e ≡ ok e'
      → budget e' ≤ budget e
  unfolding add_dependencies
  add_dependencies-budget [] e e' h =
      subst (λ (x : Extended). budget x ≤ budget e) (ok-injective h) (omega arith)
  add_dependencies-budget (d ∷ ds) e e' h =
      let (mid, first, rest) =
        >>=-eq-ok (add_targets not_extractable schema d.table_names_to e)
          (λ x. add_dependencies not_extractable schema ds x) h in
      omega (
        arith,
        add_targets-budget d.table_names_to e mid first,
        add_dependencies-budget ds mid e' rest,
      )
