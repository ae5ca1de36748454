-- ===== src/Tables/Referenced/Grows.antt =====
-- What an addition of tables keeps.
use cumulus_ci.Prelude.{
  String, ◌≡◌, refl, sym, ap, ◌∙◌, subst, ◌⊎◌, inl, inr, Option, none, some, List, [], ◌∷◌, Bool,
  true, false, ◌||◌, ◌==◌, contains, eq_refl, All, text-cases, ok, >>=-eq-ok, ok-injective, arith,
}
use cumulus_ci.Prelude.Dict
use cumulus_ci.Prelude.Dict.{Dict}
use cumulus_ci.Tables.Referenced.{
  SObject, SObjDependency, Schema, collect_dependencies, set_dependencies, Extended, with_table,
  required_fields, target_object, add_table, add_if, add_targets, add_dependencies,
  found_dependencies,
}

pub All-map {κ μ} :
    {A : Type 0} (P : A → Type κ) (Q : A → Type μ)
    → ((x : A) → P x → Q x)
    → (xs : List A) → All P xs
    → All Q xs
All-map P Q f [] h = tt
All-map P Q f (x ∷ xs) (here, rest) = (f x here, All-map P Q f xs rest)

module _ (not_extractable : List String) (schema : Schema) where
  -- A table that can be extracted is among the declarations.
  abbrev pub Met : Dict (List String) → String → Type 0
  Met decls target =
      (sobj : SObject)
      → target_object not_extractable schema target ≡ some sobj
      → Dict.has target decls ≡ true

  abbrev pub AllMet : Dict (List String) → SObjDependency → Type 0
  AllMet decls d = All (Met decls) d.table_names_to

  -- All that the lookups of a table refer to.
  abbrev pub Closed : Extended → String → Type 0
  Closed e t = All (AllMet e.decls) (found_dependencies (Dict.lookup t e.dependencies))

  -- What an addition keeps.
  pub record Grows (e e' : Extended) : Type 0 where
    pub declared : (x : String) → Dict.has x e.decls ≡ true → Dict.has x e'.decls ≡ true
    pub same :
        (x : String)
        → Dict.has x e.decls ≡ true
        → Dict.lookup x e'.dependencies ≡ Dict.lookup x e.dependencies
    pub added :
        (x : String)
        → Dict.has x e'.decls ≡ true
        → (Dict.has x e.decls ≡ true) ⊎ (contains e'.to_process x ≡ true)
    pub waiting : (x : String) → contains e.to_process x ≡ true → contains e'.to_process x ≡ true

  Grows-refl : (e : Extended) → Grows e e
  Grows-refl e = record {
    declared = λ x h. h;
    same = λ x h. refl;
    added = λ x h. inl h;
    waiting = λ x h. h;
  }

  Grows-trans : (a b c : Extended) → Grows a b → Grows b c → Grows a c
  Grows-trans a b c f g = record {
    declared = λ x h. g.declared x (f.declared x h);
    same = λ x h. g.same x (f.declared x h) ∙ f.same x h;
    added = λ x h. elim (g.added x h) [
      | inr later ↦ inr later
      | inl before ↦ elim (f.added x before) [
        | inl first ↦ inl first
        | inr then_ ↦ inr (g.waiting x then_)
      ]
    ];
    waiting = λ x h. g.waiting x (f.waiting x h);
  }

  lookup-set_dependencies :
      (source x : String) (ds : List SObjDependency) (dependencies : Dict (List SObjDependency))
      → (source == x) ≡ false
      → Dict.lookup x (set_dependencies source ds dependencies) ≡ Dict.lookup x dependencies
  lookup-set_dependencies source x [] dependencies other = refl
  lookup-set_dependencies source x (d ∷ ds) dependencies other =
      Dict.lookup-insert source x (d ∷ ds) dependencies ∙ rw other refl

  -- A key that is there is not one that is not.
  apart :
      (source x : String) (decls : Dict (List String))
      → Dict.has source decls ≡ false
      → Dict.has x decls ≡ true
      → (source == x) ≡ false
  apart source x decls missing there = elim (text-cases source x) [
    | inr other ↦ other
    | inl e ↦
        let clash : Path Bool false true = sym missing ∙ (ap (λ k. Dict.has k decls) e ∙ there) in
        cc
  ]

  with_table-Grows :
      (target : String) (sobj : SObject) (ds : List SObjDependency) (e : Extended)
      → Dict.has target e.decls ≡ false
      → Grows e (with_table target sobj ds e)
  unfolding contains
  with_table-Grows target sobj ds e missing =
      let fields : List String = required_fields sobj.fields in
      record {
        declared = λ x h. Dict.has-insert target x fields e.decls ∙ ground (arith, h);
        same = λ x h.
            lookup-set_dependencies target x ds e.dependencies (apart target x e.decls missing h);
        added =
            λ x h. new_or_old x (target == x) (sym (Dict.has-insert target x fields e.decls) ∙ h);
        waiting = λ x h. ground (arith, h);
      }
    where
      new_or_old :
          (x : String) (b : Bool)
          → (b || Dict.has x e.decls) ≡ true
          → (Dict.has x e.decls ≡ true) ⊎ ((b || contains e.to_process x) ≡ true)
      new_or_old x true h = inr refl
      new_or_old x false h = inl h

  with_table-declared :
      (target : String) (sobj : SObject) (ds : List SObjDependency) (e : Extended)
      → Dict.has target (with_table target sobj ds e).decls ≡ true
  with_table-declared target sobj ds e =
      Dict.has-insert target target (required_fields sobj.fields) e.decls
      ∙ ground (arith, eq_refl target)

  -- One target: it is met, and what was met before stays so.
  add_if-Grows :
      (target : String) (e e' : Extended) (b : Bool) (object : Option SObject)
      → Dict.has target e.decls ≡ b
      → target_object not_extractable schema target ≡ object
      → add_if not_extractable schema target b object e ≡ ok e'
      → Grows e e' × Met e'.decls target
  unfolding add_table
  add_if-Grows target e e' true object there found h =
      subst (λ (x : Extended). Grows e x × Met x.decls target) (ok-injective h)
        (Grows-refl e, λ sobj fit. there)
  add_if-Grows target e e' false none missing unfit h =
      subst (λ (x : Extended). Grows e x × Met x.decls target) (ok-injective h)
        (Grows-refl e, λ sobj fit. no_object sobj (sym unfit ∙ fit))
    where
      no_object :
          (sobj : SObject) → Path (Option SObject) none (some sobj) → Dict.has target e.decls ≡ true
      no_object sobj clash = cc
  add_if-Grows target e e' false (some sobj) missing fit h =
      let (ds, collected, done) =
        >>=-eq-ok
          (collect_dependencies not_extractable schema target (required_fields sobj.fields) true)
          (λ ds. ok (with_table target sobj ds e)) h in
      subst (λ (x : Extended). Grows e x × Met x.decls target) (ok-injective done)
        (with_table-Grows target sobj ds e missing, λ s f. with_table-declared target sobj ds e)

  pub Met-Grows :
      (e e' : Extended) → Grows e e' → (target : String) → Met e.decls target → Met e'.decls target
  Met-Grows e e' g target met sobj fit = g.declared target (met sobj fit)

  add_targets-Grows :
      (targets : List String) (e e' : Extended)
      → add_targets not_extractable schema targets e ≡ ok e'
      → Grows e e' × All (Met e'.decls) targets
  unfolding add_targets
  add_targets-Grows [] e e' h =
      subst (λ (x : Extended). Grows e x × Unit {0}) (ok-injective h) (Grows-refl e, tt)
  add_targets-Grows (target ∷ targets) e e' h =
      let (mid, first, rest) =
        >>=-eq-ok
          (add_if not_extractable schema target (Dict.has target e.decls)
            (target_object not_extractable schema target) e)
          (λ x. add_targets not_extractable schema targets x) h in
      let (g, met) =
        add_if-Grows target e mid (Dict.has target e.decls)
          (target_object not_extractable schema target) refl refl first in
      let (g', all) = add_targets-Grows targets mid e' rest in
      (Grows-trans e mid e' g g', (Met-Grows mid e' g' target met, all))

  pub AllMet-Grows :
      (e e' : Extended) → Grows e e' → (d : SObjDependency) → AllMet e.decls d → AllMet e'.decls d
  AllMet-Grows e e' g d = All-map (Met e.decls) (Met e'.decls) (Met-Grows e e' g) d.table_names_to

  pub add_dependencies-Grows :
      (ds : List SObjDependency) (e e' : Extended)
      → add_dependencies not_extractable schema ds e ≡ ok e'
      → Grows e e' × All (AllMet e'.decls) ds
  unfolding add_dependencies
  add_dependencies-Grows [] e e' h =
      subst (λ (x : Extended). Grows e x × Unit {0}) (ok-injective h) (Grows-refl e, tt)
  add_dependencies-Grows (d ∷ ds) e e' h =
      let (mid, first, rest) =
        >>=-eq-ok (add_targets not_extractable schema d.table_names_to e)
          (λ x. add_dependencies not_extractable schema ds x) h in
      let (g, met) = add_targets-Grows d.table_names_to e mid first in
      let (g', all) = add_dependencies-Grows ds mid e' rest in
      (Grows-trans e mid e' g g', (AllMet-Grows mid e' g' d met, all))
