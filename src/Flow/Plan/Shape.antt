-- ===== src/Flow/Plan/Shape.antt =====
-- What each step of a plan satisfies: it can be run, and its path shows the flows around it.
use text.Mathlib.TextLemmas.{append_assoc as text_assoc, append-eq-nil_iff}
use cumulus_ci.Prelude.{
  String, ◌≡◌, ◌≢◌, refl, sym, ap, subst, ◌∙◌, List, [], ◌∷◌, Option, none, some, true, ◌||◌, inl,
  inr, arith, All, All-append, Result, ok, err, ◌>>=◌, ◌==◌, eq_iff, Bool-cases, Option-cases, ◌<>◌,
}
use cumulus_ci.Prelude.Dict.{Dict}
use cumulus_ci.Config.Value.{Fields}
use cumulus_ci.Flow.Spec.{FlowError, StepConfig, StepSpec, dotted}
use cumulus_ci.Flow.Steps.{Shared, Around, Visit, is_some, skipped_spec, flow_spec, visit_each}

-- A step that is not a condition and not skipped has an implementation.
abbrev pub IsRunnable : StepSpec → Type 0
IsRunnable s = (s.is_flow || s.skip || is_some s.task_class) ≡ true

-- The path goes on from that of the flow around it, where there is one with a name.
abbrev pub IsUnder : Option String → String → Type 0
IsUnder none path = Unit
IsUnder (some flow) path = flow ≢ "" → (rest : String) × (path ≡ flow <> ("." <> rest))

abbrev pub IsShaped : Option String → StepSpec → Type 0
IsShaped from s = IsRunnable s × IsUnder from s.path

dotted-some : (flow name : String) → flow ≢ "" → dotted (some flow) name ≡ flow <> ("." <> name)
unfolding dotted
dotted-some flow name h = ground (arith, eq_iff flow "")

pub dotted-IsUnder : (from : Option String) (name : String) → IsUnder from (dotted from name)
dotted-IsUnder none name = tt
dotted-IsUnder (some flow) name = λ h. (name, dotted-some flow name h)

-- A longer path is under all that a shorter one is under.
pub IsUnder-dotted :
    (from : Option String) (name path : String)
    → IsUnder (some (dotted from name)) path
    → IsUnder from path
IsUnder-dotted none name path h = tt
IsUnder-dotted (some flow) name path h = λ named.
    let whole : dotted (some flow) name ≡ flow <> ("." <> name) = dotted-some flow name named in
    let (rest, e) : (rest : String) × (path ≡ dotted (some flow) name <> ("." <> rest)) =
      h (λ empty. named ((append-eq-nil_iff {p = flow}).0 (sym whole ∙ empty)).0) in
    (
      name <> ("." <> rest),
      e
          ∙ ap (λ (t : String). t <> ("." <> rest)) whole
          ∙ text_assoc flow ("." <> name) ("." <> rest)
          ∙ ap (λ (t : String). flow <> t) (text_assoc "." name ("." <> rest)),
    )

pub IsShaped-dotted :
    (from : Option String) (name : String) (specs : List StepSpec)
    → All (IsShaped (some (dotted from name))) specs
    → All (IsShaped from) specs
IsShaped-dotted from name [] h = tt
IsShaped-dotted from name (s ∷ specs) ((run, under), h) =
    ((run, IsUnder-dotted from name s.path under), IsShaped-dotted from name specs h)

-- The steps that a visit gives are shaped.
abbrev pub Shapes : Option String → Result FlowError (List StepSpec × Shared) → Type 0
Shapes from (ok (specs, shared)) = All (IsShaped from) specs
Shapes from (err e) = Unit

pub Shapes-bind {ℓ} :
    {A : Type ℓ} (from : Option String) (m : Result FlowError A)
    (f : A → Result FlowError (List StepSpec × Shared))
    → ((a : A) → m ≡ ok a → Shapes from (f a))
    → Shapes from (m >>= f)
Shapes-bind from (ok a) f h = h a refl
Shapes-bind from (err e) f h = tt

pub Shapes-ok :
    (from : Option String) (r : Result FlowError (List StepSpec × Shared)) {specs : List StepSpec}
    {shared : Shared}
    → Shapes from r
    → r ≡ ok (specs, shared)
    → All (IsShaped from) specs
Shapes-ok from r {specs} {shared} h e = subst (Shapes from) e h

pub visit_each-Shapes :
    (from : Option String) (visit : String → StepConfig → Visit)
    → ((number : String) (c : StepConfig) (shared : Shared) → Shapes from (visit number c shared))
    → (steps : Dict StepConfig) (shared : Shared) → Shapes from (visit_each visit steps shared)
unfolding visit_each
visit_each-Shapes from visit h [] shared = tt
visit_each-Shapes from visit h ((number, c) ∷ steps) shared =
    Shapes-bind from (visit number c shared) _ λ r first.
      Shapes-bind from (visit_each visit steps r.1) _ λ s more.
        All-append (IsShaped from) r.0 s.0
          (Shapes-ok from (visit number c shared) (h number c shared) first)
          (Shapes-ok from (visit_each visit steps r.1) (visit_each-Shapes from visit h steps r.1)
            more)

pub skipped_spec-IsShaped :
    (options : Option Fields) (c : StepConfig) (around : Around) (number : String)
    → IsShaped around.from_flow (skipped_spec options c around number)
unfolding skipped_spec
skipped_spec-IsShaped options c around number = (refl, dotted-IsUnder around.from_flow _)

pub flow_spec-IsShaped :
    (c : StepConfig) (from : Option String) (name number : String)
    → All (IsShaped from) (flow_spec c (dotted from name) number)
unfolding flow_spec
flow_spec-IsShaped c from name number = elim (Option-cases c.when) [
  | inl absent ↦ rw absent tt
  | inr (condition, at) ↦ elim (Bool-cases (condition == "")) [
    | inl empty ↦ rw (at, empty) tt
    | inr real ↦ rw (at, real) ((refl, dotted-IsUnder from name), tt)
  ]
]
