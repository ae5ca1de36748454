-- ===== src/Flow/Run/Skipping.antt =====
-- A flow whose condition fails before the run starts runs none of its tasks.
use package.text.Mathlib.Text.{starts_with}
use cumulus_ci.Prelude.{
  String, ◌≡◌, refl, sym, ap, ◌∙◌, Bool, Bool-cases, >>=-eq-ok, ok-injective, ◌>>=◌, subst, List,
  [], ◌∷◌, ◌++◌, true, false, ◌||◌, arith, All, All-append, Result, ok, err, if_ind, inl, inr, ◌<>◌,
}
use cumulus_ci.Flow.Spec.{FlowError, StepSpec}
use cumulus_ci.Flow.Run.{
  StepResult, World, Event, post_flow, pre_task, post_task, Progress, run_task, evaluate_flow_step,
  finish_step, run_if, run_step, skipped_unless, run_unless_raised, skipped_flows,
  is_task_in_skipped_flow, visit_planned, and_then, run_steps, run,
}
use cumulus_ci.Flow.Run.Events.{and_then_err, and_then_ok, outcome-cases}

-- The task of the callback is not below the path.
abbrev pub IsClear : String → Event → Type 0
IsClear path (pre_task s) = starts_with s.path (path <> ".") ≡ false
IsClear path (post_task s r) = starts_with s.path (path <> ".") ≡ false
IsClear path _ = Unit

fewer_skipped :
    (task path : String) (holds : Bool) (rest : List String)
    → is_task_in_skipped_flow task (skipped_unless holds path rest) ≡ false
    → is_task_in_skipped_flow task rest ≡ false
unfolding is_task_in_skipped_flow
fewer_skipped task path true rest h = h
fewer_skipped task path false rest h = ground arith

any-skipped :
    (world : World) (before after : List StepSpec) (f : StepSpec) (path : String)
    → f.is_flow ≡ true
    → evaluate_flow_step world [] f ≡ ok false
    → (skipped : List String) → skipped_flows world (before ++ f ∷ after) ≡ ok skipped
    → is_task_in_skipped_flow path skipped ≡ false
    → starts_with path (f.path <> ".") ≡ false
unfolding skipped_flows is_task_in_skipped_flow
any-skipped world [] after f path flow fails skipped found h =
    let conditions : (evaluate_flow_step world [] f >>= λ holds.
    skipped_flows world after >>= λ rest. ok (skipped_unless holds f.path rest))
        ≡ ok skipped =
      rw flow at found in
    let (holds, first, then_) = >>=-eq-ok (evaluate_flow_step world [] f) _ conditions in
    let (rest, later, made) = >>=-eq-ok (skipped_flows world after) _ then_ in
    let fails' : holds ≡ false = ok-injective (sym first ∙ fails) in
    let whole : f.path ∷ rest ≡ skipped =
      ap (λ b. skipped_unless b f.path rest) (sym fails') ∙ ok-injective made in
    let under : is_task_in_skipped_flow path (f.path ∷ rest) ≡ false =
      ap (is_task_in_skipped_flow path) whole ∙ h in
    ground arith
any-skipped world (s ∷ before) after f path flow fails skipped found h =
    elim (Bool-cases s.is_flow) [
      | inr task ↦ any-skipped world before after f path flow fails skipped (rw task at found) h
      | inl is_flow ↦
          let conditions : (evaluate_flow_step world [] s >>= λ holds.
          skipped_flows world (before ++ f ∷ after) >>= λ rest.
          ok (skipped_unless holds s.path rest))
              ≡ ok skipped =
            rw is_flow at found in
          let (holds, first, then_) = >>=-eq-ok (evaluate_flow_step world [] s) _ conditions in
          let (rest, later, made) = >>=-eq-ok (skipped_flows world (before ++ f ∷ after)) _ then_ in
          any-skipped world before after f path flow fails rest later (
            fewer_skipped path s.path holds rest
              (ap (is_task_in_skipped_flow path) (ok-injective made) ∙ h))
    ]

module _ (path : String) where
  abbrev ClearEvents : Progress → Type 0
  ClearEvents p = All (IsClear path) p.events

  finish_step-IsClear :
      (s : StepSpec) (r : Result FlowError StepResult)
      → starts_with s.path (path <> ".") ≡ false
      → ClearEvents (finish_step s r)
  unfolding finish_step
  finish_step-IsClear s (err e) h = (h, tt)
  finish_step-IsClear s (ok r) h = (h, (h, tt))

  run_if-IsClear :
      (world : World) (results : List StepResult) (s : StepSpec) (holds : Result FlowError Bool)
      → starts_with s.path (path <> ".") ≡ false
      → ClearEvents (run_if world results s holds)
  run_if-IsClear world results s (err e) h = tt
  run_if-IsClear world results s (ok false) h = tt
  run_if-IsClear world results s (ok true) h = finish_step-IsClear s (run_task world results s) h

  visit_planned-IsClear :
      (world : World) (skipped : List String) (results : List StepResult) (s : StepSpec)
      → (is_task_in_skipped_flow s.path skipped ≡ false → starts_with s.path (path <> ".") ≡ false)
      → ClearEvents (visit_planned world skipped results s)
  unfolding visit_planned run_step
  visit_planned-IsClear world skipped results s h =
      if_ind ClearEvents (s.is_flow || is_task_in_skipped_flow s.path skipped) (λ _. tt)
        λ runs.
          if_ind ClearEvents s.skip (λ _. tt)
            λ _.
              run_if-IsClear world results s (evaluate_flow_step world results s) (h (ground arith))

  and_then-IsClear : (p q : Progress) → ClearEvents p → ClearEvents q → ClearEvents (and_then p q)
  and_then-IsClear p q hp hq = elim (outcome-cases p.outcome) [
    | inl (e, h) ↦ subst ClearEvents (sym (and_then_err p q e h)) hp
    | inr (u, h) ↦
        subst ClearEvents (sym (and_then_ok p q u h))
          (All-append (IsClear path) p.events q.events hp hq)
  ]

  run_steps-IsClear :
      (world : World) (skipped : List String) (results : List StepResult) (steps : List StepSpec)
      → ((task : String)
          → is_task_in_skipped_flow task skipped ≡ false
          → starts_with task (path <> ".") ≡ false)
      → ClearEvents (run_steps world skipped results steps)
  unfolding run_steps
  run_steps-IsClear world skipped results [] h = tt
  run_steps-IsClear world skipped results (s ∷ steps) h =
      and_then-IsClear (visit_planned world skipped results s) _
        (visit_planned-IsClear world skipped results s (h s.path))
        (run_steps-IsClear world skipped
          (results ++ (visit_planned world skipped results s).results) steps h)

-- If the condition of a flow in the plan does not hold before the run, then no task whose path is
-- below the flow's path is started or reported in the whole run, whatever the tasks do, and even
-- if the condition would hold later.
pub skipped_flow_runs_nothing :
    (world : World) (before after : List StepSpec) (f : StepSpec)
    → f.is_flow ≡ true
    → evaluate_flow_step world [] f ≡ ok false
    → All (IsClear f.path) (run world (before ++ f ∷ after)).events
unfolding run
skipped_flow_runs_nothing world before after f flow fails =
    let steps = before ++ f ∷ after in
    let conditions = skipped_flows world steps in
    (
      tt,
      All-append (IsClear f.path) (run_unless_raised world steps conditions).events (post_flow ∷ [])
          (body conditions refl) (tt, tt),
    )
  where
    body :
        (conditions : Result FlowError (List String))
        → skipped_flows world (before ++ f ∷ after) ≡ conditions
        → ClearEvents f.path (run_unless_raised world (before ++ f ∷ after) conditions)
    body (err e) found = tt
    body (ok skipped) found =
        run_steps-IsClear f.path world skipped [] (before ++ f ∷ after)
          (λ task. any-skipped world before after f task flow fails skipped found)
