-- ===== src/Flow/Run/Events.antt =====
-- What a run does and reports, however it ends.
use cumulus_ci.Prelude.{
  String, ◌≡◌, refl, sym, ap, subst, if_ind, ◌⊎◌, List, [], ◌∷◌, ◌++◌, append-nil, Bool, true,
  false, not, ◌&&◌, ◌||◌, arith, Result, ok, err, Bool-cases, Option-cases, inl, inr,
}
use cumulus_ci.Flow.Spec.{FlowError, task_exception, StepSpec}
use cumulus_ci.Flow.Steps.{is_some}
use cumulus_ci.Flow.Run.{
  StepResult, World, Event, pre_flow, post_flow, pre_task, post_task, Progress, nothing, broken_off,
  run_task, evaluate_flow_step, finish_step, run_if, run_step, is_task_in_skipped_flow,
  visit_planned, and_then, run_steps, skipped_flows, run_unless_raised, run,
}
use cumulus_ci.Flow.Run.Course.{
  results_of, IsOpen, PassedOver, a_flow, in_skipped_flow, is_skipped, condition_fails, Starts,
  Runs, ended, passed, condition_raised, refused_at, failed_at, came_through, Ends,
  flow_condition_raised, ran_steps,
}

-- The two forms of a continuation.
pub and_then_err : (p q : Progress) (e : FlowError) → p.outcome ≡ err e → and_then p q ≡ p
unfolding and_then
and_then_err p q e h = ground arith

abbrev pub joined : Progress → Progress → Progress
joined p q = record {
  outcome = q.outcome;
  results = p.results ++ q.results;
  events = p.events ++ q.events;
}

pub and_then_ok : (p q : Progress) (u : Unit {0}) → p.outcome ≡ ok u → and_then p q ≡ joined p q
unfolding and_then
and_then_ok p q u h = ground arith

pub outcome-cases {ℓ} :
    {A : Type ℓ} (r : Result FlowError A) → ((e : FlowError) × (r ≡ err e)) ⊎ ((a : A) × (r ≡ ok a))
outcome-cases (err e) = inl (e, refl)
outcome-cases (ok a) = inr (a, refl)

module _ (world : World) (skipped : List String) where
  record Follows (results : List StepResult) (steps : List StepSpec) (p : Progress) : Type 0 where
    runs : Runs world skipped results steps p.outcome p.events
    reported : p.results ≡ results_of p.events

  module _ (results : List StepResult) (s : StepSpec) (steps : List StepSpec) where
    -- What a visit of one step can be.
    data Visited : Progress → Type 0 where
      passed_over : PassedOver world skipped results s → Visited nothing
      raised :
          (e : FlowError)
          → IsOpen world skipped s
          → evaluate_flow_step world results s ≡ err e
          → Visited (broken_off e)
      started : Starts world skipped results s → Visited (finish_step s (run_task world results s))

    run_if-Visited :
        (holds : Result FlowError Bool)
        → IsOpen world skipped s
        → evaluate_flow_step world results s ≡ holds
        → Visited (run_if world results s holds)
    run_if-Visited (err e) opened h = raised e opened h
    run_if-Visited (ok false) opened h = passed_over (condition_fails opened h)
    run_if-Visited (ok true) opened h = started (opened, h)

    visit_planned-Visited : Visited (visit_planned world skipped results s)
    unfolding visit_planned run_step
    visit_planned-Visited =
        if_ind Visited (s.is_flow || is_task_in_skipped_flow s.path skipped)
          (λ over. passed_over (by_flow s.is_flow refl over))
          λ under.
            if_ind Visited s.skip (λ skips. passed_over (is_skipped skips))
              λ kept.
                run_if-Visited (evaluate_flow_step world results s)
                  (ground arith, ground arith, kept) refl
      where
        by_flow :
            (b : Bool)
            → s.is_flow ≡ b
            → (b || is_task_in_skipped_flow s.path skipped) ≡ true
            → PassedOver world skipped results s
        by_flow true flow over = a_flow flow
        by_flow false task over = in_skipped_flow over

    -- A task that was started, and the rest of the run.
    came_through-Follows :
        (r : StepResult) (q : Progress)
        → Starts world skipped results s
        → run_task world results s ≡ ok r
        → (is_some r.exception && not s.allow_failure) ≡ false
        → (finish_step s (ok r)).outcome ≡ ok tt
        → Follows (results ++ r ∷ []) steps q
        → Follows results (s ∷ steps) (and_then (finish_step s (ok r)) q)
    unfolding finish_step
    came_through-Follows r q starts ran fine well later =
        subst (Follows results (s ∷ steps)) (sym (and_then_ok (finish_step s (ok r)) q tt well))
          (record {
            runs = came_through results s steps r q.outcome q.events starts ran fine later.runs;
            reported = ap (λ l. r ∷ l) later.reported;
          })

    started-Follows :
        (t : Result FlowError StepResult) (q : Progress)
        → Starts world skipped results s
        → run_task world results s ≡ t
        → Follows (results ++ (finish_step s t).results) steps q
        → Follows results (s ∷ steps) (and_then (finish_step s t) q)
    unfolding finish_step and_then
    started-Follows (err e) q starts ran later = record {
      runs = refused_at results s steps e starts ran;
      reported = refl;
    }
    started-Follows (ok r) q starts ran later = elim (Option-cases r.exception) [
      | inl fine ↦ came_through-Follows r q starts ran (ground arith) (ground arith) later
      | inr (x, thrown) ↦ elim (Bool-cases s.allow_failure) [
        | inl allowed ↦ came_through-Follows r q starts ran (ground arith) (ground arith) later
        | inr fatal ↦
            let ends : (finish_step s (ok r)).outcome ≡ err (task_exception x) = ground arith in
            subst (Follows results (s ∷ steps))
              (sym (and_then_err (finish_step s (ok r)) q (task_exception x) ends))
              (record {
                runs =
                    subst
                      (λ o.
                        Runs world skipped results (s ∷ steps) o (pre_task s ∷ post_task s r ∷ []))
                      (sym ends) (failed_at results s steps r x starts ran thrown fatal);
                reported = refl;
              })
      ]
    ]

    Visited-Follows :
        (p q : Progress)
        → Visited p
        → Follows (results ++ p.results) steps q
        → Follows results (s ∷ steps) (and_then p q)
    unfolding and_then
    Visited-Follows _ q (passed_over over) later = record {
      runs = passed results s steps q.outcome q.events over (
          subst (λ l. Runs world skipped l steps q.outcome q.events) (append-nil results)
            later.runs);
      reported = later.reported;
    }
    Visited-Follows _ q (raised e opened h) later = record {
      runs = condition_raised results s steps e opened h;
      reported = refl;
    }
    Visited-Follows _ q (started starts) later =
        started-Follows (run_task world results s) q starts refl later

  run_steps-Follows :
      (results : List StepResult) (steps : List StepSpec)
      → Follows results steps (run_steps world skipped results steps)
  unfolding run_steps
  run_steps-Follows results [] = record { runs = ended results; reported = refl }
  run_steps-Follows results (s ∷ steps) =
      Visited-Follows results s steps (visit_planned world skipped results s) _
        (visit_planned-Visited results s steps)
        (run_steps-Follows (results ++ (visit_planned world skipped results s).results) steps)

-- Whatever the tasks and the conditions do, a run calls `pre_flow` first and `post_flow` last, and
-- what is between them is an execution of the steps. If a condition of a flow raises beforehand,
-- the run raises that and starts nothing. Otherwise the steps are visited in the order of the plan:
-- each is passed over for a reason, or its task is started with the results so far and `pre_task`
-- is called. Every task that comes to an end is reported to `post_task` with its result. The run
-- raises at the first condition that raises, task that raises before it runs, or task that ends
-- with an exception that its step does not allow, with that exception; with none of these it ends
-- well. The results are those that `post_task` was given, in that order.
pub run_events :
    (world : World) (steps : List StepSpec)
    → (tasks : List Event) × ((run world steps).events ≡ pre_flow ∷ (tasks ++ post_flow ∷ []))
      × Ends world steps (run world steps).outcome tasks
      × ((run world steps).results ≡ results_of tasks)
unfolding run
run_events world steps = by_conditions (skipped_flows world steps) refl
  where
    by_conditions :
        (flows : Result FlowError (List String))
        → skipped_flows world steps ≡ flows
        → let body : Progress = run_unless_raised world steps flows in
          (tasks : List Event) × (Path
            (List Event)
            (pre_flow ∷ (body.events ++ post_flow ∷ []))
            (pre_flow ∷ (tasks ++ post_flow ∷ [])))
          × Ends world steps body.outcome tasks
          × (body.results ≡ results_of tasks)
    by_conditions (err e) h = ([], refl, flow_condition_raised e h, refl)
    by_conditions (ok skipped) h =
        let body = run_steps world skipped [] steps in
        let follows = run_steps-Follows world skipped [] steps in
        (
          body.events,
          refl,
          ran_steps skipped body.outcome body.events h follows.runs,
          follows.reported,
        )
