-- ===== src/Flow/Preflight/Once.antt =====
-- No task is run twice with the same options.
use cumulus_ci.Prelude.{
  String, ◌≡◌, refl, Option, none, some, List, [], ◌∷◌, ◌++◌, Bool, false, Result, ok, err, any,
  arith,
}
use cumulus_ci.Config.Value.{Value, Fields}
use cumulus_ci.Flow.Spec.{Check, Project, StepSpec}
use cumulus_ci.Flow.Preflight.{
  PreflightError, Call, Expression, value, raises, call_of, TaskCache, chain, empty_cache,
  same_call, find, prepare, run_uncached, run_unless_found, call_task, evaluate, evaluate_check,
  evaluate_checks, preflight, labelled, step_checks,
}

-- No call is the same as one before it.
abbrev pub Distinct : (Fields → Fields → Bool) → List Call → Type 0
Distinct same_options [] = Unit
Distinct same_options (c ∷ cs) =
    (any (same_call same_options c) cs ≡ false) × Distinct same_options cs

module _ (p : Project) (same_options : Fields → Fields → Bool)
    (return_values : List Call → Call → Value) where
  -- What ran is in the cache.
  abbrev IsSound : TaskCache → Type 0
  IsSound cache =
      Distinct same_options cache.ran
      × ((c : Call)
          → find same_options c cache.results ≡ none
          → any (same_call same_options c) cache.ran ≡ false)

  chain-IsSound :
      {A B : Type 0} (r : Result PreflightError A × TaskCache)
      (f : A → TaskCache → Result PreflightError B × TaskCache)
      → IsSound r.1
      → ((a : A) (now : TaskCache) → IsSound now → IsSound (f a now).1)
      → IsSound (chain r f).1
  chain-IsSound (ok a, now) f held keeps = keeps a now held
  chain-IsSound (err e, now) f held keeps = held

  run_uncached-IsSound :
      (cache : TaskCache) (c : Call) (r : Result {0, 0} PreflightError Unit)
      → find same_options c cache.results ≡ none
      → IsSound cache
      → IsSound (run_uncached p same_options return_values cache c r).1
  unfolding run_uncached find
  run_uncached-IsSound cache c (err e) missing sound = sound
  run_uncached-IsSound cache c (ok u) missing (distinct, covers) =
      ((covers c missing, distinct), λ d absent. ground (arith, covers d))

  run_unless_found-IsSound :
      (cache : TaskCache) (c : Call) (o : Option Value)
      → find same_options c cache.results ≡ o
      → IsSound cache
      → IsSound (run_unless_found p same_options return_values cache c o).1
  unfolding run_unless_found
  run_unless_found-IsSound cache c (some v) found sound = sound
  run_unless_found-IsSound cache c none missing sound =
      run_uncached-IsSound cache c (prepare p c.task_name) missing sound

  call_task-IsSound :
      (cache : TaskCache) (c : Call)
      → IsSound cache
      → IsSound (call_task p same_options return_values cache c).1
  unfolding call_task
  call_task-IsSound cache c sound =
      run_unless_found-IsSound cache c (find same_options c cache.results) refl sound

  evaluate-IsSound :
      (e : Expression) (cache : TaskCache)
      → IsSound cache
      → IsSound (evaluate p same_options return_values e cache).1
  unfolding evaluate
  evaluate-IsSound (value b) cache sound = sound
  evaluate-IsSound (raises e) cache sound = sound
  evaluate-IsSound (call_of c k) cache sound =
      chain-IsSound (call_task p same_options return_values cache c) _
        (call_task-IsSound cache c sound) λ v now held. evaluate-IsSound (k v) now held

  evaluate_checks-IsSound :
      (compile : String → Expression) (checks : List (Option String × Check)) (cache : TaskCache)
      → IsSound cache
      → IsSound (evaluate_checks p same_options return_values compile checks cache).1
  unfolding evaluate_checks evaluate_check
  evaluate_checks-IsSound compile [] cache sound = sound
  evaluate_checks-IsSound compile ((step, check) ∷ checks) cache sound =
      chain-IsSound (evaluate_check p same_options return_values compile step check cache) _
        (chain-IsSound (evaluate p same_options return_values (compile check.when) cache) _
          (evaluate-IsSound (compile check.when) cache sound) λ b now held. held)
        λ here now held.
          chain-IsSound (evaluate_checks p same_options return_values compile checks now) _
            (evaluate_checks-IsSound compile checks now held) λ rest last kept. kept

-- A preflight run starts each task at most once with the same options, whether it ends with the
-- results of the checks or with an error, and whatever the checks ask for and the tasks return.
pub preflight-once :
    (p : Project) (same_options : Fields → Fields → Bool) (return_values : List Call → Call → Value)
    (compile : String → Expression) (checks : List Check) (steps : List StepSpec)
    → Distinct same_options (preflight p same_options return_values compile checks steps).1.ran
unfolding preflight find
preflight-once p same_options return_values compile checks steps =
    (evaluate_checks-IsSound p same_options return_values compile
      (labelled none checks ++ step_checks steps) empty_cache (tt, λ c missing. refl)).0
