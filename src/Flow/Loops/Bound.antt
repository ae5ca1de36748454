-- ===== src/Flow/Loops/Bound.antt =====
-- The search for infinite flows ends: a depth of one more than the number of flows is enough.
use cumulus_ci.Prelude.{
  ℕ, zero, suc, ◌≤◌, ◌<◌, String, ◌≡◌, List, [], ◌∷◌, true, false, arith, contains, length, Result,
  ok, Avoids, Avoids-bind, eq_iff, if◌then◌else◌, Bool-cases, Option-cases, inl, inr,
}
use cumulus_ci.Prelude.Dict
use cumulus_ci.Prelude.Dict.{Dict}
use cumulus_ci.Flow.Spec.{
  FlowError, out_of_fuel, StepConfig, FlowConfig, Project, get_flow, steps_of,
}
use cumulus_ci.Flow.Loops.{check_each, check_flow, check_infinite_flows}

-- How many flows are not on the stack.
abbrev pub room : Dict FlowConfig → List String → ℕ
room [] stack = 0
room ((name, flow) ∷ flows) stack =
    let rest = room flows stack in if contains stack name then rest else suc rest

room-le :
    (flows : Dict FlowConfig) (stack : List String) (name : String)
    → room flows (name ∷ stack) ≤ room flows stack
unfolding contains
room-le [] stack name = omega arith
room-le ((n, f) ∷ flows) stack name = ground (arith, room-le flows stack name)

-- Entering a flow that is not on the stack leaves less room.
room-lt :
    (flows : Dict FlowConfig) (stack : List String) (name : String)
    → Dict.has name flows ≡ true
    → contains stack name ≡ false
    → room flows (name ∷ stack) < room flows stack
unfolding contains Dict.has
room-lt [] stack name there absent = cc
room-lt ((n, f) ∷ flows) stack name there absent =
    ground (arith, room-le flows stack name, room-lt flows stack name, eq_iff name n, eq_iff n name)

room-le-length : (flows : Dict FlowConfig) (stack : List String) → room flows stack ≤ length flows
room-le-length [] stack = omega arith
room-le-length ((n, f) ∷ flows) stack = ground (arith, room-le-length flows stack)

check_each-Avoids :
    (check : List String → String → Result FlowError (Unit {0})) (stack : List String)
    (steps : Dict StepConfig)
    → ((name : String) → Avoids out_of_fuel (check stack name))
    → Avoids out_of_fuel (check_each check stack steps)
unfolding check_each
check_each-Avoids check stack [] h e = cc
check_each-Avoids check stack ((number, c) ∷ steps) h e = elim (Option-cases c.flow) [
  | inl same ↦ ground (arith, check_each-Avoids check stack steps h)
  | inr (name, at) ↦ ground (arith, check_each-Avoids check stack steps h, h name)
]

pub steps_of-Avoids : (flow : FlowConfig) → Avoids out_of_fuel (steps_of flow)
unfolding steps_of
steps_of-Avoids flow e = elim (Option-cases flow.steps) [
  | inl none_there ↦ ground arith
  | inr (steps, at) ↦ ground arith
]

pub get_flow-Avoids : (p : Project) (name : String) → Avoids out_of_fuel (get_flow p name)
unfolding get_flow
get_flow-Avoids p name e = elim (Option-cases (Dict.lookup name p.flows)) [
  | inl none_there ↦ ground arith
  | inr (flow, at) ↦ ground arith
]

-- A flow that `get_flow` finds is among the project's flows.
pub has_of_get_flow :
    (p : Project) (name : String) (flow : FlowConfig)
    → get_flow p name ≡ ok flow
    → Dict.has name p.flows ≡ true
unfolding get_flow
has_of_get_flow p name flow e = elim (Option-cases (Dict.lookup name p.flows)) [
  | inl none_there ↦ ground arith
  | inr (found, at) ↦ Dict.has_of_lookup name p.flows found at
]

check_flow-Avoids :
    (p : Project) (fuel : ℕ) (stack : List String) (name : String)
    → room p.flows stack < fuel
    → Avoids out_of_fuel (check_flow p fuel stack name)
unfolding check_flow
check_flow-Avoids p zero stack name h = absurd (omega arith)
check_flow-Avoids p (suc fuel) stack name h =
    Avoids-bind _ (get_flow p name) _ (get_flow-Avoids p name) λ flow found.
      elim (Bool-cases (contains stack name)) [
        | inl inside ↦ rw inside (λ e. cc)
        | inr fresh ↦ rw fresh (
            Avoids-bind _ (steps_of flow) _ (steps_of-Avoids flow) λ steps _.
              check_each-Avoids (check_flow p fuel) (name ∷ stack) steps λ n.
                check_flow-Avoids p fuel (name ∷ stack) n (
                  omega
                    (arith, room-lt p.flows stack name (has_of_get_flow p name flow found) fresh)))
      ]

-- The search for infinite flows always ends: with fuel of one more than the number of the
-- project's flows it never runs out, whatever flows name one another.
pub check_infinite_flows-Avoids :
    (p : Project) (fuel : ℕ) (flow : FlowConfig)
    → length p.flows < fuel
    → Avoids out_of_fuel (check_infinite_flows p fuel flow)
unfolding check_infinite_flows
check_infinite_flows-Avoids p fuel flow h =
    Avoids-bind _ (steps_of flow) _ (steps_of-Avoids flow) λ steps _.
      check_each-Avoids (check_flow p fuel) [] steps
        λ n. check_flow-Avoids p fuel [] n (omega (arith, room-le-length p.flows []))
