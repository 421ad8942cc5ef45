-- ===== src/CollectorStateMachine/History.antt =====
-- What an observer that keeps every notification has seen after any requests.
use esp32_dust_extraction.Common.{◌≡◌, refl, sym, inl, inr, Bool, some, List, [], ◌∷◌, ◌++◌, subst}
use esp32_dust_extraction.CollectorUnit.{CollectorState, stopped}
use esp32_dust_extraction.CollectorStateMachine.{Transition, CollectorStateMachine, new, notify}
use esp32_dust_extraction.CollectorStateMachine.Diagram.{Request, Edge, step, step-Edge}

-- The transitions lead from the one state to the other along edges of the diagram.
abbrev pub Chain : CollectorState → List Transition → CollectorState → Type 0
Chain from [] to = from ≡ to
Chain from (t ∷ ts) to = (t.from ≡ from) × ((q : Request) × Edge q t.from t.to) × Chain t.to ts to

abbrev pub record_transition : Transition → List Transition → List Transition
record_transition t seen = seen ++ t ∷ []

pub run :
    List Request
    → CollectorStateMachine (List Transition)
    → List Transition
    → CollectorStateMachine (List Transition) × List Transition
run [] m seen = (m, seen)
run (q ∷ qs) m seen = let (accepted, m', seen') = step q m seen in run qs m' seen'

Chain-append :
    (from mid to : CollectorState) (ts : List Transition) (q : Request)
    → Chain from ts mid
    → Edge q mid to
    → Chain from (ts ++ record { from = mid; to = to } ∷ []) to
Chain-append from mid to [] q c edge = (sym c, (q, edge), refl)
Chain-append from mid to (t ∷ ts) q c edge = (c.0, c.1, Chain-append t.to mid to ts q c.2 edge)

-- What a step keeps: the observer, and the chain from the first state to the present one.
record Seen (m : CollectorStateMachine (List Transition)) (seen : List Transition) : Type 0 where
  observed : m.observer ≡ some record_transition
  chained : Chain stopped seen m.state

step-Seen :
    (q : Request) (m : CollectorStateMachine (List Transition)) (seen : List Transition)
    → Seen m seen
    → Seen (step q m seen).1 (step q m seen).2
step-Seen q m seen h = elim (step-Edge q m seen) [
  | inr (no_edge, same) ↦
      subst (λ (r : Bool × CollectorStateMachine (List Transition) × List Transition). Seen r.1 r.2)
        (sym same) h
  | inl (to, edge, moved) ↦
      subst (λ (r : Bool × CollectorStateMachine (List Transition) × List Transition). Seen r.1 r.2)
        (sym moved)
        (record {
          observed = h.observed;
          chained =
              subst (λ o. Chain stopped (notify o (record { from = m.state; to = to }) seen) to)
                (sym h.observed) (Chain-append stopped m.state to seen q h.chained edge);
        })
]

run-Seen :
    (qs : List Request) (m : CollectorStateMachine (List Transition)) (seen : List Transition)
    → Seen m seen
    → Seen (run qs m seen).0 (run qs m seen).1
unfolding run
run-Seen [] m seen h = h
run-Seen (q ∷ qs) m seen h = run-Seen qs (step q m seen).1 (step q m seen).2 (step-Seen q m seen h)

-- Whatever is requested of a new machine, its observer is told of a chain of edges of the diagram
-- that starts in `stopped` and ends in the machine's present state.
pub run-Chain :
    (qs : List Request)
    → let (m, seen) = run qs (new (some record_transition)) [] in Chain stopped seen m.state
unfolding new
run-Chain qs =
    let seen =
      run-Seen qs (new (some record_transition)) [] (record { observed = refl; chained = refl }) in
    seen.chained
