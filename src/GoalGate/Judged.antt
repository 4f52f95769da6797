-- ===== src/GoalGate/Judged.antt =====
-- The loop of the goal-gate check and its judgement (crates/attractor-pipeline/src/goal_gate.rs).
use pascals_discrete_attract.Base.{
  Text, Map, Bool, true, false, not, [], ◌∷◌, none, some, ◌≡◌, refl, inl, inr, In, all, arith,
  Bool-cases, Option-cases,
}
use pascals_discrete_attract.Types.{Outcome}
use pascals_discrete_attract.Types.Errors.{goal_gate_unsatisfied, Result, ok, err}
use pascals_discrete_attract.Graph.{PipelineGraph, PipelineNode, node}
use pascals_discrete_attract.GoalGate.{
  GoalGateResult, is_satisfying, is_failed_gate, resolve_retry_target, check_goal_gates,
  enforce_goal_gates, judge, failing,
}

abbrev pub gate_ok : PipelineGraph → Text × Outcome → Bool
gate_ok graph (id, outcome) = not (is_failed_gate graph id outcome)

-- A visited goal gate whose outcome is neither a success nor a partial success.
pub record Failed (graph : PipelineGraph) (outcomes : Map Outcome) : Type 0 where
  pub id : Text
  pub outcome : Outcome
  pub gate : PipelineNode
  pub visited : In (id, outcome) outcomes
  pub named : node graph id ≡ some gate
  pub is_gate : gate.goal_gate ≡ true
  pub unsatisfied : is_satisfying outcome.status ≡ false

-- The three ends of the check.
pub data Judged (graph : PipelineGraph) (outcomes : Map Outcome)
    : Result GoalGateResult → Type 0 where
  passed :
      all (gate_ok graph) outcomes ≡ true
      → Judged graph outcomes
          (ok (record { all_satisfied = true; failed_node_id = none; retry_target = none }))
  sent_back :
      (f : Failed graph outcomes) (target : Text)
      → resolve_retry_target f.gate graph ≡ some target
      → Judged graph outcomes (
          ok (record {
            all_satisfied = false;
            failed_node_id = some f.id;
            retry_target = some target;
          }))
  refused :
      (f : Failed graph outcomes)
      → resolve_retry_target f.gate graph ≡ none
      → Judged graph outcomes (err (goal_gate_unsatisfied f.id))

failed_gate :
    (graph : PipelineGraph) (id : Text) (outcome : Outcome)
    → is_failed_gate graph id outcome ≡ true
    → (gate : PipelineNode) × (node graph id ≡ some gate)
      × (gate.goal_gate ≡ true)
      × (is_satisfying outcome.status ≡ false)
unfolding is_failed_gate
failed_gate graph id outcome h = elim (Option-cases (node graph id)) [
  | inl e ↦ cc (rw (e, is_failed_gate) at h)
  | inr (gate, e) ↦
      let h' : failing (some gate) outcome ≡ true = rw (e, is_failed_gate) at h in
      (gate, e, ground arith, ground arith)
]

-- The loop stops at the first failed gate.
data Checked (graph : PipelineGraph) (outcomes : Map Outcome) : GoalGateResult → Type 0 where
  clear :
      all (gate_ok graph) outcomes ≡ true
      → Checked graph outcomes
          (record { all_satisfied = true; failed_node_id = none; retry_target = none })
  stopped :
      (f : Failed graph outcomes)
      → Checked graph outcomes (record {
        all_satisfied = false;
        failed_node_id = some f.id;
        retry_target = resolve_retry_target f.gate graph;
      })

-- A gate that holds changes nothing.
Checked-cons :
    (graph : PipelineGraph) (id : Text) (outcome : Outcome) (rest : Map Outcome)
    {result : GoalGateResult}
    → is_failed_gate graph id outcome ≡ false
    → Checked graph rest result
    → Checked graph ((id, outcome) ∷ rest) result
Checked-cons graph id outcome rest p (clear h) = clear (rw p h)
Checked-cons graph id outcome rest p (stopped f) = stopped (record {
  id = f.id;
  outcome = f.outcome;
  gate = f.gate;
  visited = inr f.visited;
  named = f.named;
  is_gate = f.is_gate;
  unsatisfied = f.unsatisfied;
})

check-Checked :
    (graph : PipelineGraph) (outcomes : Map Outcome)
    → Checked graph outcomes (check_goal_gates graph outcomes)
unfolding check_goal_gates
check-Checked graph [] = clear refl
check-Checked graph ((id, outcome) ∷ rest) = elim (Bool-cases (is_failed_gate graph id outcome)) [
  | inl p ↦
      let (gate, named, is_gate, unsatisfied) = failed_gate graph id outcome p in
      rw (p, named)
        (stopped (record {
          id = id;
          outcome = outcome;
          gate = gate;
          visited = inl refl;
          named = named;
          is_gate = is_gate;
          unsatisfied = unsatisfied;
        }))
  | inr p ↦ rw p (Checked-cons graph id outcome rest p (check-Checked graph rest))
]

judged :
    (graph : PipelineGraph) (outcomes : Map Outcome) {result : GoalGateResult}
    → Checked graph outcomes result
    → Judged graph outcomes (judge result)
unfolding judge
judged graph outcomes (clear h) = passed h
judged graph outcomes (stopped f) = elim (Option-cases (resolve_retry_target f.gate graph)) [
  | inl q ↦ rw q (refused f q)
  | inr (target, q) ↦ rw q (sent_back f target q)
]

-- The three ends of the check, in the terms of the code.
pub enforce_goal_gates-Judged :
    (graph : PipelineGraph) (outcomes : Map Outcome)
    → Judged graph outcomes (enforce_goal_gates graph outcomes)
unfolding enforce_goal_gates
enforce_goal_gates-Judged graph outcomes = judged graph outcomes (check-Checked graph outcomes)
