-- ===== src/GoalGate/Verdict.antt =====
-- What the verdict on the goal gates means, apart from the code that finds it
-- (crates/attractor-pipeline/src/goal_gate.rs).
use pascals_discrete_attract.Base.{
  Text, Map, Bool, true, false, not, List, [], ◌∷◌, Option, none, some, codes, ◌≡◌, ◌≢◌, ◌⊎◌, refl,
  inl, inr, In, all, arith, subst, ap, ◌∙◌,
}
use pascals_discrete_attract.Types.{
  Outcome, StageStatus, success, partial_success, retry, fail, skipped,
}
use pascals_discrete_attract.Types.Errors.{goal_gate_unsatisfied, Result, ok, err}
use pascals_discrete_attract.Graph.{PipelineGraph, PipelineNode, node}
use pascals_discrete_attract.Graph.Attributes.{get_string_attr}
use pascals_discrete_attract.GoalGate.{
  GoalGateResult, is_satisfying, is_failed_gate, failing, or_else, resolve_retry_target,
  enforce_goal_gates,
}
use pascals_discrete_attract.GoalGate.Judged.{
  Failed, Judged, gate_ok, passed, sent_back, refused, enforce_goal_gates-Judged,
}

-- A success or a partial success.
abbrev pub Satisfies : StageStatus → Type 0
Satisfies status = (status ≡ success) ⊎ (status ≡ partial_success)

abbrev pub graph_target : PipelineGraph → Option Text
graph_target graph = get_string_attr graph.attrs (codes "retry_target")

abbrev pub graph_fallback : PipelineGraph → Option Text
graph_fallback graph = get_string_attr graph.attrs (codes "fallback_retry_target")

-- The target of a node: its own, else its fallback, else the graph's, else the graph's fallback.
pub data Target (n : PipelineNode) (graph : PipelineGraph) : Option Text → Type 0 where
  own : (t : Text) → n.retry_target ≡ some t → Target n graph (some t)
  own_fallback :
      (t : Text)
      → n.retry_target ≡ none
      → n.fallback_retry_target ≡ some t
      → Target n graph (some t)
  of_graph :
      (t : Text)
      → n.retry_target ≡ none
      → n.fallback_retry_target ≡ none
      → graph_target graph ≡ some t
      → Target n graph (some t)
  fallback_of_graph :
      (t : Text)
      → n.retry_target ≡ none
      → n.fallback_retry_target ≡ none
      → graph_target graph ≡ none
      → graph_fallback graph ≡ some t
      → Target n graph (some t)
  nowhere :
      n.retry_target ≡ none
      → n.fallback_retry_target ≡ none
      → graph_target graph ≡ none
      → graph_fallback graph ≡ none
      → Target n graph none

-- A visited goal gate whose outcome is neither a success nor a partial success.
pub record Unsatisfied (graph : PipelineGraph) (outcomes : Map Outcome) (id : Text)
    (gate : PipelineNode) : Type 0 where
  pub outcome : Outcome
  pub visited : In (id, outcome) outcomes
  pub named : node graph id ≡ some gate
  pub is_gate : gate.goal_gate ≡ true
  pub no_success : outcome.status ≢ success
  pub no_partial : outcome.status ≢ partial_success

-- Every visited goal gate is satisfied.
abbrev pub AllSatisfied : PipelineGraph → Map Outcome → Type 0
AllSatisfied graph outcomes =
    (id : Text) (outcome : Outcome) (gate : PipelineNode)
    → In (id, outcome) outcomes
    → node graph id ≡ some gate
    → gate.goal_gate ≡ true
    → Satisfies outcome.status

-- The three ends of the check.
pub data Verdict (graph : PipelineGraph) (outcomes : Map Outcome)
    : Result GoalGateResult → Type 0 where
  passes :
      AllSatisfied graph outcomes
      → Verdict graph outcomes
          (ok (record { all_satisfied = true; failed_node_id = none; retry_target = none }))
  sends_back :
      (id : Text) (gate : PipelineNode) (target : Text)
      → Unsatisfied graph outcomes id gate
      → Target gate graph (some target)
      → Verdict graph outcomes (
          ok (record {
            all_satisfied = false;
            failed_node_id = some id;
            retry_target = some target;
          }))
  refuses :
      (id : Text) (gate : PipelineNode)
      → Unsatisfied graph outcomes id gate
      → Target gate graph none
      → Verdict graph outcomes (err (goal_gate_unsatisfied id))

Satisfies-is_satisfying : (status : StageStatus) → is_satisfying status ≡ true → Satisfies status
unfolding is_satisfying
Satisfies-is_satisfying success h = inl refl
Satisfies-is_satisfying partial_success h = inr refl
Satisfies-is_satisfying retry h = cc
Satisfies-is_satisfying fail h = cc
Satisfies-is_satisfying skipped h = cc

not_satisfying :
    (status : StageStatus)
    → is_satisfying status ≡ false
    → (status ≢ success) × (status ≢ partial_success)
unfolding is_satisfying
not_satisfying success h = cc
not_satisfying partial_success h = cc
not_satisfying retry h = (λ e. cc, λ e. cc)
not_satisfying fail h = (λ e. cc, λ e. cc)
not_satisfying skipped h = (λ e. cc, λ e. cc)

find-Target :
    (n : PipelineNode) (graph : PipelineGraph) (a b c d : Option Text)
    → n.retry_target ≡ a
    → n.fallback_retry_target ≡ b
    → graph_target graph ≡ c
    → graph_fallback graph ≡ d
    → Target n graph (or_else a (or_else b (or_else c d)))
find-Target n graph (some t) b c d e f g h = own t e
find-Target n graph none (some t) c d e f g h = own_fallback t e f
find-Target n graph none none (some t) d e f g h = of_graph t e f g
find-Target n graph none none none (some t) e f g h = fallback_of_graph t e f g h
find-Target n graph none none none none e f g h = nowhere e f g h

resolve_retry_target-Target :
    (n : PipelineNode) (graph : PipelineGraph) → Target n graph (resolve_retry_target n graph)
unfolding resolve_retry_target
resolve_retry_target-Target n graph = find-Target n graph _ _ _ _ refl refl refl refl

Failed-Unsatisfied :
    {graph : PipelineGraph} {outcomes : Map Outcome} (f : Failed graph outcomes)
    → Unsatisfied graph outcomes f.id f.gate
Failed-Unsatisfied f = record {
  outcome = f.outcome;
  visited = f.visited;
  named = f.named;
  is_gate = f.is_gate;
  no_success = (not_satisfying f.outcome.status f.unsatisfied).0;
  no_partial = (not_satisfying f.outcome.status f.unsatisfied).1;
}

all-In :
    {A : Type 0} (p : A → Bool) (a : A) (as' : List A) → all p as' ≡ true → In a as' → p a ≡ true
all-In p a [] h i = absurd i
all-In p a (b ∷ as') h (inl e) = ap p e ∙ ground arith
all-In p a (b ∷ as') h (inr i) = all-In p a as' (ground arith) i

gate_ok-Satisfies :
    (graph : PipelineGraph) (id : Text) (outcome : Outcome) (gate : PipelineNode)
    → gate_ok graph (id, outcome) ≡ true
    → node graph id ≡ some gate
    → gate.goal_gate ≡ true
    → Satisfies outcome.status
unfolding is_failed_gate
gate_ok-Satisfies graph id outcome gate h named is =
    let h' : not (failing (some gate) outcome) ≡ true =
      subst (λ o. not (failing o outcome) ≡ true) named h in
    Satisfies-is_satisfying outcome.status (ground (arith, h', is))

Judged-Verdict :
    (graph : PipelineGraph) (outcomes : Map Outcome) {result : Result GoalGateResult}
    → Judged graph outcomes result
    → Verdict graph outcomes result
Judged-Verdict graph outcomes (passed h) = passes λ id outcome gate visited.
    gate_ok-Satisfies graph id outcome gate
      (all-In (gate_ok graph) (id, outcome) outcomes h visited)
Judged-Verdict graph outcomes (sent_back f target e) =
    sends_back f.id f.gate target (Failed-Unsatisfied f)
      (subst (Target f.gate graph) e (resolve_retry_target-Target f.gate graph))
Judged-Verdict graph outcomes (refused f e) =
    refuses f.id f.gate (Failed-Unsatisfied f)
      (subst (Target f.gate graph) e (resolve_retry_target-Target f.gate graph))

-- At the exit a run passes when the outcome of every visited goal gate is a success or a partial
-- success. Else some visited goal gate has another outcome, and the run is sent to the retry target
-- of that gate, which is its own, else its fallback, else the graph's, else the graph's fallback;
-- or, where there is none of these, it is refused with an error that names the gate.
pub enforce_goal_gates-Verdict :
    (graph : PipelineGraph) (outcomes : Map Outcome)
    → Verdict graph outcomes (enforce_goal_gates graph outcomes)
enforce_goal_gates-Verdict graph outcomes =
    Judged-Verdict graph outcomes (enforce_goal_gates-Judged graph outcomes)
