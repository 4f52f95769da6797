-- ===== src/Engine/Compiled.antt =====
-- What a run relies on, of the plans that the compiler gives
-- (crates/attractor-pipeline/src/execution_plan.rs and engine.rs).
use pascals_discrete_attract.Base.{
  Text, Map, Bool, true, false, ◌≡◌, ◌==◌, refl, sort_by, lookup, any, if◌then◌else◌,
}
use pascals_discrete_attract.Graph.{PipelineNode, PipelineGraph}
use pascals_discrete_attract.Graph.Keyed.{Keyed, map_values-Keyed}
use pascals_discrete_attract.Plan.{ExecutionPlan}
use pascals_discrete_attract.Compile.{
  compile_with_policy, plan_of, provider_of, write_provider, write_providers,
}
use pascals_discrete_attract.Compile.Diagnostics.{Formats}
use pascals_discrete_attract.Compile.Resolve.{MissingProviderPolicy}
use pascals_discrete_attract.Compile.Clean.{Clean, Yields}
use pascals_discrete_attract.Compile.Wellformed.{WellFormed, plan_of-WellFormed}
use pascals_discrete_attract.Compile.Accepted.{compile_with_policy-Yields, found_in}
use pascals_discrete_attract.Engine.Covered.{Covered}

WellFormed-Covered : (plan : ExecutionPlan) → WellFormed plan → Covered plan
WellFormed-Covered plan h = record {
  start =
      let (r, stored, kind) = h.start_known in
      let (n, named, named_after, budget, provider) = h.nodes_fit plan.start_id r stored in
      (n, named);
  nodes = h.nodes_covered;
}

-- The nodes stand under their ids, and the plan covers its graph.
pub record Runnable (plan : ExecutionPlan) : Type 0 where
  pub keyed : Keyed plan.graph.nodes
  pub covered : Covered plan

if_id :
    (b : Bool) (m n : PipelineNode) (id : Text)
    → m.id ≡ id
    → n.id ≡ id
    → (if b then m else n).id ≡ id
if_id true m n id e f = e
if_id false m n id e f = f

module _ (formats : Formats) (catalog : Map Bool) (policy : MissingProviderPolicy) where
  plan_of-Runnable :
      (g : PipelineGraph)
      → Keyed g.nodes
      → Clean formats catalog policy g (found_in formats catalog policy g)
      → Runnable (plan_of formats catalog policy g (found_in formats catalog policy g)).plan
  unfolding plan_of write_providers write_provider
  plan_of-Runnable g keyed clean = record {
    keyed =
        map_values-Keyed
          (write_provider (sort_by (λ k. k) (found_in formats catalog policy g).defaulted)
            (found_in formats catalog policy g).nodes)
          g.nodes
          (λ n.
            if_id
              (any (λ id. id == n.id)
                (sort_by (λ k. k) (found_in formats catalog policy g).defaulted))
              (record n {
                llm_provider = provider_of (lookup n.id (found_in formats catalog policy g).nodes);
              })
              n n.id refl refl)
          keyed;
    covered = WellFormed-Covered _ (plan_of-WellFormed formats catalog policy g keyed clean);
  }

  -- Every plan that the compiler gives for a graph whose nodes stand under their ids
  -- has its nodes under their ids too, its start is a node of its graph, and it has a compiled node
  -- for each node of its graph: what a run needs to give an answer.
  pub compile_with_policy-Runnable :
      (g : PipelineGraph)
      → Keyed g.nodes
      → Yields Runnable (compile_with_policy formats catalog policy g)
  compile_with_policy-Runnable =
      compile_with_policy-Yields formats catalog policy Runnable plan_of-Runnable
