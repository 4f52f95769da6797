-- ===== src/Compile/Supported.antt =====
-- What the compiler refuses because the engine does not support it
-- (crates/attractor-pipeline/src/execution_plan.rs).
use pascals_discrete_attract.Base.{
  ℕ, ◌≤◌, leb, Text, Map, Bool, List, [], ◌∷◌, some, ◌≡◌, subst, ap, ◌∙◌, lookup, In, inl, inr,
  length, keys, sort_by, sort_by-In, lookup-In-keys, arith, if◌then◌else◌,
}
use pascals_discrete_attract.Graph.{PipelineNode, PipelineGraph, outgoing_edges}
use pascals_discrete_attract.Graph
use pascals_discrete_attract.Graph.Keyed.{Keyed}
use pascals_discrete_attract.Plan.{ResolvedNodeKind, ResolvedNode, ExecutionPlan}
use pascals_discrete_attract.Plan
use pascals_discrete_attract.Compile.{Resolution, plan_of, write_providers, compile_with_policy}
use pascals_discrete_attract.Compile.Aliases.{concat_map}
use pascals_discrete_attract.Compile.Checks.{
  topology_errors, node_topology, validate_supported_execution_topology, manager_errors,
  capability_errors, node_capabilities, validate_supported_execution_capabilities,
}
use pascals_discrete_attract.Compile.Diagnostics.{Formats}
use pascals_discrete_attract.Compile.Resolve.{MissingProviderPolicy}
use pascals_discrete_attract.Compile.Collected.{append-empty, resolve_all-Collected}
use pascals_discrete_attract.Compile.Clean.{Clean, Yields}
use pascals_discrete_attract.Compile.Accepted.{compile_with_policy-Yields, found_in}

-- The engine follows one edge per step: it cannot branch, merge or manage.
pub Linear : ℕ → ResolvedNodeKind → Type 0
Linear branches ResolvedNodeKind.parallel = branches ≤ 1
Linear branches ResolvedNodeKind.fan_in = ⊥
Linear branches ResolvedNodeKind.manager_loop = ⊥
Linear branches _ = Unit

pub Supported : ExecutionPlan → Type 0
Supported plan =
    (id : Text) (r : ResolvedNode)
    → Plan.node plan id ≡ some r
    → Linear (length (outgoing_edges plan.graph id)) r.kind

concat_map-empty :
    {A B : Type 0} (f : A → List B) (xs : List A) (x : A)
    → concat_map f xs ≡ []
    → In x xs
    → f x ≡ []
unfolding concat_map
concat_map-empty f [] x e h = absurd h
concat_map-empty f (a ∷ xs) x e (inl same) = ap f same ∙ (append-empty (f a) _ e).0
concat_map-empty f (a ∷ xs) x e (inr h) = concat_map-empty f xs x (append-empty (f a) _ e).1 h

one_or_error : {D : Type 0} (n : ℕ) (d : D) → (if leb n 1 then [] else d ∷ []) ≡ [] → n ≤ 1
one_or_error n d e = ground arith

topology_errors-Linear :
    (g : PipelineGraph) (id : Text) (kind : ResolvedNodeKind)
    → topology_errors g id kind ≡ []
    → manager_errors id kind ≡ []
    → Linear (length (outgoing_edges g id)) kind
unfolding topology_errors manager_errors Linear
topology_errors-Linear g id ResolvedNodeKind.parallel e m =
    one_or_error (length (outgoing_edges g id)) _ e
topology_errors-Linear g id ResolvedNodeKind.fan_in e m = cc
topology_errors-Linear g id ResolvedNodeKind.manager_loop e m = cc
topology_errors-Linear g id ResolvedNodeKind.start e m = tt
topology_errors-Linear g id ResolvedNodeKind.exit e m = tt
topology_errors-Linear g id ResolvedNodeKind.task e m = tt
topology_errors-Linear g id ResolvedNodeKind.human_gate e m = tt
topology_errors-Linear g id ResolvedNodeKind.tool e m = tt
topology_errors-Linear g id ResolvedNodeKind.quality e m = tt
topology_errors-Linear g id ResolvedNodeKind.custom e m = tt
topology_errors-Linear g id (ResolvedNodeKind.conditional b) e m = tt

module _ (formats : Formats) (catalog : Map Bool) (policy : MissingProviderPolicy) where
  module _ (g : PipelineGraph)
      (clean : Clean formats catalog policy g (found_in formats catalog policy g)) where
    abbrev found : Resolution
    found = found_in formats catalog policy g

    key_listed :
        (id : Text) (r : ResolvedNode)
        → lookup id found.nodes ≡ some r
        → In id (sort_by (λ k. k) (keys found.nodes))
    key_listed id r stored = sort_by-In (λ k. k) id _ (lookup-In-keys id r found.nodes stored)

    no_topology_error :
        (id : Text) (r : ResolvedNode)
        → lookup id found.nodes ≡ some r
        → topology_errors g id r.kind ≡ []
    unfolding validate_supported_execution_topology node_topology
    no_topology_error id r stored =
        subst (λ o. node_topology g id o ≡ []) stored
          (concat_map-empty (λ k. node_topology g k (lookup k found.nodes)) _ id clean.topology
            (key_listed id r stored))

    no_manager_error :
        (id : Text) (r : ResolvedNode)
        → lookup id found.nodes ≡ some r
        → manager_errors id r.kind ≡ []
    unfolding validate_supported_execution_capabilities node_capabilities capability_errors
    no_manager_error id r stored =
        let a = (resolve_all-Collected formats catalog policy g _).nodes_found id r stored in
        let all_empty =
          concat_map-empty
            (λ k. node_capabilities formats k (lookup k found.nodes) (Graph.node g k)) _ id
            clean.capabilities (key_listed id r stored) in
        (append-empty (manager_errors id r.kind) _ (
          subst (λ o. node_capabilities formats id (some r) o ≡ []) a.named
            (subst (λ o. node_capabilities formats id o (Graph.node g id) ≡ []) stored
              all_empty))).0

    plan_of-Supported : Supported (plan_of formats catalog policy g found).plan
    unfolding Supported plan_of write_providers Plan.node outgoing_edges
    plan_of-Supported id r stored =
        topology_errors-Linear g id r.kind (no_topology_error id r stored)
          (no_manager_error id r stored)

  -- A plan that the compiler gives for a graph whose nodes stand under their ids
  -- has no fan-in and no manager node, and a parallel node of it has one outgoing edge at most.
  pub compile_with_policy-Supported :
      (g : PipelineGraph)
      → Keyed g.nodes
      → Yields Supported (compile_with_policy formats catalog policy g)
  compile_with_policy-Supported =
      compile_with_policy-Yields formats catalog policy Supported
        (λ g keyed clean. plan_of-Supported g clean)
