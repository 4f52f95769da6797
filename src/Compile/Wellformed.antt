-- ===== src/Compile/Wellformed.antt =====
-- The plans that the compiler gives (crates/attractor-pipeline/src/execution_plan.rs).
use pascals_discrete_attract.Base.{
  Text, Map, Bool, true, List, [], ◌∷◌, Option, none, some, ◌≡◌, refl, sym, subst, ap, ◌∙◌, lookup,
  In, inl, inr, some_injective, any-In, In-any, sort_by, sort_by-In, In-sort_by, lookup-In-keys,
  lookup-In_values, lookup-map_values, map_option,
}
use pascals_discrete_attract.Graph.{PipelineNode, PipelineGraph}
use pascals_discrete_attract.Graph
use pascals_discrete_attract.Graph.Keyed.{Keyed, ids-Keyed, lookup-Keyed}
use pascals_discrete_attract.Plan.{ResolvedNode, ExecutionPlan, is_exit, handler_name}
use pascals_discrete_attract.Plan
use pascals_discrete_attract.Compile.{
  Resolution, resolve_all, node_ids, is_start_kind, is_exit_kind, plan_of, write_provider,
  write_providers, last_of,
}
use pascals_discrete_attract.Compile.Diagnostics.{accepted, Formats}
use pascals_discrete_attract.Compile.Resolve.{MissingProviderPolicy, resolve_node}
use pascals_discrete_attract.Compile.Settled.{
  Settled, resolve_node-Settled, Fits, Budgeted, ProviderFits,
}
use pascals_discrete_attract.Compile.Collected.{
  Found, Collected, Present, Complete, resolve_all-Collected, resolve_all-Complete,
}
use pascals_discrete_attract.Compile.Clean.{Single, Clean}
use pascals_discrete_attract.Compile.Capabilities.{capabilities_of-known}

-- What the engine relies on: one start and one exit, each of that kind and known; each node of the
-- graph is compiled, and each compiled node stands for a node of the graph under its own id, with a
-- positive budget, and with a provider exactly where its handler consumes one.
pub record WellFormed (plan : ExecutionPlan) : Type 0 where
  pub start_known :
      (r : ResolvedNode) × (Plan.node plan plan.start_id ≡ some r) × (is_start_kind r.kind ≡ true)
  pub start_unique :
      (id : Text) (r : ResolvedNode)
      → Plan.node plan id ≡ some r
      → is_start_kind r.kind ≡ true
      → id ≡ plan.start_id
  pub one_exit : (id : Text) × (plan.exit_ids ≡ id ∷ [])
  pub exit_known :
      (id : Text)
      → is_exit plan id ≡ true
      → (r : ResolvedNode) × (Plan.node plan id ≡ some r) × (is_exit_kind r.kind ≡ true)
  pub exit_listed :
      (id : Text) (r : ResolvedNode)
      → Plan.node plan id ≡ some r
      → is_exit_kind r.kind ≡ true
      → is_exit plan id ≡ true
  pub nodes_covered :
      (id : Text) (n : PipelineNode)
      → Graph.node plan.graph id ≡ some n
      → (r : ResolvedNode) × (Plan.node plan id ≡ some r)
  pub nodes_fit :
      (id : Text) (r : ResolvedNode)
      → Plan.node plan id ≡ some r
      → (n : PipelineNode) × (Graph.node plan.graph id ≡ some n)
        × (r.node_id ≡ id)
        × Budgeted r.invocation
        × ProviderFits plan.handler_capabilities (handler_name r.handler) r.provider

Single-last : (ids : List Text) → Single ids → In (last_of ids) ids
Single-last ids (id, e) = subst (λ l. In (last_of l) l) (sym e) (inl refl)

In-Single : (x : Text) (ids : List Text) → Single ids → In x ids → x ≡ last_of ids
In-Single x ids (id, e) h = elim (subst (In x) e h) [
  | inl same ↦ same ∙ ap last_of (sym e)
  | inr nowhere ↦ absurd nowhere
]

unmapped :
    (f : PipelineNode → PipelineNode) (m : PipelineNode) (o : Option PipelineNode)
    → map_option f o ≡ some m
    → (n : PipelineNode) × (o ≡ some n)
unmapped f m none e = cc
unmapped f m (some n) e = (n, refl)

module _ (formats : Formats) (catalog : Map Bool) (policy : MissingProviderPolicy)
    (g : PipelineGraph) where
  accepted_first : (a b : ResolvedNode × Bool) → accepted a ≡ accepted b → a.0 ≡ b.0
  accepted_first a b h = cc

  pub Found-unique :
      (id : Text) (r s : ResolvedNode)
      → Found formats catalog policy g id r
      → Found formats catalog policy g id s
      → r ≡ s
  Found-unique id r s a b =
      accepted_first (r, a.defaulted) (s, b.defaulted)
        (sym a.resolved
          ∙ ap (resolve_node formats catalog policy) (some_injective (sym a.named ∙ b.named))
          ∙ b.resolved)

  Found-Fits :
      (id : Text) (r : ResolvedNode) (a : Found formats catalog policy g id r)
      → Fits catalog a.source r
  Found-Fits id r a =
      subst (Settled (λ (c : ResolvedNode × Bool). Fits catalog a.source c.0)) a.resolved
        (resolve_node-Settled formats catalog policy a.source)

  node_ids-In :
      Keyed g.nodes
      → (id : Text) (n : PipelineNode) → Graph.node g id ≡ some n
      → In id (node_ids formats catalog policy g)
  unfolding node_ids Graph.node
  node_ids-In keyed id n named =
      sort_by-In (λ k. k) id _
        (subst (In id) (sym (ids-Keyed g.nodes keyed)) (lookup-In-keys id n g.nodes named))

  module _ (keyed : Keyed g.nodes) where
    abbrev found : Resolution
    found = resolve_all formats catalog policy g (node_ids formats catalog policy g)

    abbrev plan : ExecutionPlan
    plan = (plan_of formats catalog policy g found).plan

    collected : Collected formats catalog policy g found
    collected = resolve_all-Collected formats catalog policy g (node_ids formats catalog policy g)

    module _ (clean : Clean formats catalog policy g found) where
      present :
          (id : Text) (n : PipelineNode)
          → Graph.node g id ≡ some n
          → Present formats catalog policy g found id
      unfolding Complete
      present id n named =
          resolve_all-Complete formats catalog policy g _ clean.nodes id n
            (node_ids-In keyed id n named) named

      -- What is found under an id is what the plan has there.
      stored_found :
          (id : Text) (r : ResolvedNode)
          → Found formats catalog policy g id r
          → (p : Present formats catalog policy g found id) × (p.resolved ≡ r)
      stored_found id r a =
          let p = present id a.source a.named in
          (p, Found-unique id p.resolved r (collected.nodes_found id p.resolved p.stored) a)

      stored-Present :
          (id : Text) (r : ResolvedNode)
          → lookup id found.nodes ≡ some r
          → (p : Present formats catalog policy g found id) × (p.resolved ≡ r)
      stored-Present id r stored = stored_found id r (collected.nodes_found id r stored)

      start_of :
          (id : Text) (r : ResolvedNode)
          → lookup id found.nodes ≡ some r
          → is_start_kind r.kind ≡ true
          → In id found.starts
      start_of id r stored kind =
          let (p, same) = stored-Present id r stored in
          p.start_listed (subst (λ (s : ResolvedNode). is_start_kind s.kind ≡ true) (sym same) kind)

      exit_of :
          (id : Text) (r : ResolvedNode)
          → lookup id found.nodes ≡ some r
          → is_exit_kind r.kind ≡ true
          → In id found.exits
      exit_of id r stored kind =
          let (p, same) = stored-Present id r stored in
          p.exit_listed (subst (λ (s : ResolvedNode). is_exit_kind s.kind ≡ true) (sym same) kind)

      listed_known :
          (P : ResolvedNode → Type 0) (id : Text)
          → (r : ResolvedNode) × Found formats catalog policy g id r × P r
          → (r : ResolvedNode) × (lookup id found.nodes ≡ some r) × P r
      listed_known P id (r, a, h) =
          let (p, same) = stored_found id r a in (p.resolved, p.stored, subst P (sym same) h)

      final_node :
          (id : Text) (n : PipelineNode)
          → Graph.node g id ≡ some n
          → (m : PipelineNode) × (Graph.node plan.graph id ≡ some m)
      unfolding plan_of write_providers Graph.node
      final_node id n named = (
        _,
        lookup-map_values (write_provider (sort_by (λ k. k) found.defaulted) found.nodes) id g.nodes
            ∙ ap (map_option _) named,
      )

      final_source :
          (id : Text) (m : PipelineNode)
          → Graph.node plan.graph id ≡ some m
          → (n : PipelineNode) × (Graph.node g id ≡ some n)
      unfolding plan_of write_providers Graph.node
      final_source id m named =
          unmapped (write_provider (sort_by (λ k. k) found.defaulted) found.nodes) m
            (lookup id g.nodes)
            (sym (
                lookup-map_values (write_provider (sort_by (λ k. k) found.defaulted) found.nodes) id
                  g.nodes)
              ∙ named)

      pub plan_of-WellFormed : WellFormed plan
      unfolding plan_of Plan.node is_exit Graph.node ProviderFits
      plan_of-WellFormed = record {
        start_known =
            listed_known (λ r. is_start_kind r.kind ≡ true) plan.start_id
              (collected.starts_found plan.start_id
                (In-sort_by (λ k. k) plan.start_id found.starts (Single-last _ clean.start)));
        start_unique = λ id r stored kind.
            In-Single id _ clean.start
              (sort_by-In (λ k. k) id found.starts (start_of id r stored kind));
        one_exit = clean.exit;
        exit_known = λ id is.
            listed_known (λ r. is_exit_kind r.kind ≡ true) id
              (collected.exits_found id
                (In-sort_by (λ k. k) id found.exits (any-In id plan.exit_ids is)));
        exit_listed = λ id r stored kind.
            In-any id plan.exit_ids (sort_by-In (λ k. k) id found.exits (exit_of id r stored kind));
        nodes_covered = λ id m named.
            let (n, source) = final_source id m named in
            let p = present id n source in (p.resolved, p.stored);
        nodes_fit = λ id r stored.
            let a = collected.nodes_found id r stored in
            let fits = Found-Fits id r a in
            let (m, named) = final_node id a.source a.named in
            (
              m,
              named,
              fits.named ∙ lookup-Keyed id a.source g.nodes keyed a.named,
              fits.budgeted,
              capabilities_of-known catalog r _ _ (lookup-In_values id r found.nodes stored)
                  fits.provided,
            );
      }
