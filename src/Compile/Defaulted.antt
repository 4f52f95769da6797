-- ===== src/Compile/Defaulted.antt =====
-- The default providers that the compiler assigns (crates/attractor-pipeline/src/execution_plan.rs).
use pascals_discrete_attract.Base.{
  Text, Map, Bool, true, false, Option, none, some, ◌≡◌, refl, lookup, is_some,
}
use pascals_discrete_attract.Graph.{PipelineNode}
use pascals_discrete_attract.Plan.{
  LlmProvider, ResolvedNode, ResolvedNodeKind, HandlerIdentity, NodeInvocationPolicy, handler_name,
}
use pascals_discrete_attract.Compile.Diagnostics.{Checked, accepted, rejected, ◌>>=◌, Formats}
use pascals_discrete_attract.Compile.Policy.{resolve_invocation_policy}
use pascals_discrete_attract.Compile.Resolve.{
  MissingProviderPolicy, reject, insert, provider_or_policy, assign_provider, resolve_as,
  resolve_node, refuse_any, role_of, resolved, target_of, llm_conditional,
}

-- `P` holds of an accepted value.
abbrev pub Holds : {A : Type 0} → (A → Type 0) → Checked A → Type 0
Holds P (accepted a) = P a
Holds P (rejected ds) = Unit

Holds-bind :
    {A B : Type 0} (P : B → Type 0) (m : Checked A) (f : A → Checked B)
    → ((a : A) → Holds P (f a))
    → Holds P (m >>= f)
Holds-bind P (accepted a) f h = h a
Holds-bind P (rejected ds) f h = tt

-- A provider that is the default is there.
abbrev Given : Option LlmProvider × Bool → Type 0
Given a = a.1 ≡ true → is_some a.0 ≡ true

abbrev pub GivenNode : ResolvedNode × Bool → Type 0
GivenNode a = a.1 ≡ true → is_some a.0.provider ≡ true

provider_or_policy-Given :
    (n : PipelineNode) (name : Text) (o : Option LlmProvider) (policy : MissingProviderPolicy)
    → Holds Given (provider_or_policy n name o policy)
unfolding provider_or_policy
provider_or_policy-Given n name (some provider) policy = λ e. refl
provider_or_policy-Given n name none reject = tt
provider_or_policy-Given n name none (insert provider) = λ e. refl

assign_provider-Given :
    (n : PipelineNode) (name : Text) (o : Option Bool) (policy : MissingProviderPolicy)
    → Holds Given (assign_provider n name o policy)
unfolding assign_provider
assign_provider-Given n name none policy = tt
assign_provider-Given n name (some false) policy = λ e. cc
assign_provider-Given n name (some true) policy = provider_or_policy-Given n name _ policy

assigned-Given :
    (n : PipelineNode) (target : ResolvedNodeKind × HandlerIdentity)
    (invocation : NodeInvocationPolicy) (r : Checked (Option LlmProvider × Bool))
    → Holds Given r
    → Holds GivenNode (r >>= λ assigned. accepted (resolved n target invocation assigned))
assigned-Given n target invocation (accepted a) h = h
assigned-Given n target invocation (rejected ds) h = tt

module _ (formats : Formats) (catalog : Map Bool) (policy : MissingProviderPolicy) where
  resolve_as-Given :
      (n : PipelineNode) (target : ResolvedNodeKind × HandlerIdentity)
      (invocation : NodeInvocationPolicy)
      → Holds GivenNode (resolve_as formats catalog policy n target invocation)
  unfolding resolve_as
  resolve_as-Given n target invocation =
      let name = handler_name target.1 in
      assigned-Given n target invocation (assign_provider n name (lookup name catalog) policy)
        (assign_provider-Given n name (lookup name catalog) policy)

  pub resolve_node-Given :
      (n : PipelineNode) → Holds GivenNode (resolve_node formats catalog policy n)
  unfolding resolve_node
  resolve_node-Given n =
      let as_target =
        resolve_as formats catalog policy n
          (target_of (role_of n catalog).0 (llm_conditional n) n.node_type) in
      Holds-bind GivenNode (refuse_any (role_of n catalog).1)
        (λ u. resolve_invocation_policy formats n >>= as_target)
        λ u.
          Holds-bind GivenNode (resolve_invocation_policy formats n) as_target
            (resolve_as-Given n (target_of (role_of n catalog).0 (llm_conditional n) n.node_type))
