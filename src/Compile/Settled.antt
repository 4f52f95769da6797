-- ===== src/Compile/Settled.antt =====
-- What `resolve_node` gives (crates/attractor-pipeline/src/execution_plan.rs).
use pascals_discrete_attract.Base.{
  ℕ, ◌+◌, ◌≤◌, ◌^◌, ltb, Text, Map, Bool, true, false, List, [], ◌∷◌, Option, none, some, ℤ, codes,
  lookup, is_some, ◌≡◌, refl, arith, if◌then◌else◌,
}
use pascals_discrete_attract.Graph.{PipelineNode}
use pascals_discrete_attract.Graph.Dot.{AttributeValue}
use pascals_discrete_attract.Graph.Attributes.{parse_duration_str}
use pascals_discrete_attract.Plan.{
  LlmProvider, HandlerIdentity, handler_name, ResolvedNodeKind, ResolvedNode, NodeInvocationPolicy,
}
use pascals_discrete_attract.Compile.Diagnostics.{
  SemanticDiagnostic, Checked, accepted, rejected, ◌>>=◌, Formats,
}
use pascals_discrete_attract.Compile.Policy.{
  max_retries, max_attempts, parsed_timeout, timeout_of, resolve_invocation_policy,
}
use pascals_discrete_attract.Compile.Resolve.{
  MissingProviderPolicy, reject, insert, refuse_any, provider_or_policy, assign_provider,
  resolve_as, resolve_node, role_of, parsed, resolved,
}

-- `P` holds of an accepted value; a rejection names a reason.
abbrev pub Settled {ℓ} : {A : Type ℓ} → (A → Type 0) → Checked A → Type 0
Settled P (accepted a) = P a
Settled P (rejected []) = ⊥
Settled P (rejected (d ∷ ds)) = Unit

pub Settled-bind {ℓ κ} :
    {A : Type ℓ} {B : Type κ} (P : A → Type 0) (Q : B → Type 0) (m : Checked A) (f : A → Checked B)
    → Settled P m
    → ((a : A) → P a → Settled Q (f a))
    → Settled Q (m >>= f)
Settled-bind P Q (accepted a) f h next = next a h
Settled-bind P Q (rejected []) f h next = absurd h
Settled-bind P Q (rejected (d ∷ ds)) f h next = tt

abbrev Any {ℓ} : {A : Type ℓ} → A → Type 0
Any a = Unit

Settled-if :
    {A : Type 0} (P : A → Type 0) (b : Bool) (a : A) (d : SemanticDiagnostic)
    → (b ≡ true → P a)
    → Settled P (if b then accepted a else rejected (d ∷ []))
Settled-if P true a d h = h refl
Settled-if P false a d h = tt

-- The first and the last attempt are there: the budget is positive and fits 64 bits.
unfoldable pub Budgeted : NodeInvocationPolicy → Type 0
Budgeted policy = (1 ≤ policy.max_attempts) × (ltb policy.max_attempts (2 ^ 64) ≡ true)

module _ (formats : Formats) where
  max_retries-Settled :
      (n : PipelineNode) (v : Option AttributeValue) → Settled Any (max_retries formats n v)
  unfolding max_retries
  max_retries-Settled n none = tt
  max_retries-Settled n (some (AttributeValue.integer (ℤ.pos value))) =
      Settled-if Any (ltb value (2 ^ 64)) value _ λ h. tt
  max_retries-Settled n (some (AttributeValue.integer (ℤ.negsuc m))) = tt
  max_retries-Settled n (some (AttributeValue.string s)) = tt
  max_retries-Settled n (some (AttributeValue.float f)) = tt
  max_retries-Settled n (some (AttributeValue.boolean b)) = tt
  max_retries-Settled n (some (AttributeValue.duration d)) = tt

  parsed_timeout-Settled :
      (n : PipelineNode) (value : Text) (o : Option ℕ)
      → Settled Any (parsed_timeout formats n value o)
  unfolding parsed_timeout
  parsed_timeout-Settled n value none = tt
  parsed_timeout-Settled n value (some ms) = tt

  timeout_of-Settled :
      (n : PipelineNode) (v : Option AttributeValue) → Settled Any (timeout_of formats n v)
  unfolding timeout_of
  timeout_of-Settled n none = tt
  timeout_of-Settled n (some (AttributeValue.duration ms)) = tt
  timeout_of-Settled n (some (AttributeValue.string value)) =
      parsed_timeout-Settled n value (parse_duration_str value)
  timeout_of-Settled n (some (AttributeValue.integer i)) = tt
  timeout_of-Settled n (some (AttributeValue.float f)) = tt
  timeout_of-Settled n (some (AttributeValue.boolean b)) = tt

  pub resolve_invocation_policy-Settled :
      (n : PipelineNode) → Settled Budgeted (resolve_invocation_policy formats n)
  unfolding resolve_invocation_policy max_attempts Budgeted
  resolve_invocation_policy-Settled n =
      Settled-bind Any Budgeted _ _
        (max_retries-Settled n (lookup (codes "max_retries") n.raw_attrs))
        λ retries _.
          Settled-bind (λ (a : ℕ). (1 ≤ a) × (ltb a (2 ^ 64) ≡ true)) Budgeted _ _
            (Settled-if (λ (a : ℕ). (1 ≤ a) × (ltb a (2 ^ 64) ≡ true)) (ltb (retries + 1) (2 ^ 64))
              (retries + 1) _ λ h. (omega arith, h))
            λ attempts budget.
              Settled-bind Any Budgeted _ _
                (timeout_of-Settled n (lookup (codes "timeout") n.raw_attrs)) λ timeout _. budget

refuse_any-Settled : (ds : List SemanticDiagnostic) → Settled (λ u. ds ≡ []) (refuse_any ds)
unfolding refuse_any
refuse_any-Settled [] = refl
refuse_any-Settled (d ∷ ds) = tt

-- The handler has this capability, and there is a provider exactly where it consumes one.
unfoldable pub ProviderFits : Map Bool → Text → Option LlmProvider → Type 0
ProviderFits catalog name provider = lookup name catalog ≡ some (is_some provider)

provider_or_policy-Settled :
    (n : PipelineNode) (name : Text) (o : Option LlmProvider) (policy : MissingProviderPolicy)
    → Settled
        (λ (a : Option LlmProvider × Bool). is_some a.0 ≡ true)
        (provider_or_policy n name o policy)
unfolding provider_or_policy
provider_or_policy-Settled n name (some provider) policy = refl
provider_or_policy-Settled n name none reject = tt
provider_or_policy-Settled n name none (insert provider) = refl

assign_provider-Settled :
    (n : PipelineNode) (name : Text) (o : Option Bool) (policy : MissingProviderPolicy)
    → Settled
        (λ (a : Option LlmProvider × Bool). o ≡ some (is_some a.0))
        (assign_provider n name o policy)
unfolding assign_provider
assign_provider-Settled n name none policy = tt
assign_provider-Settled n name (some false) policy = refl
assign_provider-Settled n name (some true) policy =
    widen _ (provider_or_policy-Settled n name (parsed n.llm_provider) policy)
  where
    widen :
        (r : Checked (Option LlmProvider × Bool))
        → Settled (λ (a : Option LlmProvider × Bool). is_some a.0 ≡ true) r
        → Settled (λ (a : Option LlmProvider × Bool). some true ≡ some (is_some a.0)) r
    widen (accepted a) h = rw (h)
    widen (rejected []) h = h
    widen (rejected (d ∷ ds)) h = h

-- What a resolved node owes its source.
pub record Fits (catalog : Map Bool) (n : PipelineNode) (r : ResolvedNode) : Type 0 where
  pub named : r.node_id ≡ n.id
  pub budgeted : Budgeted r.invocation
  pub provided : ProviderFits catalog (handler_name r.handler) r.provider

module _ (formats : Formats) (catalog : Map Bool) (policy : MissingProviderPolicy) where
  abbrev FitsSource : PipelineNode → ResolvedNode × Bool → Type 0
  FitsSource n a = Fits catalog n a.0

  resolve_as-Settled :
      (n : PipelineNode) (target : ResolvedNodeKind × HandlerIdentity)
      (invocation : NodeInvocationPolicy)
      → Budgeted invocation
      → Settled (FitsSource n) (resolve_as formats catalog policy n target invocation)
  unfolding resolve_as ProviderFits
  resolve_as-Settled n target invocation budget =
      Settled-bind
        (λ (a : Option LlmProvider × Bool).
          lookup (handler_name target.1) catalog ≡ some (is_some a.0))
        (FitsSource n) _ (λ assigned. accepted (resolved n target invocation assigned))
        (assign_provider-Settled n _ _ policy)
        λ assigned fits. record { named = refl; budgeted = budget; provided = fits }

  pub resolve_node-Settled :
      (n : PipelineNode) → Settled (FitsSource n) (resolve_node formats catalog policy n)
  unfolding resolve_node
  resolve_node-Settled n =
      Settled-bind (λ u. (role_of n catalog).1 ≡ []) _ _ _
        (refuse_any-Settled (role_of n catalog).1)
        λ u _.
          Settled-bind Budgeted _ _ _ (resolve_invocation_policy-Settled formats n)
            λ invocation budget. resolve_as-Settled n _ invocation budget
