-- ===== src/Compile/Resolve.antt =====
-- `resolve_node`: the kind, the handler and the provider of a node
-- (crates/attractor-pipeline/src/execution_plan.rs).
use pascals_discrete_attract.Base.{
  Text, Map, Bool, true, false, not, ◌&&◌, ◌||◌, List, [], ◌∷◌, ◌++◌, Option, none, some, codes,
  lookup, is_some, format, if◌then◌else◌,
}
use pascals_discrete_attract.Graph.{PipelineNode, get_or}
use pascals_discrete_attract.Graph.Dot.{Attrs}
use pascals_discrete_attract.Graph.Attributes.{get_string_attr}
use pascals_discrete_attract.Plan.{
  LlmProvider, parse_provider, HandlerIdentity, handler_name, ResolvedNodeKind, ResolvedNode,
  NodeInvocationPolicy,
}
use pascals_discrete_attract.Compile.Diagnostics.{
  SemanticDiagnostic, unknown_handler, unknown_shape, unknown_provider, missing_provider, Checked,
  accepted, rejected, ◌>>=◌, Formats,
}
use pascals_discrete_attract.Compile.Roles.{
  Role, same_role, magic_role, shape_role, type_role, custom_handler_shape_role, is_named,
  roles_compatible, signals_compatible, role_conflict,
}
use pascals_discrete_attract.Compile.Policy.{resolve_invocation_policy}

pub data MissingProviderPolicy : Type 0 where
  reject : MissingProviderPolicy
  insert : LlmProvider → MissingProviderPolicy

abbrev pub has_attr : Text → Attrs → Bool
has_attr key attrs = is_some (lookup key attrs)

abbrev and_then : (Text → Option Role) → Option Text → Option Role
and_then f none = none
and_then f (some t) = f t

-- `and_then` of an `Option<&str>` gives this role.
abbrev role_is : Option Role → Role → Bool
role_is none role = false
role_is (some other) role = same_role other role

unfoldable pub unknown_handler_at : PipelineNode → Text → SemanticDiagnostic
unknown_handler_at n name = record {
  kind = unknown_handler;
  node_id = some n.id;
  message =
      format (codes "Node '" ∷ n.id ∷ codes "' names unknown handler '" ∷ name ∷ codes "'" ∷ []);
  fix = codes "Use a built-in handler or register the custom handler before compiling";
}

unfoldable pub unknown_shape_at : PipelineNode → SemanticDiagnostic
unknown_shape_at n = record {
  kind = unknown_shape;
  node_id = some n.id;
  message =
      format (codes "Node '" ∷ n.id ∷ codes "' has unknown shape '" ∷ n.shape ∷ codes "'" ∷ []);
  fix = codes "Use a supported shape or name a registered handler with type=";
}

unfoldable pub unknown_provider_at : PipelineNode → Text → SemanticDiagnostic
unknown_provider_at n provider = record {
  kind = unknown_provider;
  node_id = some n.id;
  message =
      format
        (codes "Node '" ∷ n.id ∷ codes "' has unknown llm_provider '" ∷ provider ∷ codes "'" ∷ []);
  fix = codes "Use claude/anthropic, codex/openai, gemini/google, or pi";
}

unfoldable pub unavailable_handler_at : PipelineNode → Text → SemanticDiagnostic
unavailable_handler_at n name = record {
  kind = unknown_handler;
  node_id = some n.id;
  message =
      format (
        codes "Node '"
        ∷ n.id
        ∷ codes "' resolves to unavailable handler '"
        ∷ name
        ∷ codes "'"
        ∷ []);
  fix = format (codes "Register handler '" ∷ name ∷ codes "' before compiling" ∷ []);
}

unfoldable pub missing_provider_at : PipelineNode → Text → SemanticDiagnostic
missing_provider_at n name = record {
  kind = missing_provider;
  node_id = some n.id;
  message = format (
      codes "Node '"
      ∷ n.id
      ∷ codes "' resolves to handler '"
      ∷ name
      ∷ codes "' but has no llm_provider"
      ∷ []);
  fix = codes "Add llm_provider=\"claude\", \"codex\", \"gemini\", or \"pi\"";
}

-- The role that the shape or a registered handler gives where the type names no built-in one.
conflict_unless : Bool → PipelineNode → Role → Role → List SemanticDiagnostic
conflict_unless true n left right = []
conflict_unless false n left right = role_conflict n left right ∷ []

custom_conflicts : PipelineNode → Option Role → List SemanticDiagnostic
unfolding conflict_unless
custom_conflicts n none = []
custom_conflicts n (some shape) =
    conflict_unless (role_is (and_then custom_handler_shape_role n.node_type) shape) n shape
      Role.custom

-- `signal_role`: from the shape's role, the type's role, and whether the type is registered.
unfoldable pub signal_role :
    PipelineNode → Option Role → Option Role → Bool → Role × List SemanticDiagnostic
unfolding conflict_unless custom_conflicts
signal_role n none (some type) registered = (type, [])
signal_role n (some shape) (some type) registered = (
  if same_role shape Role.conditional && is_named (codes "codergen") n.node_type
      then shape
      else type,
  conflict_unless (signals_compatible shape type n.node_type) n shape type,
)
signal_role n shape none true = (Role.custom, custom_conflicts n shape)
signal_role n shape none false = (get_or Role.task shape, [])

-- The id counts as a signal only where no attribute gives one.
unfoldable pub final_role :
    PipelineNode → Option Role → Bool → Role → Role × List SemanticDiagnostic
unfolding conflict_unless
final_role n none explicit signal = (signal, [])
final_role n (some magic) true signal =
    (signal, conflict_unless (roles_compatible magic signal) n magic signal)
final_role n (some magic) false signal = (magic, [])

abbrev pub explicit_semantics : PipelineNode → Bool
explicit_semantics n =
    has_attr (codes "shape") n.raw_attrs
    || (has_attr (codes "type") n.raw_attrs
        || (has_attr (codes "node_type") n.raw_attrs || has_attr (codes "handler") n.raw_attrs))

unknown_handlers : PipelineNode → Map Bool → Option Role → Option Text → List SemanticDiagnostic
unknown_handlers n catalog role none = []
unknown_handlers n catalog role (some name) =
    if is_some role || is_some (lookup name catalog) then [] else unknown_handler_at n name ∷ []

is_registered : Map Bool → Option Text → Bool
is_registered catalog none = false
is_registered catalog (some name) = is_some (lookup name catalog)

unknown_shapes : PipelineNode → Option Text → Option Role → Bool → List SemanticDiagnostic
unknown_shapes n configured role known =
    if is_some configured && (not (is_some role) && not known) then unknown_shape_at n ∷ [] else []

unknown_providers : PipelineNode → Option Text → List SemanticDiagnostic
unknown_providers n none = []
unknown_providers n (some provider) =
    if is_some (parse_provider provider) then [] else unknown_provider_at n provider ∷ []

-- The role of a node, and what speaks against its signals.
unfoldable pub role_of : PipelineNode → Map Bool → Role × List SemanticDiagnostic
unfolding unknown_handlers is_registered unknown_shapes unknown_providers signal_role final_role
role_of n catalog =
    let configured = get_string_attr n.raw_attrs (codes "shape") in
    let by_shape = and_then shape_role configured in
    let by_type = and_then type_role n.node_type in
    let registered = not (is_some by_type) && is_registered catalog n.node_type in
    let signal = signal_role n by_shape by_type registered in
    let final = final_role n (magic_role n.id) (explicit_semantics n) signal.0 in
    (
      final.0,
      unknown_handlers n catalog by_type n.node_type
          ++ (unknown_shapes n configured by_shape (is_some by_type || registered)
              ++ (signal.1 ++ (final.1 ++ unknown_providers n n.llm_provider))),
    )

-- The kind and the handler of a role; a custom role comes with a type.
unfoldable pub target_of : Role → Bool → Option Text → ResolvedNodeKind × HandlerIdentity
target_of Role.start llm name = (ResolvedNodeKind.start, HandlerIdentity.start)
target_of Role.exit llm name = (ResolvedNodeKind.exit, HandlerIdentity.exit)
target_of Role.task llm name = (ResolvedNodeKind.task, HandlerIdentity.codergen)
target_of Role.conditional true name = (ResolvedNodeKind.conditional true, HandlerIdentity.codergen)
target_of Role.conditional false name =
    (ResolvedNodeKind.conditional false, HandlerIdentity.conditional)
target_of Role.human_gate llm name = (ResolvedNodeKind.human_gate, HandlerIdentity.wait_human)
target_of Role.tool llm name = (ResolvedNodeKind.tool, HandlerIdentity.tool)
target_of Role.parallel llm name = (ResolvedNodeKind.parallel, HandlerIdentity.parallel)
target_of Role.fan_in llm name = (ResolvedNodeKind.fan_in, HandlerIdentity.fan_in)
target_of Role.manager_loop llm name = (ResolvedNodeKind.manager_loop, HandlerIdentity.manager_loop)
target_of Role.quality llm name = (ResolvedNodeKind.quality, HandlerIdentity.quality)
target_of Role.custom llm name = (ResolvedNodeKind.custom, HandlerIdentity.custom (get_or [] name))

abbrev pub parsed : Option Text → Option LlmProvider
parsed none = none
parsed (some t) = parse_provider t

unfoldable pub provider_or_policy :
    PipelineNode
    → Text
    → Option LlmProvider
    → MissingProviderPolicy
    → Checked (Option LlmProvider × Bool)
provider_or_policy n name (some provider) policy = accepted (some provider, false)
provider_or_policy n name none reject = rejected (missing_provider_at n name ∷ [])
provider_or_policy n name none (insert provider) = accepted (some provider, true)

-- The provider of a node whose handler has this capability in the catalog, and whether it is the
-- default.
unfoldable pub assign_provider :
    PipelineNode → Text → Option Bool → MissingProviderPolicy → Checked (Option LlmProvider × Bool)
unfolding provider_or_policy
assign_provider n name none policy = rejected (unavailable_handler_at n name ∷ [])
assign_provider n name (some false) policy = accepted (none, false)
assign_provider n name (some true) policy = provider_or_policy n name (parsed n.llm_provider) policy

unfoldable pub refuse_any : List SemanticDiagnostic → Checked (Unit {0})
refuse_any [] = accepted tt
refuse_any (d ∷ ds) = rejected (d ∷ ds)

abbrev pub llm_conditional : PipelineNode → Bool
llm_conditional n = is_some n.prompt || is_named (codes "codergen") n.node_type

abbrev pub resolved :
    PipelineNode
    → ResolvedNodeKind × HandlerIdentity
    → NodeInvocationPolicy
    → Option LlmProvider × Bool
    → ResolvedNode × Bool
resolved n target invocation assigned = (
  record {
    node_id = n.id;
    kind = target.0;
    handler = target.1;
    provider = assigned.0;
    invocation = invocation;
  },
  assigned.1,
)

module _ (formats : Formats) (catalog : Map Bool) (policy : MissingProviderPolicy) where
  unfoldable pub resolve_as :
      PipelineNode
      → ResolvedNodeKind × HandlerIdentity
      → NodeInvocationPolicy
      → Checked (ResolvedNode × Bool)
  unfolding assign_provider
  resolve_as n target invocation =
      assign_provider n (handler_name target.1) (lookup (handler_name target.1) catalog) policy
      >>= λ assigned. accepted (resolved n target invocation assigned)

  unfoldable pub resolve_node : PipelineNode → Checked (ResolvedNode × Bool)
  unfolding role_of refuse_any resolve_as
  resolve_node n = refuse_any (role_of n catalog).1 >>= λ _.
      resolve_invocation_policy formats n
      >>= resolve_as n (target_of (role_of n catalog).0 (llm_conditional n) n.node_type)
