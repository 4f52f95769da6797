-- ===== src/Compile/Accepted.antt =====
-- The whole compiler, from the graph of a file to a plan
-- (crates/attractor-pipeline/src/execution_plan.rs).
use pascals_discrete_attract.Base.{
  Text, Map, Bool, List, [], ◌∷◌, ◌++◌, Option, none, some, ◌≡◌, refl, ◌∙◌, codes, lookup,
}
use pascals_discrete_attract.Graph.{PipelineNode, PipelineGraph}
use pascals_discrete_attract.Graph.Attributes.{get_string_attr}
use pascals_discrete_attract.Graph.Keyed.{Keyed, map_values-Keyed}
use pascals_discrete_attract.Plan.{ExecutionPlan}
use pascals_discrete_attract.Stylesheet.{
  Arm, set_model, set_provider, set_effort, skip, arm_of, apply_arm, apply_declaration,
  apply_declarations, apply_rules, style_node, apply_stylesheet, matching_rules,
}
use pascals_discrete_attract.Stylesheet.Parser.{Declaration, Rule, parse_stylesheet}
use pascals_discrete_attract.Stylesheet.Scan.{Parsed, parsed, failed, panicked, starved}
use pascals_discrete_attract.Compile.{
  compile_nodes, compile_transformed, compile_normalized, compile_with_policy, Resolution, plan_of,
  resolve_all, node_ids,
}
use pascals_discrete_attract.Compile.Diagnostics.{SemanticDiagnostic, Formats}
use pascals_discrete_attract.Compile.Resolve.{MissingProviderPolicy}
use pascals_discrete_attract.Compile.Aliases.{
  normalize_aliases, normalize_graph_alias, normalize_node, with_type, with_classes,
  resolve_node_alias, type_keys, class_keys, validate_semantic_attribute_types,
}
use pascals_discrete_attract.Compile.Transforms.{
  Transformed, transformed, refused, broken, apply_transforms, apply_model_stylesheet, styled,
  expanded, expand_prompt_variables, expand_prompt, variables,
}
use pascals_discrete_attract.Compile.Clean.{Clean, Yields, sorted-Yields}
use pascals_discrete_attract.Compile.Wellformed.{WellFormed, plan_of-WellFormed}

with_type-id : (o : Option Text) (n : PipelineNode) → (with_type o n).id ≡ n.id
unfolding with_type
with_type-id none n = refl
with_type-id (some t) n = refl

with_classes-id : (o : Option Text) (n : PipelineNode) → (with_classes o n).id ≡ n.id
unfolding with_classes
with_classes-id none n = refl
with_classes-id (some t) n = refl

normalize_node-id : (n : PipelineNode) → (normalize_node n).id ≡ n.id
unfolding normalize_node
normalize_node-id n =
    with_classes-id (resolve_node_alias n class_keys).0 _
    ∙ with_type-id (resolve_node_alias n type_keys).0 n

apply_arm-id : (arm : Arm) (value : Text) (n : PipelineNode) → (apply_arm arm value n).id ≡ n.id
unfolding apply_arm
apply_arm-id set_model value n = refl
apply_arm-id set_provider value n = refl
apply_arm-id set_effort value n = refl
apply_arm-id skip value n = refl

apply_declaration-id :
    (authored : Option (List Text)) (d : Declaration) (n : PipelineNode)
    → (apply_declaration authored d n).id ≡ n.id
unfolding apply_declaration
apply_declaration-id authored d n = apply_arm-id (arm_of authored d.property) d.value n

apply_declarations-id :
    (authored : Option (List Text)) (ds : List Declaration) (n : PipelineNode)
    → (apply_declarations authored ds n).id ≡ n.id
unfolding apply_declarations
apply_declarations-id authored [] n = refl
apply_declarations-id authored (d ∷ ds) n =
    apply_declarations-id authored ds _ ∙ apply_declaration-id authored d n

apply_rules-id :
    (authored : Option (List Text)) (rules : List Rule) (n : PipelineNode)
    → (apply_rules authored rules n).id ≡ n.id
unfolding apply_rules
apply_rules-id authored [] n = refl
apply_rules-id authored (r ∷ rules) n =
    apply_rules-id authored rules _ ∙ apply_declarations-id authored r.declarations n

style_node-id :
    (authored : Map (List Text)) (rules : List Rule) (n : PipelineNode)
    → (style_node authored rules n).id ≡ n.id
unfolding style_node
style_node-id authored rules n = apply_rules-id (lookup n.id authored) (matching_rules rules n) n

-- The transforms keep each node under its id.
abbrev pub TransformedKeyed : Transformed → Type 0
TransformedKeyed (transformed g) = Keyed g.nodes
TransformedKeyed (refused e) = Unit
TransformedKeyed broken = Unit

styled-Keyed :
    (g : PipelineGraph) (r : Parsed (List Rule)) → Keyed g.nodes → TransformedKeyed (styled g r)
unfolding styled apply_stylesheet
styled-Keyed g (parsed rules p) h =
    map_values-Keyed (style_node g.authored_node_attrs rules) g.nodes
      (style_node-id g.authored_node_attrs rules) h
styled-Keyed g (failed e) h = tt
styled-Keyed g panicked h = tt
styled-Keyed g starved h = tt

model_stylesheet-Keyed :
    (g : PipelineGraph) (css : Option Text)
    → Keyed g.nodes
    → TransformedKeyed (apply_model_stylesheet g css)
unfolding apply_model_stylesheet
model_stylesheet-Keyed g none h = h
model_stylesheet-Keyed g (some css) h = styled-Keyed g (parse_stylesheet css) h

module _ (formats : Formats) where
  expanded-Keyed : (t : Transformed) → TransformedKeyed t → TransformedKeyed (expanded formats t)
  unfolding expanded expand_prompt_variables expand_prompt
  expanded-Keyed (transformed g) h =
      map_values-Keyed (expand_prompt (variables formats g.attrs)) g.nodes (λ n. refl) h
  expanded-Keyed (refused e) h = tt
  expanded-Keyed broken h = tt

  pub apply_transforms-Keyed :
      (g : PipelineGraph) → Keyed g.nodes → TransformedKeyed (apply_transforms formats g)
  unfolding apply_transforms
  apply_transforms-Keyed g h =
      expanded-Keyed _
        (model_stylesheet-Keyed g (get_string_attr g.attrs (codes "model_stylesheet")) h)

  pub normalize_aliases-Keyed :
      (g : PipelineGraph) → Keyed g.nodes → Keyed (normalize_aliases g).0.nodes
  unfolding normalize_aliases normalize_graph_alias
  normalize_aliases-Keyed g h = map_values-Keyed normalize_node g.nodes normalize_node-id h

  module _ (catalog : Map Bool) (policy : MissingProviderPolicy) where
    -- What the loop over the nodes of a graph finds.
    abbrev pub found_in : PipelineGraph → Resolution
    found_in g = resolve_all formats catalog policy g (node_ids formats catalog policy g)

    module _ (P : ExecutionPlan → Type 0)
        (h : (g : PipelineGraph)
          → Keyed g.nodes
          → Clean formats catalog policy g (found_in g)
          → P (plan_of formats catalog policy g (found_in g)).plan) where
      compile_nodes-Yields :
          (g : PipelineGraph) (earlier : List SemanticDiagnostic)
          → Keyed g.nodes
          → Yields P (compile_nodes formats catalog policy g earlier)
      unfolding compile_nodes
      compile_nodes-Yields g earlier keyed =
          sorted-Yields formats catalog policy P g (found_in g) earlier (h g keyed)

      compile_transformed-Yields :
          (g : PipelineGraph) (t : Transformed)
          → Keyed g.nodes
          → TransformedKeyed t
          → Yields P (compile_transformed formats catalog policy g t)
      unfolding compile_transformed
      compile_transformed-Yields g (transformed changed) k l = compile_nodes-Yields changed [] l
      compile_transformed-Yields g (refused e) k l = compile_nodes-Yields g _ k
      compile_transformed-Yields g broken k l = tt

      compile_normalized-Yields :
          (g : PipelineGraph) (ds : List SemanticDiagnostic)
          → Keyed g.nodes
          → Yields P (compile_normalized formats catalog policy g ds)
      unfolding compile_normalized
      compile_normalized-Yields g [] k =
          compile_transformed-Yields g (apply_transforms formats g) k (apply_transforms-Keyed g k)
      compile_normalized-Yields g (d ∷ ds) k = compile_nodes-Yields g (d ∷ ds) k

      -- What holds of every plan without a complaint holds of what the compiler gives.
      pub compile_with_policy-Yields :
          (g : PipelineGraph)
          → Keyed g.nodes
          → Yields P (compile_with_policy formats catalog policy g)
      unfolding compile_with_policy
      compile_with_policy-Yields g k =
          compile_normalized-Yields (normalize_aliases g).0
            (validate_semantic_attribute_types formats g ++ (normalize_aliases g).1)
            (normalize_aliases-Keyed g k)

    -- Every plan that the compiler gives for a graph whose nodes stand under their ids
    -- has one start and one exit of that kind and no others; it has a compiled node for each
    -- node of its graph and no others, each under its own id, with a positive budget of attempts,
    -- and with a provider exactly where its handler consumes one.
    pub compile_with_policy-WellFormed :
        (g : PipelineGraph)
        → Keyed g.nodes
        → Yields WellFormed (compile_with_policy formats catalog policy g)
    compile_with_policy-WellFormed =
        compile_with_policy-Yields WellFormed (plan_of-WellFormed formats catalog policy)
