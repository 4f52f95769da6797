-- ===== src/Compile/Refusals.antt =====
-- How a compilation fails (crates/attractor-pipeline/src/execution_plan.rs).
use pascals_discrete_attract.Base.{
  compare, Text, Map, Bool, true, List, [], ◌∷◌, ◌++◌, Option, none, some, ◌≡◌, ◌≢◌, refl, codes,
  cmp, then_cmp, Antisymmetric, compare-Antisymmetric, cmp-Antisymmetric, then_cmp-flip, Ascending,
  sort_with-Ascending,
}
use pascals_discrete_attract.Graph.{PipelineGraph}
use pascals_discrete_attract.Graph.Attributes.{get_string_attr}
use pascals_discrete_attract.Stylesheet.Parser.{Rule, parse_stylesheet}
use pascals_discrete_attract.Stylesheet.Scan.{Parsed, parsed, failed, panicked, starved}
use pascals_discrete_attract.Stylesheet.Fuel.{parse_stylesheet-ends}
use pascals_discrete_attract.Compile.{
  Resolution, Compilation, compiled, invalid, settle, compile_nodes, compile_transformed,
  compile_normalized, compile_with_policy, expected,
}
use pascals_discrete_attract.Compile
use pascals_discrete_attract.Graph.Keyed.{Keyed}
use pascals_discrete_attract.Compile.Accepted.{
  TransformedKeyed, apply_transforms-Keyed, normalize_aliases-Keyed, found_in,
}
use pascals_discrete_attract.Compile.Clean.{sorted-Clean}
use pascals_discrete_attract.Compile.Expected.{found_in-kept, found_in-expected}
use pascals_discrete_attract.Compile.Diagnostics.{
  SemanticDiagnostic, diagnostic_order, cmp_option, kind_rank, Formats,
}
use pascals_discrete_attract.Compile.Resolve.{MissingProviderPolicy}
use pascals_discrete_attract.Compile.Aliases.{normalize_aliases, validate_semantic_attribute_types}
use pascals_discrete_attract.Compile.Transforms.{
  Transformed, transformed, refused, broken, apply_transforms, apply_model_stylesheet, styled,
  expanded,
}

cmp_option-Antisymmetric : Antisymmetric cmp_option
unfolding cmp_option
cmp_option-Antisymmetric none none = refl
cmp_option-Antisymmetric none (some t) = refl
cmp_option-Antisymmetric (some s) none = refl
cmp_option-Antisymmetric (some s) (some t) = cmp-Antisymmetric s t

diagnostic_order-Antisymmetric : Antisymmetric diagnostic_order
unfolding diagnostic_order
diagnostic_order-Antisymmetric a b =
    rw
      (
        cmp_option-Antisymmetric a.node_id b.node_id,
        compare-Antisymmetric (kind_rank a.kind) (kind_rank b.kind),
        cmp-Antisymmetric a.message b.message,
        then_cmp-flip (cmp_option a.node_id b.node_id)
            (compare (kind_rank a.kind) (kind_rank b.kind)),
        then_cmp-flip
            (then_cmp (cmp_option a.node_id b.node_id)
              (compare (kind_rank a.kind) (kind_rank b.kind)))
            (cmp a.message b.message),
      )
      refl

-- The stylesheet of a graph, the alias normalized, makes the parser panic.
pub PanickingSheet : PipelineGraph → Type 0
PanickingSheet g =
    (css : Text) × (get_string_attr (normalize_aliases g).0.attrs (codes "model_stylesheet")
      ≡ some css)
    × (parse_stylesheet css ≡ panicked)

-- A refusal has at least one diagnostic, and they are in order.
pub Answered : PipelineGraph → Compilation → Type 0
Answered g (compiled c) = Unit
Answered g (invalid ds) = (ds ≢ []) × Ascending diagnostic_order ds
Answered g Compile.panicked = PanickingSheet g

module _ (formats : Formats) (catalog : Map Bool) (policy : MissingProviderPolicy)
    (g : PipelineGraph) where
  settle-Answered :
      (h : PipelineGraph) (found : Resolution) (ds : List SemanticDiagnostic)
      → Ascending diagnostic_order ds
      → (ds ≡ [] → expected catalog found ≡ true)
      → Answered g (settle formats catalog policy h found ds)
  unfolding settle Answered
  settle-Answered h found [] o there = rw (there refl) tt
  settle-Answered h found (d ∷ ds) o there = (λ e. cc, o)

  compile_nodes-Answered :
      (h : PipelineGraph) (earlier : List SemanticDiagnostic)
      → Keyed h.nodes
      → Answered g (compile_nodes formats catalog policy h earlier)
  unfolding compile_nodes
  compile_nodes-Answered h earlier keyed = rw (found_in-kept formats catalog policy h keyed) (
      settle-Answered h (found_in formats catalog policy h) _
        (sort_with-Ascending diagnostic_order diagnostic_order-Antisymmetric _)
        λ none_left. found_in-expected formats catalog policy h keyed (
          sorted-Clean formats catalog policy h (found_in formats catalog policy h) earlier
            none_left))

  -- The transforms break only where the parser of the stylesheet panics.
  Breaks : Transformed → Type 0
  Breaks (transformed h) = Unit
  Breaks (refused e) = Unit
  Breaks broken = PanickingSheet g

  styled-Breaks :
      (h : PipelineGraph) (r : Parsed (List Rule))
      → r ≢ starved
      → (r ≡ panicked → PanickingSheet g)
      → Breaks (styled h r)
  unfolding styled Breaks
  styled-Breaks h (parsed rules p) ends sheet = tt
  styled-Breaks h (failed e) ends sheet = tt
  styled-Breaks h panicked ends sheet = sheet refl
  styled-Breaks h starved ends sheet = absurd (ends refl)

  model_stylesheet-Breaks :
      (css : Option Text)
      → get_string_attr (normalize_aliases g).0.attrs (codes "model_stylesheet") ≡ css
      → Breaks (apply_model_stylesheet (normalize_aliases g).0 css)
  unfolding apply_model_stylesheet PanickingSheet Breaks
  model_stylesheet-Breaks none e = tt
  model_stylesheet-Breaks (some css) e =
      styled-Breaks _ (parse_stylesheet css) (parse_stylesheet-ends css) λ panics. (css, e, panics)

  expanded-Breaks : (t : Transformed) → Breaks t → Breaks (expanded formats t)
  unfolding expanded Breaks
  expanded-Breaks (transformed h) b = tt
  expanded-Breaks (refused e) b = tt
  expanded-Breaks broken b = b

  compile_transformed-Answered :
      (h : PipelineGraph) (t : Transformed)
      → Keyed h.nodes
      → TransformedKeyed t
      → Breaks t
      → Answered g (compile_transformed formats catalog policy h t)
  unfolding compile_transformed Breaks Answered
  compile_transformed-Answered h (transformed changed) keyed changed_keyed b =
      compile_nodes-Answered changed [] changed_keyed
  compile_transformed-Answered h (refused e) keyed changed_keyed b =
      compile_nodes-Answered h _ keyed
  compile_transformed-Answered h broken keyed changed_keyed b = b

  compile_normalized-Answered :
      (ds : List SemanticDiagnostic)
      → Keyed (normalize_aliases g).0.nodes
      → Answered g (compile_normalized formats catalog policy (normalize_aliases g).0 ds)
  unfolding compile_normalized apply_transforms
  compile_normalized-Answered [] keyed =
      compile_transformed-Answered _ _ keyed
        (apply_transforms-Keyed formats (normalize_aliases g).0 keyed)
        (expanded-Breaks _ (model_stylesheet-Breaks _ refl))
  compile_normalized-Answered (d ∷ ds) keyed = compile_nodes-Answered _ (d ∷ ds) keyed

  -- On a graph whose nodes stand under their ids, a compilation that gives no plan either has at
  -- least one diagnostic, each not greater than the next by node, kind and message, or panics; and
  -- it panics only where the parser of the graph's stylesheet does: the node of each id, the source
  -- of each resolved node, each default provider, each capability and the start are there.
  pub compile_with_policy-Answered :
      Keyed g.nodes → Answered g (compile_with_policy formats catalog policy g)
  unfolding compile_with_policy
  compile_with_policy-Answered keyed =
      compile_normalized-Answered
        (validate_semantic_attribute_types formats g ++ (normalize_aliases g).1)
        (normalize_aliases-Keyed formats g keyed)
