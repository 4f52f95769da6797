-- ===== src/Examples/Plans.antt =====
-- A small pipeline through the compiler, the stylesheet and the checks of a plan.
use pascals_discrete_attract.Base.{
  Text, Bool, true, false, List, [], ◌∷◌, map, none, ◌≡◌, ◌≢◌, ◌↔◌, In, codes, lookup,
}
use pascals_discrete_attract.Graph.{PipelineGraph, from_dot}
use pascals_discrete_attract.Graph.Dot.{string, NodeDef, EdgeDef, DotGraph}
use pascals_discrete_attract.Graph.Keyed.{from_dot-Keyed}
use pascals_discrete_attract.Plan.{ResolvedNode}
use pascals_discrete_attract.Compile.{
  Compilation, compiled, invalid, panicked, compile_with_policy, builtin_handler_catalog,
}
use pascals_discrete_attract.Compile.Checks.{resolved_nodes}
use pascals_discrete_attract.Compile.Diagnostics.{Formats}
use pascals_discrete_attract.Compile.Resolve.{reject}
use pascals_discrete_attract.Compile.Clean.{Yields}
use pascals_discrete_attract.Compile.Wellformed.{WellFormed}
use pascals_discrete_attract.Compile.Accepted.{compile_with_policy-WellFormed}
use pascals_discrete_attract.Compile.Supported.{Supported, compile_with_policy-Supported}
use pascals_discrete_attract.Compile.Refusals.{Answered, compile_with_policy-Answered}
use pascals_discrete_attract.Stylesheet.{style_node}
use pascals_discrete_attract.Stylesheet.Scan.{starved}
use pascals_discrete_attract.Stylesheet.Parser.{Rule, universal, by_id, parse_stylesheet}
use pascals_discrete_attract.Stylesheet.Fuel.{parse_stylesheet-ends}
use pascals_discrete_attract.Stylesheet.Precedence.{styled_value, declarations_for, style_node_lem}
use pascals_discrete_attract.Validation.{unreachable}
use pascals_discrete_attract.Validation.Reachable.{Reach, unreachable_iff}
use pascals_discrete_attract.Engine.Compiled.{Runnable, compile_with_policy-Runnable}
use pascals_discrete_attract.Examples.Fixtures.{whole, configuration, plain_node}

abbrev formats : Formats
formats = record { float_text = λ x. []; duration_text = λ d. []; floats = whole }

abbrev node_def : Text → Text → NodeDef
node_def id shape = record {
  id = id;
  attrs = (codes "shape", string shape) ∷ (codes "llm_provider", string (codes "claude")) ∷ [];
  authored_attrs = (codes "llm_provider", string (codes "claude")) ∷ [];
}

abbrev edge_def : Text → Text → EdgeDef
edge_def from to = record { from = from; to = to; attrs = [] }

abbrev review : DotGraph
review = record {
  name = codes "review";
  attrs = (codes "model_stylesheet", string (codes "* { llm_model: m; }")) ∷ [];
  nodes =
      (codes "begin", node_def (codes "begin") (codes "Mdiamond"))
      ∷ (codes "write", node_def (codes "write") (codes "box"))
      ∷ (codes "finish", node_def (codes "finish") (codes "Msquare"))
      ∷ [];
  edges = edge_def (codes "begin") (codes "write") ∷ edge_def (codes "write") (codes "finish") ∷ [];
  subgraphs = [];
  node_defaults = [];
  edge_defaults = [];
}

abbrev review_graph : PipelineGraph
review_graph = from_dot review

abbrev is_compiled : Compilation → Bool
is_compiled (compiled c) = true
is_compiled (invalid ds) = false
is_compiled panicked = false

compile_with_policy-WellFormed_example :
    Yields WellFormed (compile_with_policy formats builtin_handler_catalog reject review_graph)
compile_with_policy-WellFormed_example =
    compile_with_policy-WellFormed formats builtin_handler_catalog reject review_graph
      (from_dot-Keyed review)

compile_with_policy-Supported_example :
    Yields Supported (compile_with_policy formats builtin_handler_catalog reject review_graph)
compile_with_policy-Supported_example =
    compile_with_policy-Supported formats builtin_handler_catalog reject review_graph
      (from_dot-Keyed review)

parse_stylesheet-ends_example : parse_stylesheet (codes "* { llm_model: m; }") ≢ starved
parse_stylesheet-ends_example = parse_stylesheet-ends (codes "* { llm_model: m; }")

abbrev rules : List Rule
rules =
    record {
      selector = by_id (codes "write");
      declarations = record { property = codes "llm_model"; value = codes "large" } ∷ [];
    }
    ∷ record {
      selector = universal;
      declarations = record { property = codes "llm_model"; value = codes "small" } ∷ [];
    }
    ∷ []

style_node_lem_example :
    ((style_node [] rules (plain_node (codes "write"))).llm_model
      ≡ styled_value
          (codes "llm_model")
          (lookup {V = List Text} (codes "write") [])
          (declarations_for rules (plain_node (codes "write")))
          none)
    × ((style_node [] rules (plain_node (codes "write"))).llm_provider
        ≡ styled_value
            (codes "llm_provider")
            (lookup {V = List Text} (codes "write") [])
            (declarations_for rules (plain_node (codes "write")))
            none)
style_node_lem_example = style_node_lem [] rules (plain_node (codes "write"))

unreachable_iff_example : In (codes "exit") (unreachable configuration.plan) ↔ (
    In
      (codes "exit")
      (map (λ (r : ResolvedNode). r.node_id) (resolved_nodes configuration.plan.nodes))
    × (Reach configuration.plan.graph configuration.plan.start_id (codes "exit") → ⊥))
unreachable_iff_example = unreachable_iff configuration.plan (codes "exit")

compile_with_policy-Answered_example :
    Answered review_graph (compile_with_policy formats builtin_handler_catalog reject review_graph)
compile_with_policy-Answered_example =
    compile_with_policy-Answered formats builtin_handler_catalog reject review_graph
      (from_dot-Keyed review)

compile_with_policy-Runnable_example :
    Yields Runnable (compile_with_policy formats builtin_handler_catalog reject review_graph)
compile_with_policy-Runnable_example =
    compile_with_policy-Runnable formats builtin_handler_catalog reject review_graph
      (from_dot-Keyed review)
