-- ===== src/Graph.antt =====
-- crates/attractor-pipeline/src/graph.rs: the pipeline graph and its construction from a DOT file.
pub mod Dot
pub mod Attributes
pub mod Edges
pub mod Order
pub mod Index
pub mod Outgoing
pub mod Keyed
use pascals_discrete_attract.Base.{
  ℕ, Text, Map, Bool, true, false, List, [], ◌∷◌, ◌++◌, map, Option, none, some, ℤ, codes, ◌==◌,
  lookup, insert, extend, find, split_whitespace, as_i32, if◌then◌else◌,
}
use Dot.{AttributeValue, Attrs, NodeDef, EdgeDef, SubgraphDef, DotGraph}
use Attributes.{get_string_attr, get_bool_attr, get_int_attr, get_duration_attr}
use Edges.{PipelineEdge, sort_by_from, build_adjacency, slice}

pub record PipelineNode : Type 0 where
  pub id : Text
  pub label : Text
  pub shape : Text
  pub node_type : Option Text
  pub prompt : Option Text
  pub goal_gate : Bool
  pub retry_target : Option Text
  pub fallback_retry_target : Option Text
  pub classes : List Text
  pub timeout : Option ℕ
  pub llm_model : Option Text
  pub llm_provider : Option Text
  pub raw_attrs : Attrs

pub record PipelineGraph : Type 0 where
  pub name : Text
  pub goal : Text
  pub attrs : Attrs
  pub nodes : Map PipelineNode
  pub authored_node_attrs : Map (List Text)
  pub edges : List PipelineEdge
  pub adjacency : Map (ℕ × ℕ)

abbrev pub get_or {ℓ} : {A : Type ℓ} → A → Option A → A
get_or d none = d
get_or d (some a) = a

words_of : Option Text → List Text
words_of none = []
words_of (some s) = split_whitespace s

-- `node_def_to_pipeline_node`: graph defaults, then subgraph defaults, then the node's own.
unfoldable pub node_def_to_pipeline_node : Text → NodeDef → Attrs → Option Attrs → PipelineNode
unfolding words_of
node_def_to_pipeline_node id node_def graph_defaults subgraph_defaults =
    let attrs : Attrs =
      extend (extend graph_defaults (get_or [] subgraph_defaults)) node_def.attrs in
    record {
      id = id;
      label = get_or id (get_string_attr attrs (codes "label"));
      shape = get_or (codes "box") (get_string_attr attrs (codes "shape"));
      node_type = get_string_attr attrs (codes "type");
      prompt = get_string_attr attrs (codes "prompt");
      goal_gate = get_or false (get_bool_attr attrs (codes "goal_gate"));
      retry_target = get_string_attr attrs (codes "retry_target");
      fallback_retry_target = get_string_attr attrs (codes "fallback_retry_target");
      classes = words_of (get_string_attr attrs (codes "class"));
      timeout = get_duration_attr attrs (codes "timeout");
      llm_model = get_string_attr attrs (codes "llm_model");
      llm_provider = get_string_attr attrs (codes "llm_provider");
      raw_attrs = attrs;
    }

weight_of : Option ℤ → ℤ
weight_of none = ℤ.pos 0
weight_of (some v) = as_i32 v

-- `edge_def_to_pipeline_edge`.
unfoldable pub edge_def_to_pipeline_edge : Attrs → EdgeDef → PipelineEdge
unfolding weight_of
edge_def_to_pipeline_edge edge_defaults edge_def =
    let attrs : Attrs = extend edge_defaults edge_def.attrs in
    record {
      from = edge_def.from;
      to = edge_def.to;
      label = get_string_attr attrs (codes "label");
      condition = get_string_attr attrs (codes "condition");
      weight = weight_of (get_int_attr attrs (codes "weight"));
      loop_restart = get_or false (get_bool_attr attrs (codes "loop_restart"));
      reset_quality_loop_state =
          get_or false (get_bool_attr attrs (codes "reset_quality_loop_state"));
      raw_attrs = attrs;
    }

-- The loops over node definitions; a later definition of an id replaces an earlier one.
unfoldable pub insert_nodes :
    Attrs → Option Attrs → Map NodeDef → Map PipelineNode → Map PipelineNode
insert_nodes defaults subgraph [] nodes = nodes
insert_nodes defaults subgraph ((id, def) ∷ defs) nodes =
    insert_nodes defaults subgraph defs
      (insert id (node_def_to_pipeline_node id def defaults subgraph) nodes)

insert_authored : Map NodeDef → Map (List Text) → Map (List Text)
insert_authored [] authored = authored
insert_authored ((id, def) ∷ defs) authored =
    insert_authored defs (insert id (map (λ a. a.0) def.authored_attrs) authored)

unfoldable pub subgraph_nodes : Attrs → List SubgraphDef → Map PipelineNode → Map PipelineNode
subgraph_nodes defaults [] nodes = nodes
subgraph_nodes defaults (sg ∷ sgs) nodes =
    subgraph_nodes defaults sgs (insert_nodes defaults (some sg.node_defaults) sg.nodes nodes)

subgraph_authored : List SubgraphDef → Map (List Text) → Map (List Text)
subgraph_authored [] authored = authored
subgraph_authored (sg ∷ sgs) authored = subgraph_authored sgs (insert_authored sg.nodes authored)

subgraph_edges : Attrs → List SubgraphDef → List PipelineEdge
subgraph_edges defaults [] = []
subgraph_edges defaults (sg ∷ sgs) =
    map (edge_def_to_pipeline_edge (extend defaults sg.edge_defaults)) sg.edges
    ++ subgraph_edges defaults sgs

-- The edges in the order in which the file gives them, before they are sorted.
unfoldable pub authored_edges : DotGraph → List PipelineEdge
unfolding subgraph_edges
authored_edges graph =
    map (edge_def_to_pipeline_edge graph.edge_defaults) graph.edges
    ++ subgraph_edges graph.edge_defaults graph.subgraphs

-- `PipelineGraph::from_dot`, which never fails.
unfoldable pub from_dot : DotGraph → PipelineGraph
unfolding insert_nodes insert_authored subgraph_nodes subgraph_authored
from_dot graph =
    let edges = sort_by_from (authored_edges graph) in
    record {
      name = graph.name;
      goal = get_or [] (get_string_attr graph.attrs (codes "goal"));
      attrs = graph.attrs;
      nodes =
          subgraph_nodes graph.node_defaults graph.subgraphs
            (insert_nodes graph.node_defaults none graph.nodes []);
      authored_node_attrs = subgraph_authored graph.subgraphs (insert_authored graph.nodes []);
      edges = edges;
      adjacency = build_adjacency edges;
    }

-- `PipelineGraph::node`.
unfoldable pub node : PipelineGraph → Text → Option PipelineNode
node g id = lookup id g.nodes

-- `PipelineGraph::outgoing_edges`.
unfoldable pub outgoing_edges : PipelineGraph → Text → List PipelineEdge
outgoing_edges g id = slice g.edges (lookup id g.adjacency)

or_else : Option PipelineNode → Option PipelineNode → Option PipelineNode
or_else (some n) other = some n
or_else none other = other

-- `PipelineGraph::start_node`, `PipelineGraph::exit_node`.
unfoldable pub start_node : PipelineGraph → Option PipelineNode
unfolding or_else
start_node g =
    or_else (find (λ n. n.shape == codes "Mdiamond") (map (λ e. e.1) g.nodes))
      (or_else (node g (codes "start")) (node g (codes "Start")))

unfoldable pub exit_node : PipelineGraph → Option PipelineNode
exit_node g = find (λ n. n.shape == codes "Msquare") (map (λ e. e.1) g.nodes)
