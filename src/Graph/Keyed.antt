-- ===== src/Graph/Keyed.antt =====
-- The nodes of a graph under their ids (crates/attractor-pipeline/src/graph.rs).
use pascals_discrete_attract.Base.{
  Text, Map, List, [], ◌∷◌, Option, none, some, ◌≡◌, refl, subst, ◌∙◌, lookup, insert, keys, map,
  map_values, ◌==◌, ==_iff, All, Bool-cases, inl, inr, if◌then◌else◌, some_injective,
}
use pascals_discrete_attract.Graph.{
  PipelineNode, node_def_to_pipeline_node, insert_nodes, subgraph_nodes, from_dot,
}
use pascals_discrete_attract.Graph.Dot.{Attrs, NodeDef, SubgraphDef, DotGraph}

-- Each node stands under its own id.
unfoldable pub Keyed : Map PipelineNode → Type 0
Keyed nodes = All (λ (e : Text × PipelineNode). e.1.id ≡ e.0) nodes

insert-Keyed :
    (id : Text) (n : PipelineNode) (nodes : Map PipelineNode)
    → n.id ≡ id
    → Keyed nodes
    → Keyed (insert id n nodes)
unfolding Keyed insert
insert-Keyed id n [] e h = (e, tt)
insert-Keyed id n ((key, m) ∷ nodes) e h = elim (Bool-cases (key == id)) [
  | inl p ↦ rw p (e, h.1)
  | inr p ↦ rw p (h.0, insert-Keyed id n nodes e h.1)
]

insert_nodes-Keyed :
    (defaults : Attrs) (subgraph : Option Attrs) (defs : Map NodeDef) (nodes : Map PipelineNode)
    → Keyed nodes
    → Keyed (insert_nodes defaults subgraph defs nodes)
unfolding insert_nodes node_def_to_pipeline_node
insert_nodes-Keyed defaults subgraph [] nodes h = h
insert_nodes-Keyed defaults subgraph ((id, def) ∷ defs) nodes h =
    insert_nodes-Keyed defaults subgraph defs _ (insert-Keyed id _ nodes refl h)

subgraph_nodes-Keyed :
    (defaults : Attrs) (sgs : List SubgraphDef) (nodes : Map PipelineNode)
    → Keyed nodes
    → Keyed (subgraph_nodes defaults sgs nodes)
unfolding subgraph_nodes
subgraph_nodes-Keyed defaults [] nodes h = h
subgraph_nodes-Keyed defaults (sg ∷ sgs) nodes h =
    subgraph_nodes-Keyed defaults sgs _
      (insert_nodes-Keyed defaults (some sg.node_defaults) sg.nodes nodes h)

-- A graph built from a file has its nodes under their ids.
pub from_dot-Keyed : (graph : DotGraph) → Keyed (from_dot graph).nodes
unfolding from_dot Keyed
from_dot-Keyed graph =
    subgraph_nodes-Keyed graph.node_defaults graph.subgraphs _
      (insert_nodes-Keyed graph.node_defaults none graph.nodes [] tt)

pub map_values-Keyed :
    (f : PipelineNode → PipelineNode) (nodes : Map PipelineNode)
    → ((n : PipelineNode) → (f n).id ≡ n.id)
    → Keyed nodes
    → Keyed (map_values f nodes)
unfolding Keyed
map_values-Keyed f [] same h = tt
map_values-Keyed f ((key, n) ∷ nodes) same h = (same n ∙ h.0, map_values-Keyed f nodes same h.1)

pub lookup-Keyed :
    (id : Text) (n : PipelineNode) (nodes : Map PipelineNode)
    → Keyed nodes
    → lookup id nodes ≡ some n
    → n.id ≡ id
unfolding Keyed lookup
lookup-Keyed id n [] h e = cc
lookup-Keyed id n ((key, m) ∷ nodes) h e = elim (Bool-cases (key == id)) [
  | inl p ↦
      subst (λ (k : PipelineNode). k.id ≡ id)
        (some_injective (subst (λ b. (if b then some m else lookup id nodes) ≡ some n) p e))
        (h.0 ∙ (==_iff key id).0 p)
  | inr p ↦
      lookup-Keyed id n nodes h.1
        (subst (λ b. (if b then some m else lookup id nodes) ≡ some n) p e)
]

-- The keys of the map are the ids of its nodes.
pub ids-Keyed :
    (nodes : Map PipelineNode)
    → Keyed nodes
    → map (λ (n : PipelineNode). n.id) (map (λ (e : Text × PipelineNode). e.1) nodes) ≡ keys nodes
unfolding Keyed
ids-Keyed [] h = refl
ids-Keyed ((key, n) ∷ nodes) h = rw (h.0, ids-Keyed nodes h.1)
