-- ===== src/Graph/Outgoing.antt =====
-- What `outgoing_edges` promises its callers: routing and validation.
use pascals_discrete_attract.Base.{Text, ◌≡◌, keep}
use pascals_discrete_attract.Graph.{from_dot, authored_edges, outgoing_edges}
use pascals_discrete_attract.Graph.Dot.{DotGraph}
use pascals_discrete_attract.Graph.Order.{leaves}
use pascals_discrete_attract.Graph.Index.{slice-sorted}

-- For every DOT file and node id, `outgoing_edges` on the built graph gives exactly the edges of
-- the file (subgraph edges after top-level ones) whose source is that id, in the order of the file.
pub outgoing_edges-from_dot :
    (graph : DotGraph) (id : Text)
    → outgoing_edges (from_dot graph) id ≡ keep (leaves id) (authored_edges graph)
unfolding outgoing_edges from_dot
outgoing_edges-from_dot graph id = slice-sorted id (authored_edges graph)
