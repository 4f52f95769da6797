-- ===== src/Validation/Reachability.antt =====
-- The search from the start node (crates/attractor-pipeline/src/validation.rs). The queue is a
-- list, its front first; the fuel bounds the rounds of the loop.
use pascals_discrete_attract.Base.{
  ℕ, zero, suc, ◌+◌, Text, Bool, true, false, List, [], ◌∷◌, ◌++◌, map, Option, none, some, ◌==◌,
  any, keys, length, if◌then◌else◌,
}
use pascals_discrete_attract.Graph.{PipelineGraph, outgoing_edges}
use pascals_discrete_attract.Graph.Edges.{PipelineEdge}

abbrev pub member : Text → List Text → Bool
member id visited = any (λ v. v == id) visited

unfoldable pub successors : PipelineGraph → Text → List Text
successors g id = map (λ (e : PipelineEdge). e.to) (outgoing_edges g id)

-- The loop: none where the fuel is too little.
unfoldable pub search_from : ℕ → PipelineGraph → List Text → List Text → Option (List Text)
search_from zero g visited queue = none
search_from (suc fuel) g visited [] = some visited
search_from (suc fuel) g visited (current ∷ queue) = elim (member current visited) [
  | true ↦ search_from fuel g visited queue
  | false ↦ search_from fuel g (current ∷ visited) (queue ++ successors g current)
]

-- How many edges leave the nodes that are not visited.
unfoldable pub edges_left : PipelineGraph → List Text → List Text → ℕ
edges_left g visited [] = 0
edges_left g visited (id ∷ ids) =
    (if member id visited then 0 else length (successors g id)) + edges_left g visited ids

-- A round for each edge, one for the start and one to see the queue empty.
unfoldable pub search_fuel : PipelineGraph → ℕ
unfolding edges_left
search_fuel g = suc (suc (edges_left g [] (keys g.adjacency)))

unfoldable pub or_nothing : Option (List Text) → List Text
or_nothing none = []
or_nothing (some visited) = visited

-- The nodes that the search from a start visits.
unfoldable pub reached : PipelineGraph → Text → List Text
unfolding search_from search_fuel or_nothing successors
reached g start = or_nothing (search_from (search_fuel g) g [] (start ∷ []))
