-- ===== src/Graph/Edges.antt =====
-- The edges of crates/attractor-pipeline/src/graph.rs: their order, and the adjacency index.
use Prim.Native.Nat.{Ordering}
use pascals_discrete_attract.Base.{
  ℕ, zero, suc, ◌+◌, Text, Map, Bool, true, false, List, [], ◌∷◌, Option, none, some, ℤ, ◌==◌, cmp,
  insert, length, take, drop, if◌then◌else◌,
}
use pascals_discrete_attract.Graph.Dot.{Attrs}

pub record PipelineEdge : Type 0 where
  pub from : Text
  pub to : Text
  pub label : Option Text
  pub condition : Option Text
  pub weight : ℤ
  pub loop_restart : Bool
  pub reset_quality_loop_state : Bool
  pub raw_attrs : Attrs

-- `a.from.cmp(&b.from)` is not `Greater`.
unfoldable pub from_le : PipelineEdge → PipelineEdge → Bool
from_le a b = elim (cmp a.from b.from) [ Ordering.gt ↦ false | _ ↦ true ]

-- `sort_by` is stable, and the stable sort of a list is unique; this one inserts from the right,
-- so an edge goes before the equal ones that followed it.
unfoldable pub insert_sorted : PipelineEdge → List PipelineEdge → List PipelineEdge
insert_sorted e [] = e ∷ []
insert_sorted e (x ∷ xs) =
    let rest = insert_sorted e xs in if from_le e x then e ∷ x ∷ xs else x ∷ rest

unfoldable pub sort_by_from : List PipelineEdge → List PipelineEdge
unfolding insert_sorted from_le
sort_by_from [] = []
sort_by_from (e ∷ es) = insert_sorted e (sort_by_from es)

-- The inner `while`: how many edges at the front leave `from`.
unfoldable pub run_length : Text → List PipelineEdge → ℕ
run_length from [] = 0
run_length from (e ∷ es) = let rest = run_length from es in if e.from == from then suc rest else 0

-- The outer `while`: `start` is the index of the first edge left. Each round takes at least one
-- edge, so as many rounds as there are edges are enough.
unfoldable pub adjacency_from : ℕ → ℕ → List PipelineEdge → Map (ℕ × ℕ) → Map (ℕ × ℕ)
adjacency_from zero start es adjacency = adjacency
adjacency_from (suc rounds) start [] adjacency = adjacency
adjacency_from (suc rounds) start (e ∷ es) adjacency =
    let count = run_length e.from (e ∷ es) in
    adjacency_from rounds (start + count) (drop count (e ∷ es))
      (insert e.from (start, count) adjacency)

unfoldable pub build_adjacency : List PipelineEdge → Map (ℕ × ℕ)
unfolding adjacency_from run_length
build_adjacency edges = adjacency_from (length edges) 0 edges []

-- `&self.edges[start..start + count]`.
unfoldable pub slice : List PipelineEdge → Option (ℕ × ℕ) → List PipelineEdge
slice edges none = []
slice edges (some (start, count)) = take count (drop start edges)
