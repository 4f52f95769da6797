-- ===== src/Compile/Clean.antt =====
-- A compilation without diagnostics (crates/attractor-pipeline/src/execution_plan.rs).
use pascals_discrete_attract.Base.{
  Text, Map, Bool, true, false, if◌then◌else◌, ◌||◌, not, List, [], ◌∷◌, ◌++◌, ◌≡◌, refl, sort_by,
  sort_with, sort_with-empty,
}
use pascals_discrete_attract.Graph.{PipelineGraph}
use pascals_discrete_attract.Plan.{ExecutionPlan}
use pascals_discrete_attract.Compile.{
  Resolution, start_errors, exit_errors, later_errors, plan_of, settle, expected, sourced,
  Compilation, compiled, invalid, panicked,
}
use pascals_discrete_attract.Compile.Diagnostics.{SemanticDiagnostic, diagnostic_order, Formats}
use pascals_discrete_attract.Compile.Resolve.{MissingProviderPolicy}
use pascals_discrete_attract.Compile.Checks.{
  validate_unsupported_attributes, validate_supported_execution_topology,
  validate_supported_execution_capabilities, validate_beads_attributes,
}
use pascals_discrete_attract.Compile.Collected.{append-empty}

abbrev pub Single : List Text → Type 0
Single ids = (id : Text) × (ids ≡ id ∷ [])

start_errors-Single : (ids : List Text) → start_errors ids ≡ [] → Single ids
unfolding start_errors
start_errors-Single [] e = cc
start_errors-Single (id ∷ []) e = (id, refl)
start_errors-Single (id ∷ other ∷ ids) e = cc

exit_errors-Single : (ids : List Text) → exit_errors ids ≡ [] → Single ids
unfolding exit_errors
exit_errors-Single [] e = cc
exit_errors-Single (id ∷ []) e = (id, refl)
exit_errors-Single (id ∷ other ∷ ids) e = cc

-- `P` holds of the plan, if there is one.
abbrev pub Yields : (ExecutionPlan → Type 0) → Compilation → Type 0
Yields P (compiled c) = P c.plan
Yields P (invalid ds) = Unit
Yields P panicked = Unit

module _ (formats : Formats) (catalog : Map Bool) (policy : MissingProviderPolicy) where
  -- No check that follows the transforms has a complaint.
  pub record Clean (g : PipelineGraph) (found : Resolution) : Type 0 where
    pub attributes : validate_unsupported_attributes g ≡ []
    pub nodes : found.diagnostics ≡ []
    pub topology : validate_supported_execution_topology g found.nodes ≡ []
    pub capabilities : validate_supported_execution_capabilities formats g found.nodes ≡ []
    pub beads : validate_beads_attributes formats g found.nodes ≡ []
    pub start : Single (sort_by (λ k. k) found.starts)
    pub exit : Single (sort_by (λ k. k) found.exits)

  later_errors-Clean :
      (g : PipelineGraph) (found : Resolution)
      → later_errors formats catalog policy g found ≡ []
      → Clean g found
  unfolding later_errors
  later_errors-Clean g found clean =
      let (attributes, after) = append-empty (validate_unsupported_attributes g) _ clean in
      let (nodes, rest) = append-empty found.diagnostics _ after in
      let (topology, rest') =
        append-empty (validate_supported_execution_topology g found.nodes) _ rest in
      let (capabilities, rest'') =
        append-empty (validate_supported_execution_capabilities formats g found.nodes) _ rest' in
      let (beads, ends) = append-empty (validate_beads_attributes formats g found.nodes) _ rest'' in
      let (starts, exits) = append-empty (start_errors (sort_by (λ k. k) found.starts)) _ ends in
      record {
        attributes = attributes;
        nodes = nodes;
        topology = topology;
        capabilities = capabilities;
        beads = beads;
        start = start_errors-Single _ starts;
        exit = exit_errors-Single _ exits;
      }

  pub sorted-Clean :
      (g : PipelineGraph) (found : Resolution) (earlier : List SemanticDiagnostic)
      → sort_with diagnostic_order (earlier ++ later_errors formats catalog policy g found) ≡ []
      → Clean g found
  sorted-Clean g found earlier none_left =
      later_errors-Clean g found
        (append-empty earlier _ (sort_with-empty diagnostic_order _ none_left)).1

  Yields-if :
      (P : ExecutionPlan → Type 0) (b : Bool) (c d : Compilation)
      → Yields P c
      → Yields P d
      → Yields P (if b then c else d)
  Yields-if P true c d h k = h
  Yields-if P false c d h k = k

  settle-Yields :
      (P : ExecutionPlan → Type 0) (g : PipelineGraph) (found : Resolution)
      (ds : List SemanticDiagnostic)
      → (ds ≡ [] → P (plan_of formats catalog policy g found).plan)
      → Yields P (settle formats catalog policy g found ds)
  unfolding settle
  settle-Yields P g found [] h = Yields-if P (expected catalog found) _ panicked (h refl) tt
  settle-Yields P g found (d ∷ ds) h = tt

  -- A plan comes of a clean compilation only.
  pub sorted-Yields :
      (P : ExecutionPlan → Type 0) (g : PipelineGraph) (found : Resolution)
      (earlier : List SemanticDiagnostic)
      → (Clean g found → P (plan_of formats catalog policy g found).plan)
      → Yields P (
          if found.lost || not (sourced formats catalog policy g found.nodes)
          then panicked
          else settle formats catalog policy g found
              (sort_with diagnostic_order (earlier ++ later_errors formats catalog policy g found)))
  sorted-Yields P g found earlier h =
      Yields-if P _ panicked _ tt
        (settle-Yields P g found _ λ none_left. h (sorted-Clean g found earlier none_left))
