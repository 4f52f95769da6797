-- ===== src/Examples/Routing.antt =====
-- Conditions, edges and goal gates of the small pipeline.
use mathlib.Core.List.Permᴰ.{Permᴰ}
use pascals_discrete_attract.Base.{
  ℕ, Text, true, [], ◌∷◌, ◌++◌, none, some, ◌≡◌, refl, ◌↔◌, All, In, keep, codes, arith,
  is_ascii_alphanumeric, is_ascii_digit, is_whitespace, ◌==◌, split, trim, lookup, insert, extend,
  cmp, add_char, trim_end, trim_start,
}
use pascals_discrete_attract.Types.{fail_outcome, Outcome, success_outcome}
use pascals_discrete_attract.Types.Errors.{ok}
use pascals_discrete_attract.Graph
use pascals_discrete_attract.Graph.{
  outgoing_edges, from_dot, authored_edges, edge_def_to_pipeline_edge,
}
use pascals_discrete_attract.Graph.Edges.{
  PipelineEdge, slice, build_adjacency, sort_by_from, adjacency_from, from_le, insert_sorted,
  run_length,
}
use pascals_discrete_attract.Graph.Attributes.{get_string_attr, get_bool_attr, get_int_attr}
use pascals_discrete_attract.Graph.Order.{leaves}
use pascals_discrete_attract.Graph.Outgoing.{outgoing_edges-from_dot}
use pascals_discrete_attract.Condition.{
  ConditionExpr, Clause, equal, parse_condition, is_quote, check_segments, clause_holds,
  evaluate_condition, find_operator, parse_clause, parse_clauses, parse_key, parse_trimmed,
  parse_value, scan, split_and, strip_quotes,
}
use pascals_discrete_attract.Condition.Words.{plain, key_plain}
use pascals_discrete_attract.Condition.Rendered.{render, IsPrintable}
use pascals_discrete_attract.Condition.Wellformed.{IsValidClause, parse_condition-IsValidKey}
use pascals_discrete_attract.Condition.Roundtrip.{parse_condition-render}
use pascals_discrete_attract.EdgeSelection.{
  select_edge, by_label, by_suggestion, by_weight, select_among, best_by_weight_then_lexical,
  condition_matches, is_unconditional,
}
use pascals_discrete_attract.EdgeSelection.Cascade.{Chosen}
use pascals_discrete_attract.EdgeSelection.Sound.{
  select_edge-Chosen, select_edge-none, select_edge-leaves,
}
use pascals_discrete_attract.GoalGate.{enforce_goal_gates, is_failed_gate, is_satisfying}
use pascals_discrete_attract.GoalGate.Verdict.{Verdict, enforce_goal_gates-Verdict}
use pascals_discrete_attract.GoalGate.Order.{unsatisfied, enforce_goal_gates-perm}
use pascals_discrete_attract.Examples.Fixtures.{
  ascii, file, to_exit, graph, edge_to_exit, failed_build,
}

outgoing_edges-from_dot_example :
    outgoing_edges (from_dot file) (codes "build")
    ≡ keep (leaves (codes "build")) (authored_edges file)
outgoing_edges-from_dot_example = outgoing_edges-from_dot file (codes "build")

abbrev succeeded : Clause
succeeded = record { key = codes "outcome"; operator = equal; value = codes "success" }

abbrev condition : ConditionExpr
condition = record { clauses = succeeded ∷ succeeded ∷ [] }

ascii_key_plain : (c : ℕ) → is_ascii_alphanumeric c ≡ true → key_plain c ≡ true
unfolding is_ascii_alphanumeric is_ascii_digit key_plain plain is_quote is_whitespace
ascii_key_plain c h = ground (arith, h)

printable : IsPrintable is_ascii_alphanumeric ascii_key_plain succeeded
unfolding split is_ascii_alphanumeric is_ascii_digit plain is_quote is_whitespace
printable = record {
  key_nonempty = refl;
  key_segments = refl;
  value_nonempty = refl;
  value_plain = refl;
}

parse_condition-render_example :
    parse_condition is_ascii_alphanumeric (render condition) ≡ ok condition
parse_condition-render_example =
    parse_condition-render is_ascii_alphanumeric ascii_key_plain condition
      (printable, (printable, tt))

parse_condition-IsValidKey_example : All (IsValidClause is_ascii_alphanumeric) condition.clauses
parse_condition-IsValidKey_example =
    parse_condition-IsValidKey is_ascii_alphanumeric (render condition) condition
      parse_condition-render_example

abbrev resolve : Text → Text
resolve key = codes "success"

abbrev shipped : Outcome
shipped = success_outcome []

selected : select_edge ascii (codes "build") shipped resolve graph ≡ some edge_to_exit
unfolding select_edge outgoing_edges slice lookup ◌==◌ best_by_weight_then_lexical condition_matches
    success_outcome is_unconditional
selected = refl

select_edge-Chosen_example :
    Chosen ascii shipped resolve (outgoing_edges graph (codes "build")) edge_to_exit
select_edge-Chosen_example =
    select_edge-Chosen ascii (codes "build") shipped resolve graph edge_to_exit selected

select_edge-none_example :
    (select_edge ascii (codes "exit") shipped resolve graph ≡ none)
    ↔ (outgoing_edges graph (codes "exit") ≡ [])
select_edge-none_example = select_edge-none ascii (codes "exit") shipped resolve graph

abbrev first : PipelineEdge
first = edge_def_to_pipeline_edge [] to_exit

selected_in_file : select_edge ascii (codes "build") shipped resolve (from_dot file) ≡ some first
unfolding select_edge outgoing_edges slice lookup from_dot build_adjacency sort_by_from
    authored_edges cmp edge_def_to_pipeline_edge ◌==◌ insert best_by_weight_then_lexical
    condition_matches get_string_attr extend parse_condition trim add_char is_ascii_digit
    is_ascii_alphanumeric is_whitespace split trim_end trim_start check_segments clause_holds
    evaluate_condition find_operator is_quote parse_clause parse_clauses parse_key parse_trimmed
    parse_value scan split_and strip_quotes by_label by_suggestion by_weight is_unconditional
    select_among get_bool_attr get_int_attr adjacency_from from_le insert_sorted run_length
    success_outcome
selected_in_file = refl

select_edge-leaves_example : In first (authored_edges file) × (first.from ≡ codes "build")
select_edge-leaves_example =
    select_edge-leaves ascii (codes "build") shipped resolve file first selected_in_file

enforce_goal_gates-perm_example :
    enforce_goal_gates graph ((codes "exit", shipped) ∷ failed_build)
    ≡ enforce_goal_gates graph (failed_build ++ (codes "exit", shipped) ∷ [])
unfolding unsatisfied is_failed_gate Graph.node lookup ◌==◌ is_satisfying fail_outcome
enforce_goal_gates-perm_example =
    enforce_goal_gates-perm graph ((codes "exit", shipped) ∷ failed_build)
      (failed_build ++ (codes "exit", shipped) ∷ []) ∣ Permᴰ.swap refl refl ∣₁ (omega arith)

enforce_goal_gates-Verdict_example :
    Verdict graph failed_build (enforce_goal_gates graph failed_build)
enforce_goal_gates-Verdict_example = enforce_goal_gates-Verdict graph failed_build
