-- ===== src/EdgeSelection.antt =====
-- crates/attractor-pipeline/src/edge_selection.rs: which edge a run takes after a node.
pub mod Best
pub mod Cascade
pub mod Sound
use Prim.Native.Nat.{Ordering}
use pascals_discrete_attract.Base.{
  ℕ, Text, Bool, true, false, ◌&&◌, List, [], ◌∷◌, Option, none, some, codes, ◌==◌, cmp, cmpℤ, eqb,
  keep, find, trim, trim_start, Unicode, if◌then◌else◌,
}
use pascals_discrete_attract.Types.{Outcome}
use pascals_discrete_attract.Types.Errors.{Result, ok, err}
use pascals_discrete_attract.Graph.{PipelineGraph, outgoing_edges}
use pascals_discrete_attract.Graph.Edges.{PipelineEdge}
use pascals_discrete_attract.Condition.{ConditionExpr, parse_condition, evaluate_condition}

-- `Ordering::then`.
then_cmp : Ordering → Ordering → Ordering
then_cmp Ordering.eq next = next
then_cmp Ordering.lt next = Ordering.lt
then_cmp Ordering.gt next = Ordering.gt

-- The comparison of `best_by_weight_then_lexical`: by weight, then by the target backwards.
unfoldable pub rank : PipelineEdge → PipelineEdge → Ordering
unfolding then_cmp
rank a b = then_cmp (cmpℤ a.weight b.weight) (cmp b.to a.to)

-- `max_by` keeps the later of two equal elements.
unfoldable pub pick : PipelineEdge → PipelineEdge → PipelineEdge
pick best e = elim (rank best e) [ Ordering.gt ↦ best | _ ↦ e ]

unfoldable pub best_from : PipelineEdge → List PipelineEdge → PipelineEdge
best_from best [] = best
best_from best (e ∷ es) = best_from (pick best e) es

-- `none` stands for the panic on no edges, which the callers exclude.
unfoldable pub best_by_weight_then_lexical : List PipelineEdge → Option PipelineEdge
unfolding best_from pick rank
best_by_weight_then_lexical [] = none
best_by_weight_then_lexical (e ∷ es) = some (best_from e es)

-- A step that has no answer passes to the next one.
abbrev pub or_next : Option PipelineEdge → Option PipelineEdge → Option PipelineEdge
or_next (some e) next = some e
or_next none next = next

abbrev pub first_edge : List PipelineEdge → Option PipelineEdge
first_edge [] = none
first_edge (e ∷ es) = some e

module _ (u : Unicode) where
  -- The regular expression `^(?:\[\w\]\s*|\w\)\s*|\w-\s*)` replaced by nothing.
  unfoldable pub strip_accelerator : Text → Text
  strip_accelerator [] = []
  strip_accelerator (a ∷ []) = a ∷ []
  strip_accelerator (a ∷ b ∷ []) =
      if u.is_word a && eqb b b')' then [] else if u.is_word a && eqb b b'-' then [] else a ∷ b ∷ []
  strip_accelerator (a ∷ b ∷ c ∷ s) =
      if eqb a b'[' && u.is_word b && eqb c b']'
      then trim_start s
      else if u.is_word a && eqb b b')'
      then trim_start (c ∷ s)
      else if u.is_word a && eqb b b'-'
      then trim_start (c ∷ s)
      else a ∷ b ∷ c ∷ s

  unfoldable pub normalize_label : Text → Text
  unfolding strip_accelerator
  normalize_label label = strip_accelerator (u.to_lowercase (trim label))

  abbrev holds : (Text → Text) → Result ConditionExpr → Bool
  holds resolve (ok expr) = evaluate_condition expr resolve
  holds resolve (err e) = false

  -- The filter of step 1: a condition that does not parse does not match.
  unfoldable pub condition_matches : (Text → Text) → PipelineEdge → Bool
  condition_matches resolve e = elim e.condition [
    | none ↦ false
    | some cond ↦ holds resolve (parse_condition u.is_alphanumeric cond)
  ]

  unfoldable pub label_matches : Text → PipelineEdge → Bool
  label_matches normalized e = elim e.label [
    | none ↦ false
    | some label ↦ normalize_label label == normalized
  ]

  unfoldable pub is_unconditional : PipelineEdge → Bool
  is_unconditional e = elim e.condition [ none ↦ true | some cond ↦ false ]

  -- Step 2.
  unfoldable pub by_label : Option Text → List PipelineEdge → Option PipelineEdge
  by_label none edges = none
  by_label (some label) edges = find (label_matches (normalize_label label)) edges

  -- Step 3: the first suggestion that is the target of an edge.
  unfoldable pub by_suggestion : List Text → List PipelineEdge → Option PipelineEdge
  by_suggestion [] edges = none
  by_suggestion (id ∷ ids) edges = elim (find (λ e. e.to == id) edges) [
    | some e ↦ some e
    | none ↦ by_suggestion ids edges
  ]

  -- Steps 4 and 5, and the last resort.
  unfoldable pub by_weight : List PipelineEdge → Option PipelineEdge
  by_weight edges =
      or_next (best_by_weight_then_lexical (keep is_unconditional edges)) (first_edge edges)

  -- The cascade over the outgoing edges of a node.
  unfoldable pub select_among : Outcome → (Text → Text) → List PipelineEdge → Option PipelineEdge
  select_among outcome resolve edges =
      or_next (best_by_weight_then_lexical (keep (condition_matches resolve) edges)) (
        or_next (by_label outcome.preferred_label edges)
          (or_next (by_suggestion outcome.suggested_next_ids edges) (by_weight edges)))

  unfoldable pub select_edge : Text → Outcome → (Text → Text) → PipelineGraph → Option PipelineEdge
  unfolding select_among by_label by_suggestion by_weight
  select_edge node_id outcome resolve graph = elim (outgoing_edges graph node_id) [
    | [] ↦ none
    | e ∷ es ↦ select_among outcome resolve (e ∷ es)
  ]
