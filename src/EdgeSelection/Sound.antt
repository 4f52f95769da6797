-- ===== src/EdgeSelection/Sound.antt =====
-- The cascade chooses as its five steps are described, and always chooses where there is an edge.
use pascals_discrete_attract.Base.{
  Text, Bool, false, List, [], ◌∷◌, Option, none, some, ◌≡◌, refl, ◌⊎◌, ◌↔◌, In, In-append_right,
  In-keep, inl, inr, arith, Unicode, subst, sym, All, any, ◌==◌, ◌≢◌, ==_iff,
}
use pascals_discrete_attract.Types.{Outcome}
use pascals_discrete_attract.Graph.{PipelineGraph, outgoing_edges, from_dot, authored_edges}
use pascals_discrete_attract.Graph.Dot.{DotGraph}
use pascals_discrete_attract.Graph.Order.{leaves}
use pascals_discrete_attract.Graph.Outgoing.{outgoing_edges-from_dot}
use pascals_discrete_attract.Graph.Edges.{PipelineEdge}
use pascals_discrete_attract.EdgeSelection.{
  best_by_weight_then_lexical, by_label, by_suggestion, by_weight, or_next, first_edge,
  select_among, select_edge,
}
use pascals_discrete_attract.EdgeSelection.Best.{winner-IsBest, best-none}
use pascals_discrete_attract.EdgeSelection.Cascade.{
  IsFirst, find-IsFirst, by_suggestion-IsFirstSuggestion, by_suggestion-none, by_label-none, Chosen,
  condition, preferred, suggested, weighted, last_resort, matching, unconditional,
}

or_next-cases :
    (a b : Option PipelineEdge) (e : PipelineEdge)
    → or_next a b ≡ some e
    → (a ≡ some e) ⊎ ((a ≡ none) × (b ≡ some e))
or_next-cases none b e h = inr (refl, h)
or_next-cases (some x) b e h = inl h

first_edge-cons :
    (edges : List PipelineEdge) (e : PipelineEdge)
    → first_edge edges ≡ some e
    → (after : List PipelineEdge) × (edges ≡ e ∷ after)
first_edge-cons [] e h = cc
first_edge-cons (x ∷ xs) e h = (xs, ground arith)

module _ (u : Unicode) (outcome : Outcome) (resolve : Text → Text) (edges : List PipelineEdge) where
  by_label-Chosen :
      (e : PipelineEdge) (label : Option Text)
      → outcome.preferred_label ≡ label
      → matching u outcome resolve edges ≡ []
      → by_label u label edges ≡ some e
      → Chosen u outcome resolve edges e
  unfolding by_label
  by_label-Chosen e none p clear h = cc
  by_label-Chosen e (some label) p clear h = preferred clear label p (find-IsFirst _ edges e h)

  -- The last two steps.
  by_weight-Chosen :
      (e : PipelineEdge)
      → matching u outcome resolve edges ≡ []
      → by_label u outcome.preferred_label edges ≡ none
      → by_suggestion u outcome.suggested_next_ids edges ≡ none
      → by_weight u edges ≡ some e
      → Chosen u outcome resolve edges e
  unfolding by_weight
  by_weight-Chosen e clear no_label no_suggestion h = split (or_next-cases _ (first_edge edges) e h)
    where
      skipped : All (λ i. any (λ x. x.to == i) edges ≡ false) outcome.suggested_next_ids
      skipped = by_suggestion-none u outcome.suggested_next_ids edges no_suggestion

      split :
          (best_by_weight_then_lexical (unconditional u outcome resolve edges) ≡ some e)
            ⊎ ((best_by_weight_then_lexical (unconditional u outcome resolve edges) ≡ none)
                × (first_edge edges ≡ some e))
          → Chosen u outcome resolve edges e
      split (inl q) =
          weighted clear (by_label-none u outcome.preferred_label edges no_label) skipped
            (winner-IsBest _ e q)
      split (inr (q, f)) =
          let rest = first_edge-cons edges e f in
          last_resort clear (by_label-none u outcome.preferred_label edges no_label) skipped
            (best-none _ q) rest.0 rest.1

  -- Each step runs where the ones before it had no answer.
  select_among-Chosen :
      (e : PipelineEdge)
      → select_among u outcome resolve edges ≡ some e
      → Chosen u outcome resolve edges e
  unfolding select_among
  select_among-Chosen e h = step₁ (or_next-cases _ _ e h)
    where
      step₃ :
          matching u outcome resolve edges ≡ []
          → by_label u outcome.preferred_label edges ≡ none
          → (by_suggestion u outcome.suggested_next_ids edges ≡ some e)
            ⊎ ((by_suggestion u outcome.suggested_next_ids edges ≡ none)
                × (by_weight u edges ≡ some e))
          → Chosen u outcome resolve edges e
      step₃ clear no_label (inl q) =
          suggested clear (by_label-none u outcome.preferred_label edges no_label)
            (by_suggestion-IsFirstSuggestion outcome.suggested_next_ids edges e u q)
      step₃ clear no_label (inr (q, r)) = by_weight-Chosen e clear no_label q r

      step₂ :
          matching u outcome resolve edges ≡ []
          → (by_label u outcome.preferred_label edges ≡ some e)
            ⊎ ((by_label u outcome.preferred_label edges ≡ none)
                × (or_next (by_suggestion u outcome.suggested_next_ids edges) (by_weight u edges)
                    ≡ some e))
          → Chosen u outcome resolve edges e
      step₂ clear (inl q) = by_label-Chosen e outcome.preferred_label refl clear q
      step₂ clear (inr (q, r)) = step₃ clear q (or_next-cases _ _ e r)

      step₁ :
          (best_by_weight_then_lexical (matching u outcome resolve edges) ≡ some e)
            ⊎ ((best_by_weight_then_lexical (matching u outcome resolve edges) ≡ none)
                × (or_next (by_label u outcome.preferred_label edges) (
                      or_next
                        (by_suggestion u outcome.suggested_next_ids edges)
                        (by_weight u edges))
                    ≡ some e))
          → Chosen u outcome resolve edges e
      step₁ (inl q) = condition (winner-IsBest _ e q)
      step₁ (inr (q, r)) = step₂ (best-none _ q) (or_next-cases _ _ e r)

IsFirst-In :
    (p : PipelineEdge → Bool) (e : PipelineEdge) (edges : List PipelineEdge)
    → IsFirst p e edges
    → In e edges
IsFirst-In p e edges f =
    subst (In e) (sym f.splits) (In-append_right e f.before (e ∷ f.after) (inl refl))

-- Whatever the step, the edge is one of those it chose from.
Chosen-In :
    (u : Unicode) (outcome : Outcome) (resolve : Text → Text) (edges : List PipelineEdge)
    (e : PipelineEdge)
    → Chosen u outcome resolve edges e
    → In e edges
Chosen-In u outcome resolve edges e (condition b) = (In-keep _ e edges b.0).0
Chosen-In u outcome resolve edges e (preferred clear label p f) = IsFirst-In _ e edges f
Chosen-In u outcome resolve edges e (suggested clear no_label f) = IsFirst-In _ e edges f.first
Chosen-In u outcome resolve edges e (weighted clear no_label skipped b) = (In-keep _ e edges b.0).0
Chosen-In u outcome resolve edges e (last_resort clear no_label skipped none_free after q) =
    subst (In e) (sym q) (inl refl)

-- The selected edge is the one that the priority cascade describes: the best match of a condition;
-- else the first edge with the preferred label; else the edge to the first suggestion that has
-- one; else the best unconditional edge; else the first edge. Each step says why those before it
-- did not apply, and `IsBest` is highest weight, then smallest target.
pub select_edge-Chosen :
    (u : Unicode) (id : Text) (outcome : Outcome) (resolve : Text → Text) (graph : PipelineGraph)
    (e : PipelineEdge)
    → select_edge u id outcome resolve graph ≡ some e
    → Chosen u outcome resolve (outgoing_edges graph id) e
unfolding select_edge
select_edge-Chosen u id outcome resolve graph e = go (outgoing_edges graph id)
  where
    go :
        (edges : List PipelineEdge)
        → elim edges as (λ es. Option PipelineEdge) [
          | [] ↦ none
          | x ∷ xs ↦ select_among u outcome resolve (x ∷ xs)
        ]
          ≡ some e
        → Chosen u outcome resolve edges e
    go [] h = cc
    go (x ∷ xs) h = select_among-Chosen u outcome resolve (x ∷ xs) e h

select_among-some :
    (u : Unicode) (outcome : Outcome) (resolve : Text → Text) (x : PipelineEdge)
    (xs : List PipelineEdge)
    → select_among u outcome resolve (x ∷ xs) ≢ none
unfolding select_among by_weight
select_among-some u outcome resolve x xs h = ground arith

-- No edge is selected exactly when the node has none.
pub select_edge-none :
    (u : Unicode) (id : Text) (outcome : Outcome) (resolve : Text → Text) (graph : PipelineGraph)
    → (select_edge u id outcome resolve graph ≡ none) ↔ (outgoing_edges graph id ≡ [])
unfolding select_edge
select_edge-none u id outcome resolve graph = go (outgoing_edges graph id)
  where
    go :
        (edges : List PipelineEdge)
        → (elim edges as (λ es. Option PipelineEdge) [
          | [] ↦ none
          | x ∷ xs ↦ select_among u outcome resolve (x ∷ xs)
        ]
            ≡ none)
          ↔ (edges ≡ [])
    go [] = (λ _. refl, λ _. refl)
    go (x ∷ xs) = (λ h. absurd (select_among-some u outcome resolve x xs h), λ h. cc)

-- A run moves along an edge of the file that leaves the node it is at.
pub select_edge-leaves :
    (u : Unicode) (id : Text) (outcome : Outcome) (resolve : Text → Text) (dot : DotGraph)
    (e : PipelineEdge)
    → select_edge u id outcome resolve (from_dot dot) ≡ some e
    → In e (authored_edges dot) × (e.from ≡ id)
select_edge-leaves u id outcome resolve dot e h =
    let chosen = select_edge-Chosen u id outcome resolve (from_dot dot) e h in
    let found =
      In-keep (leaves id) e (authored_edges dot)
        (subst (In e) (outgoing_edges-from_dot dot id) (Chosen-In u outcome resolve _ e chosen)) in
    (found.0, (==_iff e.from id).0 found.1)
