-- ===== src/EdgeSelection/Cascade.antt =====
-- The five steps of edge selection, described by what each of them may choose.
use pascals_discrete_attract.Base.{
  Text, Bool, true, false, List, [], ◌∷◌, ◌++◌, Option, none, some, ◌≡◌, refl, ap, ◌==◌, All, inl,
  inr, arith, keep, find, any, Unicode, Bool-cases, Option-cases,
}
use pascals_discrete_attract.Types.{Outcome}
use pascals_discrete_attract.Graph.Edges.{PipelineEdge}
use pascals_discrete_attract.EdgeSelection.{
  condition_matches, label_matches, normalize_label, is_unconditional, by_label, by_suggestion,
}
use pascals_discrete_attract.EdgeSelection.Best.{IsBest}

-- `e` passes the test, and no edge before it does.
pub record IsFirst (p : PipelineEdge → Bool) (e : PipelineEdge) (edges : List PipelineEdge)
    : Type 0 where
  pub before : List PipelineEdge
  pub after : List PipelineEdge
  pub splits : edges ≡ before ++ e ∷ after
  pub passes : p e ≡ true
  pub none_before : any p before ≡ false

pub find-IsFirst :
    (p : PipelineEdge → Bool) (edges : List PipelineEdge) (e : PipelineEdge)
    → find p edges ≡ some e
    → IsFirst p e edges
find-IsFirst p [] e h = cc
find-IsFirst p (x ∷ xs) e h = elim (Bool-cases (p x)) [
  | inl q ↦
      let same : x ≡ e = cc (rw q at h) in
      record {
        before = [];
        after = xs;
        splits = ap (λ y. y ∷ xs) same;
        passes = rw same at q;
        none_before = refl;
      }
  | inr q ↦
      let rest = find-IsFirst p xs e (rw q at h) in
      record {
        before = x ∷ rest.before;
        after = rest.after;
        splits = ap (λ t. x ∷ t) rest.splits;
        passes = rest.passes;
        none_before = rw (q, rest.none_before);
      }
]

find-none :
    (p : PipelineEdge → Bool) (edges : List PipelineEdge)
    → find p edges ≡ none
    → any p edges ≡ false
find-none p [] h = refl
find-none p (x ∷ xs) h = ground (arith, find-none p xs)

-- The suggestion that step 3 follows: no earlier one is the target of an edge.
pub record IsFirstSuggestion (e : PipelineEdge) (ids : List Text) (edges : List PipelineEdge)
    : Type 0 where
  pub id : Text
  pub before : List Text
  pub after : List Text
  pub splits : ids ≡ before ++ id ∷ after
  pub first : IsFirst (λ x. x.to == id) e edges
  pub none_before : All (λ i. any (λ x. x.to == i) edges ≡ false) before

pub by_suggestion-IsFirstSuggestion :
    (ids : List Text) (edges : List PipelineEdge) (e : PipelineEdge) (u : Unicode)
    → by_suggestion u ids edges ≡ some e
    → IsFirstSuggestion e ids edges
unfolding by_suggestion
by_suggestion-IsFirstSuggestion [] edges e u h = cc
by_suggestion-IsFirstSuggestion (id ∷ ids) edges e u h =
    elim (Option-cases (find (λ x. x.to == id) edges)) [
      | inl q ↦
          let rest = by_suggestion-IsFirstSuggestion ids edges e u (rw (q, by_suggestion) at h) in
          record {
            id = rest.id;
            before = id ∷ rest.before;
            after = rest.after;
            splits = ap (λ t. id ∷ t) rest.splits;
            first = rest.first;
            none_before = (find-none _ edges q, rest.none_before);
          }
      | inr (x, q) ↦
          let same : x ≡ e = cc (rw (q, by_suggestion) at h) in
          record {
            id = id;
            before = [];
            after = ids;
            splits = refl;
            first = find-IsFirst _ edges e (rw same at q);
            none_before = tt;
          }
    ]

pub by_suggestion-none :
    (u : Unicode) (ids : List Text) (edges : List PipelineEdge)
    → by_suggestion u ids edges ≡ none
    → All (λ i. any (λ x. x.to == i) edges ≡ false) ids
unfolding by_suggestion
by_suggestion-none u [] edges h = tt
by_suggestion-none u (id ∷ ids) edges h = elim (Option-cases (find (λ x. x.to == id) edges)) [
  | inl q ↦ (find-none _ edges q, by_suggestion-none u ids edges (rw (q, by_suggestion) at h))
  | inr (x, q) ↦ cc (rw (q, by_suggestion) at h)
]

-- No edge has the label that the stage prefers.
abbrev pub NoLabel : Unicode → Option Text → List PipelineEdge → Type 0
NoLabel u none edges = Unit
NoLabel u (some label) edges = any (label_matches u (normalize_label u label)) edges ≡ false

pub by_label-none :
    (u : Unicode) (label : Option Text) (edges : List PipelineEdge)
    → by_label u label edges ≡ none
    → NoLabel u label edges
unfolding by_label
by_label-none u none edges h = tt
by_label-none u (some label) edges h = find-none _ edges h

-- What each step chooses, and why the steps before it did not.
module _ (u : Unicode) (outcome : Outcome) (resolve : Text → Text) (edges : List PipelineEdge) where
  abbrev pub matching : List PipelineEdge
  matching = keep (condition_matches u resolve) edges

  abbrev pub unconditional : List PipelineEdge
  unconditional = keep (is_unconditional u) edges

  pub data Chosen (e : PipelineEdge) : Type 0 where
    condition : IsBest e matching → Chosen e
    preferred :
        matching ≡ []
        → (label : Text) → outcome.preferred_label ≡ some label
        → IsFirst (label_matches u (normalize_label u label)) e edges
        → Chosen e
    suggested :
        matching ≡ []
        → NoLabel u outcome.preferred_label edges
        → IsFirstSuggestion e outcome.suggested_next_ids edges
        → Chosen e
    weighted :
        matching ≡ []
        → NoLabel u outcome.preferred_label edges
        → All (λ i. any (λ x. x.to == i) edges ≡ false) outcome.suggested_next_ids
        → IsBest e unconditional
        → Chosen e
    last_resort :
        matching ≡ []
        → NoLabel u outcome.preferred_label edges
        → All (λ i. any (λ x. x.to == i) edges ≡ false) outcome.suggested_next_ids
        → unconditional ≡ []
        → (after : List PipelineEdge) → edges ≡ e ∷ after
        → Chosen e
