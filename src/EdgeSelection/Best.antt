-- ===== src/EdgeSelection/Best.antt =====
-- The edge with the highest weight, and of those the one with the smallest target.
use Prim.Native.Nat.{Ordering}
use pascals_discrete_attract.Base.{
  Bool, true, false, List, [], ◌∷◌, none, some, ◌≡◌, refl, ◌∙◌, ◌⊎◌, subst, cmpℤ, In, All, inl, inr,
  arith,
}
use pascals_discrete_attract.Graph.Edges.{PipelineEdge}
use pascals_discrete_attract.Graph.Order.{le, le_refl, le_trans, le_total}
use pascals_discrete_attract.EdgeSelection.{rank, pick, best_from, best_by_weight_then_lexical}

abbrev at_most : Ordering → Bool → Bool
at_most Ordering.lt later = true
at_most Ordering.eq later = later
at_most Ordering.gt later = false

-- `b` has a higher weight, or the same weight and a target that is not larger.
abbrev pub leq : PipelineEdge → PipelineEdge → Bool
leq a b = at_most (cmpℤ a.weight b.weight) (le b.to a.to)

leq_refl : (a : PipelineEdge) → leq a a ≡ true
unfolding cmpℤ
leq_refl a = ground (arith, le_refl a.to)

leq_trans : (a b c : PipelineEdge) → leq a b ≡ true → leq b c ≡ true → leq a c ≡ true
unfolding cmpℤ
leq_trans a b c h k = ground (arith, le_trans c.to b.to a.to)

pick-max : (a b : PipelineEdge) → (leq a (pick a b) ≡ true) × (leq b (pick a b) ≡ true)
unfolding pick rank cmpℤ
pick-max a b = ground (arith, le_total a.to b.to, le_refl a.to, le_refl b.to)

pick-cases : (a b : PipelineEdge) → (pick a b ≡ a) ⊎ (pick a b ≡ b)
unfolding pick
pick-cases a b = ground arith

best_from-max :
    (best : PipelineEdge) (es : List PipelineEdge)
    → (leq best (best_from best es) ≡ true) × All (λ e. leq e (best_from best es) ≡ true) es
unfolding best_from
best_from-max best [] = (leq_refl best, tt)
best_from-max best (e ∷ es) =
    let picked = pick-max best e in
    let rest = best_from-max (pick best e) es in
    (
      leq_trans best (pick best e) (best_from (pick best e) es) picked.0 rest.0,
      (leq_trans e (pick best e) (best_from (pick best e) es) picked.1 rest.0, rest.1),
    )

best_from-In : (best : PipelineEdge) (es : List PipelineEdge) → In (best_from best es) (best ∷ es)
unfolding best_from
best_from-In best [] = inl refl
best_from-In best (e ∷ es) = step (best_from-In (pick best e) es) (pick-cases best e)
  where
    step :
        {b : PipelineEdge}
        → In b (pick best e ∷ es)
        → (pick best e ≡ best) ⊎ (pick best e ≡ e)
        → In b (best ∷ e ∷ es)
    step (inl q) (inl p) = inl (q ∙ p)
    step (inl q) (inr p) = inr (inl (q ∙ p))
    step (inr m) p = inr (inr m)

-- The best edge is one of the list, and no edge of the list comes before it.
abbrev pub IsBest : PipelineEdge → List PipelineEdge → Type 0
IsBest b es = In b es × All (λ e. leq e b ≡ true) es

pub winner-IsBest :
    (es : List PipelineEdge) (b : PipelineEdge)
    → best_by_weight_then_lexical es ≡ some b
    → IsBest b es
unfolding best_by_weight_then_lexical
winner-IsBest [] b h = cc
winner-IsBest (e ∷ es) b h =
    subst (λ x. IsBest x (e ∷ es)) (cc) (best_from-In e es, best_from-max e es)

pub best-none : (es : List PipelineEdge) → best_by_weight_then_lexical es ≡ none → es ≡ []
unfolding best_by_weight_then_lexical
best-none [] h = refl
best-none (e ∷ es) h = cc
