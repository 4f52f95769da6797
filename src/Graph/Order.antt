-- ===== src/Graph/Order.antt =====
-- The order of edges by source: the laws of the text order, and what sorting does.
use Prim.Native.Nat.{Ordering}
use pascals_discrete_attract.Base.{
  Text, Bool, true, false, List, [], ◌∷◌, ◌≡◌, refl, ap, ◌∙◌, ◌==◌, ==_iff, cmp, keep, All,
  Bool-cases, arith, inl, inr, if◌then◌else◌,
}
use pascals_discrete_attract.Graph.Edges.{PipelineEdge, from_le, insert_sorted, sort_by_from}

abbrev pub le : Text → Text → Bool
le s t = elim (cmp s t) [ Ordering.gt ↦ false | _ ↦ true ]

pub le_refl : (s : Text) → le s s ≡ true
unfolding cmp
le_refl [] = refl
le_refl (c ∷ s) = ground (arith, le_refl s)

pub le_trans : (s t u : Text) → le s t ≡ true → le t u ≡ true → le s u ≡ true
unfolding cmp
le_trans [] t [] h k = refl
le_trans [] t (e ∷ u) h k = refl
le_trans (c ∷ s) [] u h k = cc
le_trans (c ∷ s) (d ∷ t) [] h k = cc
le_trans (c ∷ s) (d ∷ t) (e ∷ u) h k = ground (arith, le_trans s t u)

pub le_antisymm : (s t : Text) → le s t ≡ true → le t s ≡ true → s ≡ t
unfolding cmp
le_antisymm [] [] h k = refl
le_antisymm [] (d ∷ t) h k = cc
le_antisymm (c ∷ s) [] h k = cc
le_antisymm (c ∷ s) (d ∷ t) h k = ground (arith, le_antisymm s t)

pub le_total : (s t : Text) → le s t ≡ false → le t s ≡ true
unfolding cmp
le_total [] [] h = cc
le_total [] (d ∷ t) h = cc
le_total (c ∷ s) [] h = refl
le_total (c ∷ s) (d ∷ t) h = ground (arith, le_total s t)

abbrev pub leaves : Text → PipelineEdge → Bool
leaves id e = e.from == id

-- Every edge is followed by edges whose source is not smaller.
abbrev pub IsSorted : List PipelineEdge → Type 0
IsSorted [] = Unit
IsSorted (e ∷ es) = All (λ (x : PipelineEdge). le e.from x.from ≡ true) es × IsSorted es

All-le_trans :
    (a b : PipelineEdge) (es : List PipelineEdge)
    → le a.from b.from ≡ true
    → All (λ (x : PipelineEdge). le b.from x.from ≡ true) es
    → All (λ (x : PipelineEdge). le a.from x.from ≡ true) es
All-le_trans a b [] h k = tt
All-le_trans a b (x ∷ es) h k = (le_trans a.from b.from x.from h k.0, All-le_trans a b es h k.1)

All-insert_sorted :
    (a e : PipelineEdge) (es : List PipelineEdge)
    → le a.from e.from ≡ true
    → All (λ (x : PipelineEdge). le a.from x.from ≡ true) es
    → All (λ (x : PipelineEdge). le a.from x.from ≡ true) (insert_sorted e es)
unfolding insert_sorted
All-insert_sorted a e [] h k = (h, tt)
All-insert_sorted a e (x ∷ es) h k = elim (Bool-cases (from_le e x)) [
  | inl p ↦ rw p (h, k)
  | inr p ↦ rw p (k.0, All-insert_sorted a e es h k.1)
]

insert_sorted-IsSorted :
    (e : PipelineEdge) (es : List PipelineEdge) → IsSorted es → IsSorted (insert_sorted e es)
unfolding insert_sorted
insert_sorted-IsSorted e [] h = (tt, tt)
insert_sorted-IsSorted e (x ∷ es) h = elim (Bool-cases (from_le e x)) [
  | inl p ↦
      rw p (
        (unfold from_le in let q : le e.from x.from ≡ true = p in (q, All-le_trans e x es q h.0)),
        h,
      )
  | inr p ↦ rw p (
    All-insert_sorted x e es (unfold from_le in le_total e.from x.from p) h.0,
    insert_sorted-IsSorted e es h.1,
  )
]

pub sort_by_from-IsSorted : (es : List PipelineEdge) → IsSorted (sort_by_from es)
unfolding sort_by_from
sort_by_from-IsSorted [] = tt
sort_by_from-IsSorted (e ∷ es) =
    insert_sorted-IsSorted e (sort_by_from es) (sort_by_from-IsSorted es)

-- An edge that leaves `id` passes no other one that does.
keep-insert_sorted :
    (id : Text) (e : PipelineEdge) (es : List PipelineEdge)
    → keep (leaves id) (insert_sorted e es) ≡ keep (leaves id) (e ∷ es)
unfolding insert_sorted from_le
keep-insert_sorted id e [] = refl
keep-insert_sorted id e (x ∷ es) = ground (
  arith,
  keep-insert_sorted id e es,
  ==_iff e.from id,
  ==_iff x.from id,
  ==_iff e.from x.from,
  le_refl id,
)

-- Sorting is stable: the edges of one source keep their order.
pub keep-sort_by_from :
    (id : Text) (es : List PipelineEdge) → keep (leaves id) (sort_by_from es) ≡ keep (leaves id) es
unfolding sort_by_from
keep-sort_by_from id [] = refl
keep-sort_by_from id (e ∷ es) =
    keep-insert_sorted id e (sort_by_from es)
    ∙ ap (λ rest. if leaves id e then e ∷ rest else rest) (keep-sort_by_from id es)
