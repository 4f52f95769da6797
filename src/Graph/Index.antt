-- ===== src/Graph/Index.antt =====
-- The adjacency index finds exactly the edges that leave a node, in the order of the file.
use pascals_discrete_attract.Base.{
  ℕ, zero, suc, ◌+◌, ◌≤◌, Text, Map, true, false, List, [], ◌∷◌, ◌++◌, ◌≡◌, refl, sym, ap, subst,
  ◌∙◌, ◌==◌, ==_iff, ==_self, keep, keep-append, All, Bool-cases, arith, inl, inr, if◌then◌else◌,
  take, drop, length, take-drop, length-take, length-drop, length-append, lookup, insert,
  lookup-insert, append_assoc, append-nil,
}
use pascals_discrete_attract.Graph.Edges.{
  PipelineEdge, sort_by_from, run_length, adjacency_from, build_adjacency, slice,
}
use pascals_discrete_attract.Graph.Order.{
  leaves, le, le_refl, le_antisymm, IsSorted, sort_by_from-IsSorted, keep-sort_by_from,
}

-- The front run is what leaves `from`, and behind it nothing does.
keep-take_run :
    (id from : Text) (es : List PipelineEdge)
    → keep (leaves id) (take (run_length from es) es)
      ≡ (if from == id then take (run_length from es) es else [])
unfolding run_length
keep-take_run id from [] = ground arith
keep-take_run id from (e ∷ es) =
    ground (arith, keep-take_run id from es, ==_iff e.from from, ==_iff e.from id, ==_iff from id)

none_above :
    (id from : Text) (es : List PipelineEdge)
    → (from == id) ≡ false
    → le id from ≡ true
    → All (λ (x : PipelineEdge). le from x.from ≡ true) es
    → keep (leaves id) es ≡ []
none_above id from [] ne h k = refl
none_above id from (x ∷ es) ne h k = ground (
  arith,
  none_above id from es ne h k.1,
  ==_iff x.from id,
  ==_iff from id,
  le_antisymm from id,
  k.0,
)

above_run :
    (id : Text) (es : List PipelineEdge)
    → All (λ (x : PipelineEdge). le id x.from ≡ true) es
    → IsSorted es
    → keep (leaves id) (drop (run_length id es) es) ≡ []
unfolding run_length
above_run id [] h s = refl
above_run id (e ∷ es) h s = elim (Bool-cases (e.from == id)) [
  | inl p ↦ rw p (above_run id es h.1 s.1)
  | inr p ↦ rw (p, p) (none_above id e.from es p h.0 s.0)
]

run_length-le : (from : Text) (es : List PipelineEdge) → run_length from es ≤ length es
unfolding run_length
run_length-le from [] = omega arith
run_length-le from (e ∷ es) = ground (arith, run_length-le from es)

drop-append : (pre rest : List PipelineEdge) → drop (length pre) (pre ++ rest) ≡ rest
drop-append [] rest = refl
drop-append (x ∷ pre) rest = drop-append pre rest

abbrev or_list : List PipelineEdge → List PipelineEdge → List PipelineEdge
or_list [] d = d
or_list (x ∷ xs) d = x ∷ xs

-- Sortedness holds behind the run too.
drop-IsSorted : (n : ℕ) (es : List PipelineEdge) → IsSorted es → IsSorted (drop n es)
drop-IsSorted zero es s = s
drop-IsSorted (suc n) [] s = tt
drop-IsSorted (suc n) (e ∷ es) s = drop-IsSorted n es s.1

-- One round of the loop: what the new entry of the index gives.
round_slice :
    (id : Text) (e : PipelineEdge) (es all pre : List PipelineEdge) (start n : ℕ)
    (adj : Map (ℕ × ℕ))
    → all ≡ pre ++ (e ∷ es)
    → start ≡ length pre
    → slice all (lookup id (insert e.from (start, n) adj))
      ≡ (if e.from == id then take n (e ∷ es) else slice all (lookup id adj))
unfolding slice
round_slice id e es all pre start n adj ea el = elim (Bool-cases (e.from == id)) [
  | inl p ↦ rw (lookup-insert, p, el, ea, drop-append pre (e ∷ es)) refl
  | inr p ↦ rw (lookup-insert, p) refl
]

-- The whole list splits at the run.
split_at_run :
    (n : ℕ) (all pre rest : List PipelineEdge)
    → all ≡ pre ++ rest
    → all ≡ (pre ++ take n rest) ++ drop n rest
split_at_run n all pre rest h =
    h
    ∙ ap (λ t. pre ++ t) (sym (take-drop n rest))
    ∙ sym (append_assoc pre (take n rest) (drop n rest))

keep_split :
    (id : Text) (n : ℕ) (es : List PipelineEdge)
    → keep (leaves id) es ≡ keep (leaves id) (take n es) ++ keep (leaves id) (drop n es)
keep_split id n es =
    ap (keep (leaves id)) (sym (take-drop n es)) ∙ keep-append (leaves id) (take n es) (drop n es)

-- A round takes at least the edge at the front.
run_length-cons :
    (e : PipelineEdge) (es : List PipelineEdge)
    → run_length e.from (e ∷ es) ≡ suc (run_length e.from es)
unfolding run_length
run_length-cons e es = rw (==_self e.from)

behind_run :
    (id : Text) (e : PipelineEdge) (es : List PipelineEdge)
    → e.from ≡ id
    → IsSorted (e ∷ es)
    → keep (leaves id) (drop (run_length e.from (e ∷ es)) (e ∷ es)) ≡ []
behind_run id e es q s =
    subst (λ t. keep (leaves t) (drop (run_length e.from (e ∷ es)) (e ∷ es)) ≡ []) q
      (above_run e.from (e ∷ es) (le_refl e.from, s.0) s)

-- What a round contributes: its own run, or what the later rounds find.
round_keep :
    (id : Text) (e : PipelineEdge) (es d : List PipelineEdge)
    → IsSorted (e ∷ es)
    → or_list
        (keep (leaves id) (drop (run_length e.from (e ∷ es)) (e ∷ es)))
        (if e.from == id then take (run_length e.from (e ∷ es)) (e ∷ es) else d)
      ≡ or_list (keep (leaves id) (e ∷ es)) d
round_keep id e es d s =
    let n = run_length e.from (e ∷ es) in
    elim (Bool-cases (e.from == id)) [
      | inl p ↦
          let clear = behind_run id e es ((==_iff e.from id).0 p) s in
          rw (keep_split id n (e ∷ es), clear, keep-take_run id e.from (e ∷ es), p)
            (rw (run_length-cons e es)
              (ap (λ t. e ∷ t) (sym (append-nil (take (run_length e.from es) es)))))
      | inr p ↦ rw (keep_split id n (e ∷ es), keep-take_run id e.from (e ∷ es), p)
    ]

index_from :
    (id : Text) (rounds : ℕ) (all pre rest : List PipelineEdge) (start : ℕ) (adj : Map (ℕ × ℕ))
    → length rest ≤ rounds
    → IsSorted rest
    → all ≡ pre ++ rest
    → start ≡ length pre
    → slice all (lookup id (adjacency_from rounds start rest adj))
      ≡ or_list (keep (leaves id) rest) (slice all (lookup id adj))
unfolding adjacency_from
index_from id zero all pre [] start adj h s ea el = refl
index_from id zero all pre (e ∷ es) start adj h s ea el = absurd (omega arith)
index_from id (suc rounds) all pre [] start adj h s ea el = refl
index_from id (suc rounds) all pre (e ∷ es) start adj h s ea el =
    let n = run_length e.from (e ∷ es) in
    index_from id rounds all (pre ++ take n (e ∷ es)) (drop n (e ∷ es)) (start + n)
      (insert e.from (start, n) adj) (omega (arith, length-drop n (e ∷ es), run_length-cons e es))
      (drop-IsSorted n (e ∷ es) s) (split_at_run n all pre (e ∷ es) ea)
      (omega (
        arith,
        length-append pre (take n (e ∷ es)),
        length-take n (e ∷ es) (run_length-le e.from (e ∷ es)),
      ))
    ∙ ap (or_list (keep (leaves id) (drop n (e ∷ es))))
        (round_slice id e es all pre start n adj ea el)
    ∙ round_keep id e es (slice all (lookup id adj)) s

slice_built :
    (id : Text) (es : List PipelineEdge)
    → IsSorted es
    → slice es (lookup id (build_adjacency es)) ≡ keep (leaves id) es
unfolding build_adjacency slice lookup
slice_built id es s =
    index_from id (length es) es [] es 0 [] (omega arith) s refl refl ∙ or_nil (keep (leaves id) es)
  where
    or_nil : (xs : List PipelineEdge) → or_list xs [] ≡ xs
    or_nil [] = refl
    or_nil (x ∷ xs) = refl

-- The index over the sorted edges gives the edges of a source in the order before sorting.
pub slice-sorted :
    (id : Text) (es : List PipelineEdge)
    → slice (sort_by_from es) (lookup id (build_adjacency (sort_by_from es))) ≡ keep (leaves id) es
slice-sorted id es =
    slice_built id (sort_by_from es) (sort_by_from-IsSorted es) ∙ keep-sort_by_from id es
