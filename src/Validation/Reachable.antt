-- ===== src/Validation/Reachable.antt =====
-- What the search from the start node visits (crates/attractor-pipeline/src/validation.rs).
use pascals_discrete_attract.Base.{
  ℕ, zero, suc, ◌+◌, ◌≤◌, ◌<◌, Text, Bool, true, false, not, ◌||◌, List, [], ◌∷◌, ◌++◌, map, Option,
  none, some, ◌≡◌, refl, sym, subst, ap, ◌∙◌, ◌↔◌, ◌⊎◌, inl, inr, In, In-keep, keep-In, keep,
  sort_by, In-append_left, In-append_right, any-In, In-any, Bool-cases, Option-cases, ==_self, ◌==◌,
  lookup, lookup-In-keys, keys, length, length-append, sort_by-In, In-sort_by, arith, if◌then◌else◌,
}
use pascals_discrete_attract.Graph.{PipelineGraph, outgoing_edges}
use pascals_discrete_attract.Graph.Edges.{slice}
use pascals_discrete_attract.Plan.{ResolvedNode, ExecutionPlan}
use pascals_discrete_attract.Compile.Checks.{resolved_nodes}
use pascals_discrete_attract.Validation.{unreachable}
use pascals_discrete_attract.Validation.Reachability.{
  member, successors, search_from, edges_left, search_fuel, or_nothing, reached,
}

-- The count of one node, which is not more after a further visit.
left_mono :
    (m n k : ℕ) (a b : Bool) → m ≤ n → (if a || b then 0 else k) + m ≤ (if b then 0 else k) + n
left_mono m n k true true h = omega (arith, h)
left_mono m n k true false h = omega (arith, h)
left_mono m n k false true h = omega (arith, h)
left_mono m n k false false h = omega (arith, h)

left_visit :
    (m n k s : ℕ) (a b : Bool)
    → m + s ≤ n
    → (if a || b then 0 else k) + m + s ≤ (if b then 0 else k) + n
left_visit m n k s true true h = omega (arith, h)
left_visit m n k s true false h = omega (arith, h)
left_visit m n k s false true h = omega (arith, h)
left_visit m n k s false false h = omega (arith, h)

module _ (g : PipelineGraph) where
  -- A path of edges leads from the start to the node.
  pub data Reach (start : Text) : Text → Type 0 where
    here : Reach start start
    step : {u v : Text} → Reach start u → In v (successors g u) → Reach start v

  edges_left_mono :
      (current : Text) (visited ids : List Text)
      → edges_left g (current ∷ visited) ids ≤ edges_left g visited ids
  unfolding edges_left
  edges_left_mono current visited [] = omega arith
  edges_left_mono current visited (id ∷ ids) =
      left_mono _ _ _ (current == id) (member id visited) (edges_left_mono current visited ids)

  -- The visit of a node spends the edges that leave it.
  edges_left-visit :
      (current : Text) (visited ids : List Text)
      → In current ids
      → member current visited ≡ false
      → edges_left g (current ∷ visited) ids + length (successors g current)
        ≤ edges_left g visited ids
  unfolding edges_left
  edges_left-visit current visited [] h new = absurd h
  edges_left-visit current visited (id ∷ ids) (inl e) new =
      rw (sym e, ==_self current, new) (omega (arith, edges_left_mono current visited ids))
  edges_left-visit current visited (id ∷ ids) (inr h) new =
      left_visit _ _ _ _ (current == id) (member id visited)
        (edges_left-visit current visited ids h new)

  no_successors :
      (current : Text) → lookup current g.adjacency ≡ none → length (successors g current) ≡ 0
  unfolding successors outgoing_edges slice
  no_successors current e = rw e refl

  visit-cost :
      (current : Text) (visited : List Text)
      → member current visited ≡ false
      → edges_left g (current ∷ visited) (keys g.adjacency) + length (successors g current)
        ≤ edges_left g visited (keys g.adjacency)
  visit-cost current visited new = elim (Option-cases (lookup current g.adjacency)) [
    | inl e ↦
        omega (arith, no_successors current e, edges_left_mono current visited (keys g.adjacency))
    | inr (range, e) ↦
        edges_left-visit current visited (keys g.adjacency)
          (lookup-In-keys current range g.adjacency e) new
  ]

  -- What the search has to give: the visited nodes and the queue, closed under the edges, and no
  -- node that no path leads to.
  pub record Explored (start : Text) (visited queue out : List Text) : Type 0 where
    pub keeps : (x : Text) → In x visited → In x out
    pub takes : (x : Text) → In x queue → In x out
    pub closed : (u v : Text) → In u out → In v (successors g u) → In v out
    pub sound : (x : Text) → In x out → Reach start x

  -- What holds between the rounds.
  record Frontier (start : Text) (visited queue : List Text) : Type 0 where
    open_edges : (u v : Text) → In u visited → In v (successors g u) → In v visited ⊎ In v queue
    visited_reached : (x : Text) → In x visited → Reach start x
    queue_reached : (x : Text) → In x queue → Reach start x

  Frontier-skip :
      (start current : Text) (visited queue : List Text)
      → In current visited
      → Frontier start visited (current ∷ queue)
      → Frontier start visited queue
  Frontier-skip start current visited queue seen f = record {
    open_edges = λ u v h k. elim (f.open_edges u v h k) [
      | inl a ↦ inl a
      | inr (inl e) ↦ inl (subst (λ x. In x visited) (sym e) seen)
      | inr (inr b) ↦ inr b
    ];
    visited_reached = f.visited_reached;
    queue_reached = λ x h. f.queue_reached x (inr h);
  }

  In-split : (x : Text) (xs ys : List Text) → In x (xs ++ ys) → In x xs ⊎ In x ys
  In-split x [] ys h = inr h
  In-split x (y ∷ xs) ys (inl e) = inl (inl e)
  In-split x (y ∷ xs) ys (inr h) = elim (In-split x xs ys h) [ inl a ↦ inl (inr a) | inr b ↦ inr b ]

  Frontier-visit :
      (start current : Text) (visited queue : List Text)
      → Frontier start visited (current ∷ queue)
      → Frontier start (current ∷ visited) (queue ++ successors g current)
  Frontier-visit start current visited queue f = record {
    open_edges = λ u v h k. elim h [
      | inl e ↦ inr (In-append_right v queue _ (subst (λ x. In v (successors g x)) e k))
      | inr old ↦ elim (f.open_edges u v old k) [
        | inl a ↦ inl (inr a)
        | inr (inl e) ↦ inl (inl e)
        | inr (inr b) ↦ inr (In-append_left v queue _ b)
      ]
    ];
    visited_reached = λ x h. elim h [
      | inl e ↦ subst (Reach start) (sym e) (f.queue_reached current (inl refl))
      | inr old ↦ f.visited_reached x old
    ];
    queue_reached = λ x h. elim (In-split x queue (successors g current) h) [
      | inl a ↦ f.queue_reached x (inr a)
      | inr b ↦ step (f.queue_reached current (inl refl)) b
    ];
  }

  Explored-visit :
      (start current : Text) (visited queue out : List Text)
      → Explored start (current ∷ visited) (queue ++ successors g current) out
      → Explored start visited (current ∷ queue) out
  Explored-visit start current visited queue out e = record {
    keeps = λ x h. e.keeps x (inr h);
    takes = λ x h. elim h [
      | inl same ↦ subst (λ y. In y out) (sym same) (e.keeps current (inl refl))
      | inr old ↦ e.takes x (In-append_left x queue _ old)
    ];
    closed = e.closed;
    sound = e.sound;
  }

  Explored-skip :
      (start current : Text) (visited queue out : List Text)
      → In current visited
      → Explored start visited queue out
      → Explored start visited (current ∷ queue) out
  Explored-skip start current visited queue out seen e = record {
    keeps = e.keeps;
    takes = λ x h. elim h [
      | inl same ↦ subst (λ y. In y out) (sym same) (e.keeps current seen)
      | inr old ↦ e.takes x old
    ];
    closed = e.closed;
    sound = e.sound;
  }

  Explored-done :
      (start : Text) (visited : List Text)
      → Frontier start visited []
      → Explored start visited [] visited
  Explored-done start visited f = record {
    keeps = λ x h. h;
    takes = λ x h. absurd h;
    closed = λ u v h k. elim (f.open_edges u v h k) [ inl a ↦ a | inr nowhere ↦ absurd nowhere ];
    sound = f.visited_reached;
  }

  abbrev Gives : ℕ → Text → List Text → List Text → Type 0
  Gives fuel start visited queue =
      (out : List Text) × (search_from fuel g visited queue ≡ some out)
      × Explored start visited queue out

  abbrev branch : ℕ → Text → List Text → List Text → Bool → Option (List Text)
  branch fuel current visited queue true = search_from fuel g visited queue
  branch fuel current visited queue false =
      search_from fuel g (current ∷ visited) (queue ++ successors g current)

  round :
      (fuel : ℕ) (current : Text) (visited queue : List Text) (b : Bool)
      → member current visited ≡ b
      → search_from (suc fuel) g visited (current ∷ queue) ≡ branch fuel current visited queue b
  unfolding search_from
  round fuel current visited queue b e =
      to_branch (member current visited) ∙ ap (branch fuel current visited queue) e
    where
      to_branch :
          (c : Bool)
          → (elim c [
            | true ↦ search_from fuel g visited queue
            | false ↦ search_from fuel g (current ∷ visited) (queue ++ successors g current)
          ])
            ≡ branch fuel current visited queue c
      to_branch true = refl
      to_branch false = refl

  -- With fuel for the queue and the edges that are left, the search ends and has explored.
  search_from-Gives :
      (fuel : ℕ) (start : Text) (visited queue : List Text)
      → length queue + edges_left g visited (keys g.adjacency) < fuel
      → Frontier start visited queue
      → Gives fuel start visited queue
  unfolding search_from
  search_from-Gives zero start visited queue enough f = absurd (omega arith)
  search_from-Gives (suc fuel) start visited [] enough f =
      (visited, refl, Explored-done start visited f)
  search_from-Gives (suc fuel) start visited (current ∷ queue) enough f =
      elim (Bool-cases (member current visited)) [
        | inl seen ↦
            let old = any-In current visited seen in
            let (out, e, explored) =
              search_from-Gives fuel start visited queue (omega arith)
                (Frontier-skip start current visited queue old f) in
            (
              out,
              round fuel current visited queue true seen ∙ e,
              Explored-skip start current visited queue out old explored,
            )
        | inr new ↦
            let (out, e, explored) =
              search_from-Gives fuel start (current ∷ visited) (queue ++ successors g current)
                (omega (
                  arith,
                  enough,
                  length-append queue (successors g current),
                  visit-cost current visited new,
                ))
                (Frontier-visit start current visited queue f) in
            (
              out,
              round fuel current visited queue false new ∙ e,
              Explored-visit start current visited queue out explored,
            )
      ]

  start-Gives : (start : Text) → Gives (search_fuel g) start [] (start ∷ [])
  unfolding search_fuel
  start-Gives start = search_from-Gives _ start [] (start ∷ []) (omega arith) (record {
    open_edges = λ u v h k. absurd h;
    visited_reached = λ x h. absurd h;
    queue_reached =
        λ x h. elim h [ inl e ↦ subst (Reach start) (sym e) here | inr nowhere ↦ absurd nowhere ];
  })

  Reach-Explored :
      (start x : Text) (out : List Text)
      → Explored start [] (start ∷ []) out
      → Reach start x
      → In x out
  Reach-Explored start x out e here = e.takes start (inl refl)
  Reach-Explored start x out e (step {u} {v} path edge) =
      e.closed u v (Reach-Explored start u out e path) edge

  -- The search visits exactly the nodes that a path leads to.
  pub reached_iff : (start x : Text) → In x (reached g start) ↔ Reach start x
  unfolding reached or_nothing
  reached_iff start x =
      let (out, e, explored) = start-Gives start in
      rw e (explored.sound x, Reach-Explored start x out explored)

not-true : (b : Bool) → not b ≡ true → b ≡ false
not-true true e = cc
not-true false e = refl

-- The plan check reports exactly the compiled nodes to which no path of edges leads
-- from the start.
pub unreachable_iff :
    (plan : ExecutionPlan) (id : Text)
    → In id (unreachable plan) ↔ (
        In id (map (λ (r : ResolvedNode). r.node_id) (resolved_nodes plan.nodes))
        × (Reach plan.graph plan.start_id id → ⊥))
unfolding unreachable
unreachable_iff plan id = (forth, back)
  where
    visited : List Text
    visited = reached plan.graph plan.start_id

    ids : List Text
    ids = map (λ (r : ResolvedNode). r.node_id) (resolved_nodes plan.nodes)

    unseen : Text → Bool
    unseen x = not (member x visited)

    clash : {b : Bool} → b ≡ true → b ≡ false → ⊥
    clash p q = cc

    forth :
        In id (sort_by (λ k. k) (keep unseen ids))
        → In id ids × (Reach plan.graph plan.start_id id → ⊥)
    forth h =
        let (listed, new) = In-keep unseen id ids (In-sort_by (λ k. k) id _ h) in
        (
          listed,
          λ path.
              clash (In-any id visited ((reached_iff plan.graph plan.start_id id).1 path))
                (not-true (member id visited) new),
        )

    back :
        In id ids × (Reach plan.graph plan.start_id id → ⊥)
        → In id (sort_by (λ k. k) (keep unseen ids))
    back (listed, no_path) =
        sort_by-In (λ k. k) id _
          (keep-In unseen id ids listed (elim (Bool-cases (member id visited)) [
            | inl seen ↦
                absurd
                  (no_path ((reached_iff plan.graph plan.start_id id).0 (any-In id visited seen)))
            | inr new ↦ ap not new
          ]))
