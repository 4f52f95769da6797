-- ===== src/Compile/Expected.antt =====
-- The `expect`s of the compiler, on a graph whose nodes stand under their ids
-- (crates/attractor-pipeline/src/execution_plan.rs).
use pascals_discrete_attract.Base.{
  Text, Map, Bool, true, false, ◌&&◌, ◌||◌, not, List, [], ◌∷◌, Option, none, some, ◌≡◌, ◌≢◌, refl,
  sym, subst, ap, ◌∙◌, lookup, lookup-insert, lookup-insert_self, In, inl, inr, ◌==◌, ==_iff,
  ==_self, Bool-cases, if◌then◌else◌, all, map, keys, is_some, In-sort_by, sort_by, some_injective,
  arith,
}
use pascals_discrete_attract.Base
use pascals_discrete_attract.Graph.{PipelineNode, PipelineGraph}
use pascals_discrete_attract.Graph
use pascals_discrete_attract.Graph.Keyed.{Keyed, ids-Keyed}
use pascals_discrete_attract.Plan.{ResolvedNode, handler_name}
use pascals_discrete_attract.Compile.{
  Resolution, with_result, with_node, resolve_all, node_ids, expected, has_provider, nonempty,
  sourced,
}
use pascals_discrete_attract.Compile.Diagnostics.{Checked, accepted, rejected, Formats}
use pascals_discrete_attract.Compile.Checks.{resolved_nodes}
use pascals_discrete_attract.Compile.Resolve.{MissingProviderPolicy, resolve_node}
use pascals_discrete_attract.Compile.Settled.{Settled, Fits, ProviderFits, resolve_node-Settled}
use pascals_discrete_attract.Compile.Collected.{Found, Collected, resolve_all-Collected, In-if_cons}
use pascals_discrete_attract.Compile.Clean.{Single, Clean}
use pascals_discrete_attract.Compile.Wellformed.{Found-unique}
use pascals_discrete_attract.Compile.Accepted.{found_in}
use pascals_discrete_attract.Compile.Defaulted.{Holds, GivenNode, resolve_node-Given}

keys-lookup :
    {V : Type 0} (id : Text) (m : Map V) → In id (keys m) → (v : V) × (lookup id m ≡ some v)
unfolding lookup
keys-lookup id [] h = absurd h
keys-lookup id ((key, v) ∷ m) (inl e) = (v, rw (e, ==_self key) refl)
keys-lookup id ((key, v) ∷ m) (inr h) = elim (Bool-cases (key == id)) [
  | inl p ↦ (v, rw p refl)
  | inr p ↦ let (w, stored) = keys-lookup id m h in (w, rw p stored)
]

-- Every id names a node.
abbrev AllNamed : PipelineGraph → List Text → Type 0
AllNamed g ids = (id : Text) → In id ids → (n : PipelineNode) × (Graph.node g id ≡ some n)

module _ (catalog : Map Bool) where
  abbrev is_known : ResolvedNode → Bool
  is_known r = is_some (lookup (handler_name r.handler) catalog)

  known_insert :
      (id : Text) (r : ResolvedNode) (m : Map ResolvedNode)
      → is_known r ≡ true
      → all is_known (resolved_nodes m) ≡ true
      → all is_known (resolved_nodes (Base.insert id r m)) ≡ true
  unfolding Base.insert
  known_insert id r [] k h = ground (arith, k)
  known_insert id r ((key, s) ∷ m) k h = elim (Bool-cases (key == id)) [
    | inl p ↦ rw p (ground (arith, k, h))
    | inr p ↦ rw p (ground (arith, h, known_insert id r m k))
  ]

keys-all-insert :
    {V : Type 0} (p : Text → Bool) (id : Text) (v : V) (m : Map V)
    → p id ≡ true
    → all p (keys m) ≡ true
    → all p (keys (Base.insert id v m)) ≡ true
unfolding Base.insert
keys-all-insert p id v [] k h = ground (arith, k)
keys-all-insert p id v ((key, w) ∷ m) k h = elim (Bool-cases (key == id)) [
  | inl q ↦ rw q (ground (arith, k, h))
  | inr q ↦ rw q (ground (arith, h, keys-all-insert p id v m k))
]

all-Given :
    (p : Text → Bool) (ids : List Text) → ((id : Text) → In id ids → p id ≡ true) → all p ids ≡ true
all-Given p [] h = refl
all-Given p (id ∷ ids) h =
    ground (arith, h id (inl refl), all-Given p ids (λ other i. h other (inr i)))

nonempty-Single : (ids : List Text) → Single (sort_by (λ k. k) ids) → nonempty ids ≡ true
unfolding sort_by
nonempty-Single [] (id, e) = cc
nonempty-Single (id ∷ ids) h = refl

has_provider-some :
    (o : Option ResolvedNode) (r : ResolvedNode)
    → o ≡ some r
    → is_some r.provider ≡ true
    → has_provider o ≡ true
has_provider-some none r e h = cc
has_provider-some (some s) r e h =
    ap (λ (t : ResolvedNode). is_some t.provider) (some_injective e) ∙ h

module _ (formats : Formats) (catalog : Map Bool) (policy : MissingProviderPolicy)
    (g : PipelineGraph) where
  -- The node is stored with a provider.
  abbrev Stored : Map ResolvedNode → Text → Type 0
  Stored nodes id = (r : ResolvedNode) × (lookup id nodes ≡ some r) × (is_some r.provider ≡ true)

  -- What the loop keeps: no id was lost, the handlers are in the catalog, the default providers
  -- are stored.
  record Sane (found : Resolution) : Type 0 where
    none_lost : found.lost ≡ false
    has_sources : all (λ id. is_some (Graph.node g id)) (keys found.nodes) ≡ true
    known : all (is_known catalog) (resolved_nodes found.nodes) ≡ true
    provided : (id : Text) → In id found.defaulted → Stored found.nodes id

  with_result-Sane :
      (id : Text) (n : PipelineNode) (res : Checked (ResolvedNode × Bool)) (rest : Resolution)
      → Graph.node g id ≡ some n
      → resolve_node formats catalog policy n ≡ res
      → Settled (λ (a : ResolvedNode × Bool). Fits catalog n a.0) res
      → Holds GivenNode res
      → Collected formats catalog policy g rest
      → Sane rest
      → Sane (with_result id res rest)
  unfolding with_result ProviderFits
  with_result-Sane id n (rejected ds) rest named e fits given c h = record {
    none_lost = h.none_lost;
    has_sources = h.has_sources;
    known = h.known;
    provided = h.provided;
  }
  with_result-Sane id n (accepted (r, defaulted)) rest named e fits given c h = record {
    none_lost = h.none_lost;
    has_sources =
        keys-all-insert (λ k. is_some (Graph.node g k)) id r rest.nodes (ap is_some named)
          h.has_sources;
    known = known_insert catalog id r rest.nodes (ap is_some fits.provided) h.known;
    provided = λ wanted k. elim (In-if_cons wanted id defaulted rest.defaulted k) [
      | inl (same, is) ↦
          subst (Stored (Base.insert id r rest.nodes)) (sym same)
            (r, lookup-insert_self id r rest.nodes, given is)
      | inr other ↦ kept wanted (h.provided wanted other)
    ];
  }
    where
      here : Found formats catalog policy g id r
      here = record { source = n; named = named; defaulted = defaulted; resolved = e }

      kept :
          (wanted : Text) → Stored rest.nodes wanted → Stored (Base.insert id r rest.nodes) wanted
      kept wanted (s, stored, has) = elim (Bool-cases (id == wanted)) [
        | inl p ↦ (
          r,
          lookup-insert id wanted r rest.nodes ∙ rw p refl,
          subst (λ (t : ResolvedNode). is_some t.provider ≡ true)
              (Found-unique formats catalog policy g wanted s r (c.nodes_found wanted s stored)
                (subst (λ x. Found formats catalog policy g x r) ((==_iff id wanted).0 p) here))
              has,
        )
        | inr p ↦ (s, lookup-insert id wanted r rest.nodes ∙ rw p stored, has)
      ]

  with_node-Sane :
      (id : Text) (o : Option PipelineNode) (rest : Resolution)
      → Graph.node g id ≡ o
      → o ≢ none
      → Collected formats catalog policy g rest
      → Sane rest
      → Sane (with_node formats catalog policy id o rest)
  unfolding with_node
  with_node-Sane id none rest named there c h = absurd (there refl)
  with_node-Sane id (some n) rest named there c h =
      with_result-Sane id n _ rest named refl (resolve_node-Settled formats catalog policy n)
        (resolve_node-Given formats catalog policy n) c h

  resolve_all-Sane :
      (ids : List Text) → AllNamed g ids → Sane (resolve_all formats catalog policy g ids)
  unfolding resolve_all
  resolve_all-Sane [] there = record {
    none_lost = refl;
    has_sources = refl;
    known = refl;
    provided = λ id k. absurd k;
  }
  resolve_all-Sane (id ∷ ids) there =
      with_node-Sane id (Graph.node g id) _ refl (λ e. cc (sym e ∙ (there id (inl refl)).1))
        (resolve_all-Collected formats catalog policy g ids)
        (resolve_all-Sane ids λ other i. there other (inr i))

  node_ids-AllNamed : Keyed g.nodes → AllNamed g (node_ids formats catalog policy g)
  unfolding node_ids Graph.node
  node_ids-AllNamed keyed id i =
      keys-lookup id g.nodes (subst (In id) (ids-Keyed g.nodes keyed) (In-sort_by (λ k. k) id _ i))

  -- On a graph whose nodes stand under their ids, each collected id names a node, and so does the id
  -- of each resolved node.
  pub found_in-kept :
      Keyed g.nodes
      → ((found_in formats catalog policy g).lost
          || not (sourced formats catalog policy g (found_in formats catalog policy g).nodes))
        ≡ false
  unfolding sourced
  found_in-kept keyed =
      let sane = resolve_all-Sane (node_ids formats catalog policy g) (node_ids-AllNamed keyed) in
      rw (sane.none_lost, sane.has_sources) refl

  -- Where no check complains either, what the plan is made of is there.
  pub found_in-expected :
      Keyed g.nodes
      → Clean formats catalog policy g (found_in formats catalog policy g)
      → expected catalog (found_in formats catalog policy g) ≡ true
  unfolding expected
  found_in-expected keyed clean =
      let sane = resolve_all-Sane (node_ids formats catalog policy g) (node_ids-AllNamed keyed) in
      let found = found_in formats catalog policy g in
      let providers : all (λ id. has_provider (lookup id found.nodes)) found.defaulted ≡ true =
        all-Given _ found.defaulted
          λ id i. let (r, stored, has) = sane.provided id i in has_provider-some _ r stored has in
      rw (providers, sane.known, nonempty-Single _ clean.start) refl
