-- ===== src/Compile/Collected.antt =====
-- What the loop of the compiler over the nodes collects
-- (crates/attractor-pipeline/src/execution_plan.rs).
use pascals_discrete_attract.Base.{
  Text, Map, Bool, true, false, List, [], ◌∷◌, ◌++◌, Option, none, some, ◌≡◌, refl, sym, subst, ap,
  lookup, lookup-insert, lookup-insert_self, In, In-tail, ◌∙◌, ◌⊎◌, Bool-cases, inl, inr, ◌==◌,
  ==_iff, some_injective, if◌then◌else◌,
}
use pascals_discrete_attract.Base
use pascals_discrete_attract.Graph.{PipelineNode, PipelineGraph}
use pascals_discrete_attract.Graph
use pascals_discrete_attract.Plan.{ResolvedNode}
use pascals_discrete_attract.Compile.{
  Resolution, with_result, with_node, resolve_all, is_start_kind, is_exit_kind,
}
use pascals_discrete_attract.Compile.Diagnostics.{Checked, accepted, rejected, Formats}
use pascals_discrete_attract.Compile.Resolve.{MissingProviderPolicy, resolve_node}
use pascals_discrete_attract.Compile.Settled.{Settled, resolve_node-Settled, Fits}

pub append-empty : {A : Type 0} (xs ys : List A) → xs ++ ys ≡ [] → (xs ≡ []) × (ys ≡ [])
append-empty [] ys e = (refl, e)
append-empty (x ∷ xs) ys e = cc

none_some : {A B : Type 0} {a : A} → none ≡ some a → B
none_some e = cc

pub In-if_cons :
    (x id : Text) (b : Bool) (ids : List Text)
    → In x (if b then id ∷ ids else ids)
    → ((x ≡ id) × (b ≡ true)) ⊎ In x ids
In-if_cons x id true ids (inl e) = inl (e, refl)
In-if_cons x id true ids (inr h) = inr h
In-if_cons x id false ids h = inr h

if_cons-In :
    (x id : Text) (b : Bool) (ids : List Text) → In x ids → In x (if b then id ∷ ids else ids)
if_cons-In x id true ids h = inr h
if_cons-In x id false ids h = h

if_cons-head :
    (id : Text) (b : Bool) (ids : List Text) → b ≡ true → In id (if b then id ∷ ids else ids)
if_cons-head id true ids e = inl refl
if_cons-head id false ids e = cc

module _ (formats : Formats) (catalog : Map Bool) (policy : MissingProviderPolicy)
    (g : PipelineGraph) where
  -- The node `id` of the graph resolves to `r`.
  pub record Found (id : Text) (r : ResolvedNode) : Type 0 where
    pub source : PipelineNode
    pub named : Graph.node g id ≡ some source
    pub defaulted : Bool
    pub resolved : resolve_node formats catalog policy source ≡ accepted (r, defaulted)

  -- Every collected node is found, and the starts and exits are of that kind.
  pub record Collected (found : Resolution) : Type 0 where
    pub nodes_found : (id : Text) (r : ResolvedNode) → lookup id found.nodes ≡ some r → Found id r
    pub starts_found :
        (id : Text)
        → In id found.starts
        → (r : ResolvedNode) × Found id r × (is_start_kind r.kind ≡ true)
    pub exits_found :
        (id : Text)
        → In id found.exits
        → (r : ResolvedNode) × Found id r × (is_exit_kind r.kind ≡ true)

  with_result-Collected :
      (id : Text) (n : PipelineNode) (res : Checked (ResolvedNode × Bool)) (rest : Resolution)
      → Graph.node g id ≡ some n
      → resolve_node formats catalog policy n ≡ res
      → Collected rest
      → Collected (with_result id res rest)
  unfolding with_result
  with_result-Collected id n (rejected ds) rest named e h = record {
    nodes_found = h.nodes_found;
    starts_found = h.starts_found;
    exits_found = h.exits_found;
  }
  with_result-Collected id n (accepted (r, defaulted)) rest named e h = record {
    nodes_found = λ wanted s found. elim (Bool-cases (id == wanted)) [
      | inl p ↦
          subst (λ k. Found k s) ((==_iff id wanted).0 p)
            (subst (Found id) (some_injective (stored wanted s true p found)) here)
      | inr p ↦ h.nodes_found wanted s (stored wanted s false p found)
    ];
    starts_found = λ wanted k. elim (In-if_cons wanted id (is_start_kind r.kind) rest.starts k) [
      | inl (same, is) ↦ (r, subst (λ x. Found x r) (sym same) here, is)
      | inr other ↦ h.starts_found wanted other
    ];
    exits_found = λ wanted k. elim (In-if_cons wanted id (is_exit_kind r.kind) rest.exits k) [
      | inl (same, is) ↦ (r, subst (λ x. Found x r) (sym same) here, is)
      | inr other ↦ h.exits_found wanted other
    ];
  }
    where
      here : Found id r
      here = record { source = n; named = named; defaulted = defaulted; resolved = e }

      stored :
          (wanted : Text) (s : ResolvedNode) (b : Bool)
          → (id == wanted) ≡ b
          → lookup wanted (Base.insert id r rest.nodes) ≡ some s
          → (if b then some r else lookup wanted rest.nodes) ≡ some s
      stored wanted s b p found =
          subst (λ c. (if c then some r else lookup wanted rest.nodes) ≡ some s) p
            (subst (λ o. o ≡ some s) (lookup-insert id wanted r rest.nodes) found)

  with_node-Collected :
      (id : Text) (o : Option PipelineNode) (rest : Resolution)
      → Graph.node g id ≡ o
      → Collected rest
      → Collected (with_node formats catalog policy id o rest)
  unfolding with_node
  with_node-Collected id none rest named h = record {
    nodes_found = h.nodes_found;
    starts_found = h.starts_found;
    exits_found = h.exits_found;
  }
  with_node-Collected id (some n) rest named h = with_result-Collected id n _ rest named refl h

  pub resolve_all-Collected :
      (ids : List Text) → Collected (resolve_all formats catalog policy g ids)
  unfolding resolve_all lookup
  resolve_all-Collected [] = record {
    nodes_found = λ id r e. cc;
    starts_found = λ id h. absurd h;
    exits_found = λ id h. absurd h;
  }
  resolve_all-Collected (id ∷ ids) =
      with_node-Collected id (Graph.node g id) _ refl (resolve_all-Collected ids)

  -- The node `id` is collected, under its roles.
  pub record Present (found : Resolution) (id : Text) : Type 0 where
    pub resolved : ResolvedNode
    pub stored : lookup id found.nodes ≡ some resolved
    pub start_listed : is_start_kind resolved.kind ≡ true → In id found.starts
    pub exit_listed : is_exit_kind resolved.kind ≡ true → In id found.exits

  -- Where no node is refused, each id that names a node is collected.
  unfoldable pub Complete : Resolution → List Text → Type 0
  Complete found ids =
      found.diagnostics ≡ []
      → (id : Text) (n : PipelineNode) → In id ids
      → Graph.node g id ≡ some n
      → Present found id

  accepted-head :
      (id : Text) (r : ResolvedNode) (defaulted : Bool) (rest : Resolution)
      → Present (with_result id (accepted (r, defaulted)) rest) id
  unfolding with_result
  accepted-head id r defaulted rest = record {
    resolved = r;
    stored = lookup-insert_self id r rest.nodes;
    start_listed = if_cons-head id (is_start_kind r.kind) rest.starts;
    exit_listed = if_cons-head id (is_exit_kind r.kind) rest.exits;
  }

  accepted-later :
      (id wanted : Text) (r : ResolvedNode) (defaulted : Bool) (rest : Resolution)
      → (id == wanted) ≡ false
      → Present rest wanted
      → Present (with_result id (accepted (r, defaulted)) rest) wanted
  unfolding with_result
  accepted-later id wanted r defaulted rest p h = record {
    resolved = h.resolved;
    stored =
        lookup-insert id wanted r rest.nodes
        ∙ ap (λ c. if c then some r else lookup wanted rest.nodes) p
        ∙ h.stored;
    start_listed =
        λ is. if_cons-In wanted id (is_start_kind r.kind) rest.starts (h.start_listed is);
    exit_listed = λ is. if_cons-In wanted id (is_exit_kind r.kind) rest.exits (h.exit_listed is);
  }

  with_result-Complete :
      (id : Text) (n : PipelineNode) (res : Checked (ResolvedNode × Bool)) (rest : Resolution)
      (ids : List Text)
      → Settled (λ (a : ResolvedNode × Bool). Fits catalog n a.0) res
      → Complete rest ids
      → Complete (with_result id res rest) (id ∷ ids)
  unfolding with_result Complete
  with_result-Complete id n (rejected []) rest ids settled h clean wanted m listed named =
      absurd settled
  with_result-Complete id n (rejected (d ∷ ds)) rest ids settled h clean wanted m listed named = cc
  with_result-Complete id n (accepted (r, defaulted)) rest ids settled h clean wanted m listed
        named =
      elim (Bool-cases (id == wanted)) [
        | inl p ↦
            subst (Present (with_result id (accepted (r, defaulted)) rest)) ((==_iff id wanted).0 p)
              (accepted-head id r defaulted rest)
        | inr p ↦
            accepted-later id wanted r defaulted rest p
              (h clean wanted m (In-tail id wanted ids p listed) named)
      ]

  with_node-Complete :
      (id : Text) (o : Option PipelineNode) (rest : Resolution) (ids : List Text)
      → Graph.node g id ≡ o
      → Complete rest ids
      → Complete (with_node formats catalog policy id o rest) (id ∷ ids)
  unfolding with_node Complete
  with_node-Complete id none rest ids unnamed h clean wanted m (inl same) named =
      none_some (sym unnamed ∙ subst (λ x. Graph.node g x ≡ some m) same named)
  with_node-Complete id none rest ids unnamed h clean wanted m (inr k) named =
      let p = h clean wanted m k named in
      record {
        resolved = p.resolved;
        stored = p.stored;
        start_listed = p.start_listed;
        exit_listed = p.exit_listed;
      }
  with_node-Complete id (some n) rest ids known h clean wanted m listed named =
      with_result-Complete id n _ rest ids (resolve_node-Settled formats catalog policy n) h clean
        wanted m listed named

  pub resolve_all-Complete :
      (ids : List Text) → Complete (resolve_all formats catalog policy g ids) ids
  unfolding resolve_all Complete
  resolve_all-Complete [] clean id n h named = absurd h
  resolve_all-Complete (id ∷ ids) clean wanted m listed named =
      with_node-Complete id (Graph.node g id) _ ids refl (resolve_all-Complete ids) clean wanted m
        listed named
