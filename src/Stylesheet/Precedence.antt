-- ===== src/Stylesheet/Precedence.antt =====
-- Which declaration of a stylesheet wins (crates/attractor-pipeline/src/stylesheet.rs).
use pascals_discrete_attract.Base.{
  Text, Map, Bool, true, false, not, ◌&&◌, List, [], ◌∷◌, ◌++◌, Option, some, ◌≡◌, refl, sym, ap,
  ◌∙◌, subst, codes, ◌==◌, ==_iff, lookup, keep, Bool-cases, inl, inr, if◌then◌else◌,
}
use pascals_discrete_attract.Graph.{PipelineNode}
use pascals_discrete_attract.Stylesheet.{
  matches, Arm, set_model, set_provider, set_effort, skip, is_authored, arm_of, apply_arm,
  apply_declaration, apply_declarations, apply_rules, matching_rules, style_node,
}
use pascals_discrete_attract.Stylesheet.Parser.{Declaration, Rule}
use pascals_discrete_attract.Stylesheet.Layers.{layers, sort-layers}

-- The value of the last declaration of a property, if there is one.
pub last_value : Text → List Declaration → Option Text → Option Text
last_value key [] default = default
last_value key (d ∷ ds) default =
    last_value key ds (if d.property == key then some d.value else default)

declared : List Rule → List Declaration
declared [] = []
declared (r ∷ rules) = r.declarations ++ declared rules

-- The declarations of the rules that match a node: of `*`, then of classes, then of its id.
pub declarations_for : List Rule → PipelineNode → List Declaration
declarations_for rules n = declared (layers (keep (λ (r : Rule). matches r.selector n) rules))

apply_declarations-append :
    (authored : Option (List Text)) (ds es : List Declaration) (n : PipelineNode)
    → apply_declarations authored (ds ++ es) n
      ≡ apply_declarations authored es (apply_declarations authored ds n)
unfolding apply_declarations
apply_declarations-append authored [] es n = refl
apply_declarations-append authored (d ∷ ds) es n =
    apply_declarations-append authored ds es (apply_declaration authored d n)

apply_rules-declared :
    (authored : Option (List Text)) (rules : List Rule) (n : PipelineNode)
    → apply_rules authored rules n ≡ apply_declarations authored (declared rules) n
unfolding apply_rules apply_declarations declared
apply_rules-declared authored [] n = refl
apply_rules-declared authored (r ∷ rules) n =
    apply_rules-declared authored rules (apply_declarations authored r.declarations n)
    ∙ sym (apply_declarations-append authored r.declarations (declared rules) n)

-- A value that the file gives stays; any other is the last that is declared.
pub styled_value : Text → Option (List Text) → List Declaration → Option Text → Option Text
styled_value key authored ds default =
    if is_authored key authored then default else last_value key ds default

abbrev model : Text
model = codes "llm_model"

abbrev provider : Text
provider = codes "llm_provider"

abbrev one_value : Text → Option (List Text) → Declaration → Option Text → Option Text
one_value key authored d default =
    if is_authored key authored
    then default
    else if d.property == key
    then some d.value
    else default

-- The arm of the match, by its tests: the property is that of the model, the file gives the model,
-- the same for the provider, and the property is the effort.
abbrev arm_by : Bool → Bool → Bool → Bool → Bool → Arm
arm_by p a q b r =
    if p && not a
    then set_model
    else if q && not b
    then set_provider
    else if r
    then set_effort
    else skip

later_model :
    (q b r : Bool) (value : Text) (n : PipelineNode)
    → (apply_arm (arm_by false false q b r) value n).llm_model ≡ n.llm_model
unfolding apply_arm
later_model true false r value n = refl
later_model true true true value n = refl
later_model true true false value n = refl
later_model false b true value n = refl
later_model false b false value n = refl

arm_by-model :
    (p a q b r : Bool) (value : Text) (n : PipelineNode)
    → (apply_arm (arm_by p a q b r) value n).llm_model
      ≡ (if a then n.llm_model else if p then some value else n.llm_model)
unfolding apply_arm
arm_by-model true false q b r value n = refl
arm_by-model true true q b r value n = later_model q b r value n
arm_by-model false true q b r value n = later_model q b r value n
arm_by-model false false q b r value n = later_model q b r value n

-- No property is that of the model and of the provider.
arm_by-provider :
    (p a q b r : Bool) (value : Text) (n : PipelineNode)
    → (p ≡ true → q ≡ false)
    → (apply_arm (arm_by p a q b r) value n).llm_provider
      ≡ (if b then n.llm_provider else if q then some value else n.llm_provider)
unfolding apply_arm
arm_by-provider true a true b r value n apart = cc (apart refl)
arm_by-provider true false false true r value n apart = refl
arm_by-provider true false false false r value n apart = refl
arm_by-provider true true false true true value n apart = refl
arm_by-provider true true false true false value n apart = refl
arm_by-provider true true false false true value n apart = refl
arm_by-provider true true false false false value n apart = refl
arm_by-provider false a true true true value n apart = refl
arm_by-provider false a true true false value n apart = refl
arm_by-provider false a true false r value n apart = refl
arm_by-provider false a false true true value n apart = refl
arm_by-provider false a false true false value n apart = refl
arm_by-provider false a false false true value n apart = refl
arm_by-provider false a false false false value n apart = refl

effort : Text
effort = codes "reasoning_effort"

apply_declaration-model :
    (authored : Option (List Text)) (d : Declaration) (n : PipelineNode)
    → (apply_declaration authored d n).llm_model ≡ one_value model authored d n.llm_model
unfolding apply_declaration arm_of effort ◌==◌
apply_declaration-model authored d n =
    arm_by-model (d.property == model) (is_authored model authored) (d.property == provider)
      (is_authored provider authored) (d.property == effort) d.value n

apply_declaration-provider :
    (authored : Option (List Text)) (d : Declaration) (n : PipelineNode)
    → (apply_declaration authored d n).llm_provider ≡ one_value provider authored d n.llm_provider
unfolding apply_declaration arm_of effort ◌==◌
apply_declaration-provider authored d n =
    arm_by-provider (d.property == model) (is_authored model authored) (d.property == provider)
      (is_authored provider authored) (d.property == effort) d.value n apart
  where
    different : (model == provider) ≡ false
    different = refl

    apart : (d.property == model) ≡ true → (d.property == provider) ≡ false
    apart e = subst (λ t. (t == provider) ≡ false) (sym ((==_iff d.property model).0 e)) different

styled_value-step :
    (key : Text) (authored : Option (List Text)) (d : Declaration) (ds : List Declaration)
    (default : Option Text)
    → styled_value key authored ds (one_value key authored d default)
      ≡ styled_value key authored (d ∷ ds) default
unfolding styled_value last_value
styled_value-step key authored d ds default = elim (Bool-cases (is_authored key authored)) [
  | inl e ↦ rw e refl
  | inr e ↦ rw e refl
]

apply_declarations-values :
    (authored : Option (List Text)) (ds : List Declaration) (n : PipelineNode)
    → ((apply_declarations authored ds n).llm_model ≡ styled_value model authored ds n.llm_model)
      × ((apply_declarations authored ds n).llm_provider
          ≡ styled_value provider authored ds n.llm_provider)
unfolding apply_declarations styled_value last_value
apply_declarations-values authored [] n = (
  if_same (is_authored model authored) n.llm_model,
  if_same (is_authored provider authored) n.llm_provider,
)
  where
    if_same : (b : Bool) (o : Option Text) → o ≡ (if b then o else o)
    if_same true o = refl
    if_same false o = refl
apply_declarations-values authored (d ∷ ds) n =
    let (m, p) = apply_declarations-values authored ds (apply_declaration authored d n) in
    (
      m
          ∙ ap (styled_value model authored ds) (apply_declaration-model authored d n)
          ∙ styled_value-step model authored d ds n.llm_model,
      p
          ∙ ap (styled_value provider authored ds) (apply_declaration-provider authored d n)
          ∙ styled_value-step provider authored d ds n.llm_provider,
    )

-- After a stylesheet, the model and the provider of a node are what the file gives the node
-- itself, if it does; otherwise each is what the last declaration of it says, the rules that match
-- the node taken in the order of the file, first those of `*`, then those of a class, then those of
-- the node's id; and without a declaration it is what it was.
pub style_node_lem :
    (authored_attrs : Map (List Text)) (rules : List Rule) (n : PipelineNode)
    → ((style_node authored_attrs rules n).llm_model
        ≡ styled_value
            (codes "llm_model")
            (lookup n.id authored_attrs)
            (declarations_for rules n)
            n.llm_model)
      × ((style_node authored_attrs rules n).llm_provider
          ≡ styled_value
              (codes "llm_provider")
              (lookup n.id authored_attrs)
              (declarations_for rules n)
              n.llm_provider)
unfolding style_node matching_rules declarations_for
style_node_lem authored_attrs rules n =
    let authored = lookup n.id authored_attrs in
    let same =
      ap (λ rs. apply_rules authored rs n)
        (sort-layers (keep (λ (r : Rule). matches r.selector n) rules))
      ∙ apply_rules-declared authored (layers (keep (λ (r : Rule). matches r.selector n) rules))
          n in
    let (m, p) = apply_declarations-values authored (declarations_for rules n) n in
    (
      ap (λ (k : PipelineNode). k.llm_model) same ∙ m,
      ap (λ (k : PipelineNode). k.llm_provider) same ∙ p,
    )
