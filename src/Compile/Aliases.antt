-- ===== src/Compile/Aliases.antt =====
-- The types of semantic attributes and their aliases
-- (crates/attractor-pipeline/src/execution_plan.rs).
use pascals_discrete_attract.Base.{
  Text, Bool, true, List, [], ◌∷◌, ◌++◌, map, Option, none, some, codes, ◌==◌, lookup, insert,
  split_whitespace, format, join, all, map_values, if◌then◌else◌,
}
use pascals_discrete_attract.Graph.{PipelineNode, PipelineGraph}
use pascals_discrete_attract.Graph.Dot.{AttributeValue, Attrs}
use pascals_discrete_attract.Graph.Attributes.{get_string_attr}
use pascals_discrete_attract.Compile.Diagnostics.{
  SemanticDiagnostic, conflicting_attribute_aliases, Formats, invalid_type,
}

unfoldable pub concat_map : {A B : Type 0} → (A → List B) → List A → List B
concat_map f [] = []
concat_map f (a ∷ rest) = f a ++ concat_map f rest

-- `all_nodes`.
abbrev pub all_nodes : PipelineGraph → List PipelineNode
all_nodes g = map (λ (e : Text × PipelineNode). e.1) g.nodes

-- A node's change in `all_nodes_mut`.
abbrev pub update_nodes : (PipelineNode → PipelineNode) → PipelineGraph → PipelineGraph
update_nodes f g = record g { nodes = map_values f g.nodes }

abbrev pub string_attr : Attrs → Text → Option Text
string_attr attrs key = get_string_attr attrs key

-- A value that is there must be a string.
unfoldable pub string_only :
    Formats → Option Text → Text → Option AttributeValue → List SemanticDiagnostic
string_only formats id key none = []
string_only formats id key (some (AttributeValue.string s)) = []
string_only formats id key (some value) = invalid_type formats id key value ∷ []

abbrev graph_string_semantic_attrs : List Text
graph_string_semantic_attrs = codes "model_stylesheet" ∷ codes "stylesheet" ∷ []

abbrev node_string_semantic_attrs : List Text
node_string_semantic_attrs =
    codes "shape"
    ∷ codes "type"
    ∷ codes "node_type"
    ∷ codes "handler"
    ∷ codes "prompt"
    ∷ codes "llm_provider"
    ∷ codes "class"
    ∷ codes "classes"
    ∷ []

unfoldable pub validate_semantic_attribute_types : Formats → PipelineGraph → List SemanticDiagnostic
unfolding concat_map string_only
validate_semantic_attribute_types formats g =
    concat_map (λ key. string_only formats none key (lookup key g.attrs))
      graph_string_semantic_attrs
    ++ concat_map
        (λ (n : PipelineNode).
          concat_map (λ key. string_only formats (some n.id) key (lookup key n.raw_attrs))
            node_string_semantic_attrs)
        (all_nodes g)

graph_alias_conflict : Text → Text → SemanticDiagnostic
graph_alias_conflict canonical alias = record {
  kind = conflicting_attribute_aliases;
  node_id = none;
  message =
      format (
        codes "Graph attributes '" ∷ canonical ∷ codes "' and '" ∷ alias ∷ codes "' disagree" ∷ []);
  fix =
      format
        (codes "Use only '" ∷ canonical ∷ codes "', or give both attributes the same value" ∷ []);
}

alias_conflicts : Text → Text → Option Text → Option Text → List SemanticDiagnostic
alias_conflicts canonical alias (some left) (some right) =
    if left == right then [] else graph_alias_conflict canonical alias ∷ []
alias_conflicts canonical alias _ _ = []

alias_attrs : Text → Option Text → Option Text → Attrs → Attrs
alias_attrs canonical none (some value) attrs = insert canonical (AttributeValue.string value) attrs
alias_attrs canonical _ _ attrs = attrs

unfoldable pub normalize_graph_alias :
    Text → Text → PipelineGraph → PipelineGraph × List SemanticDiagnostic
unfolding alias_conflicts alias_attrs graph_alias_conflict
normalize_graph_alias canonical alias g =
    let left = string_attr g.attrs canonical in
    let right = string_attr g.attrs alias in
    (
      record g { attrs = alias_attrs canonical left right g.attrs },
      alias_conflicts canonical alias left right,
    )

alias_value : Text → Option Text → List (Text × Text)
alias_value key none = []
alias_value key (some value) = (key, value) ∷ []

-- The aliases that are set, in the order of the keys.
alias_values : Attrs → List Text → List (Text × Text)
unfolding concat_map alias_value
alias_values attrs keys = concat_map (λ key. alias_value key (string_attr attrs key)) keys

-- Whether a set of the values has one element at most.
agree : List (Text × Text) → Bool
agree [] = true
agree ((key, value) ∷ rest) = all (λ (other : Text × Text). other.1 == value) rest

first_value : List (Text × Text) → Option Text
first_value [] = none
first_value ((key, value) ∷ rest) = some value

first_key : List Text → Text
first_key [] = []
first_key (key ∷ keys) = key

alias_conflict : PipelineNode → List Text → List (Text × Text) → SemanticDiagnostic
unfolding first_key
alias_conflict n keys values = record {
  kind = conflicting_attribute_aliases;
  node_id = some n.id;
  message = format (
      codes "Node '"
      ∷ n.id
      ∷ codes "' has conflicting aliases: "
      ∷ join (codes ", ") (map (λ (v : Text × Text). format (v.0 ∷ codes "=" ∷ v.1 ∷ [])) values)
      ∷ []);
  fix =
      format
        (codes "Use only '" ∷ first_key keys ∷ codes "', or give all aliases the same value" ∷ []);
}

unfoldable pub resolve_node_alias : PipelineNode → List Text → Option Text × List SemanticDiagnostic
unfolding alias_values agree first_value alias_conflict
resolve_node_alias n keys =
    let values = alias_values n.raw_attrs keys in
    if agree values then (first_value values, []) else (none, alias_conflict n keys values ∷ [])

abbrev pub type_keys : List Text
type_keys = codes "type" ∷ codes "node_type" ∷ codes "handler" ∷ []

abbrev pub class_keys : List Text
class_keys = codes "class" ∷ codes "classes" ∷ []

unfoldable pub with_type : Option Text → PipelineNode → PipelineNode
with_type none n = n
with_type (some value) n = record n { node_type = some value }

unfoldable pub with_classes : Option Text → PipelineNode → PipelineNode
with_classes none n = n
with_classes (some value) n = record n { classes = split_whitespace value }

unfoldable pub normalize_node : PipelineNode → PipelineNode
unfolding with_type with_classes
normalize_node n =
    with_classes (resolve_node_alias n class_keys).0
      (with_type (resolve_node_alias n type_keys).0 n)

unfoldable pub normalize_aliases : PipelineGraph → PipelineGraph × List SemanticDiagnostic
unfolding concat_map normalize_graph_alias
normalize_aliases g =
    let (renamed, conflicts) =
      normalize_graph_alias (codes "model_stylesheet") (codes "stylesheet") g in
    (
      update_nodes normalize_node renamed,
      conflicts
          ++ concat_map
              (λ n. (resolve_node_alias n type_keys).1 ++ (resolve_node_alias n class_keys).1)
              (all_nodes renamed),
    )
