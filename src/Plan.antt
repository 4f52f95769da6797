-- ===== src/Plan.antt =====
-- crates/attractor-pipeline/src/execution_plan.rs: what a compiled plan offers to the engine.
pub mod Registry
use pascals_discrete_attract.Base.{
  ℕ, Text, Map, Bool, true, false, ◌&&◌, List, [], ◌∷◌, ◌++◌, map, Option, none, some, ℤ, codes,
  decimal, ◌==◌, lookup, trim, any, leb, cmp, keys, sort_by, if◌then◌else◌, ◌+◌, map_option,
}
use pascals_discrete_attract.Graph.{PipelineGraph, PipelineNode}
use pascals_discrete_attract.Graph.Edges.{PipelineEdge}

pub data LlmProvider : Type 0 where
  claude codex gemini pi : LlmProvider

-- `to_ascii_lowercase`.
unfoldable pub ascii_lower : ℕ → ℕ
ascii_lower c = if leb b'A' c && leb c b'Z' then c + 32 else c

named : Text → Option LlmProvider
named s =
    if s == codes "claude"
    then some claude
    else if s == codes "anthropic"
    then some claude
    else if s == codes "codex"
    then some codex
    else if s == codes "openai"
    then some codex
    else if s == codes "gemini"
    then some gemini
    else if s == codes "google"
    then some gemini
    else if s == codes "pi"
    then some pi
    else none

unfoldable pub parse_provider : Text → Option LlmProvider
unfolding ascii_lower named
parse_provider value = named (map ascii_lower (trim value))

unfoldable pub provider_name : LlmProvider → Text
provider_name claude = codes "claude"
provider_name codex = codes "codex"
provider_name gemini = codes "gemini"
provider_name pi = codes "pi"

pub data HandlerIdentity : Type 0 where
  start exit codergen conditional wait_human tool parallel fan_in manager_loop quality :
      HandlerIdentity
  custom : Text → HandlerIdentity

unfoldable pub handler_name : HandlerIdentity → Text
handler_name start = codes "start"
handler_name exit = codes "exit"
handler_name codergen = codes "codergen"
handler_name conditional = codes "conditional"
handler_name wait_human = codes "wait.human"
handler_name tool = codes "tool"
handler_name parallel = codes "parallel"
handler_name fan_in = codes "parallel.fan_in"
handler_name manager_loop = codes "stack.manager_loop"
handler_name quality = codes "quality"
handler_name (custom name) = name

-- `handler == HandlerIdentity::Quality`.
abbrev pub is_quality : HandlerIdentity → Bool
is_quality quality = true
is_quality _ = false

pub data ResolvedNodeKind : Type 0 where
  start exit task human_gate tool parallel fan_in manager_loop quality custom : ResolvedNodeKind
  conditional : Bool → ResolvedNodeKind

-- `max_attempts` is at least 1; `timeout` is in milliseconds.
pub record NodeInvocationPolicy : Type 0 where
  pub max_attempts : ℕ
  pub timeout : Option ℕ

pub record ResolvedNode : Type 0 where
  pub node_id : Text
  pub kind : ResolvedNodeKind
  pub handler : HandlerIdentity
  pub provider : Option LlmProvider
  pub invocation : NodeInvocationPolicy

pub record ExecutionPlan : Type 0 where
  pub graph : PipelineGraph
  pub nodes : Map ResolvedNode
  pub handler_capabilities : Map Bool
  pub start_id : Text
  pub exit_ids : List Text

-- `ExecutionPlan::node`.
unfoldable pub node : ExecutionPlan → Text → Option ResolvedNode
node plan id = lookup id plan.nodes

-- `ExecutionPlan::is_exit`: the binary search over the sorted ids finds what is among them.
unfoldable pub is_exit : ExecutionPlan → Text → Bool
is_exit plan id = any (λ candidate. candidate == id) plan.exit_ids

-- The `Debug` form of a kind.
kind_name : ResolvedNodeKind → Text
kind_name start = codes "Start"
kind_name exit = codes "Exit"
kind_name task = codes "Task"
kind_name (conditional true) = codes "Conditional { llm_backed: true }"
kind_name (conditional false) = codes "Conditional { llm_backed: false }"
kind_name human_gate = codes "HumanGate"
kind_name tool = codes "Tool"
kind_name parallel = codes "Parallel"
kind_name fan_in = codes "FanIn"
kind_name manager_loop = codes "ManagerLoop"
kind_name quality = codes "Quality"
kind_name custom = codes "Custom"

abbrev text_or_dash : Option Text → Text
text_or_dash none = codes "-"
text_or_dash (some t) = t

unfoldable pub bool_name : Bool → Text
bool_name true = codes "true"
bool_name false = codes "false"

unfoldable pub int_name : ℤ → Text
int_name (ℤ.pos n) = decimal n
int_name (ℤ.negsuc n) = codes "-" ++ decimal (n + 1)

unfoldable pub node_text : ResolvedNode → Text
unfolding kind_name handler_name provider_name
node_text n =
    codes "node:"
    ++ (n.node_id
        ++ (codes "|kind:"
            ++ (kind_name n.kind
                ++ (codes "|handler:"
                    ++ (handler_name n.handler
                        ++ (codes "|provider:"
                            ++ (text_or_dash (map_option provider_name n.provider)
                                ++ (codes "|attempts:"
                                    ++ (decimal n.invocation.max_attempts
                                        ++ (codes "|timeout:"
                                            ++ (text_or_dash
                                                  (map_option decimal n.invocation.timeout)
                                                ++ codes ";")))))))))))

unfoldable pub edge_text : PipelineEdge → Text
unfolding bool_name int_name
edge_text e =
    codes "edge:"
    ++ (e.from
        ++ (codes "->"
            ++ (e.to
                ++ (codes "|label:"
                    ++ (text_or_dash e.label
                        ++ (codes "|condition:"
                            ++ (text_or_dash e.condition
                                ++ (codes "|weight:"
                                    ++ (int_name e.weight
                                        ++ (codes "|loop_restart:"
                                            ++ (bool_name e.loop_restart
                                                ++ (codes "|reset_quality:"
                                                    ++ (bool_name e.reset_quality_loop_state
                                                        ++ codes ";")))))))))))))

concat_texts : List Text → Text
concat_texts [] = []
concat_texts (t ∷ ts) = t ++ concat_texts ts

optional_node_text : Option ResolvedNode → Text
unfolding node_text
optional_node_text none = []
optional_node_text (some n) = node_text n

-- The canonical text of a plan. The edges are sorted by source and then by target: a stable sort by
-- target, and then one by source.
unfoldable pub canonical : ExecutionPlan → Text
unfolding concat_texts edge_text optional_node_text
canonical plan =
    codes "start:"
    ++ (plan.start_id
        ++ (codes ";"
            ++ (concat_texts (map (λ exit. codes "exit:" ++ (exit ++ codes ";")) plan.exit_ids)
                ++ (concat_texts (
                      map (λ id. optional_node_text (lookup id plan.nodes))
                        (sort_by (λ id. id) (keys plan.nodes)))
                    ++ concat_texts (
                        map edge_text (
                          sort_by (λ (e : PipelineEdge). e.from)
                            (sort_by (λ (e : PipelineEdge). e.to) plan.graph.edges)))))))

-- `fingerprint`, over the hash of the `blake3` crate.
unfoldable pub fingerprint : (Text → Text) → ExecutionPlan → Text
unfolding canonical
fingerprint blake3 plan = blake3 (canonical plan)
