-- ===== src/Compile/Roles.antt =====
-- The signals that give a node its role (crates/attractor-pipeline/src/execution_plan.rs).
use pascals_discrete_attract.Base.{
  Text, Bool, true, false, ◌&&◌, ◌||◌, [], ◌∷◌, map, Option, none, some, codes, ◌==◌, format, any,
  if◌then◌else◌,
}
use pascals_discrete_attract.Graph.{PipelineNode}
use pascals_discrete_attract.Plan.{ascii_lower}
use pascals_discrete_attract.Compile.Diagnostics.{SemanticDiagnostic, conflicting_role_signals}

pub data Role : Type 0 where
  start exit task conditional human_gate tool parallel fan_in manager_loop quality custom : Role

-- The derived equality, and the `Debug` form.
unfoldable pub role_name : Role → Text
role_name start = codes "Start"
role_name exit = codes "Exit"
role_name task = codes "Task"
role_name conditional = codes "Conditional"
role_name human_gate = codes "HumanGate"
role_name tool = codes "Tool"
role_name parallel = codes "Parallel"
role_name fan_in = codes "FanIn"
role_name manager_loop = codes "ManagerLoop"
role_name quality = codes "Quality"
role_name custom = codes "Custom"

unfoldable pub same_role : Role → Role → Bool
same_role start start = true
same_role exit exit = true
same_role task task = true
same_role conditional conditional = true
same_role human_gate human_gate = true
same_role tool tool = true
same_role parallel parallel = true
same_role fan_in fan_in = true
same_role manager_loop manager_loop = true
same_role quality quality = true
same_role custom custom = true
same_role _ _ = false

-- `eq_ignore_ascii_case`.
ignoring_case : Text → Text → Bool
ignoring_case s t = map ascii_lower s == map ascii_lower t

unfoldable pub magic_role : Text → Option Role
unfolding ignoring_case
magic_role id =
    if ignoring_case id (codes "start")
    then some start
    else if any (λ candidate. ignoring_case id candidate)
        (codes "exit" ∷ codes "end" ∷ codes "done" ∷ [])
    then some exit
    else none

unfoldable pub shape_role : Text → Option Role
shape_role shape =
    if shape == codes "Mdiamond"
    then some start
    else if shape == codes "Msquare"
    then some exit
    else if shape == codes "box"
    then some task
    else if shape == codes "diamond"
    then some conditional
    else if shape == codes "hexagon"
    then some human_gate
    else if shape == codes "parallelogram"
    then some tool
    else if shape == codes "component"
    then some parallel
    else if shape == codes "tripleoctagon"
    then some fan_in
    else if shape == codes "house"
    then some manager_loop
    else none

unfoldable pub type_role : Text → Option Role
type_role name =
    if name == codes "start"
    then some start
    else if name == codes "exit"
    then some exit
    else if name == codes "codergen"
    then some task
    else if name == codes "conditional"
    then some conditional
    else if name == codes "wait.human"
    then some human_gate
    else if name == codes "tool"
    then some tool
    else if name == codes "parallel"
    then some parallel
    else if (name == codes "fan_in") || (name == codes "parallel.fan_in")
    then some fan_in
    else if (name == codes "manager") || (name == codes "stack.manager_loop")
    then some manager_loop
    else if name == codes "quality"
    then some quality
    else none

-- The names under which the handlers of crates/attractor-pipeline/src/handlers/beads.rs register.
abbrev pub select_handler : Text
select_handler = codes "beads.select"

abbrev pub close_handler : Text
close_handler = codes "beads.close"

unfoldable pub custom_handler_shape_role : Text → Option Role
custom_handler_shape_role handler =
    if handler == select_handler
    then some conditional
    else if handler == close_handler
    then some task
    else none

abbrev task_and_quality : Role → Role → Bool
task_and_quality task quality = true
task_and_quality quality task = true
task_and_quality _ _ = false

unfoldable pub roles_compatible : Role → Role → Bool
unfolding same_role
roles_compatible left right = same_role left right || task_and_quality left right

-- `type_name == Some("codergen")`.
abbrev pub is_named : Text → Option Text → Bool
is_named wanted none = false
is_named wanted (some name) = name == wanted

unfoldable pub signals_compatible : Role → Role → Option Text → Bool
unfolding roles_compatible
signals_compatible shape node_type type_name =
    roles_compatible shape node_type
    || (same_role shape conditional
        && (same_role node_type task && is_named (codes "codergen") type_name))

unfoldable pub role_conflict : PipelineNode → Role → Role → SemanticDiagnostic
unfolding role_name
role_conflict n left right = record {
  kind = conflicting_role_signals;
  node_id = some n.id;
  message = format (
      codes "Node '"
      ∷ n.id
      ∷ codes "' has conflicting role signals ("
      ∷ role_name left
      ∷ codes " versus "
      ∷ role_name right
      ∷ codes ")"
      ∷ []);
  fix = codes "Make id, shape, and type identify the same node role";
}
