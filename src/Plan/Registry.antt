-- ===== src/Plan/Registry.antt =====
-- `ensure_registry_compatible`: the handlers that a plan was compiled against, and those at hand.
use pascals_discrete_attract.Base.{
  Text, Map, Bool, true, false, not, List, [], ◌∷◌, ◌++◌, Option, none, some, codes, lookup, keys,
  sort_by, if◌then◌else◌,
}
use pascals_discrete_attract.Plan.{ExecutionPlan, ResolvedNode, handler_name}

-- The message of a diagnostic; its kind, node and fix are not used by the engine.
abbrev capability_text : Bool → Text
capability_text true = codes "true"
capability_text false = codes "false"

missing : Text → Text → Text
missing id handler =
    codes "Node '"
    ++ (id
        ++ (codes "' requires handler '"
            ++ (handler ++ codes "' but the executor has not registered it")))

mismatch : Text → Text → Bool → Bool → Text
mismatch id handler expected actual =
    codes "Node '"
    ++ (id
        ++ (codes "' compiled handler '"
            ++ (handler
                ++ (codes "' with provider capability "
                    ++ (capability_text expected
                        ++ (codes " but the executor registered capability "
                            ++ capability_text actual))))))

abbrev same : Bool → Bool → Bool
same true b = b
same false b = not b

-- A handler of the plan has a recorded capability; `expect` would panic where it has none.
compare_capability : Text → Text → Option Bool → Option Bool → List Text
compare_capability id handler expected none = missing id handler ∷ []
compare_capability id handler none (some actual) = []
compare_capability id handler (some expected) (some actual) =
    if same actual expected then [] else mismatch id handler expected actual ∷ []

node_diagnostics : ExecutionPlan → Map Bool → Option ResolvedNode → List Text
node_diagnostics plan actual none = []
node_diagnostics plan actual (some n) =
    let handler = handler_name n.handler in
    compare_capability n.node_id handler (lookup handler plan.handler_capabilities)
      (lookup handler actual)

diagnose : ExecutionPlan → Map Bool → List Text → List Text
diagnose plan actual [] = []
diagnose plan actual (id ∷ ids) =
    node_diagnostics plan actual (lookup id plan.nodes) ++ diagnose plan actual ids

-- The messages, in the order of the node ids.
unfoldable pub registry_diagnostics : ExecutionPlan → Map Bool → List Text
unfolding diagnose node_diagnostics compare_capability missing mismatch
registry_diagnostics plan actual = diagnose plan actual (sort_by (λ id. id) (keys plan.nodes))
