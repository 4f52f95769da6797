-- ===== src/Types/Display.antt =====
-- The messages of crates/attractor-types/src/error.rs, as `to_string` prints them.
use pascals_discrete_attract.Base.{Text, codes, decimal, ◌++◌}
use pascals_discrete_attract.Types.Values.{FloatOps}
use pascals_discrete_attract.Types.Errors.{
  AttractorError, provider_error, rate_limited, auth_error, request_timeout,
  context_length_exceeded, parse_error, validation_error, handler_error, goal_gate_unsatisfied,
  checkpoint_incompatible, no_retry_target, retries_exhausted, budget_exhausted, max_steps_exceeded,
  tool_error, command_timeout, cli_not_found, loop_detected, turn_limit_reached, io, json, other,
}

module _ (floats : FloatOps) where
  unfoldable pub display : AttractorError → Text
  display (provider_error provider status message retryable) =
      codes "Provider "
      ++ (provider ++ (codes " returned HTTP " ++ (decimal status ++ (codes ": " ++ message))))
  display (rate_limited provider ms) =
      codes "Rate limited by "
      ++ (provider ++ (codes ", retry after " ++ (decimal ms ++ codes "ms")))
  display (auth_error provider) = codes "Authentication failed for provider " ++ provider
  display (request_timeout provider ms) =
      codes "Request to " ++ (provider ++ (codes " timed out after " ++ (decimal ms ++ codes "ms")))
  display (context_length_exceeded provider message) =
      codes "Context length exceeded for " ++ (provider ++ (codes ": " ++ message))
  display (parse_error line col message snippet) =
      codes "DOT parse error at line "
      ++ (decimal line ++ (codes ", col " ++ (decimal col ++ (codes ": " ++ message))))
  display (validation_error message) = codes "Pipeline validation failed: " ++ message
  display (handler_error handler node message) =
      codes "Handler '"
      ++ (handler ++ (codes "' failed on node '" ++ (node ++ (codes "': " ++ message))))
  display (goal_gate_unsatisfied node) =
      codes "Goal gate unsatisfied: node '" ++ (node ++ codes "' did not reach SUCCESS")
  display (checkpoint_incompatible path reason) =
      codes "Checkpoint at '" ++ (path ++ (codes "' cannot be resumed: " ++ reason))
  display (no_retry_target node) =
      codes "No retry target for failed goal gate '" ++ (node ++ codes "'")
  display (retries_exhausted node attempts) =
      codes "Max retries exhausted for node '"
      ++ (node ++ (codes "' after " ++ (decimal attempts ++ codes " attempts")))
  display (budget_exhausted spent limit) =
      codes "Pipeline exceeded budget ($"
      ++ (floats.two_decimals spent
          ++ (codes " > $"
              ++ (floats.two_decimals limit ++ codes "). Use --max-budget-usd to increase.")))
  display (max_steps_exceeded max_steps) =
      codes "Pipeline exceeded maximum step count ("
      ++ (decimal max_steps ++ codes "). Use --max-steps to increase.")
  display (tool_error tool message) = codes "Tool '" ++ (tool ++ (codes "' error: " ++ message))
  display (command_timeout ms) = codes "Command timed out after " ++ (decimal ms ++ codes "ms")
  display (cli_not_found binary) =
      codes "CLI binary '" ++ (binary ++ codes "' not found — ensure it is installed and on PATH")
  display (loop_detected window) =
      codes "Agent loop detected after "
      ++ (decimal window ++ codes " consecutive identical tool calls")
  display (turn_limit_reached turns) =
      codes "Turn limit reached: " ++ (decimal turns ++ codes " turns")
  display (io message) = codes "IO error: " ++ message
  display (json message) = codes "JSON error: " ++ message
  display (other message) = message
