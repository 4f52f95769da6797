-- ===== src/Agent.antt =====
-- crates/attractor-agent/src/loop_detection.rs: an agent that repeats one tool call. The hash of the
-- arguments is made by the standard library, a parameter.
pub mod Window
use pascals_discrete_attract.Base.{
  ℕ, Text, Bool, true, false, List, [], ◌∷◌, ◌++◌, codes, decimal, ◌==◌, length, leb, ltb, eqb, all,
  if◌then◌else◌,
}
use pascals_discrete_attract.Types.Values.{Json}

pub record LoopDetector : Type 0 where
  pub window_size : ℕ
  pub recent_calls : List Text

unfoldable pub new_detector : ℕ → LoopDetector
new_detector window_size = record { window_size = window_size; recent_calls = [] }

-- The loop of `pop_front` calls.
unfoldable pub bounded : ℕ → List Text → List Text
bounded window [] = []
bounded window (c ∷ cs) =
    let rest = bounded window cs in if ltb window (length (c ∷ cs)) then rest else c ∷ cs

unfoldable pub all_identical : List Text → Bool
all_identical [] = true
all_identical (first ∷ rest) = all (λ s. s == first) (first ∷ rest)

unfoldable pub signature : (Json → ℕ) → Text → Json → Text
signature hash_args tool_name arguments = tool_name ++ (codes ":" ++ decimal (hash_args arguments))

-- `record_and_check`, of a signature: whether there is a loop, and the detector after it.
unfoldable pub check_signature : Text → LoopDetector → Bool × LoopDetector
unfolding bounded all_identical
check_signature call d =
    if eqb d.window_size 0
    then (false, d)
    else (let recent = bounded d.window_size (d.recent_calls ++ call ∷ []) in
        (
          if leb d.window_size (length recent) then all_identical recent else false,
          record d { recent_calls = recent },
        ))

unfoldable pub record_and_check : (Json → ℕ) → Text → Json → LoopDetector → Bool × LoopDetector
unfolding check_signature signature
record_and_check hash_args tool_name arguments d =
    check_signature (signature hash_args tool_name arguments) d

unfoldable pub reset : LoopDetector → LoopDetector
reset d = record d { recent_calls = [] }
