-- ===== src/Examples/Agents.antt =====
-- Repeated calls and long outputs.
use pascals_discrete_attract.Base.{
  ◌+◌, ◌-◌, ◌≤◌, ◌<◌, Text, List, [], ◌∷◌, ◌++◌, ◌≡◌, arith, codes, length,
}
use pascals_discrete_attract.Tools.{head_tail, marker, truncate_output}
use pascals_discrete_attract.Tools.Truncated.{truncate_output_lem}
use pascals_discrete_attract.Agent.{new_detector, check_signature}
use pascals_discrete_attract.Agent.Window.{seen, is_loop, record_all, check_signature_lem}

abbrev log : Text
log = codes "twelve chars"

truncate_output_lem_example :
    (length log ≤ 5 → truncate_output log 5 head_tail ≡ log)
    × (5 < length log
        → length (truncate_output log 5 head_tail) ≡ 5 + length (marker head_tail (length log - 5)))
truncate_output_lem_example = truncate_output_lem log 5 head_tail

abbrev reads : List Text
reads = codes "read:1" ∷ codes "read:1" ∷ []

check_signature_lem_example :
    check_signature (codes "read:1") (record_all reads (new_detector 3))
    ≡ (is_loop 3 (reads ++ codes "read:1" ∷ []), seen 3 (reads ++ codes "read:1" ∷ []))
check_signature_lem_example = check_signature_lem 3 reads (codes "read:1") (omega arith)
