-- ===== src/Journal/Status.antt =====
-- crates/attractor-journal/src/status.rs: the status of a run, from its events.
use pascals_discrete_attract.Base.{
  ℕ, ◌+◌, max, Bool, false, not, ◌&&◌, List, [], ◌∷◌, Option, none, some, eqb, ltb, keep,
  if◌then◌else◌,
}
use pascals_discrete_attract.Journal.Event.{
  AttemptEndReason, EventData, attempt_ended, heartbeat, attempt_started, JournalEvent,
}

pub data RunStatus : Type 0 where
  running completed failed stopped crashed missing : RunStatus

-- `CRASH_AFTER`, two minutes.
abbrev pub crash_after : ℕ
crash_after = 120000

unfoldable pub status_of_reason : AttemptEndReason → RunStatus
status_of_reason AttemptEndReason.completed = RunStatus.completed
status_of_reason AttemptEndReason.stopped = RunStatus.stopped
status_of_reason _ = RunStatus.failed

-- A time and a process.
abbrev pub Sign : Type 0
Sign = ℕ × ℕ

-- What the loop over the events of the last attempt keeps: the last heartbeat and the last start,
-- or the reason of an end, which returns at once.
pub data Scan : Type 0 where
  ended : AttemptEndReason → Scan
  going : Option Sign → Option Sign → Scan

unfoldable pub see : ℕ → EventData → Scan → Scan
see ts data_ (ended reason) = ended reason
see ts (attempt_ended attempt reason message) (going beat start) = ended reason
see ts (heartbeat pid) (going beat start) = going (some (ts, pid)) start
see ts (attempt_started attempt pid version argv head resumed) (going beat start) =
    going beat (some (ts, pid))
see ts _ (going beat start) = going beat start

unfoldable pub scan_events : List JournalEvent → Scan → Scan
unfolding see
scan_events [] scan = scan
scan_events (e ∷ es) scan = scan_events es (see e.ts e.data_ scan)

unfoldable pub last_attempt : List JournalEvent → ℕ
last_attempt [] = 0
last_attempt (e ∷ es) = max e.attempt (last_attempt es)

module _ (started_at : ℕ) (now : ℕ) (pid_alive : ℕ → Bool) where
  alive : Option Sign → Bool
  alive none = false
  alive (some (seen_at, pid)) = pid_alive pid

  seen : Option Sign → ℕ
  seen none = started_at
  seen (some (seen_at, pid)) = seen_at

  unfoldable pub judge_sign : Option Sign → RunStatus
  unfolding alive seen
  judge_sign sign =
      if ltb (seen sign + crash_after) now && not (alive sign) then crashed else running

  unfoldable pub status_of_scan : Scan → RunStatus
  unfolding judge_sign status_of_reason
  status_of_scan (ended reason) = status_of_reason reason
  status_of_scan (going (some beat) start) = judge_sign (some beat)
  status_of_scan (going none start) = judge_sign start

  unfoldable pub derive_status : List JournalEvent → RunStatus
  unfolding status_of_scan scan_events last_attempt
  derive_status es = status_of_scan (
      scan_events (keep (λ (e : JournalEvent). eqb e.attempt (last_attempt es)) es)
        (going none none))
