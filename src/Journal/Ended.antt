-- ===== src/Journal/Ended.antt =====
-- What an attempt that has ended makes of the status of its run
-- (crates/attractor-journal/src/status.rs).
use pascals_discrete_attract.Base.{
  ℕ, Bool, true, false, List, [], ◌∷◌, Option, none, some, ◌≡◌, refl, ap, ◌∙◌, eqb, if◌then◌else◌,
}
use pascals_discrete_attract.Journal.Event.{
  AttemptEndReason, attempt_ended, heartbeat, attempt_started, EventData, JournalEvent,
}
use pascals_discrete_attract.Journal.Derived.{of_attempt}
use pascals_discrete_attract.Journal.Status.{
  last_attempt, scan_events, status_of_scan, status_of_reason, derive_status, Scan, going, ended,
  see, Sign,
}

unfoldable pub reason_of : EventData → Option AttemptEndReason
reason_of (attempt_ended attempt reason message) = some reason
reason_of _ = none

-- The reason of the first end of an attempt.
unfoldable pub first_end : ℕ → List JournalEvent → Option AttemptEndReason
unfolding reason_of
first_end n [] = none
first_end n (e ∷ es) =
    let rest = first_end n es in
    if eqb e.attempt n
    then (elim (reason_of e.data_) [ none ↦ rest | some reason ↦ some reason ])
    else rest

-- After an event that is an end, the loop has its reason; after another, it goes on.
abbrev Seen : Scan → Option AttemptEndReason → Type 0
Seen scan (some reason) = scan ≡ ended reason
Seen scan none = (beat : Option Sign) × (start : Option Sign) × (scan ≡ going beat start)

see-Seen :
    (ts : ℕ) (d : EventData) (beat start : Option Sign)
    → Seen (see ts d (going beat start)) (reason_of d)
unfolding see reason_of
see-Seen ts (attempt_ended attempt reason message) beat start = refl
see-Seen ts (heartbeat pid) beat start = (_, _, refl)
see-Seen ts (attempt_started attempt pid version argv head resumed) beat start = (_, _, refl)
see-Seen ts _ beat start = (_, _, refl)

scan_events-ended :
    (es : List JournalEvent) (reason : AttemptEndReason)
    → scan_events es (ended reason) ≡ ended reason
unfolding scan_events see
scan_events-ended [] reason = refl
scan_events-ended (e ∷ es) reason = scan_events-ended es reason

scan_on :
    (scan : Scan) (o : Option AttemptEndReason) (n : ℕ) (es : List JournalEvent)
    (reason : AttemptEndReason)
    → Seen scan o
    → ((beat start : Option Sign)
        → first_end n es ≡ some reason
        → scan_events (of_attempt n es) (going beat start) ≡ ended reason)
    → elim o as (λ o. Option AttemptEndReason) [ none ↦ first_end n es | some reason ↦ some reason ]
      ≡ some reason
    → scan_events (of_attempt n es) scan ≡ ended reason
scan_on scan none n es reason (beat, start, h) next e =
    ap (scan_events (of_attempt n es)) h ∙ next beat start e
scan_on scan (some other) n es reason h next e =
    ap (scan_events (of_attempt n es)) (h ∙ cc) ∙ scan_events-ended _ reason

scan_if :
    (b : Bool) (n : ℕ) (e : JournalEvent) (es : List JournalEvent) (reason : AttemptEndReason)
    (beat start : Option Sign)
    → ((beat start : Option Sign)
        → first_end n es ≡ some reason
        → scan_events (of_attempt n es) (going beat start) ≡ ended reason)
    → (if b
        then elim (reason_of e.data_) as (λ o. Option AttemptEndReason) [
          | none ↦ first_end n es
          | some r ↦ some r
        ]
        else first_end n es)
      ≡ some reason
    → scan_events (if b then e ∷ of_attempt n es else of_attempt n es) (going beat start)
      ≡ ended reason
unfolding scan_events
scan_if true n e es reason beat start next h =
    scan_on _ (reason_of e.data_) n es reason (see-Seen e.ts e.data_ beat start) next h
scan_if false n e es reason beat start next h = next beat start h

scan_events-first_end :
    (n : ℕ) (es : List JournalEvent) (reason : AttemptEndReason) (beat start : Option Sign)
    → first_end n es ≡ some reason
    → scan_events (of_attempt n es) (going beat start) ≡ ended reason
unfolding first_end of_attempt
scan_events-first_end n [] reason beat start h = cc
scan_events-first_end n (e ∷ es) reason beat start h =
    scan_if (eqb e.attempt n) n e es reason beat start
      (λ beat' start' k. scan_events-first_end n es reason beat' start' k) h

-- A run whose last attempt has an end has the status of the reason of the first one, whatever
-- heartbeats come before or after it, whatever the time is and whether its process is alive.
pub derive_status-ended :
    (started_at now : ℕ) (pid_alive : ℕ → Bool) (es : List JournalEvent) (reason : AttemptEndReason)
    → first_end (last_attempt es) es ≡ some reason
    → derive_status started_at now pid_alive es ≡ status_of_reason reason
unfolding derive_status status_of_scan of_attempt
derive_status-ended started_at now pid_alive es reason h =
    ap (status_of_scan started_at now pid_alive)
      (scan_events-first_end (last_attempt es) es reason none none h)
