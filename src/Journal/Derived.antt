-- ===== src/Journal/Derived.antt =====
-- Which events decide the status of a run (crates/attractor-journal/src/status.rs).
use pascals_discrete_attract.Base.{
  ℕ, ◌<◌, max, Bool, List, [], ◌∷◌, ◌++◌, none, ◌≡◌, refl, ap, ◌∙◌, eqb, keep, arith,
}
use pascals_discrete_attract.Journal.Event.{JournalEvent}
use pascals_discrete_attract.Journal.Status.{
  last_attempt, scan_events, status_of_scan, derive_status, going,
}

-- The events are of attempts before this one.
abbrev pub AllBefore : ℕ → List JournalEvent → Type 0
AllBefore n [] = Unit
AllBefore n (e ∷ es) = (e.attempt < n) × AllBefore n es

last_attempt-append :
    (older es : List JournalEvent)
    → AllBefore (last_attempt es) older
    → last_attempt (older ++ es) ≡ last_attempt es
unfolding last_attempt
last_attempt-append [] es h = refl
last_attempt-append (e ∷ older) es (h, hs) =
    ap (max e.attempt) (last_attempt-append older es hs) ∙ larger e.attempt (last_attempt es) h
  where
    larger : (m n : ℕ) → m < n → max m n ≡ n
    larger m n le = omega arith

unfoldable pub of_attempt : ℕ → List JournalEvent → List JournalEvent
of_attempt n es = keep (λ (e : JournalEvent). eqb e.attempt n) es

of_attempt-append :
    (n : ℕ) (older es : List JournalEvent)
    → AllBefore n older
    → of_attempt n (older ++ es) ≡ of_attempt n es
unfolding of_attempt
of_attempt-append n [] es h = refl
of_attempt-append n (e ∷ older) es (h, hs) = ground (arith, of_attempt-append n older es hs)

-- Events of attempts before the last one, put in front, do not change the status: an end, a heartbeat
-- or a start of an earlier attempt never counts.
pub derive_status-last :
    (started_at now : ℕ) (pid_alive : ℕ → Bool) (older es : List JournalEvent)
    → AllBefore (last_attempt es) older
    → derive_status started_at now pid_alive (older ++ es)
      ≡ derive_status started_at now pid_alive es
unfolding derive_status of_attempt
derive_status-last started_at now pid_alive older es h =
    ap (λ es. status_of_scan started_at now pid_alive (scan_events es (going none none)))
      (ap (λ n. of_attempt n (older ++ es)) (last_attempt-append older es h)
        ∙ of_attempt-append (last_attempt es) older es h)
