-- ===== src/Engine/Frames.antt =====
-- What an action of the run may change: a relation between the state before it and after it.
use pascals_discrete_attract.Base.{
  ℕ, ◌+◌, ◌≤◌, ◌<◌, Bool, true, false, List, [], ◌++◌, append-nil, append_assoc, ◌≡◌, refl, sym, ap,
  ◌∙◌, arith, if◌then◌else◌,
}
use pascals_discrete_attract.Types.Errors.{Result, ok, err}
use pascals_discrete_attract.Engine.Exec.{Exec, continue, ◌>>=◌}
use pascals_discrete_attract.Engine.Events.{PipelineEvent}
use pascals_discrete_attract.Engine.State.{RunState}

-- Steps are only added, never beyond the limit, and one for each handler attempt; events are only
-- appended.
pub record Moves {W : Type 0} (limit : ℕ) (s s' : RunState W) : Type 0 where
  pub grows : s.progress.step_count ≤ s'.progress.step_count
  pub within : s.progress.step_count ≤ limit → s'.progress.step_count ≤ limit
  pub lockstep :
      s'.progress.step_count + s.progress.total_handler_attempts
      ≡ s.progress.step_count + s'.progress.total_handler_attempts
  pub emitted : List PipelineEvent
  pub appended : s'.events ≡ s.events ++ emitted

abbrev pub IsOk : {A : Type 0} → Result A → Type 0
IsOk (ok a) = Unit
IsOk (err e) = ⊥

module _ {W : Type 0} (limit : ℕ) where
  -- A change that counts no step.
  pub Moves-events :
      (s s' : RunState W) (es : List PipelineEvent)
      → s'.progress.step_count ≡ s.progress.step_count
      → s'.progress.total_handler_attempts ≡ s.progress.total_handler_attempts
      → s'.events ≡ s.events ++ es
      → Moves limit s s'
  Moves-events s s' es p q r = record {
    grows = omega (arith, p);
    within = λ h. omega (arith, p, h);
    lockstep = omega (arith, p, q);
    emitted = es;
    appended = r;
  }

  -- A change that also leaves the events.
  pub Moves-quiet :
      (s s' : RunState W)
      → s'.progress.step_count ≡ s.progress.step_count
      → s'.progress.total_handler_attempts ≡ s.progress.total_handler_attempts
      → s'.events ≡ s.events
      → Moves limit s s'
  Moves-quiet s s' p q r = Moves-events s s' [] p q (r ∙ sym (append-nil s.events))

  pub Moves-refl : (s : RunState W) → Moves limit s s
  Moves-refl s = Moves-quiet s s refl refl refl

  pub Moves-trans : (s t u : RunState W) → Moves limit s t → Moves limit t u → Moves limit s u
  Moves-trans s t u m n = record {
    grows = omega (arith, m.grows, n.grows);
    within = λ h. n.within (m.within h);
    lockstep = omega (arith, m.lockstep, n.lockstep);
    emitted = m.emitted ++ n.emitted;
    appended =
        n.appended
        ∙ (ap (λ es. es ++ n.emitted) m.appended ∙ append_assoc s.events m.emitted n.emitted);
  }

  abbrev pub Follows : {A : Type 0} → Exec (RunState W) A → Type 0
  Follows m = (s : RunState W) → Moves limit s (m s).1

  continue-Moves :
      {A B : Type 0} (r : Result A) (f : A → Exec (RunState W) B) (s t : RunState W)
      → Moves limit s t
      → ((a : A) → Follows (f a))
      → Moves limit s (continue r f t).1
  continue-Moves (ok a) f s t m h = Moves-trans s t (f a t).1 m (h a t)
  continue-Moves (err e) f s t m h = m

  pub Follows-bind :
      {A B : Type 0} (m : Exec (RunState W) A) (f : A → Exec (RunState W) B)
      → Follows m
      → ((a : A) → Follows (f a))
      → Follows (m >>= f)
  unfolding ◌>>=◌
  Follows-bind m f h k s = continue-Moves (m s).0 f s (m s).1 (h s) k

  pub Follows-if :
      {A : Type 0} (b : Bool) (m n : Exec (RunState W) A)
      → Follows m
      → Follows n
      → Follows (if b then m else n)
  Follows-if true m n h k = h
  Follows-if false m n h k = k

  -- A step is counted, where the limit had room for it.
  abbrev pub Gained : RunState W → RunState W → Type 0
  Gained s t = (s.progress.step_count < t.progress.step_count) × (s.progress.step_count < limit)

  -- A result comes only with a step.
  abbrev pub Gains : {A : Type 0} → Exec (RunState W) A → Type 0
  Gains m = (s : RunState W) → IsOk (m s).0 → Gained s (m s).1

  continue-Gains :
      {A B : Type 0} (r : Result A) (f : A → Exec (RunState W) B) (s t : RunState W)
      → (IsOk r → Gained s t)
      → ((a : A) → Follows (f a))
      → IsOk (continue r f t).0
      → Gained s (continue r f t).1
  continue-Gains (ok a) f s t m h i = (omega (arith, (m tt).0, (h a t).grows), (m tt).1)
  continue-Gains (err e) f s t m h i = elim i [ ]

  -- A gain by the first of two actions is kept by the second.
  pub Gains-first :
      {A B : Type 0} (m : Exec (RunState W) A) (f : A → Exec (RunState W) B)
      → Gains m
      → ((a : A) → Follows (f a))
      → Gains (m >>= f)
  unfolding ◌>>=◌
  Gains-first m f h k s = continue-Gains (m s).0 f s (m s).1 (h s) k

  continue-Gains_then :
      {A B : Type 0} (r : Result A) (f : A → Exec (RunState W) B) (s t : RunState W)
      → Moves limit s t
      → ((a : A) → Gains (f a))
      → IsOk (continue r f t).0
      → Gained s (continue r f t).1
  continue-Gains_then (ok a) f s t m h i =
      (omega (arith, m.grows, (h a t i).0), omega (arith, m.grows, (h a t i).1))
  continue-Gains_then (err e) f s t m h i = elim i [ ]

  pub Gains-second :
      {A B : Type 0} (m : Exec (RunState W) A) (f : A → Exec (RunState W) B)
      → Follows m
      → ((a : A) → Gains (f a))
      → Gains (m >>= f)
  unfolding ◌>>=◌
  Gains-second m f h k s = continue-Gains_then (m s).0 f s (m s).1 (h s) k
