-- ===== src/Engine/Owed.antt =====
-- The executions of handlers that an action of crates/attractor-pipeline/src/engine.rs owes to the
-- count of attempts.
use pascals_discrete_attract.Base.{ℕ, ◌+◌, ◌≤◌, Bool, arith, inl, inr, Bool-cases, if◌then◌else◌}
use pascals_discrete_attract.Types.Errors.{Result, ok, err}
use pascals_discrete_attract.Engine.Exec.{Exec, continue, ◌>>=◌}
use pascals_discrete_attract.Engine.State.{RunState}

module _ {W : Type 0} (starts : W → ℕ) where
  -- From `s` to `t` at most `k` handlers more are executed than attempts are counted.
  abbrev pub Owes : ℕ → RunState W → RunState W → Type 0
  Owes k s t =
      starts t.world + s.progress.total_handler_attempts
      ≤ starts s.world + t.progress.total_handler_attempts + k

  abbrev pub Owing : {A : Type 0} → ℕ → Exec (RunState W) A → Type 0
  Owing k m = (s : RunState W) → Owes k s (m s).1

  continue-Owes :
      {A B : Type 0} (j k : ℕ) (r : Result A) (f : A → Exec (RunState W) B) (s t : RunState W)
      → Owes j s t
      → ((a : A) → Owing k (f a))
      → Owes (j + k) s (continue r f t).1
  continue-Owes j k (ok a) f s t h g = omega (arith, h, g a t)
  continue-Owes j k (err e) f s t h g = omega (arith, h)

  pub Owing-bind :
      {A B : Type 0} (j k : ℕ) (m : Exec (RunState W) A) (f : A → Exec (RunState W) B)
      → Owing j m
      → ((a : A) → Owing k (f a))
      → Owing (j + k) (m >>= f)
  unfolding ◌>>=◌
  Owing-bind j k m f h g s = continue-Owes j k (m s).0 f s (m s).1 (h s) g

  pub Owing-if :
      {A : Type 0} (k : ℕ) (b : Bool) (m n : Exec (RunState W) A)
      → Owing k m
      → Owing k n
      → Owing k (if b then m else n)
  Owing-if k b m n h g = elim (Bool-cases b) [ inl p ↦ rw p h | inr p ↦ rw p g ]

  -- A success has counted an attempt that is not executed yet; a failure owes nothing.
  abbrev pub Prepaid : {A : Type 0} → Result A → RunState W → RunState W → Type 0
  Prepaid (ok a) s t =
      starts t.world + s.progress.total_handler_attempts + 1
      ≤ starts s.world + t.progress.total_handler_attempts
  Prepaid (err e) s t = Owes 0 s t

  continue-Prepaid :
      {A B : Type 0} (r : Result A) (f : A → Exec (RunState W) B) (s t : RunState W)
      → Prepaid r s t
      → ((a : A) → Owing 1 (f a))
      → Owes 0 s (continue r f t).1
  continue-Prepaid (ok a) f s t h g = omega (arith, h, g a t)
  continue-Prepaid (err e) f s t h g = h

  pub Owing-Prepaid :
      {A B : Type 0} (m : Exec (RunState W) A) (f : A → Exec (RunState W) B)
      → ((s : RunState W) → Prepaid (m s).0 s (m s).1)
      → ((a : A) → Owing 1 (f a))
      → Owing 0 (m >>= f)
  unfolding ◌>>=◌
  Owing-Prepaid m f h g s = continue-Prepaid (m s).0 f s (m s).1 (h s) g
