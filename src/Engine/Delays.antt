-- ===== src/Engine/Delays.antt =====
-- The back-off of crates/attractor-pipeline/src/retry.rs in closed form.
use pascals_discrete_attract.Base.{
  ℕ, zero, suc, ◌+◌, ◌*◌, ◌-◌, ◌^◌, ◌≤◌, min, ltb, false, ◌≡◌, refl, subst, arith, inl, inr,
  Bool-cases, if◌then◌else◌,
}
use native.Mathlib.Numerals.{unary_clauses}
use pascals_discrete_attract.Engine.Keys.{retry_delay}

abbrev multiplier : ℕ → ℕ
multiplier shift = if ltb shift 64 then 2 ^ shift else 2 ^ 64 - 1

power-bound : (k : ℕ) → 64 ≤ 2 ^ (k + 6)
power-bound zero = omega arith
power-bound (suc k) = simp unary_clauses (omega (arith, simp unary_clauses at (power-bound k)))

multiplier-bound : (k : ℕ) → 64 ≤ multiplier (k + 6)
multiplier-bound k = elim (Bool-cases (ltb (k + 6) 64)) [
  | inl p ↦ rw p (power-bound k)
  | inr p ↦ rw p (omega arith)
]

capped : (m : ℕ) → 64 ≤ m → min (min (500 * m) (2 ^ 64 - 1)) 30000 ≡ 30000
capped m h = ground (arith, h)

shift-split : (k : ℕ) → min (k + 6) (2 ^ 32 - 1) ≡ min k (2 ^ 32 - 7) + 6
shift-split k = ground arith

not_short : (k : ℕ) → ltb (k + 6) 6 ≡ false
not_short k = ground arith

long : (k : ℕ) → retry_delay (k + 6) ≡ (if ltb (k + 6) 6 then 500 * 2 ^ (k + 6) else 30000)
unfolding retry_delay
long k = rw (shift-split k, not_short k) (capped _ (multiplier-bound (min k (2 ^ 32 - 7))))

-- The pause doubles from half a second over the first six attempts and is half a minute after them,
-- also where the shift or the product would leave 64 bits.
pub retry_delay_lem :
    (attempt : ℕ) → retry_delay attempt ≡ (if ltb attempt 6 then 500 * 2 ^ attempt else 30000)
unfolding retry_delay
retry_delay_lem zero = refl
retry_delay_lem (suc zero) = refl
retry_delay_lem (suc (suc zero)) = refl
retry_delay_lem (suc (suc (suc zero))) = refl
retry_delay_lem (suc (suc (suc (suc zero)))) = refl
retry_delay_lem (suc (suc (suc (suc (suc zero))))) = refl
retry_delay_lem (suc (suc (suc (suc (suc (suc k)))))) =
    subst (λ a. retry_delay a ≡ (if ltb a 6 then 500 * 2 ^ a else 30000)) (omega arith) (long k)
