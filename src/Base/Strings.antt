-- ===== src/Base/Strings.antt =====
-- Text as the list of its code points: the order of `str` by bytes is that of the code points.
use Prim.Native.Nat.{ℕ, compare, Ordering}
use Prim.Native.Char.{code}
use Prim.Native.String.{String}
use mathlib.Core.Path.{◌≡◌, refl}
use mathlib.Core.Logic.{◌↔◌}
use mathlib.Core.Bool.{Bool, true, false, ◌&&◌}
use mathlib.Core.List.{List, [], ◌∷◌, ◌++◌}
use native.Mathlib.Omega.{arith}
use pascals_discrete_attract.Base.Bools.{eqb}

abbrev pub Text : Type 0
Text = List ℕ

abbrev pub codes : String → Text
codes String.[] = []
codes (String.◌∷◌ c s) = code c ∷ codes s

infix 50 ◌==◌
unfoldable pub ◌==◌ : Text → Text → Bool
[] == [] = true
[] == (d ∷ t) = false
(c ∷ s) == [] = false
(c ∷ s) == (d ∷ t) = eqb c d && s == t

==-refl : (s : Text) → (s == s) ≡ true
unfolding ◌==◌
==-refl [] = refl
==-refl (c ∷ s) = ground (arith, ==-refl s)

==-sound : (s t : Text) → (s == t) ≡ true → s ≡ t
unfolding ◌==◌
==-sound [] [] h = refl
==-sound [] (d ∷ t) h = cc
==-sound (c ∷ s) [] h = cc
==-sound (c ∷ s) (d ∷ t) h = ground (arith, ==-sound s t)

pub ==_iff : (s t : Text) → ((s == t) ≡ true) ↔ (s ≡ t)
==_iff s t = (==-sound s t, λ e. rw e (==-refl t))

pub ==_self : (s : Text) → (s == s) ≡ true
==_self s = ==-refl s

-- The lexical order of two texts, `str::cmp`.
unfoldable pub cmp : Text → Text → Ordering
cmp [] [] = Ordering.eq
cmp [] (d ∷ t) = Ordering.lt
cmp (c ∷ s) [] = Ordering.gt
cmp (c ∷ s) (d ∷ t) =
    let rest = cmp s t in
    elim (compare c d) [
      | Ordering.lt ↦ Ordering.lt
      | Ordering.gt ↦ Ordering.gt
      | Ordering.eq ↦ rest
    ]

-- The pieces of a `format!`, in order.
unfoldable pub format : List Text → Text
format [] = []
format (piece ∷ pieces) = piece ++ format pieces
