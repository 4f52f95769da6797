-- ===== src/Base/Lists.antt =====
-- Lists: lengths and cuts over the native numbers, predicates by recursion, Boolean searches.
use Prim.Native.Nat.{ℕ, zero, suc, ◌+◌, ◌-◌, ◌≤◌}
use mathlib.Core.Path.{◌≡◌, refl, sym, ap, ◌∙◌}
use mathlib.Core.Logic.{◌⊎◌, inl, inr}
use mathlib.Core.Bool.{Bool, true, false, ◌&&◌, ◌||◌}
use mathlib.Core.Option.{Option, none, some}
use mathlib.Core.List.{List, [], ◌∷◌, ◌++◌, map}
use native.Mathlib.Omega.{arith}
use pascals_discrete_attract.Base.Bools.{if◌then◌else◌, Bool-cases}

module _ {ℓ} {A : Type ℓ} where
  abbrev pub length : List A → ℕ
  length [] = 0
  length (x ∷ xs) = suc (length xs)

  abbrev pub take : ℕ → List A → List A
  take zero xs = []
  take (suc n) [] = []
  take (suc n) (x ∷ xs) = x ∷ take n xs

  abbrev pub drop : ℕ → List A → List A
  drop zero xs = xs
  drop (suc n) [] = []
  drop (suc n) (x ∷ xs) = drop n xs

  -- `filter` of the library takes a decision; the program filters by Boolean tests.
  abbrev pub keep : (A → Bool) → List A → List A
  keep p [] = []
  keep p (x ∷ xs) = let rest = keep p xs in if p x then x ∷ rest else rest

  abbrev pub all : (A → Bool) → List A → Bool
  all p [] = true
  all p (x ∷ xs) = p x && all p xs

  abbrev pub any : (A → Bool) → List A → Bool
  any p [] = false
  any p (x ∷ xs) = p x || any p xs

  -- The first element that passes the test.
  abbrev pub find : (A → Bool) → List A → Option A
  find p [] = none
  find p (x ∷ xs) = let rest = find p xs in if p x then some x else rest

  abbrev pub All {κ} : (A → Type κ) → List A → Type κ
  All P [] = Unit
  All P (x ∷ xs) = P x × All P xs

  pub length-append : (xs ys : List A) → length (xs ++ ys) ≡ length xs + length ys
  length-append [] ys = omega arith
  length-append (x ∷ xs) ys = omega (arith, length-append xs ys)

  pub take-drop : (n : ℕ) (xs : List A) → take n xs ++ drop n xs ≡ xs
  take-drop zero xs = refl
  take-drop (suc n) [] = refl
  take-drop (suc n) (x ∷ xs) = ap (λ ys. x ∷ ys) (take-drop n xs)

  pub length-drop : (n : ℕ) (xs : List A) → length (drop n xs) ≡ length xs - n
  length-drop zero xs = omega arith
  length-drop (suc n) [] = omega arith
  length-drop (suc n) (x ∷ xs) = omega (arith, length-drop n xs)

  pub length-take : (n : ℕ) (xs : List A) → n ≤ length xs → length (take n xs) ≡ n
  length-take zero xs h = refl
  length-take (suc n) [] h = absurd (omega arith)
  length-take (suc n) (x ∷ xs) h = omega (arith, length-take n xs (omega arith))

  pub keep-append : (p : A → Bool) (xs ys : List A) → keep p (xs ++ ys) ≡ keep p xs ++ keep p ys
  keep-append p [] ys = refl
  keep-append p (x ∷ xs) ys = elim (Bool-cases (p x)) [
    | inl h ↦ rw (h, keep-append p xs ys)
    | inr h ↦ rw (h, keep-append p xs ys)
  ]

module _ {A : Type 0} where
  -- Membership as data, by position.
  abbrev pub In : A → List A → Type 0
  In a [] = ⊥
  In a (x ∷ xs) = (a ≡ x) ⊎ In a xs

  pub In-append_left : (a : A) (xs ys : List A) → In a xs → In a (xs ++ ys)
  In-append_left a [] ys h = absurd h
  In-append_left a (x ∷ xs) ys (inl e) = inl e
  In-append_left a (x ∷ xs) ys (inr h) = inr (In-append_left a xs ys h)

  pub In-append_right : (a : A) (xs ys : List A) → In a ys → In a (xs ++ ys)
  In-append_right a [] ys h = h
  In-append_right a (x ∷ xs) ys h = inr (In-append_right a xs ys h)

  In-keep_step :
      (p : A → Bool) (a x : A) (xs rest : List A) (b : Bool)
      → p x ≡ b
      → (In a rest → In a xs × (p a ≡ true))
      → In a (if b then x ∷ rest else rest)
      → In a (x ∷ xs) × (p a ≡ true)
  In-keep_step p a x xs rest true e ih (inl q) = (inl q, ap p q ∙ e)
  In-keep_step p a x xs rest true e ih (inr h) = (inr (ih h).0, (ih h).1)
  In-keep_step p a x xs rest false e ih h = (inr (ih h).0, (ih h).1)

  -- What `keep` keeps is in the list and passes the test.
  pub In-keep : (p : A → Bool) (a : A) (xs : List A) → In a (keep p xs) → In a xs × (p a ≡ true)
  In-keep p a [] h = absurd h
  In-keep p a (x ∷ xs) h = In-keep_step p a x xs (keep p xs) (p x) refl (In-keep p a xs) h

pub In-map : {A B : Type 0} (f : A → B) (a : A) (xs : List A) → In a xs → In (f a) (map f xs)
In-map f a [] h = absurd h
In-map f a (x ∷ xs) (inl e) = inl (ap f e)
In-map f a (x ∷ xs) (inr h) = inr (In-map f a xs h)

In-if_cons :
    {A : Type 0} (a x : A) (b : Bool) (rest : List A)
    → ((a ≡ x) × (b ≡ true)) ⊎ In a rest
    → In a (if b then x ∷ rest else rest)
In-if_cons a x true rest (inl (e, p)) = inl e
In-if_cons a x false rest (inl (e, p)) = cc
In-if_cons a x true rest (inr h) = inr h
In-if_cons a x false rest (inr h) = h

-- What passes the test is kept.
pub keep-In :
    {A : Type 0} (p : A → Bool) (a : A) (xs : List A) → In a xs → p a ≡ true → In a (keep p xs)
keep-In p a [] h is = absurd h
keep-In p a (x ∷ xs) (inl e) is = In-if_cons a x (p x) (keep p xs) (inl (e, ap p (sym e) ∙ is))
keep-In p a (x ∷ xs) (inr h) is = In-if_cons a x (p x) (keep p xs) (inr (keep-In p a xs h is))
