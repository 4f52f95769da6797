-- ===== src/Base/Entries.antt =====
-- What a map holds, as lists of its keys and values.
use mathlib.Core.Path.{◌≡◌, refl, sym, subst, ap, ◌∙◌}
use mathlib.Core.Logic.{inl, inr}
use mathlib.Core.Bool.{Bool, true, false, ◌||◌}
use mathlib.Core.Option.{some}
use mathlib.Core.List.{List, [], ◌∷◌, map}
use pascals_discrete_attract.Base.Bools.{if◌then◌else◌, Bool-cases}
use pascals_discrete_attract.Base.Lists.{In, any}
use pascals_discrete_attract.Base.Strings.{Text, ◌==◌, ==_iff}
use pascals_discrete_attract.Base.Maps.{Map, lookup, keys}

abbrev pub values : {V : Type 0} → Map V → List V
values m = map (λ e. e.1) m

pub some_injective : {A : Type 0} {a b : A} → some a ≡ some b → a ≡ b
some_injective e = cc

clash : {b : Bool} → b ≡ true → b ≡ false → ⊥
clash p q = cc

pub In-tail : (key id : Text) (ks : List Text) → (key == id) ≡ false → In id (key ∷ ks) → In id ks
In-tail key id ks p (inl e) = absurd (clash ((==_iff key id).1 (sym e)) p)
In-tail key id ks p (inr k) = k

any_step :
    (x id : Text) (rest : Bool) (ids : List Text)
    → ((id == x) || rest) ≡ true
    → (rest ≡ true → In x ids)
    → In x (id ∷ ids)
any_step x id rest ids q later = elim (Bool-cases (id == x)) [
  | inl p ↦ inl (sym ((==_iff id x).0 p))
  | inr p ↦ inr (later (subst (λ b. (b || rest) ≡ true) p q))
]

-- A text that a list has is found in it, and no other.
pub any-In : (x : Text) (ids : List Text) → any (λ c. c == x) ids ≡ true → In x ids
any-In x [] e = cc
any-In x (id ∷ ids) e = any_step x id _ ids e (any-In x ids)

or_true : (b : Bool) → (b || true) ≡ true
or_true true = refl
or_true false = refl

pub In-any : (x : Text) (ids : List Text) → In x ids → any (λ c. c == x) ids ≡ true
In-any x [] h = absurd h
In-any x (id ∷ ids) (inl e) = ap (λ b. b || any (λ c. c == x) ids) ((==_iff id x).1 (sym e))
In-any x (id ∷ ids) (inr h) = ap (λ b. (id == x) || b) (In-any x ids h) ∙ or_true (id == x)

module _ {V : Type 0} where
  step_of :
      (key id : Text) (m : V) (rest : Map V) (v : V)
      → lookup id ((key, m) ∷ rest) ≡ some v
      → (b : Bool) → (key == id) ≡ b
      → (if b then some m else lookup id rest) ≡ some v
  unfolding lookup
  step_of key id m rest v e b p = subst (λ c. (if c then some m else lookup id rest) ≡ some v) p e

  -- A key that is found is among the keys, with its value among the values.
  pub lookup-In-keys : (id : Text) (v : V) (m : Map V) → lookup id m ≡ some v → In id (keys m)
  unfolding lookup
  lookup-In-keys id v [] e = cc
  lookup-In-keys id v ((key, w) ∷ m) e = elim (Bool-cases (key == id)) [
    | inl p ↦ inl (sym ((==_iff key id).0 p))
    | inr p ↦ inr (lookup-In-keys id v m (step_of key id w m v e false p))
  ]

  pub lookup-In_values : (id : Text) (v : V) (m : Map V) → lookup id m ≡ some v → In v (values m)
  unfolding lookup
  lookup-In_values id v [] e = cc
  lookup-In_values id v ((key, w) ∷ m) e = elim (Bool-cases (key == id)) [
    | inl p ↦ inl (sym (some_injective (step_of key id w m v e true p)))
    | inr p ↦ inr (lookup-In_values id v m (step_of key id w m v e false p))
  ]

  -- A key of the map is found.
  pub keys-lookup : (id : Text) (m : Map V) → In id (keys m) → (v : V) × (lookup id m ≡ some v)
  unfolding lookup
  keys-lookup id [] h = absurd h
  keys-lookup id ((key, w) ∷ m) h = elim (Bool-cases (key == id)) [
    | inl p ↦ rw p (w, refl)
    | inr p ↦ rw p (keys-lookup id m (In-tail key id (keys m) p h))
  ]
