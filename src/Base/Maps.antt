-- ===== src/Base/Maps.antt =====
-- A map with text keys as an association list; the list is the order in which the code iterates.
use mathlib.Core.Path.{◌≡◌, refl, ap}
use mathlib.Core.Logic.{inl, inr}
use mathlib.Core.Option.{Option, none, some}
use mathlib.Core.List.{List, [], ◌∷◌}
use Prim.Native.Nat.{Ordering}
use native.Mathlib.Omega.{arith}
use pascals_discrete_attract.Base.Bools.{if◌then◌else◌, Bool-cases}
use pascals_discrete_attract.Base.Strings.{Text, ◌==◌, ==_iff, ==_self, cmp}

abbrev pub Map {ℓ} : Type ℓ → Type ℓ
Map V = List (Text × V)

module _ {ℓ} {V : Type ℓ} where
  unfoldable pub lookup : Text → Map V → Option V
  lookup key [] = none
  lookup key ((other, v) ∷ rest) = if other == key then some v else lookup key rest

  unfoldable pub insert : Text → V → Map V → Map V
  insert key v [] = (key, v) ∷ []
  insert key v ((other, old) ∷ rest) =
      if other == key then (key, v) ∷ rest else (other, old) ∷ insert key v rest

  -- `HashMap::extend`: later entries win.
  unfoldable pub extend : Map V → Map V → Map V
  extend m [] = m
  extend m ((k, v) ∷ updates) = extend (insert k v m) updates

  -- What a key holds after an insertion.
  pub lookup-insert :
      (key wanted : Text) (v : V) (entries : Map V)
      → lookup wanted (insert key v entries)
        ≡ (if key == wanted then some v else lookup wanted entries)
  unfolding lookup insert
  lookup-insert key wanted v [] = refl
  lookup-insert key wanted v ((other, old) ∷ rest) = ground (
    arith,
    ==_iff other wanted,
    ==_iff other key,
    ==_iff key wanted,
    lookup-insert key wanted v rest,
  )

  pub lookup-insert_self : (k : Text) (v : V) (m : Map V) → lookup k (insert k v m) ≡ some v
  lookup-insert_self k v m = simp (lookup-insert, ==_self)

-- `sort_by`: the stable sort by a key, ascending.
module _ {A : Type 0} (key : A → Text) where
  unfoldable pub insert_ordered : A → List A → List A
  insert_ordered a [] = a ∷ []
  insert_ordered a (b ∷ bs) =
      let rest = insert_ordered a bs in
      elim (cmp (key a) (key b)) [ Ordering.gt ↦ b ∷ rest | _ ↦ a ∷ b ∷ bs ]

  unfoldable pub sort_by : List A → List A
  unfolding insert_ordered cmp
  sort_by [] = []
  sort_by (a ∷ as_) = insert_ordered a (sort_by as_)

abbrev pub keys {ℓ} : {V : Type ℓ} → Map V → List Text
keys [] = []
keys ((k, v) ∷ m) = k ∷ keys m

-- A change of every value, in place.
abbrev pub map_values {ℓ κ} : {V : Type ℓ} {U : Type κ} → (V → U) → Map V → Map U
map_values f [] = []
map_values f ((k, v) ∷ m) = (k, f v) ∷ map_values f m

abbrev pub map_option {ℓ κ} : {A : Type ℓ} {B : Type κ} → (A → B) → Option A → Option B
map_option f none = none
map_option f (some a) = some (f a)

pub lookup-map_values {ℓ κ} :
    {V : Type ℓ} {U : Type κ} (f : V → U) (key : Text) (m : Map V)
    → lookup key (map_values f m) ≡ map_option f (lookup key m)
unfolding lookup
lookup-map_values f key [] = refl
lookup-map_values f key ((k, v) ∷ m) = elim (Bool-cases (k == key)) [
  | inl e ↦ rw e
  | inr e ↦ rw (e, lookup-map_values f key m)
]

pub keys-map_values {ℓ κ} :
    {V : Type ℓ} {U : Type κ} (f : V → U) (m : Map V) → keys (map_values f m) ≡ keys m
keys-map_values f [] = refl
keys-map_values f ((k, v) ∷ m) = ap (λ rest. k ∷ rest) (keys-map_values f m)
