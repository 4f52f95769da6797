-- ===== src/Engine/Reserved.antt =====
-- Reserved keys and the updates of outcomes (`apply_handler_updates` of
-- crates/attractor-pipeline/src/engine.rs).
use pascals_discrete_attract.Base.{
  Text, false, Map, List, [], ◌∷◌, ◌≡◌, ◌≢◌, refl, ◌==◌, inl, inr, Bool-cases, keep, All, keys,
  sort_by, insert, extend, insert_ordered, cmp, Ordering,
}
use pascals_discrete_attract.Types.{Outcome}
use pascals_discrete_attract.Types.Values.{Json}
use pascals_discrete_attract.Types.Errors.{Ensures}
use pascals_discrete_attract.Types.Store.{Context, apply_updates}
use pascals_discrete_attract.Engine.Keys.{
  is_reserved_key, reserved_updates, apply_unreserved, apply_handler_updates,
}

abbrev pub Unreserved : Map Json → Type 0
Unreserved m = All (λ (p : Text × Json). is_reserved_key p.0 ≡ false) m

insert-Unreserved :
    (k : Text) (v : Json) (m : Map Json)
    → is_reserved_key k ≡ false
    → Unreserved m
    → Unreserved (insert k v m)
unfolding insert
insert-Unreserved k v [] h hs = (h, tt)
insert-Unreserved k v ((j, w) ∷ m) h (g, hs) = elim (Bool-cases (j == k)) [
  | inl p ↦ rw p (h, hs)
  | inr p ↦ rw p (g, insert-Unreserved k v m h hs)
]

extend-Unreserved : (m us : Map Json) → Unreserved m → Unreserved us → Unreserved (extend m us)
unfolding extend
extend-Unreserved m [] h g = h
extend-Unreserved m ((k, v) ∷ us) h (g, gs) =
    extend-Unreserved (insert k v m) us (insert-Unreserved k v m g h) gs

cons-not-nil : {x : Text} {xs : List Text} → x ∷ xs ≢ []
cons-not-nil e = absurd (cc e)

inserted-nonempty : (k : Text) (ks : List Text) → insert_ordered (λ (k : Text). k) k ks ≢ []
unfolding insert_ordered
inserted-nonempty k [] = λ e. absurd (cons-not-nil e)
inserted-nonempty k (j ∷ js) =
    elim (cmp k j)
      as (λ o.
        (elim o [ Ordering.gt ↦ j ∷ insert_ordered (λ (k : Text). k) k js | _ ↦ k ∷ j ∷ js ])
        ≢ []) [
          | Ordering.lt ↦ cons-not-nil
          | Ordering.eq ↦ cons-not-nil
          | Ordering.gt ↦ cons-not-nil
        ]

-- A sorted list with no element was empty.
sort_by-empty : (ks : List Text) → sort_by (λ (k : Text). k) ks ≡ [] → ks ≡ []
unfolding sort_by
sort_by-empty [] h = refl
sort_by-empty (k ∷ ks) h = absurd (inserted-nonempty k (sort_by (λ (k : Text). k) ks) h)

keep-empty : (us : Map Json) → keep is_reserved_key (keys us) ≡ [] → Unreserved us
keep-empty [] h = tt
keep-empty ((k, v) ∷ us) h = elim (Bool-cases (is_reserved_key k)) [
  | inl p ↦ absurd (cc (rw p at h))
  | inr p ↦ (p, keep-empty us (rw p at h))
]

abbrev pub IsUnreserved : Context → Type 0
IsUnreserved context = Unreserved context.values

applied :
    (context : Context) (id : Text) (outcome : Outcome) (ks : List Text)
    → reserved_updates outcome ≡ ks
    → IsUnreserved context
    → Ensures IsUnreserved (apply_unreserved context id outcome ks)
unfolding apply_updates reserved_updates
applied context id outcome (k ∷ ks) e h = tt
applied context id outcome [] e h =
    extend-Unreserved context.values outcome.context_updates h
      (keep-empty outcome.context_updates (sort_by-empty _ e))

-- Where no reserved key is in the context, none is after the updates of an outcome were applied;
-- an outcome that holds one is an error.
pub apply_handler_updates-IsUnreserved :
    (context : Context) (id : Text) (outcome : Outcome)
    → IsUnreserved context
    → Ensures IsUnreserved (apply_handler_updates context id outcome)
unfolding apply_handler_updates
apply_handler_updates-IsUnreserved context id outcome h =
    applied context id outcome (reserved_updates outcome) refl h
