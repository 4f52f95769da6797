-- ===== src/Base/Sorting.antt =====
-- Stable sorts: by a comparison, and what a sort by a key keeps.
use Prim.Native.Nat.{Ordering}
use mathlib.Core.Path.{◌≡◌, refl, sym, ap, ◌∙◌, subst}
use mathlib.Core.Logic.{inl, inr}
use mathlib.Core.List.{List, [], ◌∷◌}
use pascals_discrete_attract.Base.Lists.{In}
use pascals_discrete_attract.Base.Strings.{Text, cmp}
use pascals_discrete_attract.Base.Maps.{insert_ordered, sort_by}

-- `Ordering::then`.
abbrev pub then_cmp : Ordering → Ordering → Ordering
then_cmp Ordering.eq other = other
then_cmp Ordering.lt other = Ordering.lt
then_cmp Ordering.gt other = Ordering.gt

-- `sort_by` of a slice: the stable sort by a comparison.
module _ {A : Type 0} (order : A → A → Ordering) where
  abbrev pub place : Ordering → A → A → List A → List A → List A
  place Ordering.gt a b bs rest = b ∷ rest
  place Ordering.eq a b bs rest = a ∷ b ∷ bs
  place Ordering.lt a b bs rest = a ∷ b ∷ bs

  unfoldable pub insert_with : A → List A → List A
  insert_with a [] = a ∷ []
  insert_with a (b ∷ bs) = place (order a b) a b bs (insert_with a bs)

  unfoldable pub sort_with : List A → List A
  unfolding insert_with
  sort_with [] = []
  sort_with (a ∷ rest) = insert_with a (sort_with rest)

  place-In :
      (o : Ordering) (x a b : A) (bs rest : List A)
      → (In x (a ∷ bs) → In x rest)
      → In x (a ∷ b ∷ bs)
      → In x (place o a b bs rest)
  place-In Ordering.lt x a b bs rest ih h = h
  place-In Ordering.eq x a b bs rest ih h = h
  place-In Ordering.gt x a b bs rest ih (inl e) = inr (ih (inl e))
  place-In Ordering.gt x a b bs rest ih (inr (inl e)) = inl e
  place-In Ordering.gt x a b bs rest ih (inr (inr h)) = inr (ih (inr h))

  insert_with-In : (x a : A) (bs : List A) → In x (a ∷ bs) → In x (insert_with a bs)
  unfolding insert_with
  insert_with-In x a [] h = h
  insert_with-In x a (b ∷ bs) h =
      place-In (order a b) x a b bs (insert_with a bs) (insert_with-In x a bs) h

  -- A sort keeps every element.
  pub sort_with-In : (x : A) (xs : List A) → In x xs → In x (sort_with xs)
  unfolding sort_with
  sort_with-In x [] h = h
  sort_with-In x (a ∷ rest) (inl e) = insert_with-In x a (sort_with rest) (inl e)
  sort_with-In x (a ∷ rest) (inr h) =
      insert_with-In x a (sort_with rest) (inr (sort_with-In x rest h))

  -- A sort of no element only is empty.
  pub sort_with-empty : (xs : List A) → sort_with xs ≡ [] → xs ≡ []
  sort_with-empty [] e = refl
  sort_with-empty (a ∷ rest) e = absurd (subst (In a) e (sort_with-In a (a ∷ rest) (inl refl)))

module _ {A : Type 0} (order : A → A → Ordering) where
  In-place :
      (o : Ordering) (x a b : A) (bs rest : List A)
      → (In x rest → In x (a ∷ bs))
      → In x (place order o a b bs rest)
      → In x (a ∷ b ∷ bs)
  In-place Ordering.lt x a b bs rest ih h = h
  In-place Ordering.eq x a b bs rest ih h = h
  In-place Ordering.gt x a b bs rest ih (inl e) = inr (inl e)
  In-place Ordering.gt x a b bs rest ih (inr h) = elim (ih h) [
    | inl e ↦ inl e
    | inr k ↦ inr (inr k)
  ]

  In-insert_with : (x a : A) (bs : List A) → In x (insert_with order a bs) → In x (a ∷ bs)
  unfolding insert_with
  In-insert_with x a [] h = h
  In-insert_with x a (b ∷ bs) h =
      In-place (order a b) x a b bs (insert_with order a bs) (In-insert_with x a bs) h

  -- What a sort gives is in the list.
  pub In-sort_with : (x : A) (xs : List A) → In x (sort_with order xs) → In x xs
  unfolding sort_with
  In-sort_with x [] h = h
  In-sort_with x (a ∷ rest) h = elim (In-insert_with x a (sort_with order rest) h) [
    | inl e ↦ inl e
    | inr k ↦ inr (In-sort_with x rest k)
  ]

module _ {A : Type 0} (key : A → Text) where
  abbrev by_key : A → A → Ordering
  by_key a b = cmp (key a) (key b)

  insert_ordered-with : (a : A) (bs : List A) → insert_ordered key a bs ≡ insert_with by_key a bs
  unfolding insert_ordered insert_with
  insert_ordered-with a [] = refl
  insert_ordered-with a (b ∷ bs) =
      ap (λ rest. elim (cmp (key a) (key b)) [ Ordering.gt ↦ b ∷ rest | _ ↦ a ∷ b ∷ bs ])
        (insert_ordered-with a bs)
      ∙ (elim (cmp (key a) (key b))
          as (λ o.
            (elim o [ Ordering.gt ↦ b ∷ insert_with by_key a bs | _ ↦ a ∷ b ∷ bs ])
            ≡ place by_key o a b bs (insert_with by_key a bs)) [
              | Ordering.lt ↦ refl
              | Ordering.eq ↦ refl
              | Ordering.gt ↦ refl
            ])

  sort_by-with : (xs : List A) → sort_by key xs ≡ sort_with by_key xs
  unfolding sort_by sort_with
  sort_by-with [] = refl
  sort_by-with (a ∷ rest) =
      ap (insert_ordered key a) (sort_by-with rest) ∙ insert_ordered-with a (sort_with by_key rest)

  -- A stable sort by a key permutes: it has the elements of the list.
  pub sort_by-In : (x : A) (xs : List A) → In x xs → In x (sort_by key xs)
  sort_by-In x xs h = subst (In x) (sym (sort_by-with xs)) (sort_with-In by_key x xs h)

  pub In-sort_by : (x : A) (xs : List A) → In x (sort_by key xs) → In x xs
  In-sort_by x xs h = In-sort_with by_key x xs (subst (In x) (sort_by-with xs) h)
