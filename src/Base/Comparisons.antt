-- ===== src/Base/Comparisons.antt =====
-- Comparisons that agree with their reverse, and the order of a sorted list.
use Prim.Native.Nat.{compare, Ordering}
use mathlib.Core.Path.{◌≡◌, refl, sym, ap, ◌∙◌}
use mathlib.Core.Logic.{◌≢◌}
use mathlib.Core.List.{List, [], ◌∷◌}
use native.Mathlib.Omega.{arith}
use pascals_discrete_attract.Base.Strings.{cmp}
use pascals_discrete_attract.Base.Sorting.{then_cmp, place, insert_with, sort_with}

abbrev pub flip : Ordering → Ordering
flip Ordering.lt = Ordering.gt
flip Ordering.eq = Ordering.eq
flip Ordering.gt = Ordering.lt

-- `compare` of the reverse is the reverse.
abbrev pub Antisymmetric : {A : Type 0} → (A → A → Ordering) → Type 0
Antisymmetric {A} order = (a b : A) → order b a ≡ flip (order a b)

pub compare-Antisymmetric : Antisymmetric compare
compare-Antisymmetric a b = ground arith

pub then_cmp-flip : (o p : Ordering) → then_cmp (flip o) (flip p) ≡ flip (then_cmp o p)
then_cmp-flip Ordering.lt p = refl
then_cmp-flip Ordering.eq p = refl
then_cmp-flip Ordering.gt p = refl

pub cmp-Antisymmetric : Antisymmetric cmp
unfolding cmp
cmp-Antisymmetric [] [] = refl
cmp-Antisymmetric [] (d ∷ t) = refl
cmp-Antisymmetric (c ∷ s) [] = refl
cmp-Antisymmetric (c ∷ s) (d ∷ t) = ground (arith, cmp-Antisymmetric s t)

module _ {A : Type 0} (order : A → A → Ordering) where
  -- No element is greater than the next one.
  abbrev pub Ascending : List A → Type 0
  Ascending [] = Unit
  Ascending (a ∷ []) = Unit
  Ascending (a ∷ b ∷ rest) = (order a b ≢ Ordering.gt) × Ascending (b ∷ rest)

  AtMost : A → List A → Type 0
  AtMost a [] = Unit
  AtMost a (b ∷ bs) = order a b ≢ Ordering.gt

  Ascending-cons : (a : A) (bs : List A) → AtMost a bs → Ascending bs → Ascending (a ∷ bs)
  unfolding AtMost
  Ascending-cons a [] h k = tt
  Ascending-cons a (b ∷ bs) h k = (h, k)

  Ascending-tail : (a : A) (bs : List A) → Ascending (a ∷ bs) → AtMost a bs × Ascending bs
  unfolding AtMost
  Ascending-tail a [] h = (tt, tt)
  Ascending-tail a (b ∷ bs) h = h

  module _ (anti : Antisymmetric order) where
    place-Ascending :
        (o : Ordering) (a b : A) (bs rest : List A)
        → order a b ≡ o
        → Ascending (b ∷ bs)
        → Ascending rest
        → (o ≡ Ordering.gt → AtMost b rest)
        → Ascending (place order o a b bs rest)
    place-Ascending Ordering.lt a b bs rest e h k m = (λ g. cc, h)
    place-Ascending Ordering.eq a b bs rest e h k m = (λ g. cc, h)
    place-Ascending Ordering.gt a b bs rest e h k m = Ascending-cons b rest (m refl) k

    -- What is inserted comes after what is less.
    insert-AtMost :
        (b a : A) (bs : List A)
        → order b a ≢ Ordering.gt
        → AtMost b bs
        → AtMost b (insert_with order a bs)
    unfolding insert_with AtMost
    insert-AtMost b a [] h k = h
    insert-AtMost b a (c ∷ bs) h k = either (order a c)
      where
        either : (o : Ordering) → AtMost b (place order o a c bs (insert_with order a bs))
        either Ordering.lt = h
        either Ordering.eq = h
        either Ordering.gt = k

    insert-Ascending : (a : A) (bs : List A) → Ascending bs → Ascending (insert_with order a bs)
    unfolding insert_with
    insert-Ascending a [] h = tt
    insert-Ascending a (b ∷ bs) h =
        let (most, tail) = Ascending-tail b bs h in
        place-Ascending (order a b) a b bs (insert_with order a bs) refl h
          (insert-Ascending a bs tail) λ greater. insert-AtMost b a bs (not_greater greater) most
      where
        less_greater : Ordering.lt ≡ Ordering.gt → ⊥
        less_greater e = cc

        not_greater : order a b ≡ Ordering.gt → order b a ≢ Ordering.gt
        not_greater e g = less_greater (sym (anti a b ∙ ap flip e) ∙ g)

    -- A sort by a comparison that agrees with its reverse gives an ordered list.
    pub sort_with-Ascending : (xs : List A) → Ascending (sort_with order xs)
    unfolding sort_with
    sort_with-Ascending [] = tt
    sort_with-Ascending (a ∷ rest) =
        insert-Ascending a (sort_with order rest) (sort_with-Ascending rest)
