-- ===== src/Compile/Capabilities.antt =====
-- The capabilities that a plan records (crates/attractor-pipeline/src/execution_plan.rs).
use pascals_discrete_attract.Base.{
  Text, Map, Bool, List, [], ◌∷◌, Option, none, some, ◌≡◌, refl, sym, subst, ap, ◌∙◌, lookup,
  lookup-insert, In, inl, inr, ◌==◌, ==_iff, ==_self, Bool-cases,
}
use pascals_discrete_attract.Plan.{ResolvedNode, handler_name}
use pascals_discrete_attract.Compile.{capabilities_of, add_capability}

module _ (catalog : Map Bool) where
  add_capability-kept :
      (name wanted : Text) (o : Option Bool) (b : Bool) (m : Map Bool)
      → lookup name catalog ≡ o
      → lookup wanted catalog ≡ some b
      → lookup wanted m ≡ some b
      → lookup wanted (add_capability name o m) ≡ some b
  unfolding add_capability
  add_capability-kept name wanted none b m known w h = h
  add_capability-kept name wanted (some c) b m known w h =
      lookup-insert name wanted c m ∙ (elim (Bool-cases (name == wanted)) [
        | inl p ↦ rw p (sym known ∙ ap (λ k. lookup k catalog) ((==_iff name wanted).0 p) ∙ w)
        | inr p ↦ rw p h
      ])

  add_capability-new :
      (name : Text) (o : Option Bool) (b : Bool) (m : Map Bool)
      → o ≡ some b
      → lookup name (add_capability name o m) ≡ some b
  unfolding add_capability
  add_capability-new name none b m e = cc
  add_capability-new name (some c) b m e = lookup-insert name name c m ∙ rw (==_self name) e

  -- The handler of a node has the capability that the catalog gives it.
  pub capabilities_of-known :
      (r : ResolvedNode) (rs : List ResolvedNode) (b : Bool)
      → In r rs
      → lookup (handler_name r.handler) catalog ≡ some b
      → lookup (handler_name r.handler) (capabilities_of catalog rs) ≡ some b
  unfolding capabilities_of
  capabilities_of-known r [] b h known = absurd h
  capabilities_of-known r (s ∷ rs) b (inl e) known =
      subst
        (λ (x : ResolvedNode).
          lookup (handler_name x.handler) catalog ≡ some b
          → lookup (handler_name x.handler) (capabilities_of catalog (s ∷ rs)) ≡ some b)
        (sym e) (λ k. add_capability-new _ _ b _ k) known
  capabilities_of-known r (s ∷ rs) b (inr h) known =
      add_capability-kept _ _ _ b _ refl known (capabilities_of-known r rs b h known)
