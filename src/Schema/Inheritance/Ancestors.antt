-- ===== src/Schema/Inheritance/Ancestors.antt =====
-- The ancestors of a name in the map from child to parent, independently of any search.
use network_digital_twin_pla.Prelude.{◌≡◌, ◌⊎◌, inl, inr, String, none, some}
use network_digital_twin_pla.Prelude.Dict.{Dict, lookup}

module _ (inheritance : Dict String) where
  -- `y` is an ancestor of `x`.
  pub data Reaches (x : String) : String → Type 0 where
    parent_of : {y : String} → lookup x inheritance ≡ some y → Reaches x y
    further : {y z : String} → Reaches x y → lookup y inheritance ≡ some z → Reaches x z

  -- The line of ancestors of `x` ends.
  pub data Grounded : String → Type 0 where
    top : {x : String} → lookup x inheritance ≡ none → Grounded x
    up : {x y : String} → lookup x inheritance ≡ some y → Grounded y → Grounded x

module _ (inheritance : Dict String) where
  Reaches-start :
      {x y : String} → Reaches inheritance x y → (p : String) × (lookup x inheritance ≡ some p)
  Reaches-start (parent_of {y = p} e) = (p, e)
  Reaches-start (further r e) = Reaches-start r

  Reaches-after :
      {x y p : String}
      → lookup x inheritance ≡ some p
      → Reaches inheritance x y
      → (p ≡ y) ⊎ Reaches inheritance p y
  Reaches-after e (parent_of f) = inl (cc)
  Reaches-after {p = p} e (further {z = z} r f) = elim (Reaches-after e r) [
    | inl same ↦ inr (parent_of (rw same f))
    | inr r' ↦ inr (further r' f)
  ]

  -- A name whose line of ancestors ends is not on a cycle.
  pub Grounded-acyclic : {x : String} → Grounded inheritance x → ¬ Reaches inheritance x x
  Grounded-acyclic (top n) r = let (p, e) = Reaches-start r in cc
  Grounded-acyclic {x} (up {y = p} e g) r = elim (Reaches-after e r) [
    | inl same ↦ let e' : lookup p inheritance ≡ some p = cc in Grounded-acyclic g (parent_of e')
    | inr r' ↦ Grounded-acyclic g (further r' e)
  ]
