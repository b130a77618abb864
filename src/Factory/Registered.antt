-- ===== src/Factory/Registered.antt =====
-- What the registry holds once a configuration is loaded.
use network_digital_twin_pla.Prelude.{
  ◌≡◌, refl, ap, ◌∙◌, inl, inr, String, List, [], ◌∷◌, ◌++◌, some, Option, Result, ok, err,
  Result-cases, ◌==◌, if◌then◌else◌,
}
use network_digital_twin_pla.Prelude.Dict.{Dict, lookup, lookup-insert}
use network_digital_twin_pla.Factory.{
  ConnectorConfigEntry, FactoryError, ConnectorFactory, create_connector, create_each, register,
}

module _ {C : Type 0} (name_of : C → String) where
  -- The last connector of a name, or else what stands under it before.
  abbrev pub last_named : String → List C → Option C → Option C
  last_named x [] before = before
  last_named x (c ∷ cs) before = last_named x cs (if x == name_of c then some c else before)

module _ {E C : Type 0} (name_of : C → String) (f : ConnectorFactory E C) where
  -- The entries are created in turn.
  pub data AllCreated : List ConnectorConfigEntry → List C → Type 0 where
    no_entry : AllCreated [] []
    one_more :
        {entry : ConnectorConfigEntry} {c : C} {entries : List ConnectorConfigEntry} {cs : List C}
        → create_connector f entry ≡ ok c
        → AllCreated entries cs
        → AllCreated (entry ∷ entries) (c ∷ cs)

  abbrev pub IsRegistry : Dict C → List C → Dict C → Type 0
  IsRegistry before cs after =
      (x : String) → lookup x after ≡ last_named name_of x cs (lookup x before)

  pub data Loaded (entries : List ConnectorConfigEntry) (before : Dict C)
      : Result (FactoryError E) (Unit {0}) × Dict C → Type 0 where
    all_created :
        {after : Dict C}
        → (cs : List C) → AllCreated entries cs
        → IsRegistry before cs after
        → Loaded entries before (ok tt, after)
    stopped :
        {after : Dict C} {e : FactoryError E}
        → (done rest : List ConnectorConfigEntry) → (entry : ConnectorConfigEntry) → (cs : List C)
        → entries ≡ done ++ entry ∷ rest
        → AllCreated done cs
        → create_connector f entry ≡ err e
        → IsRegistry before cs after
        → Loaded entries before (err e, after)

  IsRegistry-register :
      (c : C) (cs : List C) (before after : Dict C)
      → IsRegistry (register name_of c before) cs after
      → IsRegistry before (c ∷ cs) after
  unfolding register
  IsRegistry-register c cs before after h x =
      h x ∙ ap (λ o. last_named name_of x cs o) (lookup-insert x (name_of c) c before)

  Loaded-cons :
      (entry : ConnectorConfigEntry) (c : C) (entries : List ConnectorConfigEntry) (before : Dict C)
      (r : Result (FactoryError E) (Unit {0}) × Dict C)
      → create_connector f entry ≡ ok c
      → Loaded entries (register name_of c before) r
      → Loaded (entry ∷ entries) before r
  Loaded-cons entry c entries before r created (all_created {after = after} cs each h) =
      all_created (c ∷ cs) (one_more created each) (IsRegistry-register c cs before after h)
  Loaded-cons entry c entries before r created
        (stopped {after = after} done rest bad cs split each fails h) =
      stopped (entry ∷ done) rest bad (c ∷ cs) (ap (λ l. entry ∷ l) split) (one_more created each)
        fails (IsRegistry-register c cs before after h)

  -- The loop of `CreateFromConfig` succeeds only if it creates a connector of each entry, and else stops at the
  -- first that fails, with its error. In both cases the registry maps a name to the last of the
  -- connectors created that has it, and any other name to what it held before.
  pub create_each-Loaded :
      (entries : List ConnectorConfigEntry) (before : Dict C)
      → Loaded entries before (create_each name_of f entries before)
  unfolding create_each
  create_each-Loaded [] before = all_created [] no_entry (λ x. refl)
  create_each-Loaded (entry ∷ entries) before = elim (Result-cases (create_connector f entry)) [
    | inl (c, created) ↦
        rw (create_each, created)
          (Loaded-cons entry c entries before
            (create_each name_of f entries (register name_of c before)) created
            (create_each-Loaded entries (register name_of c before)))
    | inr (e, fails) ↦
        rw (create_each, fails) (stopped [] entries entry [] refl no_entry fails (λ x. refl))
  ]
