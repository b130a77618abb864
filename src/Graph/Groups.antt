-- ===== src/Graph/Groups.antt =====
-- The grouping loops of internal/graph/neo4j.go, and what their maps hold.
use mathlib.Core.List.{append_assoc, append-nil, perm_middle}
use mathlib.Core.List.{Perm}
use mathlib.Core.List.Perm
use mathlib.Core.Path.{subst}
use network_digital_twin_pla.Prelude.{
  ◌≡◌, ◌≢◌, inl, inr, String, List, [], ◌∷◌, ◌++◌, Option, none, some, arith, Bool-cases,
  Option-cases, ◌==◌, if◌then◌else◌, All,
}
use network_digital_twin_pla.Prelude.Dict.{Dict}

-- The order in which Go ranges over a map has each of its entries once.
abbrev pub IsOrder : ((V : Type 0) → Dict V → Dict V) → Type 1
IsOrder range = (V : Type 0) (m : Dict V) → Perm (range V m) m

module _ {B : Type 0} where
  -- `groups[k] = append(groups[k], b)`
  unfoldable pub add_to : String → B → Dict (List B) → Dict (List B)
  add_to k b [] = (k, b ∷ []) ∷ []
  add_to k b ((j, bs) ∷ groups) =
      let rest = add_to k b groups in if k == j then (j, bs ++ b ∷ []) ∷ groups else (j, bs) ∷ rest

  -- All members of all groups.
  unfoldable pub flat : Dict (List B) → List B
  flat [] = []
  flat ((_, bs) ∷ groups) = bs ++ flat groups

  module _ {A : Type 0} (key : A → Option (String × B)) where
    -- The loop over the elements, where one without a key is left out.
    unfoldable pub group_loop : Dict (List B) → List A → Dict (List B)
    group_loop groups [] = groups
    group_loop groups (a ∷ xs) = elim (key a) [
      | none ↦ group_loop groups xs
      | some (k, b) ↦ group_loop (add_to k b groups) xs
    ]

    -- What the loop puts into groups.
    unfoldable pub kept : List A → List B
    kept [] = []
    kept (a ∷ xs) = let rest = kept xs in elim (key a) [ none ↦ rest | some (k, b) ↦ b ∷ rest ]

  flat-add_to :
      (k : String) (b : B) (groups : Dict (List B))
      → Perm (flat (add_to k b groups)) (b ∷ flat groups)
  unfolding flat add_to
  flat-add_to k b [] = Perm.refl (b ∷ [])
  flat-add_to k b ((j, bs) ∷ groups) = elim (Bool-cases (k == j)) [
    | inl same ↦ rw (same, append_assoc bs (b ∷ []) (flat groups)) (perm_middle bs (flat groups))
    | inr differ ↦
        rw differ
          (Perm.trans (Perm.append_left bs (flat-add_to k b groups)) (perm_middle bs (flat groups)))
  ]

  -- No group is empty, and all members of a group satisfy `P` with its key.
  abbrev pub Grouped : (String → B → Type 0) → Dict (List B) → Type 0
  Grouped P groups = All (λ (e : String × List B). (e.1 ≢ []) × All (P e.0) e.1) groups

  module _ (P : String → B → Type 0) where
    snoc-All : (k : String) (b : B) (bs : List B) → All (P k) bs → P k b → All (P k) (bs ++ b ∷ [])
    snoc-All k b [] all p = (p, tt)
    snoc-All k b (c ∷ bs) (q, all) p = (q, snoc-All k b bs all p)

    snoc_not_nil : (bs : List B) (b : B) → bs ++ b ∷ [] ≢ []
    snoc_not_nil [] b e = cc
    snoc_not_nil (c ∷ bs) b e = cc

    add_to-Grouped :
        (k : String) (b : B) (groups : Dict (List B))
        → Grouped P groups
        → P k b
        → Grouped P (add_to k b groups)
    unfolding add_to
    add_to-Grouped k b [] all p = ((λ e. cc, (p, tt)), tt)
    add_to-Grouped k b ((j, bs) ∷ groups) ((some_, all), others) p = elim (Bool-cases (k == j)) [
      | inl same ↦
          let is : k ≡ j = ground arith in
          rw same ((snoc_not_nil bs b, snoc-All j b bs all (subst (λ x. P x b) is p)), others)
      | inr differ ↦ rw differ ((some_, all), add_to-Grouped k b groups others p)
    ]

  module _ {A : Type 0} (key : A → Option (String × B)) where
    pub flat-group_loop :
        (groups : Dict (List B)) (xs : List A)
        → Perm (flat (group_loop key groups xs)) (flat groups ++ kept key xs)
    unfolding group_loop kept
    flat-group_loop groups [] = rw (append-nil (flat groups)) (Perm.refl (flat groups))
    flat-group_loop groups (a ∷ xs) = elim (Option-cases (key a)) [
      | inl e ↦ rw (group_loop, kept, e) (flat-group_loop groups xs)
      | inr ((k, b), e) ↦
          rw (group_loop, kept, e)
            (Perm.trans (flat-group_loop (add_to k b groups) xs) (
              Perm.trans (Perm.append_right (kept key xs) (flat-add_to k b groups))
                (Perm.symm (perm_middle (flat groups) (kept key xs)))))
    ]

    pub group_loop-Grouped :
        (P : String → B → Type 0) (groups : Dict (List B)) (xs : List A)
        → All (λ (a : A). (k : String) (b : B) → key a ≡ some (k, b) → P k b) xs
        → Grouped P groups
        → Grouped P (group_loop key groups xs)
    unfolding group_loop
    group_loop-Grouped P groups [] hs all = all
    group_loop-Grouped P groups (a ∷ xs) (h, hs) all = elim (Option-cases (key a)) [
      | inl e ↦ rw (group_loop, e) (group_loop-Grouped P groups xs hs all)
      | inr ((k, b), e) ↦
          rw (group_loop, e)
            (group_loop-Grouped P (add_to k b groups) xs hs
              (add_to-Grouped P k b groups all (h k b e)))
    ]
