-- ===== src/Schema/Inheritance/Topo.antt =====
-- `topoSort` lists every name once, and each after its parent.
use network_digital_twin_pla.Prelude.{
  ℕ, ◌<◌, ◌≡◌, refl, ◌∙◌, inl, inr, String, true, List, [], ◌∷◌, some, arith, ◌==◌, ◌||◌, contains,
  length, Bool-cases,
}
use network_digital_twin_pla.Prelude.Dict.{Dict, lookup, keys}
use network_digital_twin_pla.Text.Sort.{sort, contains-sort}
use network_digital_twin_pla.Schema.Inheritance.{visit_all, enough_fuel, add, all_nodes, topo_sort}
use network_digital_twin_pla.Schema.Inheritance.Visited.{unvisited-le-length}
use network_digital_twin_pla.Schema.Inheritance.Ancestors.{Grounded}
use network_digital_twin_pla.Schema.Inheritance.Visit.{Ordered, visit-After}

contains-add : (x y : String) (xs : List String) → contains (add x xs) y ≡ (x == y || contains xs y)
contains-add x y xs = ground arith

-- Every name is among the nodes.
all_nodes_kept :
    (m : Dict String) (acc : List String) (x : String)
    → contains acc x ≡ true
    → contains (all_nodes m acc) x ≡ true
unfolding all_nodes
all_nodes_kept [] acc x h = h
all_nodes_kept ((child, parent) ∷ m) acc x h =
    all_nodes_kept m (add parent (add child acc)) x
      (ground (arith, contains-add parent x (add child acc), contains-add child x acc))

contains-all_nodes :
    (m : Dict String) (acc : List String) (x : String) {p : String}
    → lookup x m ≡ some p
    → contains (all_nodes m acc) x ≡ true
unfolding all_nodes lookup
contains-all_nodes [] acc x e = cc
contains-all_nodes ((child, parent) ∷ m) acc x {p} e = elim (Bool-cases (x == child)) [
  | inl same ↦
      all_nodes_kept m (add parent (add child acc)) x
        (ground (arith, contains-add parent x (add child acc), contains-add child x acc))
  | inr differ ↦ contains-all_nodes m (add parent (add child acc)) x {p = p} (ground arith)
]

module _ (inheritance : Dict String) (grounded : (x : String) → Grounded inheritance x) where
  record Sorted (nodes : List String) (result : List String) : Type 0 where
    listed : (x : String) → contains nodes x ≡ true → contains result x ≡ true
    ordered : Ordered inheritance [] result

  module _ (f : ℕ) (fuel : length (keys inheritance) < f) where
    visit_all-Sorted :
        (nodes visited result : List String)
        → ((x : String) → contains visited x ≡ true → contains result x ≡ true)
        → ((x : String) → contains result x ≡ true → contains visited x ≡ true)
        → Ordered inheritance [] result
        → (v r : List String) × (visit_all inheritance f nodes (visited, result) ≡ some (v, r))
          × ((x : String) → contains result x ≡ true → contains r x ≡ true)
          × Sorted nodes r
    unfolding visit_all
    visit_all-Sorted [] visited result vr rv o =
        (visited, result, refl, λ x h. h, record { listed = λ x h. cc; ordered = o })
    visit_all-Sorted (node ∷ nodes) visited result vr rv o =
        let (v, r, ended, a) =
          visit-After inheritance f node visited result
            (omega (arith, unvisited-le-length visited (keys inheritance))) (grounded node)
            (record { below = λ x h. inl (vr x h); listed_visited = rv; ordered = o }) in
        let (v', r', ended', kept, s) =
          visit_all-Sorted nodes v r
            (λ x h. elim (a.pending x h) [ inl l ↦ l | inr w ↦ absurd (cc (vr x w.0)) ])
            a.listed_visited a.ordered in
        (
          v',
          r',
          rw (ended, visit_all) ended',
          λ x h. kept x (a.kept x h),
          record {
            listed = λ x h. elim (Bool-cases (node == x)) [
              | inl same ↦ let e : node ≡ x = ground arith in kept x (rw (← e) a.listed)
              | inr differ ↦ s.listed x (ground arith)
            ];
            ordered = s.ordered;
          },
        )

  -- With no cycle `topoSort` ends. Its list has every child once, after its parent.
  pub topo_sort-Ordered :
      (order : List String) × (topo_sort inheritance ≡ some order)
      × Ordered inheritance [] order
      × ((x p : String) → lookup x inheritance ≡ some p → contains order x ≡ true)
  unfolding topo_sort
  topo_sort-Ordered =
      let (v, r, ended, kept, s) =
        visit_all-Sorted (enough_fuel inheritance) (omega arith) (sort (all_nodes inheritance []))
          [] [] (λ x h. h) (λ x h. h) tt in
      (
        r,
        rw (ended, topo_sort),
        s.ordered,
        λ x p e.
            s.listed x
              (contains-sort (all_nodes inheritance []) x ∙ contains-all_nodes inheritance [] x e),
      )
